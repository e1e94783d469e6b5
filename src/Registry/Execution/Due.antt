-- ===== src/Registry/Execution/Due.antt =====
-- `is_due` against `run_job`: contracts/registry/src/lib.rs, "Views" and "Execution".
use sorocron.Base.{
  ℕ, ◌≡◌, ap, ◌∙◌, ◌⊎◌, inl, inr, Bool, true, false, Option, some, arith, Option-cases, Bool-cases,
}
use sorocron.Registry.Types.{Address, JobSpec, JobState}
use sorocron.Registry.Storage.{get_job_parts}
use sorocron.Registry.Host.{Env, World, returns}
use sorocron.Registry.Host.Laws.{Outcome-cases}
use sorocron.Registry.Assignment.{assigned_keeper_for}
use sorocron.Registry.Views.{may_run, is_due}
use sorocron.Registry.Execution.{
  Payout, KeeperRecord, unless_caller, resolver_allows, run_guards, run_job,
}
use sorocron.Registry.Execution.Guards.{run_guards-returns}
use sorocron.Registry.Execution.Runs.{resolver_allows_lem}

module _ {X : Type 0} (env : Env X) (w : World X) (job_id : ℕ) where
  due_lem :
      (spec : JobSpec) (state : JobState)
      → w.store.config.paused ≡ false
      → (executor : Address) → w.store.config.executor ≡ some executor
      → get_job_parts w.store job_id ≡ some (spec, state)
      → (is_due env job_id w ≡ resolver_allows env job_id spec w)
        ⊎ ((may_run env w.store spec state ≡ false) × (is_due env job_id w ≡ returns false w))
  unfolding is_due
  due_lem spec state running executor set e = elim (Bool-cases (may_run env w.store spec state)) [
    | inl may ↦ inl (ground arith)
    | inr refused ↦ inr (refused, ground arith)
  ]

  guards_pass :
      (spec : JobSpec) (state : JobState) (keeper : Address) (assigned : Option Address) (seen : ℕ)
      (v : World X)
      → run_guards env w.store.config keeper job_id spec state assigned w ≡ returns seen v
      → may_run env w.store spec state ≡ true
  unfolding may_run
  guards_pass spec state keeper assigned seen v h =
      let (_, due, _, halt, _, _, leader) =
        run_guards-returns env w.store.config keeper job_id spec state assigned seen w v h in
      ground arith

  -- Where the registry is not paused and has an executor, a job that `run_job` runs is one that
  -- `is_due` calls due in the same state, whichever keeper calls: `is_due` never hides a job that
  -- can run.
  pub run_job-is_due :
      (executor keeper : Address) (r : KeeperRecord) (p : Payout) (out : KeeperRecord × Payout)
      (v : World X)
      → w.store.config.paused ≡ false
      → w.store.config.executor ≡ some executor
      → run_job env w.store.config executor keeper r job_id p w ≡ returns out v
      → (u : World X) × (is_due env job_id w ≡ returns true u)
  run_job-is_due executor keeper r p out v running set h =
      elim (Option-cases (get_job_parts w.store job_id)) [
        | inl missing ↦ unfold run_job in ground arith
        | inr ((spec, state), e) ↦
            let assigned =
              unless_caller (assigned_keeper_for env w.store job_id spec state) keeper in
            let (b, x, er, asked, _) = resolver_allows_lem env job_id spec w in
            elim (Outcome-cases
              (run_guards env w.store.config keeper job_id spec state assigned w)) [
                | inr (inl (f, w1, eg)) ↦ unfold run_job in ground arith
                | inr (inr eg) ↦ unfold run_job in ground arith
                | inl (seen, w1, eg) ↦
                    let may = guards_pass spec state keeper assigned seen w1 eg in
                    let same =
                      (run_guards-returns env w.store.config keeper job_id spec state assigned seen
                        w w1 eg).0 in
                    elim (Bool-cases b) [
                      | inr rejected ↦ unfold run_job in ground arith
                      | inl agreed ↦ (
                        _,
                        elim (due_lem spec state running executor set e) [
                          | inl asks ↦
                              asks
                              ∙ er
                              ∙ ap (λ (t : Bool). returns t (record w { outside = x })) agreed
                          | inr (refused, _) ↦ cc
                        ],
                      )
                    ]
              ]
      ]
