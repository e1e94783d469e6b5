-- ===== src/Registry/Solvency/Calls.antt =====
-- Solvency at `execute` and `execute_batch`: contracts/registry/src/lib.rs.
use mathlib.Core.Path.{subst}
use sorocron.Base.{ℕ, ◌≡◌, refl, ap, sym, ◌∙◌, inl, inr, Bool, some, List, [], ◌∷◌, arith}
use sorocron.Base.Int.{ℤ, pos, ◌+ℤ◌, int_laws}
use sorocron.Registry.Types.{Address, Config}
use sorocron.Registry.Storage.{get_keeper_recent}
use sorocron.Registry.Host.{Outcome, Env, World, returns}
use sorocron.Registry.Host.Laws.{Outcome-cases}
use sorocron.Registry.Execution.{
  Payout, KeeperRecord, no_payout, record_after, authorize_keeper, run_job, settle, save, try_job,
  run_jobs, execute, execute_batch,
}
use sorocron.Registry.Execution.Guards.{authorize_keeper-returns}
use sorocron.Registry.Execution.Misses.{stake_at}
use sorocron.Registry.Execution.Runs.{run_job-returns, run_job-fails}
use sorocron.Registry.Solvency.{Custody, IsSolvent, jobs_total}
use sorocron.Registry.Solvency.Runs.{IsRunning, run_job-IsRunning, run_job-IsRunning_fails}
use sorocron.Registry.Solvency.Payouts.{settle-IsSolvent, save-IsRunning}

plus_none : (jobs : ℤ) → jobs +ℤ (pos 0 +ℤ pos 0) ≡ jobs
plus_none jobs = omega int_laws

module _ {X : Type 0} {registry : Address} {balance_of : Address → Address → X → ℤ} {env : Env X}
    (c : Custody registry balance_of env) where
  finish :
      (config : Config) (keeper : Address) (r : KeeperRecord) (p : Payout) (w w1 v : World X)
      → w.store.config ≡ config
      → IsRunning registry balance_of w p
      → stake_at w.store keeper ≡ some r.info.stake
      → save env keeper r w ≡ returns tt w1
      → settle env config keeper p w1 ≡ returns tt v
      → IsSolvent registry balance_of v
  finish config keeper r p w w1 v same s e saved settled =
      let (running, kept) = save-IsRunning c keeper r p w w1 s e saved in
      settle-IsSolvent c keeper p w1 v running (
        subst (λ (k : Config). settle env k keeper p w1 ≡ returns tt v) (sym (kept ∙ same)) settled)

  IsRunning-start :
      (w : World X) → IsSolvent registry balance_of w → IsRunning registry balance_of w no_payout
  IsRunning-start w s = record {
    backed = λ t. rw (plus_none (jobs_total w.store)) (s.backed t);
    keeper_part = omega arith;
    protocol_part = omega arith;
    balances = s.balances;
    fees = s.fees;
    stakes = s.stakes;
    share = s.share;
  }

  -- The stake that the record carries is the keeper's, before and after a run.
  run_job-stake :
      (executor keeper : Address) (r : KeeperRecord) (job_id : ℕ) (p : Payout) (w v : World X)
      (out : KeeperRecord × Payout)
      → stake_at w.store keeper ≡ some r.info.stake
      → run_job env w.store.config executor keeper r job_id p w ≡ returns out v
      → (stake_at v.store keeper ≡ some out.0.info.stake) × (v.store.config ≡ w.store.config)
  unfolding record_after
  run_job-stake executor keeper r job_id p w v out e h =
      let (_, state, _, _, _, _, _, _, _, _, _, effect, _) =
        run_job-returns env w.store.config executor keeper r job_id p w v out h in
      (
        effect.stakes_kept keeper
            ∙ e
            ∙ sym (ap (λ (k : KeeperRecord). some k.info.stake) effect.counted),
        effect.config_kept,
      )

  pub execute-IsSolvent :
      (keeper : Address) (job_id : ℕ) (w v : World X)
      → IsSolvent registry balance_of w
      → execute env keeper job_id w ≡ returns tt v
      → IsSolvent registry balance_of v
  unfolding execute
  execute-IsSolvent keeper job_id w v s h =
      elim (Outcome-cases (authorize_keeper env w.store.config keeper w)) [
        | inr (inl (e, w1, ea)) ↦ ground arith
        | inr (inr ea) ↦ ground arith
        | inl ((executor, info), w1, ea) ↦
            let (same, _, _, _, found, _) =
              authorize_keeper-returns env w.store.config keeper executor info w w1 ea in
            let r : KeeperRecord = record {
              info = info;
              recent = get_keeper_recent w.store keeper;
            } in
            elim (Outcome-cases (run_job env w.store.config executor keeper r job_id no_payout w)) [
              | inr (inl (e, w2, er)) ↦ ground arith
              | inr (inr er) ↦ ground arith
              | inl (out, w2, er) ↦
                  let running =
                    run_job-IsRunning c executor keeper r job_id no_payout w w2 out
                      (IsRunning-start w s) er in
                  let (stake, config) =
                    run_job-stake executor keeper r job_id no_payout w w2 out (ground arith) er in
                  elim (Outcome-cases (save env keeper out.0 w2)) [
                    | inr (inl (e, w3, es)) ↦ ground arith
                    | inr (inr es) ↦ ground arith
                    | inl (u, w3, es) ↦
                        finish w.store.config keeper out.0 out.1 w2 w3 v config running stake es
                          (ground arith)
                  ]
            ]
      ]

  -- What holds between the jobs of a batch.
  abbrev BatchState : Config → Address → KeeperRecord → Payout → World X → Type 0
  BatchState config keeper r p w =
      IsRunning registry balance_of w p
      × (stake_at w.store keeper ≡ some r.info.stake)
      × (w.store.config ≡ config)

  at_config :
      (config : Config) (executor keeper : Address) (r : KeeperRecord) (job_id : ℕ) (p : Payout)
      (w : World X) (o : Outcome X (KeeperRecord × Payout))
      → w.store.config ≡ config
      → run_job env config executor keeper r job_id p w ≡ o
      → run_job env w.store.config executor keeper r job_id p w ≡ o
  at_config config executor keeper r job_id p w o e h =
      subst (λ (k : Config). run_job env k executor keeper r job_id p w ≡ o) (sym e) h

  try_job-BatchState :
      (config : Config) (executor keeper : Address) (r : KeeperRecord) (job_id : ℕ) (p : Payout)
      (w v : World X) (ran : Bool) (r' : KeeperRecord) (p' : Payout)
      → BatchState config keeper r p w
      → try_job env config executor keeper r job_id p w ≡ returns (ran, r', p') v
      → BatchState config keeper r' p' v
  unfolding try_job
  try_job-BatchState config executor keeper r job_id p w v ran r' p' (s, stake, same) h =
      elim (Outcome-cases (run_job env config executor keeper r job_id p w)) [
        | inr (inr er) ↦ ground arith
        | inr (inl (e, w1, er)) ↦
            let er' = at_config config executor keeper r job_id p w _ same er in
            let (store, _, _, _) =
              run_job-fails env w.store.config executor keeper r job_id p w w1 e er' in
            let running = run_job-IsRunning_fails c executor keeper r job_id p w w1 e s er' in
            let here : v ≡ w1 = ground arith in
            let record_same : r' ≡ r = ground arith in
            let payout_same : p' ≡ p = ground arith in
            rw (here, record_same, payout_same) (running, rw store stake, rw store same)
        | inl (out, w1, er) ↦
            let er' = at_config config executor keeper r job_id p w _ same er in
            let running = run_job-IsRunning c executor keeper r job_id p w w1 out s er' in
            let (stake', config') = run_job-stake executor keeper r job_id p w w1 out stake er' in
            let here : v ≡ w1 = ground arith in
            let record_same : r' ≡ out.0 = ground arith in
            let payout_same : p' ≡ out.1 = ground arith in
            rw (here, record_same, payout_same) (running, stake', config' ∙ same)
      ]

  run_jobs-BatchState :
      (ids : List ℕ) (config : Config) (executor keeper : Address) (r : KeeperRecord) (p : Payout)
      (w v : World X) (ran : List Bool) (r' : KeeperRecord) (p' : Payout)
      → BatchState config keeper r p w
      → run_jobs env config executor keeper r ids p w ≡ returns (ran, r', p') v
      → BatchState config keeper r' p' v
  unfolding run_jobs
  run_jobs-BatchState [] config executor keeper r p w v ran r' p' s h =
      let here : v ≡ w = ground arith in
      let record_same : r' ≡ r = ground arith in
      let payout_same : p' ≡ p = ground arith in rw (here, record_same, payout_same) s
  run_jobs-BatchState (id ∷ ids) config executor keeper r p w v ran r' p' s h =
      elim (Outcome-cases (try_job env config executor keeper r id p w)) [
        | inr (inr e1) ↦ ground arith
        | inr (inl (e, w1, e1)) ↦ ground arith
        | inl ((ran1, r1, p1), w1, e1) ↦
            let mid = try_job-BatchState config executor keeper r id p w w1 ran1 r1 p1 s e1 in
            elim (Outcome-cases (run_jobs env config executor keeper r1 ids p1 w1)) [
              | inr (inr e2) ↦ ground arith
              | inr (inl (e, w2, e2)) ↦ ground arith
              | inl ((ran2, r2, p2), w2, e2) ↦
                  let last =
                    run_jobs-BatchState ids config executor keeper r1 p1 w1 w2 ran2 r2 p2 mid e2 in
                  let here : v ≡ w2 = ground arith in
                  let record_same : r' ≡ r2 = ground arith in
                  let payout_same : p' ≡ p2 = ground arith in
                  rw (here, record_same, payout_same) last
            ]
      ]

  pub execute_batch-IsSolvent :
      (keeper : Address) (job_ids : List ℕ) (ran : List Bool) (w v : World X)
      → IsSolvent registry balance_of w
      → execute_batch env keeper job_ids w ≡ returns ran v
      → IsSolvent registry balance_of v
  unfolding execute_batch
  execute_batch-IsSolvent keeper job_ids ran w v s h =
      elim (Outcome-cases (authorize_keeper env w.store.config keeper w)) [
        | inr (inl (e, w1, ea)) ↦ ground arith
        | inr (inr ea) ↦ ground arith
        | inl ((executor, info), w1, ea) ↦
            let (same, _, _, _, found, _) =
              authorize_keeper-returns env w.store.config keeper executor info w w1 ea in
            let r : KeeperRecord = record {
              info = info;
              recent = get_keeper_recent w.store keeper;
            } in
            elim (Outcome-cases
              (run_jobs env w.store.config executor keeper r job_ids no_payout w)) [
                | inr (inl (e, w2, er)) ↦ ground arith
                | inr (inr er) ↦ ground arith
                | inl ((ran', r', p'), w2, er) ↦
                    let (running, stake, config) =
                      run_jobs-BatchState job_ids w.store.config executor keeper r no_payout w w2
                        ran' r' p' (IsRunning-start w s, ground arith, refl) er in
                    elim (Outcome-cases (save env keeper r' w2)) [
                      | inr (inl (e, w3, es)) ↦ ground arith
                      | inr (inr es) ↦ ground arith
                      | inl (u, w3, es) ↦
                          elim (Outcome-cases (settle env w.store.config keeper p' w3)) [
                            | inr (inl (e, w4, et)) ↦ ground arith
                            | inr (inr et) ↦ ground arith
                            | inl (u', w4, et) ↦
                                let here : v ≡ w4 = ground arith in
                                rw here (
                                  finish w.store.config keeper r' p' w2 w3 w4 config running stake
                                    es et)
                          ]
                    ]
              ]
      ]
