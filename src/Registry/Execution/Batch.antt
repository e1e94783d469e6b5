-- ===== src/Registry/Execution/Batch.antt =====
-- Batches: contracts/registry/src/lib.rs, `execute` and `execute_batch`.
use sorocron.Base.{ℕ, suc, ◌≡◌, ap, inl, inr, Bool, true, List, [], ◌∷◌, arith}
use sorocron.Base.Lists.{length}
use sorocron.Registry.Types.{Address, Config}
use sorocron.Registry.Storage.{get_keeper_recent, set_keeper, set_keeper_recent}
use sorocron.Registry.Host.{Env, World, returns}
use sorocron.Registry.Host.Laws.{Outcome-cases}
use sorocron.Registry.Execution.{
  Payout, KeeperRecord, no_payout, authorize_keeper, save, settle, run_job, try_job, run_jobs,
  execute, execute_batch,
}

module _ {X : Type 0} (env : Env X) where
  run_jobs-length :
      (config : Config) (executor keeper : Address) (r : KeeperRecord) (ids : List ℕ) (p : Payout)
      (out : List Bool × KeeperRecord × Payout) (w v : World X)
      → run_jobs env config executor keeper r ids p w ≡ returns out v
      → length out.0 ≡ length ids
  unfolding run_jobs
  run_jobs-length config executor keeper r [] p out w v h = ground arith
  run_jobs-length config executor keeper r (id ∷ ids) p out w v h =
      elim (Outcome-cases (try_job env config executor keeper r id p w)) [
        | inr (inl (e, u, first)) ↦ ground arith
        | inr (inr first) ↦ ground arith
        | inl ((b, r', p'), u, first) ↦
            elim (Outcome-cases (run_jobs env config executor keeper r' ids p' u)) [
              | inr (inl (e, u', rest)) ↦ ground arith
              | inr (inr rest) ↦ ground arith
              | inl (out', u', rest) ↦
                  let same = run_jobs-length config executor keeper r' ids p' out' u u' rest in
                  let head : out.0 ≡ b ∷ out'.0 = ground arith in rw head (ap suc same)
            ]
      ]

  -- A batch that returns has one answer for each of its jobs.
  pub execute_batch-length :
      (keeper : Address) (ids : List ℕ) (ran : List Bool) (w v : World X)
      → execute_batch env keeper ids w ≡ returns ran v
      → length ran ≡ length ids
  unfolding execute_batch
  execute_batch-length keeper ids ran w v h =
      let config = w.store.config in
      elim (Outcome-cases (authorize_keeper env config keeper w)) [
        | inr (inl (e, u, ea)) ↦ ground arith
        | inr (inr ea) ↦ ground arith
        | inl ((executor, info), u, ea) ↦
            let r : KeeperRecord = record {
              info = info;
              recent = get_keeper_recent u.store keeper;
            } in
            elim (Outcome-cases (run_jobs env config executor keeper r ids no_payout u)) [
              | inr (inl (e, u', er)) ↦ ground arith
              | inr (inr er) ↦ ground arith
              | inl (out, u', er) ↦
                  let same = run_jobs-length config executor keeper r ids no_payout out u u' er in
                  let p = out.2 in
                  let w2 = record u' {
                    store =
                        set_keeper_recent keeper out.1.recent
                          (set_keeper keeper out.1.info u'.store);
                  } in
                  elim (Outcome-cases (settle env config keeper p w2)) [
                    | inr (inl (e, u2, es)) ↦ unfold save in ground arith
                    | inr (inr es) ↦ unfold save in ground arith
                    | inl (_, u2, es) ↦
                        let eq : ran ≡ out.0 = unfold save in ground arith in rw eq same
                  ]
            ]
      ]

  -- A keeper may run one job through either function: where `execute` runs it, a batch of that
  -- job alone runs it too and leaves the same world.
  pub execute-execute_batch :
      (keeper : Address) (id : ℕ) (w v : World X)
      → execute env keeper id w ≡ returns tt v
      → execute_batch env keeper (id ∷ []) w ≡ returns (true ∷ []) v
  unfolding execute execute_batch run_jobs try_job
  execute-execute_batch keeper id w v h =
      let config = w.store.config in
      elim (Outcome-cases (authorize_keeper env config keeper w)) [
        | inr (inl (e, u, ea)) ↦ ground arith
        | inr (inr ea) ↦ ground arith
        | inl ((executor, info), u, ea) ↦
            let r : KeeperRecord = record {
              info = info;
              recent = get_keeper_recent u.store keeper;
            } in
            elim (Outcome-cases (run_job env config executor keeper r id no_payout u)) [
              | inr (inl (e, u', er)) ↦ ground arith
              | inr (inr er) ↦ ground arith
              | inl ((r', p), u', er) ↦ ground arith
            ]
      ]
