-- ===== src/Registry/Upgrade/Runs.antt =====
-- A pending upgrade and its delay while jobs run: contracts/registry/src/lib.rs, `execute`
-- and `execute_batch`.
use sorocron.Base.{ℕ, ◌≡◌, ap, Bool, List, [], ◌∷◌, arith, inl, inr}
use sorocron.Registry.Types.{Address, Config}
use sorocron.Registry.Storage.{get_keeper_recent, set_keeper, set_keeper_recent}
use sorocron.Registry.Host.{Env, World, returns}
use sorocron.Registry.Host.Laws.{Outcome-cases}
use sorocron.Registry.Execution.{
  KeeperRecord, Payout, no_payout, authorize_keeper, save, settle, run_job, try_job, run_jobs,
  execute, execute_batch,
}
use sorocron.Registry.Execution.Guards.{authorize_keeper-returns}
use sorocron.Registry.Execution.Runs.{run_job-returns, run_job-fails}
use sorocron.Registry.Execution.Whole.{settle-store}
use sorocron.Registry.Upgrade.Frame.{SameTiming, SameTiming-refl, SameTiming-trans}

module _ {X : Type 0} (env : Env X) where
  run_job-SameTiming :
      (config : Config) (executor keeper : Address) (r : KeeperRecord) (id : ℕ) (p : Payout)
      (out : KeeperRecord × Payout) (w v : World X)
      → run_job env config executor keeper r id p w ≡ returns out v
      → SameTiming w.store v.store
  run_job-SameTiming config executor keeper r id p out w v h =
      let (_, _, _, _, _, _, _, _, _, _, _, effect, _) =
        run_job-returns env config executor keeper r id p w v out h in
      record {
        pending = effect.pending_kept;
        delay = effect.delay_kept;
        period = ap (λ (c : Config). c.unbonding_period) effect.config_kept;
        epoch = ap (λ (c : Config). c.unbonding_epoch) effect.config_kept;
      }

  save-SameTiming :
      (keeper : Address) (r : KeeperRecord) (w v : World X)
      → save env keeper r w ≡ returns tt v
      → SameTiming w.store v.store
  unfolding save set_keeper set_keeper_recent
  save-SameTiming keeper r w v h = ground arith

  try_job-SameTiming :
      (config : Config) (executor keeper : Address) (r : KeeperRecord) (id : ℕ) (p : Payout)
      (out : Bool × KeeperRecord × Payout) (w v : World X)
      → try_job env config executor keeper r id p w ≡ returns out v
      → SameTiming w.store v.store
  unfolding try_job
  try_job-SameTiming config executor keeper r id p out w v h =
      elim (Outcome-cases (run_job env config executor keeper r id p w)) [
        | inr (inr e) ↦ ground arith
        | inl (o, u, e) ↦
            let same : v ≡ u = ground arith in
            rw same (run_job-SameTiming config executor keeper r id p o w u e)
        | inr (inl (f, u, e)) ↦
            let same : v ≡ u = ground arith in
            rw (same, (run_job-fails env config executor keeper r id p w u f e).0)
              (SameTiming-refl w.store)
      ]

  run_jobs-SameTiming :
      (config : Config) (executor keeper : Address) (r : KeeperRecord) (ids : List ℕ) (p : Payout)
      (out : List Bool × KeeperRecord × Payout) (w v : World X)
      → run_jobs env config executor keeper r ids p w ≡ returns out v
      → SameTiming w.store v.store
  unfolding run_jobs
  run_jobs-SameTiming config executor keeper r [] p out w v h =
      let same : v ≡ w = ground arith in rw same (SameTiming-refl w.store)
  run_jobs-SameTiming config executor keeper r (id ∷ ids) p out w v h =
      elim (Outcome-cases (try_job env config executor keeper r id p w)) [
        | inr (inl (e, u, first)) ↦ ground arith
        | inr (inr first) ↦ ground arith
        | inl ((b, r', p'), u, first) ↦
            elim (Outcome-cases (run_jobs env config executor keeper r' ids p' u)) [
              | inr (inl (e, u', rest)) ↦ ground arith
              | inr (inr rest) ↦ ground arith
              | inl (out', u', rest) ↦
                  let same : v ≡ u' = ground arith in
                  rw same (
                    SameTiming-trans w.store u.store u'.store
                      (try_job-SameTiming config executor keeper r id p (b, r', p') w u first)
                      (run_jobs-SameTiming config executor keeper r' ids p' out' u u' rest))
            ]
      ]

  -- Writing the keeper's record and paying, after the jobs.
  finish-SameTiming :
      (config : Config) (keeper : Address) (r : KeeperRecord) (p : Payout) (w w1 w2 v : World X)
      → SameTiming w.store w1.store
      → save env keeper r w1 ≡ returns tt w2
      → settle env config keeper p w2 ≡ returns tt v
      → SameTiming w.store v.store
  finish-SameTiming config keeper r p w w1 w2 v same saved settled =
      rw (settle-store env config keeper p w2 v settled)
        (SameTiming-trans w.store w1.store w2.store same (save-SameTiming keeper r w1 w2 saved))

  pub execute-SameTiming :
      (keeper : Address) (id : ℕ) (w v : World X)
      → execute env keeper id w ≡ returns tt v
      → SameTiming w.store v.store
  unfolding execute
  execute-SameTiming keeper id w v h =
      let config = w.store.config in
      elim (Outcome-cases (authorize_keeper env config keeper w)) [
        | inr (inl (e, w1, ea)) ↦ ground arith
        | inr (inr ea) ↦ ground arith
        | inl ((executor, info), w1, ea) ↦
            let same = (authorize_keeper-returns env config keeper executor info w w1 ea).0 in
            let r : KeeperRecord = record {
              info = info;
              recent = get_keeper_recent w.store keeper;
            } in
            elim (Outcome-cases (run_job env config executor keeper r id no_payout w)) [
              | inr (inl (e, w2, er)) ↦ ground arith
              | inr (inr er) ↦ ground arith
              | inl ((r', p), w2, er) ↦ elim (Outcome-cases (save env keeper r' w2)) [
                | inr (inl (e, w3, es)) ↦ ground arith
                | inr (inr es) ↦ ground arith
                | inl (_, w3, es) ↦
                    finish-SameTiming config keeper r' p w w2 w3 v
                      (run_job-SameTiming config executor keeper r id no_payout (r', p) w w2 er) es
                      (ground arith)
              ]
            ]
      ]

  pub execute_batch-SameTiming :
      (keeper : Address) (ids : List ℕ) (ran : List Bool) (w v : World X)
      → execute_batch env keeper ids w ≡ returns ran v
      → SameTiming w.store v.store
  unfolding execute_batch
  execute_batch-SameTiming keeper ids ran w v h =
      let config = w.store.config in
      elim (Outcome-cases (authorize_keeper env config keeper w)) [
        | inr (inl (e, w1, ea)) ↦ ground arith
        | inr (inr ea) ↦ ground arith
        | inl ((executor, info), w1, ea) ↦
            let same = (authorize_keeper-returns env config keeper executor info w w1 ea).0 in
            let r : KeeperRecord = record {
              info = info;
              recent = get_keeper_recent w.store keeper;
            } in
            elim (Outcome-cases (run_jobs env config executor keeper r ids no_payout w)) [
              | inr (inl (e, w2, er)) ↦ ground arith
              | inr (inr er) ↦ ground arith
              | inl ((bs, r', p), w2, er) ↦ elim (Outcome-cases (save env keeper r' w2)) [
                | inr (inl (e, w3, es)) ↦ ground arith
                | inr (inr es) ↦ ground arith
                | inl (_, w3, es) ↦ elim (Outcome-cases (settle env config keeper p w3)) [
                  | inr (inl (e, w4, el)) ↦ ground arith
                  | inr (inr el) ↦ ground arith
                  | inl (_, w4, el) ↦
                      let last : v ≡ w4 = ground arith in
                      rw last (
                        finish-SameTiming config keeper r' p w w2 w3 w4
                          (run_jobs-SameTiming config executor keeper r ids no_payout (bs, r', p) w
                            w2 er)
                          es el)
                ]
              ]
            ]
      ]
