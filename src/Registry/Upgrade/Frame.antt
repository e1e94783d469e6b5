-- ===== src/Registry/Upgrade/Frame.antt =====
-- A pending upgrade and its delay at the calls that are about other things: contracts/registry/src/lib.rs.
use sorocron.Base.{ℕ, ◌≡◌, refl, ◌∙◌, Bool, Option, List, [], ◌∷◌, arith, inl, inr, Option-cases}
use sorocron.Base.Int.{ℤ, pos}
use sorocron.Registry.Result.{Result-cases}
use sorocron.Registry.Solvency.Validation.{create_jobs-steps}
use sorocron.Registry.Types.{Address, Config, JobParams, JobUpdate}
use sorocron.Registry.Storage.{
  Storage, set_config, set_spec, set_state, set_pending_owner, remove_pending_owner, add_owner_job,
  remove_owner_job, remove_job, touch_job, set_target_halted, set_target_resumed, set_keeper,
  remove_keeper, add_active_keeper, remove_active_keeper,
}
use sorocron.Registry.Host.{Env, World, returns}
use sorocron.Registry.Host.Laws.{Outcome-cases}
use sorocron.Registry.Jobs.{
  touch, insert_job, insert_jobs, create_job, create_jobs, validate_jobs, update_job, fund_job,
  cancel_job, withdraw_job_balance, set_job_active, propose_job_owner, accept_job_owner,
}
use sorocron.Registry.Keepers.{
  reset_windows, stake, begin_unbonding, release_stake, release_or_zero, release_each,
  withdraw_stake, withdraw_stakes,
}
use sorocron.Registry.Admin.{
  set_executor, propose_admin, accept_admin, cancel_admin_proposal, set_paused, halt_target,
  set_min_stake, set_min_interval, set_max_args, set_protocol_fee, set_max_failures,
  set_keeper_windows,
}

-- A pending upgrade and everything that its delay depends on.
pub record SameTiming (s t : Storage) : Type 0 where
  pub pending : t.pending_upgrade ≡ s.pending_upgrade
  pub delay : t.upgrade_delay ≡ s.upgrade_delay
  pub period : t.config.unbonding_period ≡ s.config.unbonding_period
  pub epoch : t.config.unbonding_epoch ≡ s.config.unbonding_epoch

pub SameTiming-refl : (s : Storage) → SameTiming s s
SameTiming-refl s = record { pending = refl; delay = refl; period = refl; epoch = refl }

pub SameTiming-trans : (s t u : Storage) → SameTiming s t → SameTiming t u → SameTiming s u
SameTiming-trans s t u a b = record {
  pending = b.pending ∙ a.pending;
  delay = b.delay ∙ a.delay;
  period = b.period ∙ a.period;
  epoch = b.epoch ∙ a.epoch;
}

module _ {X : Type 0} (env : Env X) (w v : World X) where
  pub insert_job-SameTiming :
      (o : Address) (p : JobParams) (d : ℤ) (r : ℕ)
      → insert_job env o p d w ≡ returns r v
      → SameTiming w.store v.store
  unfolding insert_job set_spec set_state add_owner_job
  insert_job-SameTiming o p d r h = ground arith

  pub create_job-SameTiming :
      (o : Address) (p : JobParams) (d : ℤ) (r : ℕ)
      → create_job env o p d w ≡ returns r v
      → SameTiming w.store v.store
  unfolding create_job insert_job set_spec set_state add_owner_job
  create_job-SameTiming o p d r h = ground arith

  pub update_job-SameTiming :
      (id : ℕ) (u : JobUpdate) → update_job env id u w ≡ returns tt v → SameTiming w.store v.store
  unfolding update_job touch set_spec set_state touch_job
  update_job-SameTiming id u h = ground arith

  pub fund_job-SameTiming :
      (a : Address) (id : ℕ) (n : ℤ) (r : ℤ)
      → fund_job env a id n w ≡ returns r v
      → SameTiming w.store v.store
  unfolding fund_job touch set_state touch_job
  fund_job-SameTiming a id n r h = ground arith

  pub cancel_job-SameTiming :
      (id : ℕ) (r : ℤ) → cancel_job env id w ≡ returns r v → SameTiming w.store v.store
  unfolding cancel_job remove_job remove_pending_owner remove_owner_job
  cancel_job-SameTiming id r h = ground arith

  pub withdraw_job_balance-SameTiming :
      (id : ℕ) (n : ℤ) (r : ℤ)
      → withdraw_job_balance env id n w ≡ returns r v
      → SameTiming w.store v.store
  unfolding withdraw_job_balance touch set_state touch_job
  withdraw_job_balance-SameTiming id n r h = ground arith

  pub set_job_active-SameTiming :
      (id : ℕ) (b : Bool) → set_job_active env id b w ≡ returns tt v → SameTiming w.store v.store
  unfolding set_job_active touch set_state touch_job
  set_job_active-SameTiming id b h = ground arith

  pub propose_job_owner-SameTiming :
      (id : ℕ) (a : Address)
      → propose_job_owner env id a w ≡ returns tt v
      → SameTiming w.store v.store
  unfolding propose_job_owner set_pending_owner remove_pending_owner
  propose_job_owner-SameTiming id a h = ground arith

  pub accept_job_owner-SameTiming :
      (id : ℕ) → accept_job_owner env id w ≡ returns tt v → SameTiming w.store v.store
  unfolding accept_job_owner remove_pending_owner remove_owner_job add_owner_job set_spec
  accept_job_owner-SameTiming id h = ground arith

  pub stake-SameTiming :
      (k : Address) (n : ℤ) (r : ℤ) → stake env k n w ≡ returns r v → SameTiming w.store v.store
  unfolding stake reset_windows set_keeper add_active_keeper
  stake-SameTiming k n r h = ground arith

  pub begin_unbonding-SameTiming :
      (k : Address) (r : ℕ) → begin_unbonding env k w ≡ returns r v → SameTiming w.store v.store
  unfolding begin_unbonding reset_windows set_keeper remove_active_keeper
  begin_unbonding-SameTiming k r h = ground arith

  pub release_stake-SameTiming :
      (c : Config) (k : Address) (r : ℤ)
      → release_stake env c k w ≡ returns r v
      → SameTiming w.store v.store
  unfolding release_stake remove_keeper
  release_stake-SameTiming c k r h = ground arith

  pub withdraw_stake-SameTiming :
      (k : Address) (r : ℤ) → withdraw_stake env k w ≡ returns r v → SameTiming w.store v.store
  unfolding withdraw_stake release_stake remove_keeper
  withdraw_stake-SameTiming k r h = ground arith

  pub set_executor-SameTiming :
      (a : Address) → set_executor env a w ≡ returns tt v → SameTiming w.store v.store
  unfolding set_executor set_config
  set_executor-SameTiming a h = ground arith

  pub propose_admin-SameTiming :
      (a : Address) → propose_admin env a w ≡ returns tt v → SameTiming w.store v.store
  unfolding propose_admin
  propose_admin-SameTiming a h = ground arith

  pub accept_admin-SameTiming : accept_admin env w ≡ returns tt v → SameTiming w.store v.store
  unfolding accept_admin set_config
  accept_admin-SameTiming h = ground arith

  pub cancel_admin_proposal-SameTiming :
      cancel_admin_proposal env w ≡ returns tt v → SameTiming w.store v.store
  unfolding cancel_admin_proposal
  cancel_admin_proposal-SameTiming h = ground arith

  pub set_paused-SameTiming :
      (b : Bool) → set_paused env b w ≡ returns tt v → SameTiming w.store v.store
  unfolding set_paused set_config reset_windows
  set_paused-SameTiming b h = ground arith

  pub halt_target-SameTiming :
      (a : Address) (b : Bool) → halt_target env a b w ≡ returns tt v → SameTiming w.store v.store
  unfolding halt_target set_target_halted set_target_resumed
  halt_target-SameTiming a b h = ground arith

  pub set_min_stake-SameTiming :
      (n : ℤ) → set_min_stake env n w ≡ returns tt v → SameTiming w.store v.store
  unfolding set_min_stake set_config reset_windows
  set_min_stake-SameTiming n h = ground arith

  pub set_min_interval-SameTiming :
      (n : ℕ) → set_min_interval env n w ≡ returns tt v → SameTiming w.store v.store
  unfolding set_min_interval set_config
  set_min_interval-SameTiming n h = ground arith

  pub set_max_args-SameTiming :
      (n : ℕ) → set_max_args env n w ≡ returns tt v → SameTiming w.store v.store
  unfolding set_max_args set_config
  set_max_args-SameTiming n h = ground arith

  pub set_protocol_fee-SameTiming :
      (n : ℕ) (t : Option Address)
      → set_protocol_fee env n t w ≡ returns tt v
      → SameTiming w.store v.store
  unfolding set_protocol_fee set_config
  set_protocol_fee-SameTiming n t h = ground arith

  pub set_max_failures-SameTiming :
      (n : ℕ) → set_max_failures env n w ≡ returns tt v → SameTiming w.store v.store
  unfolding set_max_failures set_config
  set_max_failures-SameTiming n h = ground arith

  pub set_keeper_windows-SameTiming :
      (n : ℕ) → set_keeper_windows env n w ≡ returns tt v → SameTiming w.store v.store
  unfolding set_keeper_windows set_config reset_windows
  set_keeper_windows-SameTiming n h = ground arith

module _ {X : Type 0} (env : Env X) where
  insert_jobs-SameTiming :
      (o : Address) (ps : List JobParams) (ds : List ℤ) (ids : List ℕ) (w v : World X)
      → insert_jobs env o ps ds w ≡ returns ids v
      → SameTiming w.store v.store
  unfolding insert_jobs
  insert_jobs-SameTiming o [] ds ids w v h = ground arith
  insert_jobs-SameTiming o (p ∷ ps) [] ids w v h = ground arith
  insert_jobs-SameTiming o (p ∷ ps) (d ∷ ds) ids w v h =
      elim (Outcome-cases (insert_job env o p d w)) [
        | inr (inl (f, u, first)) ↦ ground arith
        | inr (inr first) ↦ ground arith
        | inl (id, u, first) ↦ elim (Outcome-cases (insert_jobs env o ps ds u)) [
          | inr (inl (f, u', rest)) ↦ ground arith
          | inr (inr rest) ↦ ground arith
          | inl (ids', u', rest) ↦
              let same : v ≡ u' = ground arith in
              rw same (
                SameTiming-trans w.store u.store u'.store
                  (insert_job-SameTiming env w u o p d id first)
                  (insert_jobs-SameTiming o ps ds ids' u u' rest))
        ]
      ]

  pub create_jobs-SameTiming :
      (o : Address) (ps : List JobParams) (ds : List ℤ) (ids : List ℕ) (w v : World X)
      → create_jobs env o ps ds w ≡ returns ids v
      → SameTiming w.store v.store
  create_jobs-SameTiming o ps ds ids w v h =
      elim (Result-cases (validate_jobs env.current_contract_address w.store ps ds (pos 0))) [
        | inr (f, e) ↦ unfold create_jobs in ground arith
        | inl (total, e) ↦
            elim (Option-cases (
              env.transfer w.store.config.fee_token o env.current_contract_address total
                w.outside)) [
                  | inl refused ↦ unfold create_jobs in ground arith
                  | inr (y, f) ↦
                      insert_jobs-SameTiming o ps ds ids (record w { outside = y }) v
                        (create_jobs-steps env o ps ds ids total w v y h e f).1
                ]
      ]

  release_or_zero-SameTiming :
      (c : Config) (k : Address) (n : ℤ) (w v : World X)
      → release_or_zero env c k w ≡ returns n v
      → SameTiming w.store v.store
  unfolding release_or_zero release_stake remove_keeper
  release_or_zero-SameTiming c k n w v h = ground arith

  release_each-SameTiming :
      (c : Config) (ks : List Address) (ns : List ℤ) (w v : World X)
      → release_each env c ks w ≡ returns ns v
      → SameTiming w.store v.store
  unfolding release_each
  release_each-SameTiming c [] ns w v h = ground arith
  release_each-SameTiming c (k ∷ ks) ns w v h = elim (Outcome-cases (release_or_zero env c k w)) [
    | inr (inl (f, u, first)) ↦ ground arith
    | inr (inr first) ↦ ground arith
    | inl (n, u, first) ↦ elim (Outcome-cases (release_each env c ks u)) [
      | inr (inl (f, u', rest)) ↦ ground arith
      | inr (inr rest) ↦ ground arith
      | inl (ns', u', rest) ↦
          let same : v ≡ u' = ground arith in
          rw same (
            SameTiming-trans w.store u.store u'.store (release_or_zero-SameTiming c k n w u first)
              (release_each-SameTiming c ks ns' u u' rest))
    ]
  ]

  pub withdraw_stakes-SameTiming :
      (ks : List Address) (ns : List ℤ) (w v : World X)
      → withdraw_stakes env ks w ≡ returns ns v
      → SameTiming w.store v.store
  withdraw_stakes-SameTiming ks ns w v h =
      release_each-SameTiming w.store.config ks ns w v (unfold withdraw_stakes in ground arith)
