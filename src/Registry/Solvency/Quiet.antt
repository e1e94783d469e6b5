-- ===== src/Registry/Solvency/Quiet.antt =====
-- The operations that move no tokens: handing jobs over, administration and upgrades.
use sorocron.Base.{ℕ, ◌≤◌, ◌≡◌, Bool, Option, some, arith, Option-cases, inl, inr}
use sorocron.Base.Int.{ℤ, pos, ◌<ℤ◌}
use sorocron.Base.Dict.{find, put, Each-find, Each-put}
use sorocron.Registry.Types.{Address, Hash, JobSpec}
use sorocron.Registry.Storage.{
  set_config, set_spec, set_pending_owner, remove_pending_owner, add_owner_job, remove_owner_job,
  set_target_halted, set_target_resumed,
}
use sorocron.Registry.Host.{Env, World, returns}
use sorocron.Registry.Jobs.{propose_job_owner, accept_job_owner}
use sorocron.Registry.Admin.{
  set_executor, propose_admin, accept_admin, cancel_admin_proposal, set_paused, halt_target,
  set_min_stake, set_min_interval, set_max_args, set_protocol_fee, set_max_failures,
  set_keeper_windows,
}
use sorocron.Registry.Upgrade.{
  push_back_pending_upgrade, set_unbonding_epoch, propose_upgrade, apply_upgrade, cancel_upgrade,
  set_upgrade_delay,
}
use sorocron.Registry.Solvency.{IsSolvent}

-- Neither tokens nor debts have changed, and the protocol's share is at most a tenth if it was.
pub record IsQuiet {X : Type 0} (w v : World X) : Type 0 where
  pub fee_token : v.store.config.fee_token ≡ w.store.config.fee_token
  pub stake_token : v.store.config.stake_token ≡ w.store.config.stake_token
  pub share : w.store.config.protocol_fee_bps ≤ 1000 → v.store.config.protocol_fee_bps ≤ 1000
  pub specs : v.store.specs ≡ w.store.specs
  pub states : v.store.states ≡ w.store.states
  pub keepers : v.store.keepers ≡ w.store.keepers
  pub outside : v.outside ≡ w.outside

pub IsQuiet-IsSolvent :
    {X : Type 0} (registry : Address) (balance_of : Address → Address → X → ℤ) (w v : World X)
    → IsSolvent registry balance_of w
    → IsQuiet w v
    → IsSolvent registry balance_of v
IsQuiet-IsSolvent registry balance_of w v s q = record {
  backed = rw (q.fee_token, q.stake_token, q.states, q.keepers, q.outside) s.backed;
  balances = rw q.states s.balances;
  fees = rw q.specs s.fees;
  stakes = rw q.keepers s.stakes;
  share = q.share s.share;
}

module _ {X : Type 0} (env : Env X) (w v : World X) where
  pub propose_job_owner-IsQuiet :
      (id : ℕ) (a : Address) → propose_job_owner env id a w ≡ returns tt v → IsQuiet w v
  unfolding propose_job_owner set_pending_owner remove_pending_owner
  propose_job_owner-IsQuiet id a h = ground arith

  pub set_executor-IsQuiet : (a : Address) → set_executor env a w ≡ returns tt v → IsQuiet w v
  unfolding set_executor set_config
  set_executor-IsQuiet a h = ground arith

  pub propose_admin-IsQuiet : (a : Address) → propose_admin env a w ≡ returns tt v → IsQuiet w v
  unfolding propose_admin
  propose_admin-IsQuiet a h = ground arith

  pub accept_admin-IsQuiet : accept_admin env w ≡ returns tt v → IsQuiet w v
  unfolding accept_admin set_config
  accept_admin-IsQuiet h = ground arith

  pub cancel_admin_proposal-IsQuiet : cancel_admin_proposal env w ≡ returns tt v → IsQuiet w v
  unfolding cancel_admin_proposal
  cancel_admin_proposal-IsQuiet h = ground arith

  pub set_paused-IsQuiet : (b : Bool) → set_paused env b w ≡ returns tt v → IsQuiet w v
  unfolding set_paused set_config
  set_paused-IsQuiet b h = ground arith

  pub halt_target-IsQuiet :
      (a : Address) (b : Bool) → halt_target env a b w ≡ returns tt v → IsQuiet w v
  unfolding halt_target set_target_halted set_target_resumed
  halt_target-IsQuiet a b h = ground arith

  pub set_min_stake-IsQuiet : (n : ℤ) → set_min_stake env n w ≡ returns tt v → IsQuiet w v
  unfolding set_min_stake set_config
  set_min_stake-IsQuiet n h = ground arith

  pub set_min_interval-IsQuiet : (n : ℕ) → set_min_interval env n w ≡ returns tt v → IsQuiet w v
  unfolding set_min_interval set_config
  set_min_interval-IsQuiet n h = ground arith

  pub set_max_args-IsQuiet : (n : ℕ) → set_max_args env n w ≡ returns tt v → IsQuiet w v
  unfolding set_max_args set_config
  set_max_args-IsQuiet n h = ground arith

  pub set_protocol_fee-IsQuiet :
      (n : ℕ) (t : Option Address) → set_protocol_fee env n t w ≡ returns tt v → IsQuiet w v
  unfolding set_protocol_fee set_config
  set_protocol_fee-IsQuiet n t h = ground arith

  pub set_max_failures-IsQuiet : (n : ℕ) → set_max_failures env n w ≡ returns tt v → IsQuiet w v
  unfolding set_max_failures set_config
  set_max_failures-IsQuiet n h = ground arith

  pub set_keeper_windows-IsQuiet : (n : ℕ) → set_keeper_windows env n w ≡ returns tt v → IsQuiet w v
  unfolding set_keeper_windows set_config
  set_keeper_windows-IsQuiet n h = ground arith

  pub set_unbonding_epoch-IsQuiet :
      (n : ℕ) → set_unbonding_epoch env n w ≡ returns tt v → IsQuiet w v
  unfolding set_unbonding_epoch set_config push_back_pending_upgrade
  set_unbonding_epoch-IsQuiet n h = ground arith

  pub propose_upgrade-IsQuiet :
      (hash : Hash) (at : ℕ) → propose_upgrade env hash w ≡ returns at v → IsQuiet w v
  unfolding propose_upgrade
  propose_upgrade-IsQuiet hash at h = ground arith

  pub apply_upgrade-IsQuiet : apply_upgrade env w ≡ returns tt v → IsQuiet w v
  unfolding apply_upgrade
  apply_upgrade-IsQuiet h = ground arith

  pub cancel_upgrade-IsQuiet : cancel_upgrade env w ≡ returns tt v → IsQuiet w v
  unfolding cancel_upgrade
  cancel_upgrade-IsQuiet h = ground arith

  pub set_upgrade_delay-IsQuiet : (n : ℕ) → set_upgrade_delay env n w ≡ returns tt v → IsQuiet w v
  unfolding set_upgrade_delay push_back_pending_upgrade
  set_upgrade_delay-IsQuiet n h = ground arith

  -- A handover keeps the job's fee.
  accept-facts :
      (id : ℕ) (spec : JobSpec) (owner : Address)
      → accept_job_owner env id w ≡ returns tt v
      → find id w.store.specs ≡ some spec
      → find id w.store.pending_owners ≡ some owner
      → (v.store.config ≡ w.store.config)
        × (v.store.specs ≡ put id (record spec { owner = owner }) w.store.specs)
        × (v.store.states ≡ w.store.states)
        × (v.store.keepers ≡ w.store.keepers)
        × (v.outside ≡ w.outside)
  unfolding accept_job_owner remove_pending_owner remove_owner_job add_owner_job set_spec
  accept-facts id spec owner h e f = ground arith

pub accept_job_owner-IsSolvent :
    {X : Type 0} (registry : Address) (balance_of : Address → Address → X → ℤ) (env : Env X)
    (id : ℕ) (w v : World X)
    → IsSolvent registry balance_of w
    → accept_job_owner env id w ≡ returns tt v
    → IsSolvent registry balance_of v
accept_job_owner-IsSolvent registry balance_of env id w v s h =
    elim (Option-cases (find id w.store.specs)) [
      | inl missing ↦ unfold accept_job_owner in ground arith
      | inr (spec, e) ↦ elim (Option-cases (find id w.store.pending_owners)) [
        | inl none_pending ↦ unfold accept_job_owner in ground arith
        | inr (owner, f) ↦
            let (config, specs, states, keepers, outside) =
              accept-facts env w v id spec owner h e f in
            record {
              backed = rw (config, states, keepers, outside) s.backed;
              balances = rw states s.balances;
              fees = rw specs (
                  Each-put (λ (spec : JobSpec). pos 0 <ℤ spec.fee_per_run) id _ w.store.specs s.fees
                    (Each-find _ id spec _ s.fees e));
              stakes = rw keepers s.stakes;
              share = rw config s.share;
            }
      ]
    ]
