-- ===== src/Registry/Event.antt =====
-- The events of the registry: contracts/registry/src/events.rs, with their fields in order.
use sorocron.Base.{ℕ, Bool, Option}
use sorocron.Base.Int.{ℤ}
use sorocron.Registry.Types.{Address, Hash}

-- `job_executed job_id keeper success fee protocol_fee run next_run lateness failures result_hash`.
pub data Event : Type 0 where
  job_created : ℕ → Address → Address → ℕ → ℤ → ℤ → Event
  job_funded : ℕ → Address → ℤ → ℤ → Event
  job_executed : ℕ → Address → Bool → ℤ → ℤ → ℕ → ℕ → ℕ → ℕ → Hash → Event
  job_deactivated : ℕ → ℕ → Event
  keeper_missed_window : Address → ℕ → Address → Event
  job_exhausted : ℕ → ℤ → Event
  job_cancelled : ℕ → ℤ → Event
  job_withdrawn : ℕ → ℤ → ℤ → Event
  job_active_set : ℕ → Bool → Event
  keeper_staked : Address → ℤ → ℤ → Event
  keeper_unbonding : Address → ℕ → Event
  keeper_withdrawn : Address → ℤ → Event
  admin_proposed : Address → Address → Event
  admin_proposal_cancelled : Address → Address → Event
  admin_changed : Address → Address → Event
  executor_set : Address → Event
  paused_set : Bool → Event
  min_stake_set : ℤ → Event
  min_interval_set : ℕ → Event
  max_args_set : ℕ → Event
  job_updated : ℕ → ℕ → ℤ → ℕ → ℕ → Event
  upgraded : Hash → ℕ → Event
  upgrade_proposed : Hash → ℕ → Event
  upgrade_cancelled : Hash → Event
  upgrade_delay_set : ℕ → Event
  job_owner_proposed : ℕ → Address → Address → Event
  job_owner_changed : ℕ → Address → Address → Event
  target_halt_set : Address → Bool → Event
  protocol_fee_set : ℕ → Option Address → Event
  max_failures_set : ℕ → Event
  keeper_windows_set : ℕ → Event
  unbonding_epoch_set : ℕ → Event
