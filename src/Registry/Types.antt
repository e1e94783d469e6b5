-- ===== src/Registry/Types.antt =====
-- The data of the registry: contracts/registry/src/types.rs and errors.rs. Addresses, symbols, hashes
-- and argument values are only compared or passed on, so they are numbers; u32 and u64 fields are
-- native numbers and i128 fields integers.
use sorocron.Base.{ℕ, Bool, Option, List}
use sorocron.Base.Int.{ℤ}

abbrev pub Address : Type 0
Address = ℕ

abbrev pub Symbol : Type 0
Symbol = ℕ

abbrev pub Val : Type 0
Val = ℕ

abbrev pub Hash : Type 0
Hash = List ℕ

pub data Error : Type 0 where
  paused job_not_found invalid_interval invalid_fee invalid_amount forbidden_target : Error
  job_not_due insufficient_job_balance max_runs_reached resolver_rejected keeper_not_found : Error
  insufficient_stake keeper_unbonding unbonding_not_started unbonding_not_finished : Error
  executor_not_set executor_already_set no_pending_admin job_paused job_expired : Error
  interval_too_short too_many_args target_failed invalid_batch_size length_mismatch : Error
  keeper_not_allowed not_assigned_keeper target_halted invalid_calendar invalid_setting : Error
  too_many_keepers awaiting_dependency no_pending_upgrade upgrade_not_ready : Error
  no_pending_owner : Error

pub record Config : Type 0 where
  pub admin : Address
  pub fee_token : Address
  pub stake_token : Address
  pub min_stake : ℤ
  pub unbonding_period : ℕ
  pub paused : Bool
  pub executor : Option Address
  pub min_interval : ℕ
  pub max_args : ℕ
  pub protocol_fee_bps : ℕ
  pub treasury : Option Address
  pub max_failures : ℕ
  pub grace_period : ℕ
  pub slash_bps : ℕ
  pub unbonding_epoch : ℕ

-- `daily hour minute` and `weekly weekday hour minute`, in UTC, with Monday as weekday 0.
pub data Schedule : Type 0 where
  interval : Schedule
  daily : ℕ → ℕ → Schedule
  weekly : ℕ → ℕ → ℕ → Schedule

pub record JobParams : Type 0 where
  pub target : Address
  pub function : Symbol
  pub args : List Val
  pub interval : ℕ
  pub schedule : Schedule
  pub start_at : ℕ
  pub fee_per_run : ℤ
  pub max_fee_per_run : ℤ
  pub max_runs : ℕ
  pub end_at : ℕ
  pub resolver : Option Address
  pub keepers : Option (List Address)
  pub after : Option ℕ

pub record JobUpdate : Type 0 where
  pub function : Symbol
  pub args : List Val
  pub interval : ℕ
  pub schedule : Schedule
  pub fee_per_run : ℤ
  pub max_fee_per_run : ℤ
  pub max_runs : ℕ
  pub end_at : ℕ
  pub resolver : Option Address
  pub keepers : Option (List Address)
  pub after : Option ℕ

pub record Job : Type 0 where
  pub id : ℕ
  pub owner : Address
  pub target : Address
  pub function : Symbol
  pub args : List Val
  pub interval : ℕ
  pub schedule : Schedule
  pub next_run : ℕ
  pub fee_per_run : ℤ
  pub max_fee_per_run : ℤ
  pub balance : ℤ
  pub max_runs : ℕ
  pub runs : ℕ
  pub end_at : ℕ
  pub resolver : Option Address
  pub keepers : Option (List Address)
  pub after : Option ℕ
  pub active : Bool
  pub failures : ℕ

pub record JobSpec : Type 0 where
  pub owner : Address
  pub target : Address
  pub function : Symbol
  pub args : List Val
  pub interval : ℕ
  pub schedule : Schedule
  pub fee_per_run : ℤ
  pub max_fee_per_run : ℤ
  pub max_runs : ℕ
  pub end_at : ℕ
  pub resolver : Option Address
  pub keepers : Option (List Address)
  pub after : Option ℕ

pub record JobState : Type 0 where
  pub next_run : ℕ
  pub balance : ℤ
  pub runs : ℕ
  pub failures : ℕ
  pub active : Bool
  pub leader_runs : ℕ

pub record Keeper : Type 0 where
  pub stake : ℤ
  pub unbonding_at : Option ℕ
  pub executions : ℕ
  pub total_lateness : ℕ
  pub missed : ℕ
  pub slashed : ℤ

pub record KeeperStats : Type 0 where
  pub stake : ℤ
  pub executions : ℕ
  pub average_lateness : ℕ
  pub missed : ℕ
  pub slashed : ℤ
  pub eligible : Bool
  pub recent_lateness : ℕ
  pub recent_miss_bps : ℕ

pub record KeeperRecent : Type 0 where
  pub lateness : ℕ
  pub misses : ℕ

pub record PendingUpgrade : Type 0 where
  pub wasm_hash : Hash
  pub proposed_at : ℕ
  pub available_at : ℕ
