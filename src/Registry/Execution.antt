-- ===== src/Registry/Execution.antt =====
-- Running jobs: contracts/registry/src/lib.rs, `execute`, `execute_batch` and "Execution". A mutable
-- argument of the source is passed in and returned.
pub mod Guards
pub mod Misses
pub mod Effects
pub mod Runs
pub mod Payments
pub mod Due
pub mod After
pub mod Whole
pub mod Batch
use sorocron.Base.{
  ℕ, ◌+◌, ◌-◌, Bool, true, false, not, ◌&&◌, ◌||◌, Option, none, some, List, [], ◌∷◌, ltb, leb,
  ◌==◌, if◌then◌else◌, is_some,
}
use sorocron.Base.Int.{ℤ, pos, ◌+ℤ◌, ◌-ℤ◌, ltb_ℤ}
use sorocron.Base.Word.{sat_add, sat_suc, checked_i128}
use sorocron.Base.Lists.{length, is_empty, contains}
use sorocron.Base.Dict.{find}
use sorocron.Registry.Types.{Address, Hash, Config, JobSpec, JobState, Keeper, KeeperRecent, Error}
use sorocron.Registry.Event.{Event}
use sorocron.Registry.Schedule.{next_run_after, ramped_fee, split_fee, smooth}
use sorocron.Registry.Storage.{
  Storage, get_job_parts, set_state, set_keeper, get_keeper_recent, set_keeper_recent,
  is_target_halted,
}
use sorocron.Registry.Result.{Result, ok_or}
use sorocron.Registry.Host.{
  Env, World, CallResult, value, unconverted, contract_error, invoke_error, M, Outcome, returns,
  fails, traps, ◌>>=◌, ◌>>◌, pure, attempt, gets, or_trap, fail_if, modify, publish, require_auth,
  transfer, when,
}
use sorocron.Registry.Checks.{
  ensure_not_paused, ensure_active_keeper, ensure_due, is_forbidden_target, dependency_met,
}
use sorocron.Registry.Assignment.{assigned_keeper_for, had_whole_window, record_miss}
use sorocron.Registry.Jobs.{max_batch}

pub record Payout : Type 0 where
  pub keeper_fees : ℤ
  pub protocol_fees : ℤ

pub record KeeperRecord : Type 0 where
  pub info : Keeper
  pub recent : KeeperRecent

abbrev pub no_payout : Payout
no_payout = record { keeper_fees = pos 0; protocol_fees = pos 0 }

abbrev pub not_allowed : Option (List Address) → Address → Bool
not_allowed none keeper = false
not_allowed (some allowed) keeper = not (contains allowed keeper)

-- The assigned keeper, if it is another than the caller.
abbrev pub unless_caller : Option Address → Address → Option Address
unless_caller none keeper = none
unless_caller (some a) keeper = if a == keeper then none else some a

abbrev pub succeeded : CallResult → Bool
succeeded (value v) = true
succeeded unconverted = true
succeeded (contract_error e) = false
succeeded invoke_error = false

-- The state of a job after a run that was charged `fee`, without its balance.
unfoldable pub failures_after : Bool → JobState → ℕ
failures_after success state = if success then 0 else sat_suc state.failures

unfoldable pub gives_up : Config → Bool → JobState → Bool
unfolding failures_after
gives_up config success state =
    not success
    && (not (config.max_failures == 0) && leb config.max_failures (failures_after success state))

unfoldable pub state_after : Config → JobState → Bool → ℕ → ℕ → ℤ → JobState
unfolding failures_after gives_up
state_after config state success leader_runs next_run balance = record {
  next_run = next_run;
  balance = balance;
  runs = sat_suc state.runs;
  failures = failures_after success state;
  active = if gives_up config success state then false else state.active;
  leader_runs = leader_runs;
}

-- The executing keeper's record after a run.
unfoldable pub record_after : KeeperRecord → ℕ → KeeperRecord
record_after r lateness = record {
  info = record r.info {
    executions = sat_suc r.info.executions;
    total_lateness = sat_add r.info.total_lateness lateness;
  };
  recent = record {
    lateness = smooth r.recent.lateness lateness;
    misses = smooth r.recent.misses 0;
  };
}

-- The money and time of one run. `none` is an overflow panic.
pub record Charge : Type 0 where
  pub fee : ℤ
  pub keeper_fee : ℤ
  pub protocol_fee : ℤ
  pub balance : ℤ
  pub next_run : ℕ

abbrev split_balance : ℕ → JobSpec → JobState → ℤ → Option (ℤ × ℤ) → Option Charge
split_balance now spec state fee none = none
split_balance now spec state fee (some (keeper_fee, protocol_fee)) =
    elim (checked_i128 (state.balance -ℤ fee)) [
      | none ↦ none
      | some balance ↦ elim (next_run_after state.next_run spec.interval now) [
        | none ↦ none
        | some next_run ↦ some (record {
          fee = fee;
          keeper_fee = keeper_fee;
          protocol_fee = protocol_fee;
          balance = balance;
          next_run = next_run;
        })
      ]
    ]

unfoldable pub charge_run : Config → ℕ → JobSpec → JobState → Option Charge
charge_run config now spec state = elim (ramped_fee spec state now) [
  | none ↦ none
  | some fee ↦ split_balance now spec state fee (split_fee fee config.protocol_fee_bps)
]

-- `payout.keeper_fees += …` and `payout.protocol_fees += …`.
unfoldable pub add_payout : Payout → Charge → Option Payout
add_payout payout c = elim (checked_i128 (payout.keeper_fees +ℤ c.keeper_fee)) [
  | none ↦ none
  | some keeper_fees ↦ elim (checked_i128 (payout.protocol_fees +ℤ c.protocol_fee)) [
    | none ↦ none
    | some protocol_fees ↦
        some (record { keeper_fees = keeper_fees; protocol_fees = protocol_fees })
  ]
]

-- The job's new state, with the events of a job that paused itself or ran out of funds.
unfoldable pub write_state : {X : Type 0} → ℕ → JobSpec → Bool → JobState → M X (Unit {0})
write_state job_id spec paused after = do
  when paused (publish (Event.job_deactivated job_id after.failures))
  modify (set_state job_id after)
  when (ltb_ℤ after.balance spec.fee_per_run) (publish (Event.job_exhausted job_id after.balance))

module _ {X : Type 0} (env : Env X) where
  unfoldable pub authorize_keeper : Config → Address → M X (Address × Keeper)
  authorize_keeper config keeper = do
    attempt (λ s. ensure_not_paused config)
    executor ← attempt (λ s. ok_or config.executor Error.executor_not_set)
    require_auth env keeper
    info ← attempt (λ s. ok_or (find keeper s.keepers) Error.keeper_not_found)
    attempt (λ s. ensure_active_keeper config info)
    pure (executor, info)

  unfoldable pub resolver_allows : ℕ → JobSpec → M X Bool
  resolver_allows job_id spec w = elim spec.resolver [
    | none ↦ returns true w
    | some resolver ↦
        let (answer, x) = env.try_should_run resolver job_id w.outside in
        returns (elim answer [ some b ↦ b | none ↦ false ]) (record w { outside = x })
  ]

  unfoldable pub call_target : Address → JobSpec → M X CallResult
  call_target executor spec w =
      let (result, x) = env.try_execute executor spec.target spec.function spec.args w.outside in
      returns result (record w { outside = x })

  unfoldable pub result_hash : CallResult → Hash
  result_hash (value v) = env.sha256 (env.value_to_xdr v)
  result_hash unconverted = env.sha256 []
  result_hash (contract_error e) = env.sha256 (env.error_to_xdr e)
  result_hash invoke_error = env.sha256 []

  -- The guards of `run_job` that read only the storage: what a run needs besides the resolver.
  unfoldable pub run_guards : Config → Address → ℕ → JobSpec → JobState → Option Address → M X ℕ
  run_guards config keeper job_id spec state assigned = do
    attempt (λ s. ensure_due spec state env.timestamp)
    fail_if (is_forbidden_target env.current_contract_address config spec.target)
        Error.forbidden_target
    s ← gets (λ s. s)
    fail_if (is_target_halted s spec.target) Error.target_halted
    fail_if (not_allowed spec.keepers keeper) Error.keeper_not_allowed
    fail_if (is_some assigned && ltb env.timestamp (sat_add state.next_run config.grace_period))
        Error.not_assigned_keeper
    attempt (λ s. dependency_met s spec state)

  -- The assigned keeper's miss, if another ran the job after its whole window.
  unfoldable pub note_miss : Address → ℕ → JobSpec → ℕ → Option Address → M X (Unit {0})
  note_miss keeper job_id spec due_at none w = pure tt w
  note_miss keeper job_id spec due_at (some missed) w =
      when (had_whole_window env w.store job_id spec due_at) (record_miss missed keeper job_id) w

  -- What a run writes once the target has been called.
  unfoldable pub settle_run :
      Config
      → Address
      → KeeperRecord
      → ℕ
      → Payout
      → JobSpec
      → JobState
      → Option Address
      → ℕ
      → CallResult
      → M X (KeeperRecord × Payout)
  settle_run config keeper r job_id payout spec state assigned seen result = do
    let now = env.timestamp
    let success = succeeded result
    c ← or_trap (charge_run config now spec state)
    let after = state_after config state success seen c.next_run c.balance
    let lateness = now - state.next_run
    write_state job_id spec (gives_up config success state) after
    note_miss keeper job_id spec state.next_run assigned
    payout' ← or_trap (add_payout payout c)
    publish (
        Event.job_executed job_id keeper success c.fee c.protocol_fee after.runs c.next_run lateness
          after.failures (result_hash result))
    pure (record_after r lateness, payout')

  unfoldable pub run_job :
      Config → Address → Address → KeeperRecord → ℕ → Payout → M X (KeeperRecord × Payout)
  run_job config executor keeper r job_id payout = do
    s ← gets (λ s. s)
    (spec, state) ← attempt (λ s. ok_or (get_job_parts s job_id) Error.job_not_found)
    let assigned = unless_caller (assigned_keeper_for env s job_id spec state) keeper
    seen ← run_guards config keeper job_id spec state assigned
    allowed ← resolver_allows job_id spec
    fail_if (not allowed) Error.resolver_rejected
    result ← call_target executor spec
    settle_run config keeper r job_id payout spec state assigned seen result

  -- The treasury's share, if there is a treasury.
  unfoldable pub pay_treasury : Config → Option Address → ℤ → M X (Unit {0})
  pay_treasury config none amount = pure tt
  pay_treasury config (some treasury) amount =
      when (ltb_ℤ (pos 0) amount)
        (transfer env config.fee_token env.current_contract_address treasury amount)

  -- The two transfers at the end of a call.
  unfoldable pub settle : Config → Address → Payout → M X (Unit {0})
  settle config keeper payout = do
    when (ltb_ℤ (pos 0) payout.keeper_fees)
        (transfer env config.fee_token env.current_contract_address keeper payout.keeper_fees)
    pay_treasury config config.treasury payout.protocol_fees

  unfoldable pub save : Address → KeeperRecord → M X (Unit {0})
  save keeper r = do modify (set_keeper keeper r.info); modify (set_keeper_recent keeper r.recent)

  unfoldable pub execute : Address → ℕ → M X (Unit {0})
  execute keeper job_id = do
    config ← gets (λ s. s.config)
    (executor, info) ← authorize_keeper config keeper
    recent ← gets (λ s. get_keeper_recent s keeper)
    (r, payout) ←
        run_job config executor keeper (record { info = info; recent = recent }) job_id no_payout
    save keeper r
    settle config keeper payout

  -- One job of a batch: an error is caught, and leaves record and payout as they were.
  unfoldable pub try_job :
      Config → Address → Address → KeeperRecord → ℕ → Payout → M X (Bool × KeeperRecord × Payout)
  try_job config executor keeper r job_id payout w =
      elim (run_job config executor keeper r job_id payout w) [
        | returns (r', payout') w' ↦ returns (true, r', payout') w'
        | fails e w' ↦ returns (false, r, payout) w'
        | traps ↦ traps
      ]

  unfoldable pub run_jobs :
      Config
      → Address
      → Address
      → KeeperRecord
      → List ℕ
      → Payout
      → M X (List Bool × KeeperRecord × Payout)
  run_jobs config executor keeper r [] payout = pure ([], r, payout)
  run_jobs config executor keeper r (id ∷ ids) payout = do
    (ran, r', payout') ← try_job config executor keeper r id payout
    (rest, r'', payout'') ← run_jobs config executor keeper r' ids payout'
    pure (ran ∷ rest, r'', payout'')

  unfoldable pub execute_batch : Address → List ℕ → M X (List Bool)
  execute_batch keeper job_ids = do
    fail_if (is_empty job_ids || ltb max_batch (length job_ids)) Error.invalid_batch_size
    config ← gets (λ s. s.config)
    (executor, info) ← authorize_keeper config keeper
    recent ← gets (λ s. get_keeper_recent s keeper)
    (ran, r, payout) ←
        run_jobs config executor keeper (record { info = info; recent = recent }) job_ids no_payout
    save keeper r
    settle config keeper payout
    pure ran
