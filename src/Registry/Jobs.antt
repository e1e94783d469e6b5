-- ===== src/Registry/Jobs.antt =====
-- The operations on jobs that their owners call: contracts/registry/src/lib.rs, "Jobs" up to
-- `accept_job_owner`, with `insert_job` and `touch`. The first argument stands for `env`.
pub mod Ids
use sorocron.Base.{
  ℕ, ◌+◌, max, Bool, true, false, not, ◌&&◌, ◌||◌, Option, none, some, List, [], ◌∷◌, ltb, ◌==◌,
  if◌then◌else◌, unwrap_or, same_option,
}
use sorocron.Base.Int.{ℤ, pos, ◌+ℤ◌, ◌-ℤ◌, ltb_ℤ, leb_ℤ}
use sorocron.Base.Word.{checked_u64, checked_i128}
use sorocron.Base.Lists.{length, is_empty}
use sorocron.Base.Dict.{find}
use sorocron.Registry.Types.{
  Address, Config, Schedule, JobParams, JobUpdate, JobSpec, JobState, Error,
}
use sorocron.Registry.Event.{Event}
use sorocron.Registry.Schedule.{calendar_period, first_calendar_run}
use sorocron.Registry.Storage.{
  Storage, get_job_parts, set_spec, set_state, set_pending_owner, remove_pending_owner, remove_job,
  add_owner_job, remove_owner_job, touch_job,
}
use sorocron.Registry.Result.{Result, ok, err, ok_or}
use sorocron.Registry.Host.{
  Env, M, ◌>>=◌, ◌>>◌, pure, attempt, gets, or_trap, fail_if, modify, publish, require_auth,
  transfer, when,
}
use sorocron.Registry.Checks.{ensure_not_paused, validate_schedule, validate_job, leader_runs}

abbrev pub max_batch : ℕ
max_batch = 20

-- `==` on schedules.
unfoldable pub same_schedule : Schedule → Schedule → Bool
same_schedule Schedule.interval Schedule.interval = true
same_schedule (Schedule.daily h m) (Schedule.daily h' m') = h == h' && m == m'
same_schedule (Schedule.weekly d h m) (Schedule.weekly d' h' m') = d == d' && (h == h' && m == m')
same_schedule _ _ = false

abbrev pub is_interval : Schedule → Bool
is_interval Schedule.interval = true
is_interval (Schedule.daily h m) = false
is_interval (Schedule.weekly d h m) = false

-- The runs so far of the job that a new job follows.
abbrev pub runs_of_leader : Storage → Option ℕ → ℕ
runs_of_leader s none = 0
runs_of_leader s (some leader) = elim (find leader s.states) [ none ↦ 0 | some l ↦ l.runs ]

unfoldable pub new_spec : Address → JobParams → JobSpec
new_spec owner params = record {
  owner = owner;
  target = params.target;
  function = params.function;
  args = params.args;
  interval = unwrap_or (calendar_period params.schedule) params.interval;
  schedule = params.schedule;
  fee_per_run = params.fee_per_run;
  max_fee_per_run = params.max_fee_per_run;
  max_runs = params.max_runs;
  end_at = params.end_at;
  resolver = params.resolver;
  keepers = params.keepers;
  after = params.after;
}

unfoldable pub new_state : ℕ → Storage → JobParams → ℤ → JobState
new_state now s params deposit = record {
  next_run = first_calendar_run params.schedule (max params.start_at now);
  balance = deposit;
  runs = 0;
  failures = 0;
  active = true;
  leader_runs = runs_of_leader s params.after;
}

-- What `update_job` makes of the specification.
unfoldable pub updated_spec : JobSpec → JobUpdate → ℕ → JobSpec
updated_spec spec update interval = record spec {
  function = update.function;
  args = update.args;
  interval = interval;
  schedule = update.schedule;
  fee_per_run = update.fee_per_run;
  max_fee_per_run = update.max_fee_per_run;
  max_runs = update.max_runs;
  end_at = update.end_at;
  resolver = update.resolver;
  keepers = update.keepers;
  after = update.after;
}

-- A changed calendar moves the next run.
unfoldable pub rescheduled : ℕ → JobSpec → JobState → JobUpdate → ℕ
rescheduled now spec state update =
    if not (is_interval update.schedule) && not (same_schedule update.schedule spec.schedule)
    then first_calendar_run update.schedule now
    else state.next_run

-- A changed leader is read anew.
unfoldable pub updated_leader_runs : Storage → ℕ → JobSpec → JobState → Option ℕ → Result ℕ
updated_leader_runs s job_id spec state after =
    if same_option after spec.after then ok state.leader_runs else leader_runs s job_id after

-- The checks of a batch, job by job, and the sum of the deposits.
unfoldable pub validate_jobs : Address → Storage → List JobParams → List ℤ → ℤ → Result ℤ
validate_jobs registry s [] deposits total = ok total
validate_jobs registry s (p ∷ ps) [] total = ok total
validate_jobs registry s (p ∷ ps) (d ∷ ds) total = elim (validate_job registry s p d) [
  | err e ↦ err e
  | ok _ ↦ elim (checked_i128 (total +ℤ d)) [
    | none ↦ err Error.invalid_amount
    | some total' ↦ validate_jobs registry s ps ds total'
  ]
]

module _ {X : Type 0} (env : Env X) where
  unfoldable pub touch : Config → ℕ → M X (Unit {0})
  touch config job_id = when (ltb 0 config.grace_period) (modify (touch_job job_id env.timestamp))

  unfoldable pub insert_job : Address → JobParams → ℤ → M X ℕ
  insert_job owner params deposit = do
    s ← gets (λ s. s)
    next ← or_trap (checked_u64 (s.next_job_id + 1))
    let id = s.next_job_id
    let spec = new_spec owner params
    modify (λ s. record s { next_job_id = next })
    modify (set_spec id spec)
    modify (set_state id (new_state env.timestamp s params deposit))
    modify (add_owner_job owner id)
    publish (Event.job_created id owner spec.target spec.interval spec.fee_per_run deposit)
    pure id

  unfoldable pub insert_jobs : Address → List JobParams → List ℤ → M X (List ℕ)
  insert_jobs owner [] deposits = pure []
  insert_jobs owner (p ∷ ps) [] = pure []
  insert_jobs owner (p ∷ ps) (d ∷ ds) = do
    id ← insert_job owner p d
    ids ← insert_jobs owner ps ds
    pure (id ∷ ids)

  unfoldable pub create_job : Address → JobParams → ℤ → M X ℕ
  create_job owner params deposit = do
    config ← gets (λ s. s.config)
    attempt (λ s. ensure_not_paused config)
    require_auth env owner
    attempt (λ s. validate_job env.current_contract_address s params deposit)
    transfer env config.fee_token owner env.current_contract_address deposit
    insert_job owner params deposit

  unfoldable pub create_jobs : Address → List JobParams → List ℤ → M X (List ℕ)
  create_jobs owner jobs deposits = do
    config ← gets (λ s. s.config)
    attempt (λ s. ensure_not_paused config)
    require_auth env owner
    fail_if (is_empty jobs || ltb max_batch (length jobs)) Error.invalid_batch_size
    fail_if (not (length jobs == length deposits)) Error.length_mismatch
    total ← attempt (λ s. validate_jobs env.current_contract_address s jobs deposits (pos 0))
    transfer env config.fee_token owner env.current_contract_address total
    insert_jobs owner jobs deposits

  unfoldable pub update_job : ℕ → JobUpdate → M X (Unit {0})
  unfolding touch
  update_job job_id update = do
    config ← gets (λ s. s.config)
    attempt (λ s. ensure_not_paused config)
    (spec, state) ← attempt (λ s. ok_or (get_job_parts s job_id) Error.job_not_found)
    require_auth env spec.owner
    interval ← attempt (λ s.
        validate_schedule config update.interval update.schedule (length update.args)
          update.fee_per_run update.max_fee_per_run update.keepers)
    seen ← attempt (λ s. updated_leader_runs s job_id spec state update.after)
    let spec' = updated_spec spec update interval
    modify (set_spec job_id spec')
    modify (
        set_state job_id (record state {
          next_run = rescheduled env.timestamp spec state update;
          leader_runs = seen;
        }))
    touch config job_id
    publish (Event.job_updated job_id interval spec'.fee_per_run spec'.max_runs spec'.end_at)

  unfoldable pub fund_job : Address → ℕ → ℤ → M X ℤ
  unfolding touch
  fund_job from job_id amount = do
    config ← gets (λ s. s.config)
    attempt (λ s. ensure_not_paused config)
    require_auth env from
    fail_if (leb_ℤ amount (pos 0)) Error.invalid_amount
    state ← attempt (λ s. ok_or (find job_id s.states) Error.job_not_found)
    transfer env config.fee_token from env.current_contract_address amount
    balance ← or_trap (checked_i128 (state.balance +ℤ amount))
    modify (set_state job_id (record state { balance = balance }))
    touch config job_id
    publish (Event.job_funded job_id from amount balance)
    pure balance

  unfoldable pub cancel_job : ℕ → M X ℤ
  cancel_job job_id = do
    config ← gets (λ s. s.config)
    (spec, state) ← attempt (λ s. ok_or (get_job_parts s job_id) Error.job_not_found)
    require_auth env spec.owner
    modify (remove_job job_id)
    modify (remove_owner_job spec.owner job_id)
    when (ltb_ℤ (pos 0) state.balance)
        (transfer env config.fee_token env.current_contract_address spec.owner state.balance)
    publish (Event.job_cancelled job_id state.balance)
    pure state.balance

  unfoldable pub withdraw_job_balance : ℕ → ℤ → M X ℤ
  unfolding touch
  withdraw_job_balance job_id amount = do
    config ← gets (λ s. s.config)
    (spec, state) ← attempt (λ s. ok_or (get_job_parts s job_id) Error.job_not_found)
    require_auth env spec.owner
    fail_if (leb_ℤ amount (pos 0) || ltb_ℤ state.balance amount) Error.invalid_amount
    balance ← or_trap (checked_i128 (state.balance -ℤ amount))
    modify (set_state job_id (record state { balance = balance }))
    touch config job_id
    transfer env config.fee_token env.current_contract_address spec.owner amount
    publish (Event.job_withdrawn job_id amount balance)
    pure balance

  unfoldable pub set_job_active : ℕ → Bool → M X (Unit {0})
  unfolding touch
  set_job_active job_id active = do
    config ← gets (λ s. s.config)
    (spec, state) ← attempt (λ s. ok_or (get_job_parts s job_id) Error.job_not_found)
    require_auth env spec.owner
    modify (
        set_state job_id
          (record state { active = active; failures = if active then 0 else state.failures }))
    touch config job_id
    publish (Event.job_active_set job_id active)

  unfoldable pub propose_job_owner : ℕ → Address → M X (Unit {0})
  propose_job_owner job_id new_owner = do
    spec ← attempt (λ s. ok_or (find job_id s.specs) Error.job_not_found)
    require_auth env spec.owner
    modify (
        if new_owner == spec.owner
        then remove_pending_owner job_id
        else set_pending_owner job_id new_owner)
    publish (Event.job_owner_proposed job_id spec.owner new_owner)

  unfoldable pub accept_job_owner : ℕ → M X (Unit {0})
  accept_job_owner job_id = do
    spec ← attempt (λ s. ok_or (find job_id s.specs) Error.job_not_found)
    new_owner ← attempt (λ s. ok_or (find job_id s.pending_owners) Error.no_pending_owner)
    require_auth env new_owner
    modify (remove_pending_owner job_id)
    modify (remove_owner_job spec.owner job_id)
    modify (add_owner_job new_owner job_id)
    modify (set_spec job_id (record spec { owner = new_owner }))
    publish (Event.job_owner_changed job_id spec.owner new_owner)
