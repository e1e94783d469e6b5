-- ===== src/Registry/Checks.antt =====
-- The checks of the registry that only read: contracts/registry/src/lib.rs, "Job creation and
-- validation" and the helpers at the end of "Execution".
use sorocron.Base.{
  ℕ, Bool, false, not, ◌&&◌, ◌||◌, Option, none, some, List, ltb, leb, ◌==◌, if◌then◌else◌, is_some,
  same_option,
}
use sorocron.Base.Int.{ℤ, pos, ltb_ℤ, leb_ℤ}
use sorocron.Base.Lists.{length}
use sorocron.Base.Dict.{find}
use sorocron.Registry.Types.{Address, Config, Schedule, JobParams, JobSpec, JobState, Keeper, Error}
use sorocron.Registry.Schedule.{calendar_period, schedule_is_valid}
use sorocron.Registry.Storage.{Storage}
use sorocron.Registry.Result.{Result, ok, err, ◌>>=◌, ◌>>◌, fail_if, ok_or}

abbrev pub max_job_keepers : ℕ
max_job_keepers = 10

unfoldable pub ensure_not_paused : Config → Result (Unit {0})
ensure_not_paused config = fail_if config.paused Error.paused

unfoldable pub ensure_active_keeper : Config → Keeper → Result (Unit {0})
ensure_active_keeper config keeper = do
  fail_if (is_some keeper.unbonding_at) Error.keeper_unbonding
  fail_if (ltb_ℤ keeper.stake config.min_stake) Error.insufficient_stake

unfoldable pub ensure_due : JobSpec → JobState → ℕ → Result (Unit {0})
ensure_due spec state now = do
  fail_if (not state.active) Error.job_paused
  fail_if (not (spec.max_runs == 0) && leb spec.max_runs state.runs) Error.max_runs_reached
  fail_if (not (spec.end_at == 0) && leb spec.end_at now) Error.job_expired
  fail_if (ltb_ℤ state.balance spec.fee_per_run) Error.insufficient_job_balance
  fail_if (ltb now state.next_run) Error.job_not_due

-- The interval in force: the calendar's period, which wants `interval` to be 0, or `interval`.
unfoldable pub effective_interval : ℕ → Schedule → Result ℕ
effective_interval interval schedule = elim (calendar_period schedule) [
  | some period ↦
      if not (interval == 0) || not (schedule_is_valid schedule)
      then err Error.invalid_calendar
      else ok period
  | none ↦ if interval == 0 then err Error.invalid_interval else ok interval
]

abbrev pub too_many : Option (List Address) → Bool
too_many none = false
too_many (some list) = ltb max_job_keepers (length list)

unfoldable pub validate_schedule :
    Config → ℕ → Schedule → ℕ → ℤ → ℤ → Option (List Address) → Result ℕ
unfolding effective_interval
validate_schedule config interval schedule args_len fee_per_run max_fee_per_run keepers = do
  effective ← effective_interval interval schedule
  fail_if (not (config.min_interval == 0) && ltb effective config.min_interval)
      Error.interval_too_short
  fail_if (not (config.max_args == 0) && ltb config.max_args args_len) Error.too_many_args
  fail_if (leb_ℤ fee_per_run (pos 0)) Error.invalid_fee
  fail_if
      ((ltb_ℤ max_fee_per_run (pos 0) || ltb_ℤ (pos 0) max_fee_per_run)
        && ltb_ℤ max_fee_per_run fee_per_run)
      Error.invalid_setting
  fail_if (too_many keepers) Error.too_many_keepers
  ok effective

-- The registry's own address, its executor and its tokens may not be targets.
unfoldable pub is_forbidden_target : Address → Config → Address → Bool
is_forbidden_target registry config target =
    target == registry
    || (same_option config.executor (some target)
        || (target == config.fee_token || target == config.stake_token))

-- `after` names a job that exists.
unfoldable pub leader_exists : Storage → Option ℕ → Result (Unit {0})
leader_exists s none = ok tt
leader_exists s (some leader) = do ok_or (find leader s.states) Error.job_not_found; ok tt

unfoldable pub validate_job : Address → Storage → JobParams → ℤ → Result (Unit {0})
unfolding leader_exists
validate_job registry s params deposit = do
  validate_schedule s.config params.interval params.schedule (length params.args) params.fee_per_run
      params.max_fee_per_run params.keepers
  fail_if (ltb_ℤ deposit params.fee_per_run) Error.invalid_amount
  fail_if (is_forbidden_target registry s.config params.target) Error.forbidden_target
  leader_exists s params.after

unfoldable pub leader_runs : Storage → ℕ → Option ℕ → Result ℕ
leader_runs s job_id none = ok 0
leader_runs s job_id (some leader) =
    if leader == job_id
    then err Error.awaiting_dependency
    else do l ← ok_or (find leader s.states) Error.job_not_found; ok l.runs

-- Whether the leader has run since; its run count on success.
abbrev pub leader_ran : Option JobState → ℕ → Result ℕ
leader_ran none seen = err Error.awaiting_dependency
leader_ran (some l) seen = if ltb seen l.runs then ok l.runs else err Error.awaiting_dependency

unfoldable pub dependency_met : Storage → JobSpec → JobState → Result ℕ
dependency_met s spec state = elim spec.after [
  | none ↦ ok state.leader_runs
  | some leader ↦ leader_ran (find leader s.states) state.leader_runs
]
