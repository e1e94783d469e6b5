-- ===== src/Registry/Tests/Executions.antt =====
-- Runs of the sample job, the ways out, pages and new ids.
use sorocron.Base.{◌<◌, ◌≡◌, refl, true, some, [], ◌∷◌}
use sorocron.Base.Int.{◌-ℤ◌}
use sorocron.Base.Lists.{contains}
use sorocron.Base.Dict.{find, delete}
use sorocron.Registry.Types.{Keeper, Error}
use sorocron.Registry.Storage.{
  get_job, get_job_parts, get_keeper_recent, is_target_halted, job_view,
}
use sorocron.Registry.Host.{World, Outcome, returns, fails, traps}
use sorocron.Registry.Checks.{ensure_due, is_forbidden_target, dependency_met}
use sorocron.Registry.Assignment.{candidates, assigned_keeper_for}
use sorocron.Registry.Views.{is_due}
use sorocron.Registry.Execution.{KeeperRecord, Payout, no_payout, run_job, execute, execute_batch}
use sorocron.Registry.Execution.Guards.{IsEligible}
use sorocron.Registry.Execution.Runs.{Asked, run_job-fails}
use sorocron.Registry.Execution.Whole.{Executed, execute-returns}
use sorocron.Registry.Execution.Due.{run_job-is_due}
use sorocron.Registry.Execution.Batch.{execute-execute_batch}
use sorocron.Registry.Assignment.Choice.{assigned_keeper_for_lem}
use sorocron.Registry.Tests.Sample.{Ledger, host, config, spec, state, keeper, store, world}
use sorocron.Registry.Checks.{
  ensure_not_paused, ensure_active_keeper, effective_interval, validate_schedule, leader_exists,
  validate_job, leader_runs,
}
use sorocron.Registry.Execution.{
  failures_after, gives_up, state_after, record_after, charge_run, add_payout, write_state,
  authorize_keeper, resolver_allows, call_target, result_hash, run_guards, note_miss, settle_run,
  pay_treasury, settle, save, try_job, run_jobs,
}
use sorocron.Registry.Assignment.{
  to_be_bytes, from_be_bytes, take, if_eligible, choose, window_opened, had_whole_window,
  record_miss,
}
use sorocron.Registry.Schedule.{
  schedule_is_valid, calendar_period, calendar_offset, first_on_grid, first_calendar_run,
  next_run_after, ramp_extra, uncapped_fee, ramped_fee, split_fee, smooth, unbonding_release,
}
use sorocron.Registry.Storage.{
  job_touched, touch_job, target_resumed, set_target_resumed, set_config, set_spec, set_state,
  remove_pending_owner, set_pending_owner, remove_job, owner_jobs, add_owner_job, remove_owner_job,
  set_keeper, remove_keeper, set_keeper_recent, joins_rotation, add_active_keeper,
  remove_active_keeper, set_target_halted,
}
use sorocron.Base.Dict.{put, sum_by}
use sorocron.Base.Int.{◌+ℤ◌, ◌*ℤ◌, quot, rem}
use sorocron.Registry.Tests.Sample.{left_by}

abbrev value_of : {A : Type 0} → A → Outcome Ledger A → A
value_of d (returns a v) = a
value_of d (fails e v) = d
value_of d traps = d

abbrev executed : Outcome Ledger (Unit {0})
executed = execute (host 1030) 4 0 world

abbrev record_of_4 : KeeperRecord
record_of_4 = record { info = keeper; recent = get_keeper_recent store 4 }

abbrev ran : Outcome Ledger (KeeperRecord × Payout)
ran = run_job (host 1030) config 7 4 record_of_4 0 no_payout world

abbrev early : Outcome Ledger (KeeperRecord × Payout)
early = run_job (host 999) config 7 4 record_of_4 0 no_payout world

abbrev out : KeeperRecord × Payout
out = value_of (record_of_4, no_payout) ran

executed-returns : executed ≡ returns tt (left_by executed)
unfolding ensure_not_paused ensure_active_keeper ensure_due effective_interval validate_schedule
    is_forbidden_target leader_exists validate_job leader_runs dependency_met failures_after
    gives_up state_after record_after charge_run add_payout write_state authorize_keeper
    resolver_allows call_target result_hash run_guards note_miss settle_run run_job pay_treasury
    settle save execute try_job run_jobs execute_batch to_be_bytes from_be_bytes take if_eligible
    choose assigned_keeper_for window_opened had_whole_window record_miss schedule_is_valid
    calendar_period calendar_offset first_on_grid first_calendar_run next_run_after ramp_extra
    uncapped_fee ramped_fee split_fee smooth unbonding_release job_touched touch_job target_resumed
    set_target_resumed set_config get_job_parts set_spec set_state remove_pending_owner
    set_pending_owner remove_job job_view get_job owner_jobs add_owner_job remove_owner_job
    set_keeper remove_keeper get_keeper_recent set_keeper_recent joins_rotation add_active_keeper
    remove_active_keeper is_target_halted set_target_halted find put delete sum_by ◌+ℤ◌ ◌-ℤ◌ ◌*ℤ◌
    quot rem
executed-returns = refl

execute-returns_example : Executed (host 1030) 4 0 world (left_by executed)
execute-returns_example = execute-returns (host 1030) 4 0 world (left_by executed) executed-returns

ran-returns : ran ≡ returns out (left_by ran)
unfolding ensure_not_paused ensure_active_keeper ensure_due effective_interval validate_schedule
    is_forbidden_target leader_exists validate_job leader_runs dependency_met failures_after
    gives_up state_after record_after charge_run add_payout write_state authorize_keeper
    resolver_allows call_target result_hash run_guards note_miss settle_run run_job pay_treasury
    settle save execute try_job run_jobs execute_batch to_be_bytes from_be_bytes take if_eligible
    choose assigned_keeper_for window_opened had_whole_window record_miss schedule_is_valid
    calendar_period calendar_offset first_on_grid first_calendar_run next_run_after ramp_extra
    uncapped_fee ramped_fee split_fee smooth unbonding_release job_touched touch_job target_resumed
    set_target_resumed set_config get_job_parts set_spec set_state remove_pending_owner
    set_pending_owner remove_job job_view get_job owner_jobs add_owner_job remove_owner_job
    set_keeper remove_keeper get_keeper_recent set_keeper_recent joins_rotation add_active_keeper
    remove_active_keeper is_target_halted set_target_halted find put delete sum_by ◌+ℤ◌ ◌-ℤ◌ ◌*ℤ◌
    quot rem
ran-returns = refl

early-fails : early ≡ fails Error.job_not_due (left_by early)
unfolding ensure_not_paused ensure_active_keeper ensure_due effective_interval validate_schedule
    is_forbidden_target leader_exists validate_job leader_runs dependency_met failures_after
    gives_up state_after record_after charge_run add_payout write_state authorize_keeper
    resolver_allows call_target result_hash run_guards note_miss settle_run run_job pay_treasury
    settle save execute try_job run_jobs execute_batch to_be_bytes from_be_bytes take if_eligible
    choose assigned_keeper_for window_opened had_whole_window record_miss schedule_is_valid
    calendar_period calendar_offset first_on_grid first_calendar_run next_run_after ramp_extra
    uncapped_fee ramped_fee split_fee smooth unbonding_release job_touched touch_job target_resumed
    set_target_resumed set_config get_job_parts set_spec set_state remove_pending_owner
    set_pending_owner remove_job job_view get_job owner_jobs add_owner_job remove_owner_job
    set_keeper remove_keeper get_keeper_recent set_keeper_recent joins_rotation add_active_keeper
    remove_active_keeper is_target_halted set_target_halted find put delete sum_by ◌+ℤ◌ ◌-ℤ◌ ◌*ℤ◌
    quot rem
early-fails = refl

run_job-fails_example :
    ((left_by early).store ≡ store)
    × ((left_by early).events ≡ [])
    × ((left_by early).code ≡ [])
    × Asked (host 999) 0 world.outside (left_by early).outside
run_job-fails_example =
    run_job-fails (host 999) config 7 4 record_of_4 0 no_payout world (left_by early)
      Error.job_not_due early-fails

run_job-is_due_example : (u : World Ledger) × (is_due (host 1030) 0 world ≡ returns true u)
run_job-is_due_example =
    run_job-is_due (host 1030) world 0 7 4 record_of_4 no_payout out (left_by ran) refl refl
      ran-returns

execute-execute_batch_example :
    execute_batch (host 1030) 4 (0 ∷ []) world ≡ returns (true ∷ []) (left_by executed)
execute-execute_batch_example =
    execute-execute_batch (host 1030) 4 0 world (left_by executed) executed-returns

four-assigned : assigned_keeper_for (host 1030) store 0 spec state ≡ some 4
unfolding ensure_not_paused ensure_active_keeper ensure_due effective_interval validate_schedule
    is_forbidden_target leader_exists validate_job leader_runs dependency_met failures_after
    gives_up state_after record_after charge_run add_payout write_state authorize_keeper
    resolver_allows call_target result_hash run_guards note_miss settle_run run_job pay_treasury
    settle save execute try_job run_jobs execute_batch to_be_bytes from_be_bytes take if_eligible
    choose assigned_keeper_for window_opened had_whole_window record_miss schedule_is_valid
    calendar_period calendar_offset first_on_grid first_calendar_run next_run_after ramp_extra
    uncapped_fee ramped_fee split_fee smooth unbonding_release job_touched touch_job target_resumed
    set_target_resumed set_config get_job_parts set_spec set_state remove_pending_owner
    set_pending_owner remove_job job_view get_job owner_jobs add_owner_job remove_owner_job
    set_keeper remove_keeper get_keeper_recent set_keeper_recent joins_rotation add_active_keeper
    remove_active_keeper is_target_halted set_target_halted find put delete sum_by ◌+ℤ◌ ◌-ℤ◌ ◌*ℤ◌
    quot rem
four-assigned = refl

assigned_keeper_for_lem_example :
    (0 < 30)
    × (contains (candidates store spec) 4 ≡ true)
    × (info : Keeper) × (find 4 store.keepers ≡ some info)
    × IsEligible config info
assigned_keeper_for_lem_example =
    assigned_keeper_for_lem (host 1030) store 0 spec state 4 four-assigned
