-- ===== src/Registry/Tests/Schedules.antt =====
-- Times and fees at concrete numbers.
use sorocron.Base.{ℕ, ◌+◌, ◌-◌, ◌*◌, ◌≤◌, ◌<◌, min, max, ◌≡◌, refl, ◌⊎◌, some, arith}
use sorocron.Base.Int.{pos, ◌-ℤ◌}
use sorocron.Base.Word.{u64_max}
use sorocron.Registry.Types.{Schedule}
use sorocron.Registry.Schedule.{
  first_calendar_run, next_run_after, split_fee, ramped_fee, unbonding_release, schedule_is_valid,
}
use sorocron.Registry.Schedule.Fees.{share_of, split_fee_lem, ramped_fee_bounds, ramped_fee_mono}
use sorocron.Registry.Schedule.Grid.{next_run_after_grid, unbonding_release_bounds}
use sorocron.Registry.Schedule.Calendar.{IsFirst, first_calendar_run_lem}
use sorocron.Registry.Tests.Sample.{spec, state}

-- From the first Tuesday of 1970 on, the first Monday at 9:30.
first_calendar_run_lem_example :
    IsFirst (Schedule.weekly 0 9 30) 432000 (first_calendar_run (Schedule.weekly 0 9 30) 432000)
first_calendar_run_lem_example =
    first_calendar_run_lem (Schedule.weekly 0 9 30) 432000 (unfold schedule_is_valid in refl)
      (omega arith)

next_run_after_grid_example :
    (k : ℕ) × (next_run_after 1000 60 1130 ≡ some (min (1000 + k * 60) u64_max))
    × (0 < k)
    × (1130 < 1000 + k * 60)
    × ((k ≡ 1) ⊎ (1000 + (k - 1) * 60 ≤ 1130))
next_run_after_grid_example = next_run_after_grid 1000 60 1130 (omega arith) (omega arith)

split_fee_lem_example :
    split_fee (pos 1999) 500 ≡ some (pos 1999 -ℤ share_of (pos 1999) 500, share_of (pos 1999) 500)
split_fee_lem_example = split_fee_lem (pos 1999) 500 refl (omega arith)

ramped_fee_bounds_example :
    (fee : ℕ) × (ramped_fee spec state 1030 ≡ some (pos fee))
    × (10 ≤ fee)
    × (fee ≤ 100)
    × (fee ≤ max 10 40)
    × (1030 ≤ 1000 → fee ≡ 10)
    × (0 < 60 → 10 ≤ 40 → 1000 + 60 ≤ 1030 → fee ≡ min 40 100)
ramped_fee_bounds_example =
    ramped_fee_bounds spec state 10 40 100 1030 refl refl (omega arith) (omega arith) refl
      (omega arith)

ramped_fee_mono_example :
    (fee fee' : ℕ) × (ramped_fee spec state 1015 ≡ some (pos fee))
    × (ramped_fee spec state 1030 ≡ some (pos fee'))
    × (fee ≤ fee')
ramped_fee_mono_example =
    ramped_fee_mono spec state 10 40 100 1015 1030 refl refl (omega arith) (omega arith) refl
      (omega arith)

unbonding_release_bounds_example :
    (1050 + 600 ≤ unbonding_release 1050 600 100)
    × (unbonding_release 1050 600 100 ≤ 1050 + 100 + 600)
unbonding_release_bounds_example = unbonding_release_bounds 1050 600 100 (omega arith)
