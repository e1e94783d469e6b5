-- ===== src/Registry/Schedule.antt =====
-- Schedule and fee arithmetic: contracts/registry/src/schedule.rs. Times are u64 unix seconds, fees
-- i128. `none` is a panic of the overflow checks.
pub mod Fees
pub mod Grid
pub mod Calendar
pub mod Average
use sorocron.Base.{
  ℕ, ◌+◌, ◌-◌, ◌*◌, ◌/◌, ◌%◌, max, Bool, true, ◌&&◌, ◌||◌, Option, none, some, ltb, leb, ◌==◌,
  if◌then◌else◌,
}
use sorocron.Base.Int.{ℤ, pos, ◌+ℤ◌, ◌-ℤ◌, ◌*ℤ◌, quot, rem, leb_ℤ, min_ℤ}
use sorocron.Base.Word.{u64_max, sat_add, sat_mul, checked_u64, checked_i128}
use sorocron.Registry.Types.{Schedule, JobSpec, JobState}

abbrev pub day : ℕ
day = 86400

abbrev pub week : ℕ
week = 604800

abbrev first_monday_offset_days : ℕ
first_monday_offset_days = 4

unfoldable pub schedule_is_valid : Schedule → Bool
schedule_is_valid Schedule.interval = true
schedule_is_valid (Schedule.daily hour minute) = ltb hour 24 && ltb minute 60
schedule_is_valid (Schedule.weekly weekday hour minute) =
    ltb weekday 7 && (ltb hour 24 && ltb minute 60)

unfoldable pub calendar_period : Schedule → Option ℕ
calendar_period Schedule.interval = none
calendar_period (Schedule.daily hour minute) = some day
calendar_period (Schedule.weekly weekday hour minute) = some week

unfoldable pub calendar_offset : Schedule → ℕ
calendar_offset Schedule.interval = 0
calendar_offset (Schedule.daily hour minute) = hour * 3600 + minute * 60
calendar_offset (Schedule.weekly weekday hour minute) =
    ((weekday + first_monday_offset_days) % 7) * day + hour * 3600 + minute * 60

-- The first point of the grid `k * period + offset` at or after `from`.
unfoldable pub first_on_grid : ℕ → ℕ → ℕ → ℕ
first_on_grid period offset from =
    let into_period = from % period in
    let period_start = from - into_period in
    if leb into_period offset
    then sat_add period_start offset
    else sat_add (sat_add period_start period) offset

unfoldable pub first_calendar_run : Schedule → ℕ → ℕ
unfolding calendar_period
first_calendar_run schedule from = elim (calendar_period schedule) [
  | none ↦ from
  | some period ↦ first_on_grid period (calendar_offset schedule) from
]

-- `checked_mul` on the steps saturates the result; the sum `elapsed / interval + 1` can panic.
unfoldable pub next_run_after : ℕ → ℕ → ℕ → Option ℕ
next_run_after scheduled interval now =
    if interval == 0
    then some (max scheduled now)
    else elim (checked_u64 ((now - scheduled) / interval + 1)) [
      | none ↦ none
      | some steps ↦ elim (checked_u64 (steps * interval)) [
        | some delta ↦ some (sat_add scheduled delta)
        | none ↦ some u64_max
      ]
    ]

-- What a late run costs on top of the base fee: `span * late / interval`, or `span` where the
-- product leaves the i128.
unfoldable pub ramp_extra : ℤ → ℕ → ℕ → ℤ
ramp_extra span late interval = elim (checked_i128 (span *ℤ pos late)) [
  | some v ↦ quot v interval
  | none ↦ span
]

unfoldable pub uncapped_fee : ℤ → ℤ → ℕ → ℕ → Option ℤ
unfolding ramp_extra
uncapped_fee base ceiling interval late =
    if leb_ℤ ceiling base || interval == 0
    then some base
    else elim (checked_i128 (ceiling -ℤ base)) [
      | none ↦ none
      | some span ↦
          if leb interval late
          then some ceiling
          else checked_i128 (base +ℤ ramp_extra span late interval)
    ]

unfoldable pub ramped_fee : JobSpec → JobState → ℕ → Option ℤ
ramped_fee spec state now =
    elim (uncapped_fee spec.fee_per_run spec.max_fee_per_run spec.interval (now - state.next_run)) [
      | none ↦ none
      | some fee ↦ some (min_ℤ fee state.balance)
    ]

-- The two products and the sum of the share are checked, and so is the rest.
unfoldable pub split_fee : ℤ → ℕ → Option (ℤ × ℤ)
split_fee amount bps =
    if leb_ℤ amount (pos 0) || bps == 0
    then some (amount, pos 0)
    else elim (checked_i128 (quot amount 10000 *ℤ pos bps)) [
      | none ↦ none
      | some whole ↦ elim (checked_i128 (rem amount 10000 *ℤ pos bps)) [
        | none ↦ none
        | some part ↦ elim (checked_i128 (whole +ℤ quot part 10000)) [
          | none ↦ none
          | some share ↦ elim (checked_i128 (amount -ℤ share)) [
            | none ↦ none
            | some rest ↦ some (rest, share)
          ]
        ]
      ]
    ]

unfoldable pub smooth : ℕ → ℕ → ℕ
smooth scaled sample = sat_add (scaled - scaled / 8) sample

unfoldable pub unbonding_release : ℕ → ℕ → ℕ → ℕ
unbonding_release now period epoch =
    let start = if epoch == 0 then now else sat_mul (sat_add (now / epoch) 1) epoch in
    sat_add start period
