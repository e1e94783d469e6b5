-- ===== src/Registry/Schedule/Calendar.antt =====
-- `first_calendar_run` against the clock and the weekday: contracts/registry/src/schedule.rs.
use sorocron.Base.{ℕ, ◌+◌, ◌*◌, ◌/◌, ◌%◌, ◌≤◌, ◌<◌, ◌≡◌, true, arith}
use sorocron.Base.Word.{u64_max}
use sorocron.Registry.Types.{Schedule}
use sorocron.Registry.Schedule.{
  day, week, schedule_is_valid, calendar_offset, first_on_grid, first_calendar_run,
}

-- The unix time `t` shows the hour and minute of the schedule on the UTC clock, with no seconds, and
-- its weekday; 1970-01-01 was a Thursday, which is weekday 3.
abbrev pub Matches : Schedule → ℕ → Type 0
Matches Schedule.interval t = Unit
Matches (Schedule.daily hour minute) t =
    (t / 3600 % 24 ≡ hour) × (t / 60 % 60 ≡ minute) × (t % 60 ≡ 0)
Matches (Schedule.weekly weekday hour minute) t =
    ((t / 86400 + 3) % 7 ≡ weekday) × (t / 3600 % 24 ≡ hour) × (t / 60 % 60 ≡ minute) × (t % 60 ≡ 0)

daily_offset :
    (t hour minute : ℕ)
    → hour < 24
    → minute < 60
    → Matches (Schedule.daily hour minute) t
    → t % day ≡ hour * 3600 + minute * 60
daily_offset t hour minute p q h = omega arith

daily-Matches :
    (t hour minute : ℕ)
    → hour < 24
    → minute < 60
    → t % day ≡ hour * 3600 + minute * 60
    → Matches (Schedule.daily hour minute) t
daily-Matches t hour minute p q h = omega arith

-- A point of the grid with a numeral for its period.
first_daily :
    (offset from : ℕ)
    → offset < day
    → from + 2 * day ≤ u64_max
    → (first_on_grid day offset from % day ≡ offset)
      × (from ≤ first_on_grid day offset from)
      × (first_on_grid day offset from < from + day)
unfolding first_on_grid
first_daily offset from h k = ground arith

first_weekly :
    (offset from : ℕ)
    → offset < week
    → from + 2 * week ≤ u64_max
    → (first_on_grid week offset from % week ≡ offset)
      × (from ≤ first_on_grid week offset from)
      × (first_on_grid week offset from < from + week)
unfolding first_on_grid
first_weekly offset from h k = ground arith

weekly_offset :
    (t weekday hour minute : ℕ)
    → weekday < 7
    → hour < 24
    → minute < 60
    → Matches (Schedule.weekly weekday hour minute) t
    → t % week ≡ calendar_offset (Schedule.weekly weekday hour minute)
unfolding calendar_offset
weekly_offset t weekday hour minute w p q h = omega arith

weekly-Matches :
    (t weekday hour minute : ℕ)
    → weekday < 7
    → hour < 24
    → minute < 60
    → t % week ≡ calendar_offset (Schedule.weekly weekday hour minute)
    → Matches (Schedule.weekly weekday hour minute) t
unfolding calendar_offset
weekly-Matches t weekday hour minute w p q h = omega arith

least_daily : (o from r t : ℕ) → r % day ≡ o → r < from + day → from ≤ t → t % day ≡ o → r ≤ t
least_daily o from r t e h k f = omega arith

least_weekly : (o from r t : ℕ) → r % week ≡ o → r < from + week → from ≤ t → t % week ≡ o → r ≤ t
least_weekly o from r t e h k f = omega arith

valid_daily :
    (hour minute : ℕ)
    → schedule_is_valid (Schedule.daily hour minute) ≡ true
    → (hour < 24) × (minute < 60)
unfolding schedule_is_valid
valid_daily hour minute v = ground arith

valid_weekly :
    (weekday hour minute : ℕ)
    → schedule_is_valid (Schedule.weekly weekday hour minute) ≡ true
    → (weekday < 7) × (hour < 24) × (minute < 60)
unfolding schedule_is_valid
valid_weekly weekday hour minute v = ground arith

weekly_offset_lt :
    (weekday hour minute : ℕ)
    → hour < 24
    → minute < 60
    → calendar_offset (Schedule.weekly weekday hour minute) < week
unfolding calendar_offset
weekly_offset_lt weekday hour minute p q = omega arith

abbrev pub IsFirst : Schedule → ℕ → ℕ → Type 0
IsFirst s from r = Matches s r × (from ≤ r) × ((t : ℕ) → from ≤ t → Matches s t → r ≤ t)

-- For a valid schedule, `first_calendar_run` is a time that matches the schedule's clock and
-- weekday, not before `from`, and no earlier matching time is at or after `from`: it is the first
-- one. The times must stay two weeks below the end of the u64.
pub first_calendar_run_lem :
    (s : Schedule) (from : ℕ)
    → schedule_is_valid s ≡ true
    → from + 2 * week ≤ u64_max
    → IsFirst s from (first_calendar_run s from)
first_calendar_run_lem Schedule.interval from v h =
    unfold first_calendar_run in (tt, omega arith, λ t p m. p)
first_calendar_run_lem (Schedule.daily hour minute) from v h =
    let (p, q) = valid_daily hour minute v in
    let o = calendar_offset (Schedule.daily hour minute) in
    let (on, after, before) =
      first_daily o from (unfold calendar_offset in omega arith) (omega arith) in
    let r = first_on_grid day o from in
    unfold first_calendar_run in
    (
      daily-Matches r hour minute p q (unfold calendar_offset in on),
      after,
      λ t k m.
          least_daily o from r t on before k
            (unfold calendar_offset in daily_offset t hour minute p q m),
    )
first_calendar_run_lem (Schedule.weekly weekday hour minute) from v h =
    let (w, p, q) = valid_weekly weekday hour minute v in
    let o = calendar_offset (Schedule.weekly weekday hour minute) in
    let (on, after, before) =
      first_weekly o from (weekly_offset_lt weekday hour minute p q) (omega arith) in
    let r = first_on_grid week o from in
    unfold first_calendar_run in
    (
      weekly-Matches r weekday hour minute w p q on,
      after,
      λ t k m. least_weekly o from r t on before k (weekly_offset t weekday hour minute w p q m),
    )
