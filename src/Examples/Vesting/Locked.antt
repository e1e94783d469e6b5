-- ===== src/Examples/Vesting/Locked.antt =====
-- Schedules whose end is past the u64: contracts/examples/vesting/src/lib.rs.
use sorocron.Base.{ℕ, ◌∙◌, ◌+◌, ◌<◌, ◌≡◌, refl, Bool, false, some, arith, inl, inr}
use sorocron.Base.Int.{ℤ, -ℤ-pos, pos}
use sorocron.Base.Word.{u64_max}
use sorocron.Base.Dict.{find, find-put}
use sorocron.Registry.Types.{Address}
use sorocron.Soroban.{Host, World, returns, traps}
use sorocron.Examples.Vesting.{
  VestingSchedule, vested, releasable, create_schedule, release_vested, Vesting,
}
use sorocron.Examples.Vesting.Calls.{created, create_schedule-cases, release_vested-cases}

not_due :
    (now : ℕ) (schedule : VestingSchedule) (amount : ℤ)
    → schedule.revoked ≡ false
    → schedule.released_amount ≡ pos 0
    → u64_max < schedule.start_time + schedule.total_duration
    → releasable now schedule ≡ some amount
    → amount ≡ pos 0
unfolding releasable vested
not_due now schedule amount u r over e = ground (arith, r, -ℤ-pos 0 0 (omega arith))

still_locked :
    {X : Type 0} (host : Host X) (beneficiary : Address) (schedule : VestingSchedule)
    (w : World Vesting X)
    → find beneficiary w.store.schedules ≡ some schedule
    → schedule.revoked ≡ false
    → schedule.released_amount ≡ pos 0
    → u64_max < schedule.start_time + schedule.total_duration
    → release_vested host beneficiary w ≡ traps
still_locked host beneficiary schedule w found u r over =
    elim (release_vested-cases host beneficiary w) [
      | inl e ↦ e
      | inr (schedule', amount, y, found', due, some_due, paid, e) ↦
          let same : schedule ≡ schedule' = ground arith in
          let nothing = not_due host.timestamp schedule amount u r over (rw same due) in
          ground arith
    ]

module _ {X : Type 0} (host : Host X) where
  -- A schedule that `create_schedule` has accepted although its start and duration add up to more
  -- than the largest u64 can never be released: in every later state that still has it as it was
  -- created, at every time, `release_vested` panics.
  pub create_schedule-locked :
      (beneficiary : Address) (total : ℤ) (start cliff duration : ℕ) (revocable : Bool)
      (w v u : World Vesting X) (later : Host X)
      → create_schedule host beneficiary total start cliff duration revocable w ≡ returns tt v
      → u64_max < start + duration
      → find beneficiary u.store.schedules ≡ find beneficiary v.store.schedules
      → release_vested later beneficiary u ≡ traps
  create_schedule-locked beneficiary total start cliff duration revocable w v u later e over same =
      elim (create_schedule-cases host beneficiary total start cliff duration revocable w) [
        | inl refused ↦ cc
        | inr (y, signed, good, new, paid, e') ↦
            let schedule = created beneficiary total start cliff duration revocable in
            let stored : find beneficiary v.store.schedules ≡ some schedule =
              ground (arith, find-put beneficiary beneficiary schedule w.store.schedules) in
            still_locked later beneficiary schedule u (same ∙ stored) refl refl over
      ]
