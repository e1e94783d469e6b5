-- ===== src/Examples/Vesting/Payments.antt =====
-- When `release_vested` pays: contracts/examples/vesting/src/lib.rs.
use sorocron.Base.{
  ℕ, ◌+◌, ◌-◌, ◌*◌, ◌≤◌, ◌<◌, ◌≡◌, refl, ap, ◌∙◌, true, false, some, [], ◌∷◌, arith, Bool-cases,
  inl, inr, ◌==◌,
}
use sorocron.Base.Int.{ℤ, pos, ◌+ℤ◌, ◌-ℤ◌, ◌≤ℤ◌, int_laws, leb_ℤ, -ℤ-pos, +ℤ-pos}
use sorocron.Base.Word.{u64_max, i128_bound, checked_i128, sat_i128}
use sorocron.Base.Dict.{Dict, find, put, sum_by, Each, Each-find}
use sorocron.Registry.Types.{Address}
use sorocron.Soroban.{Host, World, returns}
use sorocron.Soroban.Token.{HolderLaws}
use sorocron.Examples.Vesting.{
  VestingSchedule, vested, releasable, release_vested, Vesting, should_run_for,
}
use sorocron.Examples.Vesting.Amounts.{linear, linear-le, vested_lem}
use sorocron.Examples.Vesting.Backing.{owed, IsSound, IsBacked, releasable-le}
use sorocron.Examples.Vesting.Calls.{releasable_amount-stored}

sum-nonneg : (d : Dict VestingSchedule) → Each IsSound d → pos 0 ≤ℤ sum_by owed d
unfolding sum_by
sum-nonneg [] h = omega arith
sum-nonneg (e ∷ d) h = omega (int_laws, h.0.released_within, sum-nonneg d h.1)

owed-le-sum :
    (k : ℕ) (s : VestingSchedule) (d : Dict VestingSchedule)
    → Each IsSound d
    → find k d ≡ some s
    → owed s ≤ℤ sum_by owed d
unfolding find sum_by
owed-le-sum k s [] h e = cc
owed-le-sum k s (entry ∷ d) h e = elim (Bool-cases (entry.0 == k)) [
  | inl hit ↦
      let same : entry.1 ≡ s = ground arith in rw (← same) (omega (int_laws, sum-nonneg d h.1))
  | inr miss ↦
      let rest = owed-le-sum k s d h.1 (ground arith) in omega (int_laws, rest, h.0.released_within)
]

releasable-vested :
    (now : ℕ) (s : VestingSchedule) (v : ℤ)
    → vested now s ≡ some v
    → releasable now s ≡ some (sat_i128 (v -ℤ s.released_amount))
unfolding releasable
releasable-vested now s v e = ground arith

-- What a bounded schedule has still to release at a time.
releasable_lem :
    (now n r : ℕ) (s : VestingSchedule)
    → s.revoked ≡ false
    → s.cliff_duration ≤ s.total_duration
    → s.start_time + s.total_duration ≤ u64_max
    → n * s.total_duration < i128_bound
    → n < i128_bound
    → s.total_amount ≡ pos n
    → s.released_amount ≡ pos r
    → r ≤ linear n s.start_time s.cliff_duration s.total_duration now
    → releasable now s
      ≡ some (pos (linear n s.start_time s.cliff_duration s.total_duration now - r))
releasable_lem now n r s u h k fits small e f le =
    let l = linear n s.start_time s.cliff_duration s.total_duration now in
    let bound = linear-le n s.start_time s.cliff_duration s.total_duration now in
    let amount : sat_i128 (pos l -ℤ s.released_amount) ≡ pos (l - r) =
      rw (f, -ℤ-pos l r le) (ap pos (omega arith)) in
    releasable-vested now s (pos l) (vested_lem now n s u h k fits e) ∙ ap some amount

checked_small : (a b : ℕ) → a ≡ b → b < i128_bound → checked_i128 (pos a) ≡ some (pos b)
checked_small a b e h = ground arith

module _ {X : Type 0} {host : Host X} (laws : HolderLaws host) where
  -- In a backed state a schedule that is not revoked, ends within the u64, has a total that is
  -- less than 2^127, also when multiplied by the duration, and has released less than its linear
  -- share at the time is called due by the resolver, and `release_vested` returns exactly the
  -- difference, pays it to the beneficiary and records the share as released. The share is
  -- nothing before the cliff, the total from the end on, and in proportion to the time in
  -- between, rounded down. Transfers move the amount, nobody signs for the contract, and its
  -- transfer of what it has succeeds.
  pub release_vested-pays :
      (w : World Vesting X) (beneficiary : Address) (schedule : VestingSchedule) (n r : ℕ)
      → IsBacked host w
      → find beneficiary w.store.schedules ≡ some schedule
      → schedule.revoked ≡ false
      → schedule.total_amount ≡ pos n
      → schedule.released_amount ≡ pos r
      → n < i128_bound
      → n * schedule.total_duration < i128_bound
      → schedule.start_time + schedule.total_duration ≤ u64_max
      → r
        < linear n schedule.start_time schedule.cliff_duration schedule.total_duration
            host.timestamp
      → let due =
          linear n schedule.start_time schedule.cliff_duration schedule.total_duration
            host.timestamp in
        (should_run_for host.timestamp w.store beneficiary ≡ some true)
        × ((y : X) × (host.transfer w.store.token host.current_contract_address beneficiary
                (pos (due - r))
                w.outside
              ≡ some y)
            × (release_vested host beneficiary w
                ≡ returns (pos (due - r)) (record {
                  store = record (w.store) {
                    schedules =
                        put beneficiary
                          (record schedule { released_amount = pos due })
                          w.store.schedules;
                  };
                  outside = y;
                })))
  unfolding release_vested should_run_for
  release_vested-pays w beneficiary schedule n r h found unrevoked e f small fits times late =
      let now = host.timestamp in
      let due = linear n schedule.start_time schedule.cliff_duration schedule.total_duration now in
      let bound =
        linear-le n schedule.start_time schedule.cliff_duration schedule.total_duration now in
      let sound = Each-find IsSound beneficiary schedule w.store.schedules h.sound found in
      let amount =
        releasable_lem now n r schedule unrevoked sound.cliff_within times fits small e f
          (omega arith) in
      let stored = releasable_amount-stored host beneficiary w.store schedule found ∙ amount in
      let within = releasable-le now schedule (pos (due - r)) sound amount in
      let held = owed-le-sum beneficiary schedule w.store.schedules h.sound found in
      let (y, paid) =
        laws.transfer_pays w.store.token beneficiary (pos (due - r)) w.outside (omega arith)
          (omega (int_laws, within, held, h.backed)) in
      let positive : leb_ℤ (pos (due - r)) (pos 0) ≡ false = ground arith in
      let released : checked_i128 (schedule.released_amount +ℤ pos (due - r)) ≡ some (pos due) =
        rw (f, +ℤ-pos r (due - r))
          (checked_small (r + (due - r)) due (omega arith) (omega arith)) in
      (ground (arith, stored), (y, paid, rw (found, stored, positive, released) (rw paid refl)))
