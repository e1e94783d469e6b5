-- ===== src/Examples/Vesting/Calls.antt =====
-- How the calls end, and what they leave: contracts/examples/vesting/src/lib.rs.
use sorocron.Base.{
  ℕ, ◌⊎◌, ◌≡◌, refl, Bool, true, false, none, some, arith, Bool-cases, Option-cases, inl, inr,
}
use sorocron.Base.Int.{ℤ, pos, ◌+ℤ◌, leb_ℤ}
use sorocron.Base.Word.{in_i128}
use sorocron.Base.Dict.{find, put}
use sorocron.Registry.Types.{Address}
use sorocron.Soroban.{Host, World, returns, traps}
use sorocron.Examples.Vesting.{
  VestingSchedule, releasable, releasable_amount, create_schedule, release_vested, Vesting, invalid,
}

-- The schedule that `create_schedule` stores.
abbrev pub created : Address → ℤ → ℕ → ℕ → ℕ → Bool → VestingSchedule
created beneficiary total start cliff duration revocable = record {
  beneficiary = beneficiary;
  total_amount = total;
  released_amount = pos 0;
  start_time = start;
  cliff_duration = cliff;
  total_duration = duration;
  revocable = revocable;
  revoked = false;
}

module _ {X : Type 0} (host : Host X) where
  pub create_schedule-cases :
      (beneficiary : Address) (total : ℤ) (start cliff duration : ℕ) (revocable : Bool)
      (w : World Vesting X)
      → (create_schedule host beneficiary total start cliff duration revocable w ≡ traps)
        ⊎ ((y : X) × (host.authorized w.store.admin ≡ true)
            × (invalid total cliff duration ≡ false)
            × (find beneficiary w.store.schedules ≡ none)
            × (host.transfer w.store.token w.store.admin host.current_contract_address total
                  w.outside
                ≡ some y)
            × (create_schedule host beneficiary total start cliff duration revocable w
                ≡ returns tt (record {
                  store = record (w.store) {
                    schedules =
                        put beneficiary
                          (created beneficiary total start cliff duration revocable)
                          w.store.schedules;
                  };
                  outside = y;
                })))
  unfolding create_schedule
  create_schedule-cases beneficiary total start cliff duration revocable w =
      elim (Bool-cases (host.authorized w.store.admin)) [
        | inr unsigned ↦ inl (rw unsigned refl)
        | inl signed ↦ elim (Bool-cases (invalid total cliff duration)) [
          | inl bad ↦ inl (rw (signed, bad) refl)
          | inr good ↦ elim (Option-cases (find beneficiary w.store.schedules)) [
            | inr (old, e) ↦ inl (rw (signed, good, e) refl)
            | inl new ↦
                elim (Option-cases (
                  host.transfer w.store.token w.store.admin host.current_contract_address total
                    w.outside)) [
                      | inl refused ↦ inl (rw (signed, good, new) (rw refused refl))
                      | inr (y, paid) ↦
                          inr (y, signed, good, new, paid, rw (signed, good, new) (rw paid refl))
                    ]
          ]
        ]
      ]

  pub releasable_amount-stored :
      (beneficiary : Address) (s : Vesting) (schedule : VestingSchedule)
      → find beneficiary s.schedules ≡ some schedule
      → releasable_amount host.timestamp s beneficiary ≡ releasable host.timestamp schedule
  unfolding releasable_amount
  releasable_amount-stored beneficiary s schedule found = ground arith

  pub release_vested-cases :
      (beneficiary : Address) (w : World Vesting X)
      → (release_vested host beneficiary w ≡ traps)
        ⊎ ((schedule : VestingSchedule) × (amount : ℤ) × (y : X) × (find beneficiary
                w.store.schedules
              ≡ some schedule)
            × (releasable host.timestamp schedule ≡ some amount)
            × (leb_ℤ amount (pos 0) ≡ false)
            × (host.transfer w.store.token host.current_contract_address beneficiary amount
                  w.outside
                ≡ some y)
            × (release_vested host beneficiary w
                ≡ returns amount (record {
                  store = record (w.store) {
                    schedules =
                        put beneficiary
                          (record schedule { released_amount = schedule.released_amount +ℤ amount })
                          w.store.schedules;
                  };
                  outside = y;
                })))
  unfolding release_vested
  release_vested-cases beneficiary w = elim (Option-cases (find beneficiary w.store.schedules)) [
    | inl missing ↦ inl (rw missing refl)
    | inr (schedule, found) ↦
        let stored = releasable_amount-stored beneficiary w.store schedule found in
        elim (Option-cases (releasable host.timestamp schedule)) [
          | inl over ↦ inl (rw (found, stored, over) refl)
          | inr (amount, due) ↦ elim (Bool-cases (leb_ℤ amount (pos 0))) [
            | inl nothing ↦ inl (rw (found, stored, due) (rw nothing refl))
            | inr some_due ↦ elim (Bool-cases (in_i128 (schedule.released_amount +ℤ amount))) [
              | inr wide ↦ inl (rw (found, stored, due) (rw (some_due, wide) refl))
              | inl fits ↦
                  elim (Option-cases (
                    host.transfer w.store.token host.current_contract_address beneficiary amount
                      w.outside)) [
                        | inl refused ↦
                            inl (rw (found, stored, due) (rw (some_due, fits) (rw refused refl)))
                        | inr (y, paid) ↦ inr (
                          schedule,
                          amount,
                          y,
                          found,
                          due,
                          some_due,
                          paid,
                          rw (found, stored, due) (rw (some_due, fits) (rw paid refl)),
                        )
                      ]
            ]
          ]
        ]
  ]
