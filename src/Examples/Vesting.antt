-- ===== src/Examples/Vesting.antt =====
-- Linear vesting with a cliff: contracts/examples/vesting/src/lib.rs. Arithmetic that overflows panics,
-- which is `none` in the amounts and a trap in the calls.
pub mod Amounts
pub mod Calls
pub mod Backing
pub mod Payments
pub mod Locked
use sorocron.Base.{
  ℕ, ◌+◌, ◌-◌, Bool, true, false, ◌||◌, Option, none, some, [], ltb, leb, ◌==◌, if◌then◌else◌,
  is_some,
}
use sorocron.Base.Int.{ℤ, pos, ◌+ℤ◌, ◌-ℤ◌, ◌*ℤ◌, quot, ltb_ℤ, leb_ℤ}
use sorocron.Base.Word.{checked_u64, checked_i128, sat_i128}
use sorocron.Base.Dict.{Dict, find, put}
use sorocron.Registry.Types.{Address}
use sorocron.Soroban.{
  Host, World, M, ◌>>=◌, ◌>>◌, pure, gets, modify, or_trap, panic_if, require_auth, transfer,
}

-- Declared by the contract; every refusal is a panic instead.
pub data VestingError : Type 0 where
  not_admin schedule_exists schedule_not_found nothing_to_release : VestingError
  already_revoked not_revocable invalid_schedule : VestingError

pub record VestingSchedule : Type 0 where
  pub beneficiary : Address
  pub total_amount : ℤ
  pub released_amount : ℤ
  pub start_time : ℕ
  pub cliff_duration : ℕ
  pub total_duration : ℕ
  pub revocable : Bool
  pub revoked : Bool

-- The schedules by beneficiary.
pub record Vesting : Type 0 where
  pub admin : Address
  pub token : Address
  pub schedules : Dict VestingSchedule

unfoldable pub constructor : Address → Address → Vesting
constructor admin token = record { admin = admin; token = token; schedules = [] }

-- `vested_amount` of a stored schedule. Past the checks its duration is not 0.
unfoldable pub vested : ℕ → VestingSchedule → Option ℤ
vested now s =
    if s.revoked
    then some s.released_amount
    else elim (checked_u64 (s.start_time + s.cliff_duration)) [
      | none ↦ none
      | some cliff ↦
          if ltb now cliff
          then some (pos 0)
          else elim (checked_u64 (s.start_time + s.total_duration)) [
            | none ↦ none
            | some end ↦
                if leb end now
                then some s.total_amount
                else elim (checked_i128 (s.total_amount *ℤ pos (now - s.start_time))) [
                  | none ↦ none
                  | some product ↦ some (quot product s.total_duration)
                ]
          ]
    ]

-- `releasable_amount` of a stored schedule.
unfoldable pub releasable : ℕ → VestingSchedule → Option ℤ
unfolding vested
releasable now s = elim (vested now s) [
  | none ↦ none
  | some amount ↦ some (sat_i128 (amount -ℤ s.released_amount))
]

unfoldable vested_amount : ℕ → Vesting → Address → Option ℤ
vested_amount now s beneficiary = elim (find beneficiary s.schedules) [
  | none ↦ some (pos 0)
  | some schedule ↦ vested now schedule
]

unfoldable pub releasable_amount : ℕ → Vesting → Address → Option ℤ
releasable_amount now s beneficiary = elim (find beneficiary s.schedules) [
  | none ↦ some (pos 0)
  | some schedule ↦ releasable now schedule
]

unfoldable pub should_run_for : ℕ → Vesting → Address → Option Bool
should_run_for now s beneficiary = elim (releasable_amount now s beneficiary) [
  | none ↦ none
  | some amount ↦ some (ltb_ℤ (pos 0) amount)
]

abbrev pub invalid : ℤ → ℕ → ℕ → Bool
invalid total_amount cliff_duration total_duration =
    leb_ℤ total_amount (pos 0) || (total_duration == 0 || ltb total_duration cliff_duration)

module _ {X : Type 0} (host : Host X) where
  unfoldable pub create_schedule :
      Address → ℤ → ℕ → ℕ → ℕ → Bool → M VestingError (World Vesting X) (Unit {0})
  create_schedule beneficiary total_amount start_time cliff_duration total_duration revocable = do
    s ← gets (λ s. s)
    require_auth host s.admin
    panic_if (invalid total_amount cliff_duration total_duration)
    panic_if (is_some (find beneficiary s.schedules))
    transfer host s.token s.admin host.current_contract_address total_amount
    modify (λ s. record s {
      schedules =
          put beneficiary
            (record {
              beneficiary = beneficiary;
              total_amount = total_amount;
              released_amount = pos 0;
              start_time = start_time;
              cliff_duration = cliff_duration;
              total_duration = total_duration;
              revocable = revocable;
              revoked = false;
            })
            s.schedules;
    })

  unfoldable pub release_vested : Address → M VestingError (World Vesting X) ℤ
  release_vested beneficiary = do
    s ← gets (λ s. s)
    schedule ← or_trap (find beneficiary s.schedules)
    amount ← or_trap (releasable_amount host.timestamp s beneficiary)
    panic_if (leb_ℤ amount (pos 0))
    released ← or_trap (checked_i128 (schedule.released_amount +ℤ amount))
    modify (λ s. record s {
      schedules = put beneficiary (record schedule { released_amount = released }) s.schedules;
    })
    transfer host s.token host.current_contract_address beneficiary amount
    pure amount
