-- ===== src/Examples/Vesting/Backing.antt =====
-- The contract's balance against what it has promised: contracts/examples/vesting/src/lib.rs.
use sorocron.Base.{
  ℕ, ◌⊎◌, ◌-◌, ◌≤◌, ◌<◌, ◌≡◌, refl, ap, Bool, true, false, none, some, arith, Option-cases, inl,
  inr,
}
use sorocron.Base.Int.{
  ℤ, pos, negsuc, pos_part, neg_part, ◌+ℤ◌, ◌-ℤ◌, ◌*ℤ◌, ◌≤ℤ◌, quot, *ℤ-pos, int_laws,
}
use sorocron.Base.Word.{sat_i128}
use sorocron.Base.Dict.{find, put, sum_by, sum_by-put, sum_by-put_new, Each, Each-find, Each-put}
use sorocron.Registry.Types.{Address}
use sorocron.Soroban.{Host, World, committed}
use sorocron.Soroban.Token.{TokenLaws, received, spent}
use sorocron.Examples.Vesting.{
  VestingSchedule, vested, releasable, create_schedule, release_vested, Vesting, invalid,
}
use sorocron.Examples.Vesting.Amounts.{share_le}
use sorocron.Examples.Vesting.Calls.{created, create_schedule-cases, release_vested-cases}

-- What is still owed under a schedule.
abbrev pub owed : VestingSchedule → ℤ
owed s = s.total_amount -ℤ s.released_amount

pub record IsSound (s : VestingSchedule) : Type 0 where
  pub released_some : pos 0 ≤ℤ s.released_amount
  pub released_within : s.released_amount ≤ℤ s.total_amount
  pub cliff_within : s.cliff_duration ≤ s.total_duration
  pub lasting : 0 < s.total_duration

share_within : (total : ℤ) (a d : ℕ) → a ≤ d → pos 0 ≤ℤ total → quot (total *ℤ pos a) d ≤ℤ total
unfolding quot
share_within (pos n) a d h k = rw (*ℤ-pos n a) (omega (arith, share_le n d a h))
share_within (negsuc n) a d h k = omega arith

vested-le :
    (now : ℕ) (s : VestingSchedule) (v : ℤ)
    → IsSound s
    → vested now s ≡ some v
    → v ≤ℤ s.total_amount
unfolding vested
vested-le now s v sound e =
    let share = share_within s.total_amount (now - s.start_time) s.total_duration in
    ground (arith, sound.released_some, sound.released_within)

sat_cases : (a : ℤ) → (sat_i128 a ≤ℤ a) ⊎ (sat_i128 a ≤ℤ pos 0)
sat_cases (pos n) = inl (omega arith)
sat_cases (negsuc n) = inr (omega arith)

sat_within : (v r t : ℤ) → r ≤ℤ t → v ≤ℤ t → r +ℤ sat_i128 (v -ℤ r) ≤ℤ t
sat_within v r t h k = elim (sat_cases (v -ℤ r)) [
  | inl kept ↦ omega int_laws
  | inr under ↦ omega int_laws
]

pub releasable-le :
    (now : ℕ) (s : VestingSchedule) (amount : ℤ)
    → IsSound s
    → releasable now s ≡ some amount
    → s.released_amount +ℤ amount ≤ℤ s.total_amount
unfolding releasable
releasable-le now s amount sound e = elim (Option-cases (vested now s)) [
  | inl over ↦ ground arith
  | inr (v, f) ↦
      let same : sat_i128 (v -ℤ s.released_amount) ≡ amount = ground arith in
      rw (← same) (
        sat_within v s.released_amount s.total_amount sound.released_within
          (vested-le now s v sound f))
]

module _ {X : Type 0} (host : Host X) where
  -- Every schedule is sound, and the contract has all that is still owed.
  pub record IsBacked (w : World Vesting X) : Type 0 where
    pub sound : Each IsSound w.store.schedules
    pub backed :
        sum_by owed w.store.schedules
        ≤ℤ host.balance w.store.token host.current_contract_address w.outside

module _ {X : Type 0} {host : Host X} (laws : TokenLaws host) where
  added :
      (beneficiary : Address) (schedule : VestingSchedule) (s : Vesting) (x y : X)
      → IsSound schedule
      → schedule.released_amount ≡ pos 0
      → find beneficiary s.schedules ≡ none
      → host.authorized s.admin ≡ true
      → host.transfer s.token s.admin host.current_contract_address schedule.total_amount x ≡ some y
      → IsBacked host (record { store = s; outside = x })
      → IsBacked host (record {
        store = record s { schedules = put beneficiary schedule s.schedules };
        outside = y;
      })
  added beneficiary schedule s x y sound zero_released new signed paid h = record {
    sound = Each-put IsSound beneficiary schedule s.schedules h.sound sound;
    backed =
        let total = sum_by-put_new owed beneficiary schedule s.schedules new in
        let held = received laws s.token s.admin schedule.total_amount x y signed paid in
        rw (total, held, zero_released) (omega (int_laws, h.backed));
  }

  created-IsSound :
      (beneficiary : Address) (total : ℤ) (start cliff duration : ℕ) (revocable : Bool)
      → invalid total cliff duration ≡ false
      → IsSound (created beneficiary total start cliff duration revocable)
  created-IsSound beneficiary total start cliff duration revocable good = record {
    released_some = omega arith;
    released_within = ground arith;
    cliff_within = ground arith;
    lasting = ground arith;
  }

  create_schedule-IsBacked :
      (beneficiary : Address) (total : ℤ) (start cliff duration : ℕ) (revocable : Bool)
      (w : World Vesting X)
      → IsBacked host w
      → IsBacked host
          (committed w (create_schedule host beneficiary total start cliff duration revocable w))
  create_schedule-IsBacked beneficiary total start cliff duration revocable w h =
      elim (create_schedule-cases host beneficiary total start cliff duration revocable w) [
        | inl e ↦ rw e h
        | inr (y, signed, good, new, paid, e) ↦ rw e (
            added beneficiary _ w.store w.outside y
              (created-IsSound beneficiary total start cliff duration revocable good) refl new
              signed paid h)
      ]

  paid_out :
      (beneficiary : Address) (schedule : VestingSchedule) (amount released : ℤ) (s : Vesting)
      (x y : X)
      → find beneficiary s.schedules ≡ some schedule
      → releasable host.timestamp schedule ≡ some amount
      → pos 0 ≤ℤ amount
      → released ≡ schedule.released_amount +ℤ amount
      → host.transfer s.token host.current_contract_address beneficiary amount x ≡ some y
      → IsBacked host (record { store = s; outside = x })
      → IsBacked host (record {
        store = record s {
          schedules = put beneficiary (record schedule { released_amount = released }) s.schedules;
        };
        outside = y;
      })
  paid_out beneficiary schedule amount released s x y found due nonneg e paid h =
      let sound = Each-find IsSound beneficiary schedule s.schedules h.sound found in
      let within = releasable-le host.timestamp schedule amount sound due in
      record {
        sound = Each-put IsSound beneficiary _ s.schedules h.sound (record {
          released_some = rw e (omega (int_laws, sound.released_some));
          released_within = rw e within;
          cliff_within = sound.cliff_within;
          lasting = sound.lasting;
        });
        backed =
            let total =
              sum_by-put owed beneficiary (record schedule { released_amount = released }) schedule
                s.schedules found in
            let held = spent laws s.token beneficiary amount x y nonneg paid in
            omega (
              int_laws,
              ap pos_part total,
              ap neg_part total,
              ap pos_part e,
              ap neg_part e,
              held,
              h.backed,
            );
      }

  release_vested-IsBacked :
      (beneficiary : Address) (w : World Vesting X)
      → IsBacked host w
      → IsBacked host (committed w (release_vested host beneficiary w))
  release_vested-IsBacked beneficiary w h = elim (release_vested-cases host beneficiary w) [
    | inl e ↦ rw e h
    | inr (schedule, amount, y, found, due, some_due, paid, e) ↦ rw e (
        paid_out beneficiary schedule amount _ w.store w.outside y found due (ground arith) refl
          paid h)
  ]

-- The calls that change the contract's storage.
pub data Call : Type 0 where
  create : Address → ℤ → ℕ → ℕ → ℕ → Bool → Call
  release : Address → Call

abbrev pub serve : {X : Type 0} → Host X → Call → World Vesting X → World Vesting X
serve host (create beneficiary total start cliff duration revocable) w =
    committed w (create_schedule host beneficiary total start cliff duration revocable w)
serve host (release beneficiary) w = committed w (release_vested host beneficiary w)

module _ {X : Type 0} (host : Host X) where
  -- Creating a schedule and releasing tokens keep the vesting contract backed: of its token it
  -- holds at least the sum of what all schedules still owe, and every schedule has released no
  -- negative amount and no more than its total, has a positive duration and a cliff within it. A
  -- token's transfer that succeeds moves the amount, and nobody signs for the contract.
  pub serve-IsBacked :
      (c : Call) (w : World Vesting X)
      → TokenLaws host
      → IsBacked host w
      → IsBacked host (serve host c w)
  serve-IsBacked (create beneficiary total start cliff duration revocable) w laws h =
      create_schedule-IsBacked laws beneficiary total start cliff duration revocable w h
  serve-IsBacked (release beneficiary) w laws h = release_vested-IsBacked laws beneficiary w h
