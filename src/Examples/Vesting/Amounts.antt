-- ===== src/Examples/Vesting/Amounts.antt =====
-- How much has vested: contracts/examples/vesting/src/lib.rs, `vested_amount`.
use sorocron.Base.{
  ℕ, zero, suc, ◌+◌, ◌-◌, ◌*◌, ◌/◌, ◌≤◌, ◌<◌, ◌≡◌, false, some, ltb, leb, if◌then◌else◌, arith,
}
use sorocron.Base.Int.{pos, quot, *ℤ-pos}
use sorocron.Base.Word.{u64_max, i128_bound}
use sorocron.Examples.Vesting.{VestingSchedule, vested}

-- The amount at a time by the clock: nothing before the cliff, all at the end, and a share of `n` in
-- proportion to the time passed in between, rounded down.
abbrev pub linear : ℕ → ℕ → ℕ → ℕ → ℕ → ℕ
linear n start cliff duration now =
    if ltb now (start + cliff)
    then 0
    else if leb (start + duration) now
    then n
    else n * (now - start) / duration

div_mono : (m n d : ℕ) → m ≤ n → m / d ≤ n / d
div_mono m n d h = grind arith

mul_le : (a b c d : ℕ) → a ≤ c → b ≤ d → a * b ≤ c * d
mul_le a b c d h k = grind arith

div_le : (p n d : ℕ) → p ≤ n * d → p / d ≤ n
div_le p n zero h = omega arith
div_le p n (suc d) h = grind arith

share_mono : (n d a b : ℕ) → a ≤ b → n * a / d ≤ n * b / d
share_mono n d a b h = div_mono (n * a) (n * b) d (mul_le n a n b (omega arith) h)

pub share_le : (n d a : ℕ) → a ≤ d → n * a / d ≤ n
share_le n d a h = div_le (n * a) n d (mul_le n a n d (omega arith) h)

pub linear-le : (n start cliff duration now : ℕ) → linear n start cliff duration now ≤ n
linear-le n start cliff duration now = let le = share_le n duration (now - start) in ground arith

linear_mono :
    (n start cliff duration now later : ℕ)
    → now ≤ later
    → linear n start cliff duration now ≤ linear n start cliff duration later
linear_mono n start cliff duration now later h =
    let le = share_le n duration (now - start) in
    let mono = share_mono n duration (now - start) (later - start) (omega arith) in ground arith

pub vested_lem :
    (now n : ℕ) (s : VestingSchedule)
    → s.revoked ≡ false
    → s.cliff_duration ≤ s.total_duration
    → s.start_time + s.total_duration ≤ u64_max
    → n * s.total_duration < i128_bound
    → s.total_amount ≡ pos n
    → vested now s ≡ some (pos (linear n s.start_time s.cliff_duration s.total_duration now))
unfolding vested quot
vested_lem now n s r h k fits e =
    let le = mul_le n (now - s.start_time) n s.total_duration in
    ground (arith, *ℤ-pos n (now - s.start_time))
