-- ===== src/Registry/Schedule/Fees.antt =====
-- What `split_fee` and `ramped_fee` compute: contracts/registry/src/schedule.rs.
use sorocron.Base.{
  ℕ, zero, suc, ◌+◌, ◌-◌, ◌*◌, ◌/◌, ◌%◌, ◌≤◌, ◌<◌, min, max, ◌≡◌, ap, ◌⊎◌, inl, inr, true, ◌||◌,
  some, arith, leb, ltb, ◌==◌, if◌then◌else◌, Bool-cases, Option-cases, ◌∙◌,
}
use sorocron.Base.Int.{
  ℤ, pos, negsuc, ◌+ℤ◌, ◌-ℤ◌, ◌≤ℤ◌, ◌<ℤ◌, quot, rem, pos_part, +ℤ-pos, -ℤ-pos, *ℤ-pos,
}
use sorocron.Base.Word.{i128_bound, in_i128, checked_i128}
use sorocron.Registry.Types.{JobSpec, JobState}
use sorocron.Registry.Schedule.{split_fee, uncapped_fee, ramped_fee}

checked_pos : (n : ℕ) → n < i128_bound → checked_i128 (pos n) ≡ some (pos n)
checked_pos n h = ground arith

split_parts : (n bps : ℕ) → n / 10000 * bps + n % 10000 * bps / 10000 ≡ n * bps / 10000
split_parts n bps =
    let e : n ≡ 10000 * (n / 10000) + n % 10000 = omega arith in
    omega (arith, ap (λ (t : ℕ). t * bps) e)

mul_le : (a b c d : ℕ) → a ≤ c → b ≤ d → a * b ≤ c * d
mul_le a b c d h k = grind arith

share_le : (n bps : ℕ) → bps ≤ 10000 → n * bps / 10000 ≤ n
share_le n bps h = omega (arith, mul_le n bps n 10000 (omega arith) h)

split_pos :
    (n bps : ℕ)
    → 0 < n
    → 0 < bps
    → n < i128_bound
    → bps ≤ 10000
    → split_fee (pos n) bps ≡ some (pos (n - n * bps / 10000), pos (n * bps / 10000))
unfolding split_fee quot rem
split_pos n bps hn hb h k =
    let whole = mul_le (n / 10000) bps (n / 10000) 10000 (omega arith) k in
    let part = mul_le (n % 10000) bps 9999 10000 (omega arith) k in
    let fits = share_le n bps k in
    let parts = split_parts n bps in
    ground (
      arith,
      *ℤ-pos (n / 10000) bps,
      *ℤ-pos (n % 10000) bps,
      +ℤ-pos (n / 10000 * bps) (n % 10000 * bps / 10000),
      -ℤ-pos n (n * bps / 10000),
    )

-- The share of an amount: `bps` basis points rounded down, and nothing of a negative amount.
abbrev pub share_of : ℤ → ℕ → ℤ
share_of amount bps = pos (pos_part amount * bps / 10000)

-- `split_fee` never overflows for an amount within the i128 and at most 10,000 basis points: it
-- returns the share, which is the exact product divided by 10,000 and rounded down, or nothing of
-- a negative amount, and the rest, which is the amount less that share.
pub split_fee_lem :
    (amount : ℤ) (bps : ℕ)
    → in_i128 amount ≡ true
    → bps ≤ 10000
    → split_fee amount bps ≡ some (amount -ℤ share_of amount bps, share_of amount bps)
split_fee_lem (negsuc n) bps h k = unfold split_fee ◌-ℤ◌ in ground arith
split_fee_lem (pos zero) bps h k = unfold split_fee ◌-ℤ◌ in ground arith
split_fee_lem (pos (suc n)) bps h k = elim (Bool-cases (bps == 0)) [
  | inl off ↦ unfold split_fee ◌-ℤ◌ in ground arith
  | inr on ↦ ground (
    arith,
    split_pos (suc n) bps (omega arith) (ground arith) (ground arith) k,
    -ℤ-pos (suc n) (suc n * bps / 10000) (share_le (suc n) bps k),
  )
]

-- The fee of a run that is `late` seconds late, for a base fee `b`, a ceiling `c` and an interval `i`.
abbrev pub ramp : ℕ → ℕ → ℕ → ℕ → ℕ
ramp b c i late =
    if leb c b || i == 0
    then b
    else if leb i late
    then c
    else if ltb ((c - b) * late) i128_bound
    then b + (c - b) * late / i
    else c

extra_le : (span late i : ℕ) → late < i → span * late / i ≤ span
extra_le span late i h = grind arith

uncapped_fee_lem :
    (b c i late : ℕ)
    → b < i128_bound
    → c < i128_bound
    → uncapped_fee (pos b) (pos c) i late ≡ some (pos (ramp b c i late))
unfolding uncapped_fee quot
uncapped_fee_lem b c i late hb hc = ground (
  arith,
  -ℤ-pos c b,
  *ℤ-pos (c - b) late,
  +ℤ-pos b ((c - b) * late / i),
  +ℤ-pos b (c - b),
  extra_le (c - b) late i,
)

div_mono : (m n i : ℕ) → m ≤ n → m / i ≤ n / i
div_mono m n i h = grind arith

ramp_bounds :
    (b c i late : ℕ) → (b ≤ ramp b c i late) × ((ramp b c i late ≤ c) ⊎ (ramp b c i late ≡ b))
ramp_bounds b c i late = ground (arith, extra_le (c - b) late i)

ramp_mono : (b c i l l' : ℕ) → l ≤ l' → ramp b c i l ≤ ramp b c i l'
ramp_mono b c i l l' h = ground (
  arith,
  extra_le (c - b) l i,
  extra_le (c - b) l' i,
  div_mono ((c - b) * l) ((c - b) * l') i,
  mul_le (c - b) l (c - b) l',
)

-- A job whose fees are in the range that `validate_schedule` and the i128 leave.
module _ (spec : JobSpec) (state : JobState) (b c m : ℕ) where
  pub ramped_fee_lem :
      (now : ℕ)
      → spec.fee_per_run ≡ pos b
      → spec.max_fee_per_run ≡ pos c
      → b < i128_bound
      → c < i128_bound
      → state.balance ≡ pos m
      → ramped_fee spec state now
        ≡ some (pos (min (ramp b c spec.interval (now - state.next_run)) m))
  unfolding ramped_fee
  ramped_fee_lem now eb ec hb hc em =
      ground (arith, uncapped_fee_lem b c spec.interval (now - state.next_run) hb hc)

  -- For a job with fees within the i128 whose balance `m` covers the base fee `b`, as
  -- `ensure_due` asks, the fee is always computed, it is at least `b`, at most the balance and at
  -- most the larger of `b` and the ceiling `c`; it is `b` while the run is not late, and the
  -- ceiling (or the balance, if that is less) once the run is a full interval late, for a ceiling
  -- of at least `b`.
  pub ramped_fee_bounds :
      (now : ℕ)
      → spec.fee_per_run ≡ pos b
      → spec.max_fee_per_run ≡ pos c
      → b < i128_bound
      → c < i128_bound
      → state.balance ≡ pos m
      → b ≤ m
      → (fee : ℕ) × (ramped_fee spec state now ≡ some (pos fee))
        × (b ≤ fee)
        × (fee ≤ m)
        × (fee ≤ max b c)
        × (now ≤ state.next_run → fee ≡ b)
        × (0 < spec.interval → b ≤ c → state.next_run + spec.interval ≤ now → fee ≡ min c m)
  ramped_fee_bounds now eb ec hb hc em covers =
      let late = now - state.next_run in
      let fee = ramp b c spec.interval late in
      let bounds = ramp_bounds b c spec.interval late in
      (
        min fee m,
        ramped_fee_lem now eb ec hb hc em,
        omega arith,
        omega arith,
        omega arith,
        λ h. ground arith,
        λ p q h. ground arith,
      )

  -- For fees within the i128 and a balance that is not negative, the fee of a job never falls
  -- while its run waits: at a later time it is at least as high.
  pub ramped_fee_mono :
      (now later : ℕ)
      → spec.fee_per_run ≡ pos b
      → spec.max_fee_per_run ≡ pos c
      → b < i128_bound
      → c < i128_bound
      → state.balance ≡ pos m
      → now ≤ later
      → (fee fee' : ℕ) × (ramped_fee spec state now ≡ some (pos fee))
        × (ramped_fee spec state later ≡ some (pos fee'))
        × (fee ≤ fee')
  ramped_fee_mono now later eb ec hb hc em h =
      let rises =
        ramp_mono b c spec.interval (now - state.next_run) (later - state.next_run) (omega arith) in
      (
        min (ramp b c spec.interval (now - state.next_run)) m,
        min (ramp b c spec.interval (later - state.next_run)) m,
        ramped_fee_lem now eb ec hb hc em,
        ramped_fee_lem later eb ec hb hc em,
        omega arith,
      )

-- Where `split_fee` returns at all, the two parts of a fee that is not negative are not negative and
-- add up to it.
split_pos-parts :
    (n bps : ℕ) (k p : ℤ)
    → bps ≤ 10000
    → split_fee (pos n) bps ≡ some (k, p)
    → (k ≡ pos (n - n * bps / 10000)) × (p ≡ pos (n * bps / 10000))
unfolding split_fee quot rem
split_pos-parts zero bps k p h e = ground arith
split_pos-parts (suc m) bps k p h e =
    let n = suc m in
    let fits = share_le n bps h in
    let parts = split_parts n bps in
    ground (
      arith,
      *ℤ-pos (n / 10000) bps,
      *ℤ-pos (n % 10000) bps,
      +ℤ-pos (n / 10000 * bps) (n % 10000 * bps / 10000),
      -ℤ-pos n (n * bps / 10000),
    )

pub split_fee-parts :
    (fee : ℤ) (bps : ℕ) (k p : ℤ)
    → pos 0 ≤ℤ fee
    → bps ≤ 10000
    → split_fee fee bps ≡ some (k, p)
    → (pos 0 ≤ℤ k) × (pos 0 ≤ℤ p) × (k +ℤ p ≡ fee)
split_fee-parts (pos n) bps k p q h e =
    let (ek, ep) = split_pos-parts n bps k p h e in
    let fits = share_le n bps h in
    rw (ek, ep) (omega arith, omega arith, +ℤ-pos _ _ ∙ ap pos (omega arith))
split_fee-parts (negsuc n) bps k p q h e = absurd (omega arith)

-- Where `ramped_fee` returns at all, the fee of a funded job is between nothing and its balance.
uncapped-nonneg :
    (base ceiling : ℤ) (i late : ℕ) (fee : ℤ)
    → pos 0 <ℤ base
    → uncapped_fee base ceiling i late ≡ some fee
    → pos 0 ≤ℤ fee
unfolding uncapped_fee quot
uncapped-nonneg (negsuc b) ceiling i late fee p e = absurd (omega arith)
uncapped-nonneg (pos b) (negsuc c) i late fee p e = ground arith
uncapped-nonneg (pos b) (pos c) i late fee p e =
    ground (arith, -ℤ-pos c b, *ℤ-pos (c - b) late, +ℤ-pos b ((c - b) * late / i), +ℤ-pos b (c - b))

pub ramped_fee-covered :
    (spec : JobSpec) (state : JobState) (now : ℕ) (fee : ℤ)
    → pos 0 <ℤ spec.fee_per_run
    → spec.fee_per_run ≤ℤ state.balance
    → ramped_fee spec state now ≡ some fee
    → (pos 0 ≤ℤ fee) × (fee ≤ℤ state.balance)
unfolding ramped_fee
ramped_fee-covered spec state now fee p covers h =
    elim (Option-cases
      (uncapped_fee spec.fee_per_run spec.max_fee_per_run spec.interval (now - state.next_run))) [
        | inl overflow ↦ ground arith
        | inr (f, e) ↦ let nonneg = uncapped-nonneg _ _ _ _ f p e in ground arith
      ]
