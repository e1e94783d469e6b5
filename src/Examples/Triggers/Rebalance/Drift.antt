-- ===== src/Examples/Triggers/Rebalance/Drift.antt =====
-- What the deviation of a pool is: contracts/examples/rebalance-resolver/src/lib.rs.
use sorocron.Base.{ℕ, ◌+◌, ◌-◌, ◌*◌, ◌/◌, ◌<◌, ◌≡◌, some, arith}
use sorocron.Base.Int.{pos, ◌-ℤ◌, ◌*ℤ◌, quot, *ℤ-pos}
use sorocron.Base.Word.{i128_bound, checked_i128}
use sorocron.Examples.Triggers.Rebalance.{ratio_scale, abs_ℤ, deviation_of}

-- The distance of two numbers.
abbrev distance : ℕ → ℕ → ℕ
distance a b = (a - b) + (b - a)

-- The pool's ratio, scaled.
abbrev pool_ratio : ℕ → ℕ → ℕ
pool_ratio r0 r1 = r0 * 10000000 / r1

distance-abs : (a b : ℕ) → abs_ℤ (pos a -ℤ pos b) ≡ pos (distance a b)
unfolding ◌-ℤ◌
distance-abs a b = ground arith

pool_ratio-le : (r0 r1 : ℕ) → r0 * 10000000 < i128_bound → pool_ratio r0 r1 < i128_bound
pool_ratio-le r0 r1 h = grind arith

checked_pos : (n : ℕ) → n < i128_bound → checked_i128 (pos n) ≡ some (pos n)
checked_pos n h = ground arith

checked_sub :
    (a b : ℕ)
    → a < i128_bound
    → b < i128_bound
    → checked_i128 (pos a -ℤ pos b) ≡ some (pos a -ℤ pos b)
unfolding ◌-ℤ◌
checked_sub a b h k = ground arith

deviation_of_lem :
    (ratio r0 r1 : ℕ)
    → 0 < ratio
    → 0 < r0
    → 0 < r1
    → ratio < i128_bound
    → r0 * 10000000 < i128_bound
    → distance (pool_ratio r0 r1) ratio * 10000 < i128_bound
    → deviation_of (pos ratio) (pos r0) (pos r1)
      ≡ some (some (pos (distance (pool_ratio r0 r1) ratio * 10000 / ratio)))
unfolding deviation_of quot
deviation_of_lem ratio r0 r1 a b c small fits scaled =
    let pool = pool_ratio r0 r1 in
    let le = pool_ratio-le r0 r1 fits in
    let product : checked_i128 (pos r0 *ℤ pos ratio_scale) ≡ some (pos (r0 * 10000000)) =
      rw (*ℤ-pos r0 10000000) (checked_pos (r0 * 10000000) fits) in
    let difference = checked_sub pool ratio le small in
    let size : checked_i128 (abs_ℤ (pos pool -ℤ pos ratio)) ≡ some (pos (distance pool ratio)) =
      rw (distance-abs pool ratio) (checked_pos (distance pool ratio) (omega arith)) in
    let times : checked_i128 (pos (distance pool ratio) *ℤ pos 10000)
        ≡ some (pos (distance pool ratio * 10000)) =
      rw (*ℤ-pos (distance pool ratio) 10000) (checked_pos (distance pool ratio * 10000) scaled) in
    ground (arith, product, difference, size, times)
