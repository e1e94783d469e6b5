-- ===== src/Base/Word.antt =====
-- Machine integers. A u32 or u64 is a native number, an i128 an integer; the operations saturate,
-- are checked (`none` on overflow), or overflow with a panic, which is the same `none`: the release
-- profile of Cargo.toml sets overflow-checks.
use Prim.Native.Nat.{ℕ, ◌+◌, ◌-◌, ◌*◌, ◌%◌, min}
use mathlib.Core.Bool.{Bool}
use mathlib.Core.Option.{Option, none, some}
use sorocron.Base.Tests.{ltb, leb, if◌then◌else◌}
use sorocron.Base.Int.{ℤ, pos, negsuc}

abbrev pub u32_max : ℕ
u32_max = 4294967295

abbrev pub u64_max : ℕ
u64_max = 18446744073709551615

-- 2 ^ 127: an i128 lies from its negation up to one less than it.
abbrev pub i128_bound : ℕ
i128_bound = 170141183460469231731687303715884105728

-- `saturating_add`, `saturating_mul` at u64; `saturating_sub` is the subtraction of the numbers.
abbrev pub sat_add : ℕ → ℕ → ℕ
sat_add a b = min (a + b) u64_max

abbrev pub sat_mul : ℕ → ℕ → ℕ
sat_mul a b = min (a * b) u64_max

-- `saturating_add(1)` at u32.
abbrev pub sat_suc : ℕ → ℕ
sat_suc a = min (a + 1) u32_max

abbrev pub checked_u64 : ℕ → Option ℕ
checked_u64 n = if leb n u64_max then some n else none

abbrev pub checked_u32 : ℕ → Option ℕ
checked_u32 n = if leb n u32_max then some n else none

abbrev pub in_i128 : ℤ → Bool
in_i128 (pos n) = ltb n i128_bound
in_i128 (negsuc n) = ltb n i128_bound

abbrev pub checked_i128 : ℤ → Option ℤ
checked_i128 a = if in_i128 a then some a else none

-- An i128 operation that saturates.
abbrev pub sat_i128 : ℤ → ℤ
sat_i128 (pos n) = pos (min n (i128_bound - 1))
sat_i128 (negsuc n) = negsuc (min n (i128_bound - 1))

-- An i128 operation that wraps, as a release build does without overflow-checks.
abbrev pub wrap_i128 : ℤ → ℤ
wrap_i128 (pos n) =
    let m = n % (2 * i128_bound) in
    if ltb m i128_bound then pos m else negsuc (2 * i128_bound - 1 - m)
wrap_i128 (negsuc n) =
    let m = n % (2 * i128_bound) in
    if ltb m i128_bound then negsuc m else pos (2 * i128_bound - 1 - m)
