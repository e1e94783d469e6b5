-- ===== src/Registry/Schedule/Average.antt =====
-- The moving averages of a keeper: contracts/registry/src/schedule.rs, `smooth`.
use sorocron.Base.{ℕ, ◌*◌, ◌/◌, ◌≤◌, List, [], ◌∷◌, arith}
use sorocron.Registry.Schedule.{smooth}

-- All samples are at most `m`.
abbrev pub AllAtMost : ℕ → List ℕ → Type 0
AllAtMost m [] = Unit {0}
AllAtMost m (x ∷ xs) = (x ≤ m) × AllAtMost m xs

abbrev pub smooth_all : ℕ → List ℕ → ℕ
smooth_all scaled [] = scaled
smooth_all scaled (x ∷ xs) = smooth_all (smooth scaled x) xs

smooth-le : (m scaled x : ℕ) → scaled / 8 ≤ m → scaled ≤ 8 * m → x ≤ m → smooth scaled x ≤ 8 * m
unfolding smooth
smooth-le m scaled x h k l = ground arith

-- A moving average never exceeds the largest sample: if the scaled value starts at most at eight
-- times a bound and every sample is at most the bound, then after all samples the eighth of it
-- that the views show is at most the bound.
pub smooth_all-bounds :
    (m scaled : ℕ) (xs : List ℕ) → scaled ≤ 8 * m → AllAtMost m xs → smooth_all scaled xs / 8 ≤ m
smooth_all-bounds m scaled [] h a = omega arith
smooth_all-bounds m scaled (x ∷ xs) h (l, a) =
    smooth_all-bounds m (smooth scaled x) xs (smooth-le m scaled x (omega arith) h l) a
