-- ===== src/Examples/Triggers/Rebalance.antt =====
-- A job for a pool that has drifted: contracts/examples/rebalance-resolver/src/lib.rs.
pub mod Drift
use sorocron.Base.{ℕ, ◌+◌, Bool, ◌||◌, Option, none, some, false, if◌then◌else◌}
use sorocron.Base.Int.{ℤ, pos, negsuc, pos_part, ◌-ℤ◌, ◌*ℤ◌, quot, leb_ℤ}
use sorocron.Base.Word.{checked_i128}
use sorocron.Registry.Types.{Address}
use sorocron.Soroban.{Host, World, M, ◌>>=◌, ◌>>◌, gets, modify, require_auth}

abbrev pub ratio_scale : ℕ
ratio_scale = 10000000

pub record Target : Type 0 where
  pub pair : Address
  pub ratio : ℤ
  pub threshold_bps : ℕ

pub record RebalanceResolver : Type 0 where
  pub admin : Address
  pub target : Target

unfoldable pub constructor : Address → Target → RebalanceResolver
constructor admin target = record { admin = admin; target = target }

unfoldable set_target :
    {E X : Type 0} → Host X → Target → M E (World RebalanceResolver X) (Unit {0})
set_target host target = do
  s ← gets (λ s. s)
  require_auth host s.admin
  modify (λ s. record s { target = target })

abbrev pub abs_ℤ : ℤ → ℤ
abs_ℤ (pos n) = pos n
abs_ℤ (negsuc n) = pos (n + 1)

-- `none` is a panic: of the difference or of its absolute value. The divisors are positive.
unfoldable pub deviation_of : ℤ → ℤ → ℤ → Option (Option ℤ)
deviation_of ratio r0 r1 =
    if leb_ℤ r0 (pos 0) || (leb_ℤ r1 (pos 0) || leb_ℤ ratio (pos 0))
    then some none
    else elim (checked_i128 (r0 *ℤ pos ratio_scale)) [
      | none ↦ some none
      | some product ↦ elim (checked_i128 (quot product (pos_part r1) -ℤ ratio)) [
        | none ↦ none
        | some difference ↦ elim (checked_i128 (abs_ℤ difference)) [
          | none ↦ none
          | some size ↦ elim (checked_i128 (size *ℤ pos 10000)) [
            | none ↦ some none
            | some scaled ↦ some (some (quot scaled (pos_part ratio)))
          ]
        ]
      ]
    ]

-- By what the pool's `get_reserves` returned, `none` where the call failed.
abbrev deviation_bps : Target → Option (ℤ × ℤ) → Option (Option ℤ)
deviation_bps t none = some none
deviation_bps t (some (r0, r1)) = deviation_of t.ratio r0 r1

module _ {X : Type 0} (get_reserves : Address → X → Option (ℤ × ℤ)) where
  unfoldable pub should_run : World RebalanceResolver X → Option Bool
  should_run w =
      let t = w.store.target in
      elim (deviation_bps t (get_reserves t.pair w.outside)) [
        | none ↦ none
        | some none ↦ some false
        | some (some d) ↦ some (leb_ℤ (pos t.threshold_bps) d)
      ]
