-- ===== src/Examples/Triggers/NftFloor.antt =====
-- A job for a floor price below a threshold: contracts/examples/nft-floor-trigger/src/lib.rs.
use sorocron.Base.{ℕ, ◌-◌, Bool, Option, none, some, false, leb, if◌then◌else◌}
use sorocron.Base.Int.{ℤ, ltb_ℤ}
use sorocron.Registry.Types.{Address}
use sorocron.Soroban.{Host, World, M, ◌>>=◌, ◌>>◌, gets, modify, require_auth}

pub record FloorPrice : Type 0 where
  pub price : ℤ
  pub timestamp : ℕ

pub record Trigger : Type 0 where
  pub index : Address
  pub collection : Address
  pub threshold : ℤ
  pub max_age : ℕ

pub record NftFloorTrigger : Type 0 where
  pub admin : Address
  pub trigger : Trigger

unfoldable pub constructor : Address → Trigger → NftFloorTrigger
constructor admin trigger = record { admin = admin; trigger = trigger }

unfoldable set_trigger :
    {E X : Type 0} → Host X → Trigger → M E (World NftFloorTrigger X) (Unit {0})
set_trigger host trigger = do
  s ← gets (λ s. s)
  require_auth host s.admin
  modify (λ s. record s { trigger = trigger })

-- What the index returned, `none` where there is no price or the call failed.
abbrev fresh_floor : ℕ → Trigger → Option FloorPrice → Option ℤ
fresh_floor now t none = none
fresh_floor now t (some latest) =
    if leb (now - latest.timestamp) t.max_age then some latest.price else none

module _ {X : Type 0} (floor_price : Address → Address → X → Option FloorPrice) where
  unfoldable floor : ℕ → World NftFloorTrigger X → Option ℤ
  floor now w =
      let t = w.store.trigger in fresh_floor now t (floor_price t.index t.collection w.outside)

  unfoldable pub should_run : ℕ → World NftFloorTrigger X → Bool
  unfolding floor
  should_run now w = elim (floor now w) [
    | none ↦ false
    | some p ↦ ltb_ℤ p w.store.trigger.threshold
  ]
