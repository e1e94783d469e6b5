-- ===== src/Examples/Triggers/Price.antt =====
-- A job for a price above or below a threshold: contracts/examples/price-resolver/src/lib.rs.
use sorocron.Base.{ℕ, ◌-◌, Bool, Option, none, some, false, leb, if◌then◌else◌}
use sorocron.Base.Int.{ℤ, leb_ℤ}
use sorocron.Registry.Types.{Address, Symbol}
use sorocron.Soroban.{Host, World, M, ◌>>=◌, ◌>>◌, gets, modify, require_auth}

pub data Asset : Type 0 where
  stellar : Address → Asset
  other : Symbol → Asset

pub record PriceData : Type 0 where
  pub price : ℤ
  pub timestamp : ℕ

pub data Direction : Type 0 where
  above below : Direction

pub record Condition : Type 0 where
  pub oracle : Address
  pub asset : Asset
  pub threshold : ℤ
  pub direction : Direction
  pub max_age : ℕ

pub record PriceResolver : Type 0 where
  pub admin : Address
  pub condition : Condition

unfoldable pub constructor : Address → Condition → PriceResolver
constructor admin condition = record { admin = admin; condition = condition }

unfoldable set_condition :
    {E X : Type 0} → Host X → Condition → M E (World PriceResolver X) (Unit {0})
set_condition host condition = do
  s ← gets (λ s. s)
  require_auth host s.admin
  modify (λ s. record s { condition = condition })

-- What the oracle's `lastprice` returned, `none` where there is no price or the call failed.
unfoldable fresh_price : ℕ → Condition → Option PriceData → Option ℤ
fresh_price now c none = none
fresh_price now c (some latest) =
    if leb (now - latest.timestamp) c.max_age then some latest.price else none

abbrev holds_at : Direction → ℤ → ℤ → Bool
holds_at above price threshold = leb_ℤ threshold price
holds_at below price threshold = leb_ℤ price threshold

module _ {X : Type 0} (lastprice : Address → Asset → X → Option PriceData) where
  unfoldable pub price : ℕ → World PriceResolver X → Option ℤ
  unfolding fresh_price
  price now w =
      let c = w.store.condition in fresh_price now c (lastprice c.oracle c.asset w.outside)

  unfoldable pub should_run : ℕ → World PriceResolver X → Bool
  unfolding price
  should_run now w = elim (price now w) [
    | none ↦ false
    | some p ↦ holds_at w.store.condition.direction p w.store.condition.threshold
  ]
