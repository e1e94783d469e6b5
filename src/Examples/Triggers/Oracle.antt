-- ===== src/Examples/Triggers/Oracle.antt =====
-- A job for a price that the admin feeds: contracts/examples/oracle-trigger/src/lib.rs.
use sorocron.Base.{Bool, Option, none, some, true, false, not, if◌then◌else◌}
use sorocron.Base.Int.{ℤ, pos, leb_ℤ}
use sorocron.Registry.Types.{Address}
use sorocron.Soroban.{Host, World, M, ◌>>=◌, ◌>>◌, gets, modify, panic_if, require_auth}

-- Declared by the contract; every refusal is a panic instead.
pub data OracleError : Type 0 where
  unauthorized invalid_price : OracleError

pub record TriggerConfig : Type 0 where
  pub current_price : ℤ
  pub threshold_price : ℤ
  pub trigger_below : Bool
  pub active : Bool

pub record OracleTrigger : Type 0 where
  pub admin : Address
  pub config : TriggerConfig

unfoldable pub constructor : Address → ℤ → Bool → Option OracleTrigger
constructor admin threshold_price trigger_below =
    if leb_ℤ threshold_price (pos 0)
    then none
    else some (record {
      admin = admin;
      config = record {
        current_price = threshold_price;
        threshold_price = threshold_price;
        trigger_below = trigger_below;
        active = true;
      };
    })

module _ {X : Type 0} (host : Host X) where
  unfoldable update_price : ℤ → M OracleError (World OracleTrigger X) (Unit {0})
  update_price price = do
    s ← gets (λ s. s)
    require_auth host s.admin
    panic_if (leb_ℤ price (pos 0))
    modify (λ s. record s { config = record (s.config) { current_price = price } })

  unfoldable set_threshold : ℤ → Bool → M OracleError (World OracleTrigger X) (Unit {0})
  set_threshold threshold_price trigger_below = do
    s ← gets (λ s. s)
    require_auth host s.admin
    panic_if (leb_ℤ threshold_price (pos 0))
    modify (λ s. record s {
      config = record (s.config) {
        threshold_price = threshold_price;
        trigger_below = trigger_below;
      };
    })

unfoldable pub should_run : OracleTrigger → Bool
should_run s =
    if not s.config.active
    then false
    else if s.config.trigger_below
    then leb_ℤ s.config.current_price s.config.threshold_price
    else leb_ℤ s.config.threshold_price s.config.current_price
