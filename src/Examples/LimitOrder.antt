-- ===== src/Examples/LimitOrder.antt =====
-- A limit order filled through the router: contracts/examples/limit-order/src/lib.rs.
pub mod Fills
use sorocron.Base.{
  ℕ, Bool, true, false, ◌&&◌, ◌||◌, not, Option, none, some, List, [], ◌∷◌, leb, ◌==◌,
  if◌then◌else◌, is_some,
}
use sorocron.Base.Int.{ℤ, pos, ltb_ℤ, leb_ℤ}
use sorocron.Registry.Types.{Address}
use sorocron.Soroban.{
  Host, World, M, returns, fails, ◌>>=◌, ◌>>◌, pure, gets, asks, modify, fail_if, check,
  require_auth, transfer,
}
use sorocron.Soroban.Router.{Router, last_or_zero, swap}

pub data Error : Type 0 where
  invalid_order not_funded closed expired price_not_reached : Error

pub record Order : Type 0 where
  pub owner : Address
  pub router : Address
  pub sell_token : Address
  pub buy_token : Address
  pub amount_in : ℤ
  pub min_amount_out : ℤ
  pub expires_at : ℕ
  pub funded : Bool
  pub is_open : Bool
  pub filled_out : ℤ

-- `none` is the panic with `InvalidOrder`.
unfoldable pub constructor : Address → Address → Address → Address → ℤ → ℤ → ℕ → Option Order
constructor owner router sell_token buy_token amount_in min_amount_out expires_at =
    if leb_ℤ amount_in (pos 0) || (leb_ℤ min_amount_out (pos 0) || sell_token == buy_token)
    then none
    else some (record {
      owner = owner;
      router = router;
      sell_token = sell_token;
      buy_token = buy_token;
      amount_in = amount_in;
      min_amount_out = min_amount_out;
      expires_at = expires_at;
      funded = false;
      is_open = true;
      filled_out = pos 0;
    })

-- The error, if the order cannot fill.
abbrev pub ensure_fillable : ℕ → Order → Option Error
ensure_fillable now order =
    if not order.is_open
    then some closed
    else if not order.funded
    then some not_funded
    else if not (order.expires_at == 0) && leb order.expires_at now
    then some expired
    else none

abbrev pub path : Order → List Address
path order = order.sell_token ∷ order.buy_token ∷ []

abbrev quoted : Option (List ℤ) → ℤ
quoted none = pos 0
quoted (some amounts) = last_or_zero amounts

module _ {X : Type 0} (host : Host X) (router : Router X) where
  unfoldable pub fund : M Error (World Order X) (Unit {0})
  fund = do
    order ← gets (λ order. order)
    require_auth host order.owner
    fail_if (not order.is_open || order.funded) closed
    transfer host order.sell_token order.owner host.current_contract_address order.amount_in
    modify (λ o. record order { funded = true })

  abbrev pub quote : Order → X → ℤ
  quote order x = quoted (router.router_get_amounts_out order.router order.amount_in (path order) x)

  unfoldable pub fill : M Error (World Order X) ℤ
  fill = do
    order ← gets (λ order. order)
    check (ensure_fillable host.timestamp order)
    price ← asks (quote order)
    fail_if (ltb_ℤ price order.min_amount_out) price_not_reached
    modify (λ o. record order { is_open = false })
    out ←
        swap host router order.router order.sell_token order.buy_token order.amount_in
          order.min_amount_out
    transfer host order.buy_token host.current_contract_address order.owner out
    modify (λ o. record order { is_open = false; filled_out = out })
    pure out

  -- What `cancel` gives back.
  abbrev refund : Bool → Order → M Error (World Order X) ℤ
  refund true order = do
    transfer host order.sell_token host.current_contract_address order.owner order.amount_in
    pure order.amount_in
  refund false order = pure (pos 0)

  unfoldable pub cancel : M Error (World Order X) ℤ
  cancel = do
    order ← gets (λ order. order)
    require_auth host order.owner
    fail_if (not order.is_open) closed
    modify (λ o. record order { is_open = false })
    refund order.funded order

  unfoldable pub should_run : World Order X → Bool
  should_run w =
      not (is_some (ensure_fillable host.timestamp w.store))
      && leb_ℤ w.store.min_amount_out (quote w.store w.outside)
