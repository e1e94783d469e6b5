-- ===== src/Examples/Dca.antt =====
-- The vault that swaps a fixed amount at intervals: contracts/examples/dca/src/lib.rs.
pub mod Swaps
pub mod Pace
use sorocron.Base.{
  ℕ, ◌+◌, Bool, true, false, ◌&&◌, ◌||◌, not, Option, none, some, List, [], ◌∷◌, ltb, leb, ◌==◌,
  if◌then◌else◌, is_some,
}
use sorocron.Base.Int.{ℤ, pos, ◌*ℤ◌, quot, ltb_ℤ, leb_ℤ}
use sorocron.Base.Word.{checked_u32, checked_u64, checked_i128}
use sorocron.Registry.Types.{Address}
use sorocron.Soroban.{
  Host, World, M, Outcome, returns, ◌>>=◌, ◌>>◌, pure, gets, asks, modify, moved, or_trap, fail_if,
  check, when, require_auth, transfer,
}
use sorocron.Soroban.Router.{Router, swap}

abbrev pub price_scale : ℕ
price_scale = 10000000

pub data DcaError : Type 0 where
  invalid_parameters plan_not_active not_due_yet max_swaps_reached insufficient_balance : DcaError

pub record DcaPlan : Type 0 where
  pub owner : Address
  pub router : Address
  pub sell_token : Address
  pub buy_token : Address
  pub amount_per_swap : ℤ
  pub interval : ℕ
  pub max_swaps : ℕ
  pub min_price : ℤ
  pub executed_swaps : ℕ
  pub next_swap_at : ℕ
  pub active : Bool

-- `none` is the panic with `InvalidParameters`.
unfoldable pub constructor :
    ℕ → Address → Address → Address → Address → ℤ → ℕ → ℕ → ℤ → Option DcaPlan
constructor now owner router sell_token buy_token amount_per_swap interval max_swaps min_price =
    if leb_ℤ amount_per_swap (pos 0)
      || (interval == 0 || (max_swaps == 0 || (ltb_ℤ min_price (pos 0) || sell_token == buy_token)))
    then none
    else some (record {
      owner = owner;
      router = router;
      sell_token = sell_token;
      buy_token = buy_token;
      amount_per_swap = amount_per_swap;
      interval = interval;
      max_swaps = max_swaps;
      min_price = min_price;
      executed_swaps = 0;
      next_swap_at = now;
      active = true;
    })

-- The error, if a tranche is not due.
abbrev pub ensure_due : ℕ → DcaPlan → Option DcaError
ensure_due now plan =
    if leb plan.max_swaps plan.executed_swaps
    then some max_swaps_reached
    else if not plan.active
    then some plan_not_active
    else if ltb now plan.next_swap_at
    then some not_due_yet
    else none

module _ {X : Type 0} (host : Host X) (router : Router X) where
  unfoldable pub deposit : Address → ℤ → M DcaError (World DcaPlan X) (Unit {0})
  deposit from amount = do
    require_auth host from
    fail_if (leb_ℤ amount (pos 0)) invalid_parameters
    plan ← gets (λ plan. plan)
    transfer host plan.sell_token from host.current_contract_address amount

  unfoldable pub swap_tranche : M DcaError (World DcaPlan X) ℤ
  swap_tranche = do
    plan ← gets (λ plan. plan)
    check (ensure_due host.timestamp plan)
    balance ← asks (host.balance plan.sell_token host.current_contract_address)
    fail_if (ltb_ℤ balance plan.amount_per_swap) insufficient_balance
    executed ← or_trap (checked_u32 (plan.executed_swaps + 1))
    next ← or_trap (checked_u64 (host.timestamp + plan.interval))
    modify (λ plan. record plan {
      executed_swaps = executed;
      next_swap_at = next;
      active = ltb executed plan.max_swaps;
    })
    product ← or_trap (checked_i128 (plan.amount_per_swap *ℤ plan.min_price))
    received ←
        swap host router plan.router plan.sell_token plan.buy_token plan.amount_per_swap
          (quot product price_scale)
    transfer host plan.buy_token host.current_contract_address plan.owner received
    pure received

  unfoldable pub should_run : World DcaPlan X → Bool
  should_run w =
      not (is_some (ensure_due host.timestamp w.store))
      && leb_ℤ w.store.amount_per_swap
          (host.balance w.store.sell_token host.current_contract_address w.outside)

  unfoldable pub cancel : M DcaError (World DcaPlan X) ℤ
  cancel = do
    plan ← gets (λ plan. plan)
    require_auth host plan.owner
    modify (λ plan. record plan { active = false })
    balance ← asks (host.balance plan.sell_token host.current_contract_address)
    when (ltb_ℤ (pos 0) balance)
        (transfer host plan.sell_token host.current_contract_address plan.owner balance)
    pure balance
