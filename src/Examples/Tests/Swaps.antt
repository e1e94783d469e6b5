-- ===== src/Examples/Tests/Swaps.antt =====
-- The vault and the limit order against a router that pays the least amount.
use sorocron.Base.{◌≤◌, ◌<◌, ◌≡◌, refl, true, some, List, [], ◌∷◌, arith}
use sorocron.Base.Int.{pos, ◌+ℤ◌, ◌*ℤ◌, ◌≤ℤ◌, quot}
use sorocron.Soroban
use sorocron.Soroban.{World, returns, committed}
use sorocron.Soroban.History.{run}
use sorocron.Examples.Tests.Sample.{Ledger, host, router, router_laws}
use sorocron.Examples.Dca
use sorocron.Examples.Dca.Swaps
use sorocron.Examples.Dca.Pace
use sorocron.Examples.LimitOrder
use sorocron.Examples.LimitOrder.Fills

abbrev wealth : Ledger
wealth token who = pos 5000

-- Fifty of token 2 for token 3 each hundred seconds, three times at most, for half the price at least.
abbrev plan : Dca.DcaPlan
plan = record {
  owner = 4;
  router = 7;
  sell_token = 2;
  buy_token = 3;
  amount_per_swap = pos 50;
  interval = 100;
  max_swaps = 3;
  min_price = pos 5000000;
  executed_swaps = 0;
  next_swap_at = 10;
  active = true;
}

abbrev vault : World Dca.DcaPlan Ledger
vault = record { store = plan; outside = wealth }

abbrev moments : List (Soroban.Host Ledger × Pace.Call)
moments =
    (host 20, Pace.swapping)
    ∷ (host 30, Pace.swapping)
    ∷ (host 40, Pace.depositing 4 (pos 100))
    ∷ (host 130, Pace.swapping)
    ∷ (host 150, Pace.cancelling)
    ∷ []

run-IsPaced_example : Pace.IsPaced 10 100 3 150 (run (Pace.serve router) moments vault).store
run-IsPaced_example =
    Pace.run-IsPaced router 10 100 3 moments 10 vault
      (omega arith, (omega arith, (omega arith, (omega arith, (omega arith, tt)))))
      (record {
        same_interval = refl;
        same_max = refl;
        capped = omega arith;
        spaced = omega arith;
        soon = omega arith;
        since = omega arith;
      })

abbrev after_tranche : World Dca.DcaPlan Ledger
after_tranche = committed vault (Dca.swap_tranche (host 20) router vault)

tranche_ran : Dca.swap_tranche (host 20) router vault ≡ returns (pos 25) after_tranche
unfolding Dca.swap_tranche ◌*ℤ◌ quot
tranche_ran = refl

swap_tranche-pays_example :
    (10 ≤ 20)
    × (0 < 3)
    × (after_tranche.store ≡ Swaps.advanced (host 20) router plan)
    × (Swaps.least (host 20) router plan ≤ℤ pos 25)
    × ((x : Ledger) × (x 2 9 +ℤ pos 50 ≡ pos 5000)
        × ((host 20).transfer 3 9 4 (pos 25) x ≡ some after_tranche.outside))
swap_tranche-pays_example =
    Pace.swap_tranche-pays router (host 20) vault after_tranche (pos 25) (router_laws 20)
      (omega arith) tranche_ran

abbrev order : LimitOrder.Order
order = record {
  owner = 4;
  router = 7;
  sell_token = 2;
  buy_token = 3;
  amount_in = pos 50;
  min_amount_out = pos 40;
  expires_at = 0;
  funded = true;
  is_open = true;
  filled_out = pos 0;
}

abbrev book : World LimitOrder.Order Ledger
book = record { store = order; outside = wealth }

abbrev filled_book : World LimitOrder.Order Ledger
filled_book = committed book (LimitOrder.fill (host 20) router book)

fill_ran : LimitOrder.fill (host 20) router book ≡ returns (pos 40) filled_book
unfolding LimitOrder.fill
fill_ran = refl

abbrev later_calls : List (Soroban.Host Ledger × Fills.Call)
later_calls = (host 30, Fills.filling) ∷ (host 40, Fills.cancelling) ∷ []

fill-pays_example :
    ((true ≡ true) × (true ≡ true) × Fills.Unexpired 20 order)
    × (pos 40 ≤ℤ pos 40)
    × ((x : Ledger) × (x 2 9 +ℤ pos 50 ≡ pos 5000)
        × ((host 20).transfer 3 9 4 (pos 40) x ≡ some filled_book.outside))
    × (filled_book.store ≡ Fills.filled (host 20) router (pos 40) order)
    × (run (Fills.serve router) later_calls filled_book ≡ filled_book)
fill-pays_example =
    Fills.fill-pays router (host 20) book filled_book (pos 40) later_calls (router_laws 20)
      (omega arith) fill_ran
