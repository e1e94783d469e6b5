-- ===== src/Examples/Dca/Swaps.antt =====
-- How `swap_tranche` ends: contracts/examples/dca/src/lib.rs.
use sorocron.Base.{
  ◌⊎◌, ◌+◌, ◌≡◌, refl, true, false, none, some, List, leb, ltb, arith, Bool-cases, Option-cases,
  inl, inr,
}
use sorocron.Base.Int.{ℤ, quot, ◌*ℤ◌, ltb_ℤ}
use sorocron.Base.Word.{u32_max, u64_max, in_i128}
use sorocron.Registry.Types.{Address}
use sorocron.Soroban.{Host, World, returns, fails, traps}
use sorocron.Soroban.Router.{Router, last_or_zero, swapped}
use sorocron.Examples.Dca.{
  price_scale, DcaError, DcaPlan, ensure_due, insufficient_balance, swap_tranche, should_run,
}

module _ {X : Type 0} (host : Host X) (router : Router X) where
  -- The plan after a tranche.
  abbrev pub advanced : DcaPlan → DcaPlan
  advanced plan = record plan {
    executed_swaps = plan.executed_swaps + 1;
    next_swap_at = host.timestamp + plan.interval;
    active = ltb (plan.executed_swaps + 1) plan.max_swaps;
  }

  -- The least amount that a tranche asks for.
  abbrev pub least : DcaPlan → ℤ
  least plan = quot (plan.amount_per_swap *ℤ plan.min_price) price_scale

  -- A tranche as it ran from one state to another.
  pub record Tranche (w v : World DcaPlan X) (received : ℤ) : Type 0 where
    pub due : ensure_due host.timestamp w.store ≡ none
    pub resolved : should_run host router w ≡ true
    pub pair : Address
    pub amounts : List ℤ
    pub after_swap : X
    pub swap_ran :
        swapped host router w.store.router w.store.sell_token w.store.buy_token
          w.store.amount_per_swap
          (least w.store)
          (some pair)
          w.outside
        ≡ some (amounts, after_swap)
    pub last_received : received ≡ last_or_zero amounts
    pub owner_paid :
        host.transfer w.store.buy_token host.current_contract_address w.store.owner received
          after_swap
        ≡ some v.outside
    pub plan_after : v.store ≡ advanced w.store

  -- How it ends once the checks and the arithmetic have passed.
  exchange :
      (w : World DcaPlan X)
      → ensure_due host.timestamp w.store ≡ none
      → ltb_ℤ
          (host.balance w.store.sell_token host.current_contract_address w.outside)
          w.store.amount_per_swap
        ≡ false
      → leb (w.store.executed_swaps + 1) u32_max ≡ true
      → leb (host.timestamp + w.store.interval) u64_max ≡ true
      → in_i128 (w.store.amount_per_swap *ℤ w.store.min_price) ≡ true
      → (swap_tranche host router w ≡ traps)
        ⊎ ((received : ℤ) × (v : World DcaPlan X) × (swap_tranche host router w
              ≡ returns received v)
            × Tranche w v received)
  unfolding swap_tranche should_run
  exchange w due funded counted in_time fits =
      elim (Option-cases
        (router.router_pair_for w.store.router w.store.sell_token w.store.buy_token w.outside)) [
          | inl no_pair ↦ inl (rw (due, funded, counted, in_time, fits) (rw no_pair refl))
          | inr (pair, paired) ↦
              elim (Option-cases (
                swapped host router w.store.router w.store.sell_token w.store.buy_token
                  w.store.amount_per_swap (least w.store) (some pair) w.outside)) [
                    | inl unfilled ↦
                        inl
                          (rw (due, funded, counted, in_time, fits) (rw paired (rw unfilled refl)))
                    | inr ((amounts, x), ran) ↦
                        elim (Option-cases (
                          host.transfer w.store.buy_token host.current_contract_address
                            w.store.owner (last_or_zero amounts) x)) [
                              | inl refused ↦ inl (
                                  rw (due, funded, counted, in_time, fits)
                                    (rw paired (rw ran (rw refused refl))))
                              | inr (y, paid) ↦ inr (
                                last_or_zero amounts,
                                record { store = advanced w.store; outside = y },
                                rw (due, funded, counted, in_time, fits)
                                    (rw paired (rw ran (rw paid refl))),
                                record {
                                  due = due;
                                  resolved = rw due (ground arith);
                                  pair = pair;
                                  amounts = amounts;
                                  after_swap = x;
                                  swap_ran = ran;
                                  last_received = refl;
                                  owner_paid = paid;
                                  plan_after = refl;
                                },
                              )
                            ]
                  ]
        ]

  pub swap_tranche-cases :
      (w : World DcaPlan X)
      → ((e : DcaError) × (swap_tranche host router w ≡ fails e w)
          × (should_run host router w ≡ false))
        ⊎ ((swap_tranche host router w ≡ traps)
            ⊎ ((received : ℤ) × (v : World DcaPlan X) × (swap_tranche host router w
                  ≡ returns received v)
                × Tranche w v received))
  unfolding swap_tranche should_run
  swap_tranche-cases w = elim (Option-cases (ensure_due host.timestamp w.store)) [
    | inr (e, not_due) ↦ inl (e, rw not_due refl, rw not_due refl)
    | inl due ↦
        elim (Bool-cases (
          ltb_ℤ (host.balance w.store.sell_token host.current_contract_address w.outside)
            w.store.amount_per_swap)) [
              | inl short ↦ inl (insufficient_balance, rw (due, short) refl, rw due (ground arith))
              | inr funded ↦ inr (elim (Bool-cases (leb (w.store.executed_swaps + 1) u32_max)) [
                | inr full ↦ inl (rw (due, funded, full) refl)
                | inl counted ↦
                    elim (Bool-cases (leb (host.timestamp + w.store.interval) u64_max)) [
                      | inr late ↦ inl (rw (due, funded, counted, late) refl)
                      | inl in_time ↦
                          elim (Bool-cases
                            (in_i128 (w.store.amount_per_swap *ℤ w.store.min_price))) [
                              | inr wide ↦ inl (rw (due, funded, counted, in_time, wide) refl)
                              | inl fits ↦ exchange w due funded counted in_time fits
                            ]
                    ]
              ])
            ]
  ]
