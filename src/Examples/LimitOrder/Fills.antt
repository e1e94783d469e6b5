-- ===== src/Examples/LimitOrder/Fills.antt =====
-- What a fill pays, and that an order closes once: contracts/examples/limit-order/src/lib.rs.
use mathlib.Core.Path.{subst}
use sorocron.Base.{
  ℕ, ◌<◌, ◌⊎◌, ◌≡◌, ◌≢◌, refl, ap, sym, ◌∙◌, true, false, none, some, List, [], ◌∷◌, arith,
  Bool-cases, Option-cases, inl, inr,
}
use sorocron.Base.Int.{ℤ, ◌+ℤ◌, ◌≤ℤ◌, ltb_ℤ}
use sorocron.Registry.Types.{Address}
use sorocron.Soroban.{Host, World, returns, fails, traps, committed}
use sorocron.Soroban.Router.{Router, RouterLaws, last_or_zero, swapped}
use sorocron.Soroban.History.{run}
use sorocron.Examples.LimitOrder.{
  Error, price_not_reached, Order, ensure_fillable, fund, quote, fill, cancel, should_run,
}

-- An order without an expiry, or before it.
abbrev pub Unexpired : ℕ → Order → Type 0
Unexpired now order = (order.expires_at ≡ 0) ⊎ (now < order.expires_at)

fillable_lem :
    (now : ℕ) (order : Order)
    → ensure_fillable now order ≡ none
    → (order.is_open ≡ true) × (order.funded ≡ true) × Unexpired now order
fillable_lem now order h = elim (Bool-cases order.is_open) [
  | inl is_open ↦ (is_open, ground arith, ground arith)
  | inr closed ↦ ground arith
]

module _ {X : Type 0} (host : Host X) (router : Router X) where
  -- The order after a fill.
  abbrev pub filled : ℤ → Order → Order
  filled out order = record order { is_open = false; filled_out = out }

  -- A fill as it ran from one state to another.
  pub record Fill (w v : World Order X) (out : ℤ) : Type 0 where
    pub fillable : ensure_fillable host.timestamp w.store ≡ none
    pub pair : Address
    pub amounts : List ℤ
    pub after_swap : X
    pub swap_ran :
        swapped host router w.store.router w.store.sell_token w.store.buy_token w.store.amount_in
          w.store.min_amount_out
          (some pair)
          w.outside
        ≡ some (amounts, after_swap)
    pub last_out : out ≡ last_or_zero amounts
    pub owner_paid :
        host.transfer w.store.buy_token host.current_contract_address w.store.owner out after_swap
        ≡ some v.outside
    pub order_after : v.store ≡ filled out w.store

  fill-cases :
      (w : World Order X)
      → ((e : Error) × (fill host router w ≡ fails e w) × (should_run host router w ≡ false))
        ⊎ ((should_run host router w ≡ true)
            × ((fill host router w ≡ traps)
                ⊎ ((out : ℤ) × (v : World Order X) × (fill host router w ≡ returns out v)
                    × Fill w v out)))
  unfolding fill should_run
  fill-cases w = elim (Option-cases (ensure_fillable host.timestamp w.store)) [
    | inr (e, refused) ↦ inl (e, rw refused refl, rw refused refl)
    | inl fillable ↦
        elim (Bool-cases (ltb_ℤ (quote host router w.store w.outside) w.store.min_amount_out)) [
          | inl low ↦ inl (price_not_reached, rw (fillable, low) refl, rw fillable (ground arith))
          | inr high ↦ inr (rw fillable (ground arith), exchange w fillable high)
        ]
  ]
    where
      exchange :
          (w : World Order X)
          → ensure_fillable host.timestamp w.store ≡ none
          → ltb_ℤ (quote host router w.store w.outside) w.store.min_amount_out ≡ false
          → (fill host router w ≡ traps)
            ⊎ ((out : ℤ) × (v : World Order X) × (fill host router w ≡ returns out v)
                × Fill w v out)
      exchange w fillable high =
          elim (Option-cases (
            router.router_pair_for w.store.router w.store.sell_token w.store.buy_token w.outside)) [
              | inl no_pair ↦ inl (rw (fillable, high) (rw no_pair refl))
              | inr (pair, paired) ↦
                  elim (Option-cases (
                    swapped host router w.store.router w.store.sell_token w.store.buy_token
                      w.store.amount_in w.store.min_amount_out (some pair) w.outside)) [
                        | inl unfilled ↦ inl (rw (fillable, high) (rw paired (rw unfilled refl)))
                        | inr ((amounts, x), ran) ↦
                            elim (Option-cases (
                              host.transfer w.store.buy_token host.current_contract_address
                                w.store.owner (last_or_zero amounts) x)) [
                                  | inl refused ↦
                                      inl
                                        (rw (fillable, high) (rw paired (rw ran (rw refused refl))))
                                  | inr (y, paid) ↦ inr (
                                    last_or_zero amounts,
                                    record {
                                      store = filled (last_or_zero amounts) w.store;
                                      outside = y;
                                    },
                                    rw (fillable, high) (rw paired (rw ran (rw paid refl))),
                                    record {
                                      fillable = fillable;
                                      pair = pair;
                                      amounts = amounts;
                                      after_swap = x;
                                      swap_ran = ran;
                                      last_out = refl;
                                      owner_paid = paid;
                                      order_after = refl;
                                    },
                                  )
                                ]
                      ]
            ]

-- The calls that change the contract's storage.
pub data Call : Type 0 where
  funding filling cancelling : Call

module _ {X : Type 0} (router : Router X) where
  abbrev pub serve : Host X → Call → World Order X → World Order X
  serve host funding w = committed w (fund host router w)
  serve host filling w = committed w (fill host router w)
  serve host cancelling w = committed w (cancel host router w)

  serve-closed :
      (host : Host X) (c : Call) (w : World Order X) → w.store.is_open ≡ false → serve host c w ≡ w
  unfolding fund fill cancel
  serve-closed host funding w h = ground arith
  serve-closed host filling w h = ground arith
  serve-closed host cancelling w h = ground arith

  run-closed :
      (moments : List (Host X × Call)) (w : World Order X)
      → w.store.is_open ≡ false
      → run serve moments w ≡ w
  run-closed [] w h = refl
  run-closed ((host, c) ∷ moments) w h =
      let same = serve-closed host c w h in ap (run serve moments) same ∙ run-closed moments w h

  -- Where `fill` returns, the order was open, funded and not expired, the owner was paid the
  -- returned amount, which is at least the limit, and the swap took exactly the order's amount.
  -- The order is closed for good: no later calls of it change it or the other contracts. The two
  -- tokens differ, and a swap of the router pays what it says and at least the least amount, and
  -- takes what it was authorized to.
  pub fill-pays :
      (host : Host X) (w v : World Order X) (out : ℤ) (moments : List (Host X × Call))
      → RouterLaws host router
      → w.store.sell_token ≢ w.store.buy_token
      → fill host router w ≡ returns out v
      → ((w.store.is_open ≡ true) × (w.store.funded ≡ true) × Unexpired host.timestamp w.store)
        × (w.store.min_amount_out ≤ℤ out)
        × ((x : X) × (host.balance w.store.sell_token host.current_contract_address x
                +ℤ w.store.amount_in
              ≡ host.balance w.store.sell_token host.current_contract_address w.outside)
            × (host.transfer w.store.buy_token host.current_contract_address w.store.owner out x
                ≡ some v.outside))
        × (v.store ≡ filled host router out w.store)
        × (run serve moments v ≡ v)
  fill-pays host w v out moments laws distinct e = elim (fill-cases host router w) [
    | inl (error, failed, rest) ↦ cc
    | inr (billable, inl trapped) ↦ cc
    | inr (billable, inr (out', v', returned, t)) ↦
        let amount : out' ≡ out = ground arith in
        let state : v' ≡ v = ground arith in
        let (enough, spent, got) =
          laws.swap_pays w.store.router t.pair w.store.sell_token w.store.buy_token
            w.store.amount_in w.store.min_amount_out w.outside t.after_swap t.amounts distinct
            t.swap_ran in
        let after : v.store ≡ filled host router out w.store =
          ap (λ (u : World Order X). u.store) (sym state)
          ∙ t.order_after
          ∙ ap (λ (a : ℤ). filled host router a w.store) amount in
        (
          fillable_lem host.timestamp w.store t.fillable,
          subst (λ (a : ℤ). w.store.min_amount_out ≤ℤ a) (sym t.last_out ∙ amount) enough,
          (
            t.after_swap,
            spent,
            ap
                  (λ (a : ℤ).
                    host.transfer w.store.buy_token host.current_contract_address w.store.owner a
                      t.after_swap)
                  (sym amount)
                ∙ t.owner_paid
                ∙ ap (λ (u : World Order X). some u.outside) state,
          ),
          after,
          run-closed moments v (ap (λ (o : Order). o.is_open) after),
        )
  ]
