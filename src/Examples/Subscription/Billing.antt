-- ===== src/Examples/Subscription/Billing.antt =====
-- How `charge` ends: contracts/examples/subscription/src/lib.rs.
use sorocron.Base.{
  ◌⊎◌, ◌+◌, ◌≤◌, ◌≡◌, refl, true, false, none, some, leb, arith, Bool-cases, Option-cases, inl, inr,
}
use sorocron.Base.Int.{ltb_ℤ}
use sorocron.Base.Word.{u32_max}
use sorocron.Base.Dict.{find, put}
use sorocron.Registry.Types.{Address}
use sorocron.Soroban.{Host, World, returns, fails, traps}
use sorocron.Examples.Subscription.{
  Error, not_subscribed, already_charged, insufficient_allowance, Plan, Subscription, Subscriptions,
  current_period, is_charged, charge, is_billable,
}

module _ {X : Type 0} (host : Host X) where
  -- The subscription that a charge leaves.
  abbrev pub charged : Plan → Subscription → Subscription
  charged plan sub = record sub {
    last_charged = some (current_period host.timestamp plan sub);
    payments = sub.payments + 1;
  }

  pub charge-cases :
      (subscriber : Address) (w : World Subscriptions X)
      → ((e : Error) × (charge host subscriber w ≡ fails e w)
          × (is_billable host w subscriber ≡ false))
        ⊎ ((sub : Subscription) × (find subscriber w.store.subs ≡ some sub)
            × (is_charged sub.last_charged (current_period host.timestamp w.store.plan sub) ≡ false)
            × (is_billable host w subscriber ≡ true)
            × (((charge host subscriber w ≡ traps)
                  × ((u32_max ≤ sub.payments)
                      ⊎ (host.transfer_from w.store.plan.token host.current_contract_address
                            subscriber w.store.plan.merchant w.store.plan.price w.outside
                          ≡ none)))
                ⊎ ((y : X) × (host.transfer_from w.store.plan.token host.current_contract_address
                        subscriber w.store.plan.merchant w.store.plan.price w.outside
                      ≡ some y)
                    × (charge host subscriber w
                        ≡ returns (sub.payments + 1) (record {
                          store = record (w.store) {
                            subs = put subscriber (charged w.store.plan sub) w.store.subs;
                          };
                          outside = y;
                        })))))
  unfolding charge is_billable
  charge-cases subscriber w = elim (Option-cases (find subscriber w.store.subs)) [
    | inl missing ↦ inl (not_subscribed, rw missing refl, ground arith)
    | inr (sub, found) ↦
        elim (Bool-cases
          (is_charged sub.last_charged (current_period host.timestamp w.store.plan sub))) [
            | inl already ↦ inl (already_charged, rw (found, already) refl, ground arith)
            | inr due ↦
                elim (Bool-cases (
                  ltb_ℤ
                    (host.allowance w.store.plan.token subscriber host.current_contract_address
                      w.outside)
                    w.store.plan.price)) [
                      | inl short ↦
                          inl (insufficient_allowance, rw (found, due, short) refl, ground arith)
                      | inr covered ↦
                          let billable : is_billable host w subscriber ≡ true = ground arith in
                          elim (Bool-cases (leb (sub.payments + 1) u32_max)) [
                            | inr full ↦ inr (
                              sub,
                              found,
                              due,
                              billable,
                              inl (rw (found, due, covered, full) refl, inl (ground arith)),
                            )
                            | inl counted ↦
                                elim (Option-cases (
                                  host.transfer_from w.store.plan.token
                                    host.current_contract_address subscriber w.store.plan.merchant
                                    w.store.plan.price w.outside)) [
                                      | inl refused ↦ inr (
                                        sub,
                                        found,
                                        due,
                                        billable,
                                        inl (
                                          rw (found, due, covered, counted) (rw refused refl),
                                          inr refused,
                                        ),
                                      )
                                      | inr (y, paid) ↦ inr (
                                        sub,
                                        found,
                                        due,
                                        billable,
                                        inr (
                                          y,
                                          paid,
                                          rw (found, due, covered, counted) (rw paid refl),
                                        ),
                                      )
                                    ]
                          ]
                    ]
          ]
  ]
