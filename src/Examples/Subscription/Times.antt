-- ===== src/Examples/Subscription/Times.antt =====
-- The charges of a subscription along a history: contracts/examples/subscription/src/lib.rs.
use mathlib.Core.Path.{subst}
use sorocron.Base.{
  ℕ, ◌≡◌, refl, ap, sym, true, false, Option, none, some, List, [], ◌==◌, arith, Bool-cases,
  Option-cases, inl, inr, eq-of-==, ne-of-==,
}
use sorocron.Base.Dict.{
  find, put, delete, find-put, IsUnique, put-IsUnique, delete-IsUnique, find-delete_ne,
  find-delete_self,
}
use sorocron.Base.Lists.{length}
use sorocron.Registry.Types.{Address}
use sorocron.Soroban.{Host, World}
use sorocron.Examples.Subscription.{Plan, Subscription, Subscriptions, subscribe, bind_job, cancel}
use sorocron.Soroban.History.{InOrder, end_time, run, run-keeps}
use sorocron.Examples.Subscription.Billing.{charge-cases}
use sorocron.Examples.Subscription.Periods.{
  Call, subscribing, charging, cancelling, binding, observed, IsBilled, Billing, Billing-later,
  charged-IsBilled,
}

module _ {X : Type 0} (subscriber : Address) where
  -- A state whose subscriptions have the plan given, beside the times of the subscription's charges.
  abbrev pub OnPlan : Plan → ℕ → World Subscriptions X × List ℕ → Type 0
  OnPlan plan now (w, times) =
      (w.store.plan ≡ plan)
      × IsUnique w.store.subs
      × Billing plan now (find subscriber w.store.subs) times

  module _ (host : Host X) (w : World Subscriptions X) (times : List ℕ)
      (unique : IsUnique w.store.subs)
      (billing : Billing w.store.plan host.timestamp (find subscriber w.store.subs) times) where
    abbrev Kept : Call → Type 0
    Kept c = OnPlan w.store.plan host.timestamp (observed subscriber host c (w, times))

    own_find :
        (a : Address) {o : Option Subscription}
        → (a == subscriber) ≡ true
        → find a w.store.subs ≡ o
        → find subscriber w.store.subs ≡ o
    own_find a own found = rw (← eq-of-== a subscriber own) found

    no_times : find subscriber w.store.subs ≡ none → times ≡ []
    no_times none_found =
        subst (λ (o : Option Subscription). Billing w.store.plan host.timestamp o times) none_found
          billing

    billed :
        {sub : Subscription}
        → find subscriber w.store.subs ≡ some sub
        → IsBilled w.store.plan host.timestamp sub times
    billed found =
        subst (λ (o : Option Subscription). Billing w.store.plan host.timestamp o times) found
          billing

    own_put :
        (a : Address) (sub : Subscription) {charges : List ℕ}
        → (a == subscriber) ≡ true
        → IsBilled w.store.plan host.timestamp sub charges
        → Billing w.store.plan host.timestamp (find subscriber (put a sub w.store.subs)) charges
    own_put a sub own b = rw (find-put subscriber a sub w.store.subs, own) b

    other_put :
        (a : Address) (sub : Subscription)
        → (a == subscriber) ≡ false
        → Billing w.store.plan host.timestamp (find subscriber (put a sub w.store.subs)) times
    other_put a sub other = rw (find-put subscriber a sub w.store.subs, other) billing

    own_delete :
        (a : Address) → (a == subscriber) ≡ true → find subscriber (delete a w.store.subs) ≡ none
    own_delete a own = rw (← eq-of-== a subscriber own) (find-delete_self a w.store.subs unique)

    subscribe-Kept : (a : Address) → Kept (subscribing a)
    unfolding subscribe
    subscribe-Kept a = elim (Bool-cases (host.authorized a)) [
      | inr unsigned ↦ rw unsigned (refl, unique, billing)
      | inl signed ↦ elim (Option-cases (find a w.store.subs)) [
        | inr (sub, found) ↦ rw (signed, found) (refl, unique, billing)
        | inl new ↦
            rw (signed, new)
              (
                refl,
                put-IsUnique a _ w.store.subs unique,
                elim (Bool-cases (a == subscriber)) [
                  | inl own ↦ own_put a _ own (record {
                    started = omega arith;
                    counted = ap length (sym (no_times (own_find a own new)));
                    last = rw (no_times (own_find a own new)) refl;
                    apart = rw (no_times (own_find a own new)) tt;
                  })
                  | inr other ↦ other_put a _ other
                ],
              )
      ]
    ]

    cancel-Kept : (a : Address) → Kept (cancelling a)
    unfolding cancel
    cancel-Kept a = elim (Bool-cases (host.authorized a)) [
      | inr unsigned ↦ rw unsigned (refl, unique, billing)
      | inl signed ↦ elim (Bool-cases (a == subscriber)) [
        | inl own ↦
            rw (signed, own)
              (refl, delete-IsUnique a w.store.subs unique, rw (own_delete a own) refl)
        | inr other ↦
            rw (signed, other)
              (
                refl,
                delete-IsUnique a w.store.subs unique,
                rw (find-delete_ne subscriber a w.store.subs (ne-of-== a subscriber other)) billing,
              )
      ]
    ]

    bind-Kept : (a : Address) (job_id : ℕ) → Kept (binding a job_id)
    unfolding bind_job
    bind-Kept a job_id = elim (Bool-cases (host.authorized a)) [
      | inr unsigned ↦ rw unsigned (refl, unique, billing)
      | inl signed ↦ rw signed (refl, unique, billing)
    ]

    charge-Kept : (a : Address) → Kept (charging a)
    charge-Kept a = elim (charge-cases host a w) [
      | inl (error, failed, rest) ↦ rw failed (refl, unique, billing)
      | inr (sub, found, due, billable, inl (trapped, reason)) ↦ rw trapped (refl, unique, billing)
      | inr (sub, found, due, billable, inr (y, paid, returned)) ↦
          elim (Bool-cases (a == subscriber)) [
            | inl own ↦
                rw (returned, own)
                  (
                    refl,
                    put-IsUnique a _ w.store.subs unique,
                    own_put a _ own (
                        charged-IsBilled w.store.plan host sub times due
                          (billed (own_find a own found))),
                  )
            | inr other ↦
                rw (returned, other)
                  (refl, put-IsUnique a _ w.store.subs unique, other_put a _ other)
          ]
    ]

module _ {X : Type 0} (subscriber : Address) (plan : Plan) where
  observed-OnPlan :
      (host : Host X) (c : Call) (w : World Subscriptions X × List ℕ)
      → OnPlan subscriber w.0.store.plan host.timestamp w
      → OnPlan subscriber w.0.store.plan host.timestamp (observed subscriber host c w)
  observed-OnPlan host (subscribing a) (w, times) (_, u, b) =
      subscribe-Kept subscriber host w times u b a
  observed-OnPlan host (charging a) (w, times) (_, u, b) = charge-Kept subscriber host w times u b a
  observed-OnPlan host (cancelling a) (w, times) (_, u, b) =
      cancel-Kept subscriber host w times u b a
  observed-OnPlan host (binding a job_id) (w, times) (_, u, b) =
      bind-Kept subscriber host w times u b a job_id

  -- From a state where this holds, such as one without subscriptions, along every history of
  -- calls in order of time, and for each subscriber: from the start of the subscription until it
  -- is cancelled, every charge that returned lies in a later period than the one before it, none
  -- before the start, and the subscription counts exactly these charges. The plan stays the same.
  pub run-OnPlan :
      (moments : List (Host X × Call)) (now : ℕ) (w : World Subscriptions X) (times : List ℕ)
      → InOrder now moments
      → OnPlan subscriber plan now (w, times)
      → OnPlan subscriber plan (end_time now moments) (run (observed subscriber) moments (w, times))
  run-OnPlan moments now w times =
      run-keeps (observed subscriber) (OnPlan subscriber plan)
        (λ now later v le p. (p.0, p.1, Billing-later plan now later _ v.1 le p.2))
        (λ host c v p.
          subst (λ (q : Plan). OnPlan subscriber q host.timestamp (observed subscriber host c v))
            p.0
            (observed-OnPlan host c v (
              refl,
              p.1,
              subst (λ (q : Plan). Billing q host.timestamp (find subscriber v.0.store.subs) v.1)
                  (sym p.0) p.2,
            )))
        moments now (w, times)
