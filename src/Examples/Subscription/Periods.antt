-- ===== src/Examples/Subscription/Periods.antt =====
-- How often a subscriber is billed: contracts/examples/subscription/src/lib.rs.
use sorocron.Base.{
  ℕ, ◌-◌, ◌/◌, ◌≤◌, ◌<◌, ◌≡◌, refl, ap, sym, ◌∙◌, Bool, true, false, ◌&&◌, Option, none, some, List,
  [], ◌∷◌, ◌==◌, if◌then◌else◌, arith, inl, inr,
}
use sorocron.Base.Dict.{find, put, find-put}
use sorocron.Base.Lists.{length}
use sorocron.Registry.Types.{Address}
use sorocron.Soroban.{Host, World, Outcome, returns, fails, traps, committed}
use sorocron.Examples.Subscription.{
  already_charged, Plan, Subscription, Subscriptions, current_period, is_charged, subscribe,
  bind_job, charge, cancel,
}
use sorocron.Examples.Subscription.Billing.{charged, charge-cases}

-- The calls that change the contract's storage.
pub data Call : Type 0 where
  subscribing charging cancelling : Address → Call
  binding : Address → ℕ → Call

abbrev has_returned : {E W A : Type 0} → Outcome E W A → Bool
has_returned (returns a w) = true
has_returned (fails e w) = false
has_returned traps = false

module _ {X : Type 0} (host : Host X) where
  abbrev pub serve : Call → World Subscriptions X → World Subscriptions X
  serve (subscribing a) w = committed w (subscribe host a w)
  serve (binding a job_id) w = committed w (bind_job host a job_id w)
  serve (charging a) w = committed w (charge host a w)
  serve (cancelling a) w = committed w (cancel host a w)

module _ {X : Type 0} (subscriber : Address) where
  -- Beside the world the times at which the subscription was charged, the latest first: a charge that
  -- returns adds its time, a cancellation that returns starts anew.
  abbrev noted : Host X → Call → World Subscriptions X → List ℕ → List ℕ
  noted host (subscribing a) w times = times
  noted host (binding a job_id) w times = times
  noted host (charging a) w times =
      if has_returned (charge host a w) && a == subscriber then host.timestamp ∷ times else times
  noted host (cancelling a) w times =
      if has_returned (cancel host a w) && a == subscriber then [] else times

  abbrev pub observed :
      Host X → Call → World Subscriptions X × List ℕ → World Subscriptions X × List ℕ
  observed host c (w, times) = (serve host c w, noted host c w times)

module _ (plan : Plan) where
  -- The index of the period in which a time lies.
  abbrev period_of : ℕ → ℕ → ℕ
  period_of start time = (time - start) / plan.period

  abbrev Later : ℕ → ℕ → List ℕ → Type 0
  Later start time [] = Unit {0}
  Later start time (before ∷ times) = period_of start before < period_of start time

  -- Every time lies in a later period than the one before it, and between the start and now.
  abbrev InPeriods : ℕ → ℕ → List ℕ → Type 0
  InPeriods start now [] = Unit {0}
  InPeriods start now (time ∷ times) =
      (start ≤ time) × (time ≤ now) × Later start time times × InPeriods start now times

  abbrev last_period : ℕ → List ℕ → Option ℕ
  last_period start [] = none
  last_period start (time ∷ times) = some (period_of start time)

  -- A subscription against the times of its charges.
  pub record IsBilled (now : ℕ) (sub : Subscription) (times : List ℕ) : Type 0 where
    pub started : sub.start ≤ now
    pub counted : sub.payments ≡ length times
    pub last : sub.last_charged ≡ last_period sub.start times
    pub apart : InPeriods sub.start now times

  abbrev pub Billing : ℕ → Option Subscription → List ℕ → Type 0
  Billing now none times = times ≡ []
  Billing now (some sub) times = IsBilled now sub times

  InPeriods-later :
      (start now later : ℕ) (times : List ℕ)
      → now ≤ later
      → InPeriods start now times
      → InPeriods start later times
  InPeriods-later start now later [] h p = tt
  InPeriods-later start now later (time ∷ times) h (a, b, c, p) =
      (a, omega arith, c, InPeriods-later start now later times h p)

  pub Billing-later :
      (now later : ℕ) (o : Option Subscription) (times : List ℕ)
      → now ≤ later
      → Billing now o times
      → Billing later o times
  Billing-later now later none times h b = b
  Billing-later now later (some sub) times h b = record {
    started = omega (arith, b.started);
    counted = b.counted;
    last = b.last;
    apart = InPeriods-later sub.start now later times h b.apart;
  }

  charge-Later :
      (start now : ℕ) (last : Option ℕ) (times : List ℕ)
      → is_charged last (period_of start now) ≡ false
      → last ≡ last_period start times
      → Later start now times
  charge-Later start now last [] due e = tt
  charge-Later start now last (time ∷ times) due e =
      let open_period : is_charged (some (period_of start time)) (period_of start now) ≡ false =
        ap (λ (l : Option ℕ). is_charged l (period_of start now)) (sym e) ∙ due in
      ground arith

  pub charged-IsBilled :
      {X : Type 0} (host : Host X) (sub : Subscription) (times : List ℕ)
      → is_charged sub.last_charged (current_period host.timestamp plan sub) ≡ false
      → IsBilled host.timestamp sub times
      → IsBilled host.timestamp (charged host plan sub) (host.timestamp ∷ times)
  charged-IsBilled host sub times due b = record {
    started = b.started;
    counted = omega (arith, b.counted);
    last = refl;
    apart = (
      b.started,
      omega arith,
      charge-Later sub.start host.timestamp sub.last_charged times due b.last,
      b.apart,
    );
  }

module _ {X : Type 0} (host : Host X) where
  fails_charged :
      (subscriber : Address) (w : World Subscriptions X) (sub : Subscription) (plan : Plan)
      → find subscriber w.store.subs ≡ some sub
      → w.store.plan ≡ plan
      → is_charged sub.last_charged (current_period host.timestamp plan sub) ≡ true
      → charge host subscriber w ≡ fails already_charged w
  unfolding charge
  fails_charged subscriber w sub plan found e charged_already = rw (found, e, charged_already) refl

module _ {X : Type 0} (host : Host X) where
  -- After a charge another one fails as already charged, at every time whose period is not later
  -- and in every state that has the same plan and the subscription as the charge left it.
  pub charge-again :
      (subscriber : Address) (w v u : World Subscriptions X) (n : ℕ) (later : Host X)
      → charge host subscriber w ≡ returns n v
      → u.store.plan ≡ v.store.plan
      → find subscriber u.store.subs ≡ find subscriber v.store.subs
      → (sub : Subscription) → find subscriber w.store.subs ≡ some sub
      → current_period later.timestamp w.store.plan sub
        ≤ current_period host.timestamp w.store.plan sub
      → charge later subscriber u ≡ fails already_charged u
  charge-again subscriber w v u n later e plan same sub found h =
      elim (charge-cases host subscriber w) [
        | inl (error, failed, rest) ↦ cc
        | inr (sub', found', due, billable, inl (trapped, reason)) ↦ cc
        | inr (sub', found', due, billable, inr (y, paid, returned)) ↦
            let left : sub' ≡ sub = ground arith in
            let next = charged host w.store.plan sub' in
            let state : (u.store.plan ≡ w.store.plan)
                × (find subscriber v.store.subs
                    ≡ find subscriber (put subscriber next w.store.subs)) =
              ground arith in
            let stored : find subscriber u.store.subs ≡ some next =
              same ∙ state.1 ∙ ground (arith, find-put subscriber subscriber next w.store.subs) in
            fails_charged later subscriber u next w.store.plan stored state.0
              (rw left (ground arith))
      ]
