-- ===== src/Examples/Subscription.antt =====
-- Subscriptions paid from an allowance: contracts/examples/subscription/src/lib.rs.
pub mod Billing
pub mod Periods
pub mod Times
use sorocron.Base.{
  ℕ, ◌+◌, ◌-◌, ◌/◌, Bool, true, false, ◌&&◌, ◌||◌, Option, none, some, [], ltb, leb, ◌==◌,
  if◌then◌else◌, is_some,
}
use sorocron.Base.Int.{ℤ, pos, ltb_ℤ, leb_ℤ}
use sorocron.Base.Word.{checked_u32}
use sorocron.Base.Dict.{Dict, find, put, delete}
use sorocron.Registry.Types.{Address}
use sorocron.Soroban.{
  Host, World, M, ◌>>=◌, ◌>>◌, pure, gets, asks, modify, or_trap, ok_or, fail_if, require_auth,
  transfer_from,
}

pub data Error : Type 0 where
  invalid_plan not_subscribed already_charged insufficient_allowance already_subscribed : Error

pub record Plan : Type 0 where
  pub merchant : Address
  pub token : Address
  pub price : ℤ
  pub period : ℕ

pub record Subscription : Type 0 where
  pub start : ℕ
  pub last_charged : Option ℕ
  pub payments : ℕ

-- The plan, the subscriptions by subscriber and the subscribers by job.
pub record Subscriptions : Type 0 where
  pub plan : Plan
  pub subs : Dict Subscription
  pub jobs : Dict Address

-- `none` is the panic with `InvalidPlan`.
unfoldable pub constructor : Address → Address → ℤ → ℕ → Option Subscriptions
constructor merchant token price period =
    if leb_ℤ price (pos 0) || period == 0
    then none
    else some (record {
      plan = record { merchant = merchant; token = token; price = price; period = period };
      subs = [];
      jobs = [];
    })

-- A plan's period is not 0.
abbrev pub current_period : ℕ → Plan → Subscription → ℕ
current_period now plan sub = (now - sub.start) / plan.period

-- The period has been charged already.
abbrev pub is_charged : Option ℕ → ℕ → Bool
is_charged none period = false
is_charged (some p) period = leb period p

module _ {X : Type 0} (host : Host X) where
  unfoldable pub subscribe : Address → M Error (World Subscriptions X) (Unit {0})
  subscribe subscriber = do
    require_auth host subscriber
    s ← gets (λ s. s)
    fail_if (is_some (find subscriber s.subs)) already_subscribed
    modify (λ s. record s {
      subs =
          put subscriber (record { start = host.timestamp; last_charged = none; payments = 0 })
            s.subs;
    })

  unfoldable pub bind_job : Address → ℕ → M Error (World Subscriptions X) (Unit {0})
  bind_job subscriber job_id = do
    require_auth host subscriber
    modify (λ s. record s { jobs = put job_id subscriber s.jobs })

  unfoldable pub charge : Address → M Error (World Subscriptions X) ℕ
  charge subscriber = do
    s ← gets (λ s. s)
    sub ← ok_or (find subscriber s.subs) not_subscribed
    fail_if (is_charged sub.last_charged (current_period host.timestamp s.plan sub)) already_charged
    allowance ← asks (host.allowance s.plan.token subscriber host.current_contract_address)
    fail_if (ltb_ℤ allowance s.plan.price) insufficient_allowance
    payments ← or_trap (checked_u32 (sub.payments + 1))
    modify (λ s. record s {
      subs =
          put subscriber
            (record sub {
              last_charged = some (current_period host.timestamp s.plan sub);
              payments = payments;
            })
            s.subs;
    })
    transfer_from host s.plan.token host.current_contract_address subscriber s.plan.merchant
        s.plan.price
    pure payments

  unfoldable pub cancel : Address → M Error (World Subscriptions X) (Unit {0})
  cancel subscriber = do
    require_auth host subscriber
    modify (λ s. record s { subs = delete subscriber s.subs })

  unfoldable pub is_billable : World Subscriptions X → Address → Bool
  is_billable w subscriber = elim (find subscriber w.store.subs) [
    | none ↦ false
    | some sub ↦
        (if is_charged sub.last_charged (current_period host.timestamp w.store.plan sub)
          then false
          else true)
        && leb_ℤ w.store.plan.price
            (host.allowance w.store.plan.token subscriber host.current_contract_address w.outside)
  ]

  unfoldable pub should_run : World Subscriptions X → ℕ → Bool
  unfolding is_billable
  should_run w job_id = elim (find job_id w.store.jobs) [
    | none ↦ false
    | some subscriber ↦ is_billable w subscriber
  ]
