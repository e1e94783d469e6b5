-- ===== src/Examples/Dca/Pace.antt =====
-- How often the vault swaps, and for how much: contracts/examples/dca/src/lib.rs.
use mathlib.Core.Path.{subst}
use sorocron.Base.{
  ℕ, ◌⊎◌, ◌+◌, ◌*◌, ◌≤◌, ◌<◌, ◌≡◌, ◌≢◌, ap, sym, ◌∙◌, false, none, some, List, arith, inl, inr,
}
use sorocron.Base.Int.{ℤ, ◌+ℤ◌, ◌≤ℤ◌}
use sorocron.Registry.Types.{Address}
use sorocron.Soroban.{Host, World, returns, committed}
use sorocron.Soroban.Router.{Router, RouterLaws, last_or_zero}
use sorocron.Soroban.History.{InOrder, end_time, run, run-keeps}
use sorocron.Examples.Dca.{DcaPlan, ensure_due, deposit, swap_tranche, cancel}
use sorocron.Examples.Dca.Swaps.{advanced, least, swap_tranche-cases}

-- `executed_swaps` tranches took at least as many intervals, less one, since the vault was created.
pub record IsPaced (created interval max_swaps now : ℕ) (plan : DcaPlan) : Type 0 where
  pub same_interval : plan.interval ≡ interval
  pub same_max : plan.max_swaps ≡ max_swaps
  pub capped : plan.executed_swaps ≤ max_swaps
  pub spaced : created + plan.executed_swaps * interval ≤ plan.next_swap_at
  pub soon : plan.next_swap_at ≤ now + interval
  pub since : created ≤ now

pub data Call : Type 0 where
  depositing : Address → ℤ → Call
  swapping cancelling : Call

module _ {X : Type 0} (router : Router X) where
  abbrev pub serve : Host X → Call → World DcaPlan X → World DcaPlan X
  serve host (depositing from amount) w = committed w (deposit host router from amount w)
  serve host swapping w = committed w (swap_tranche host router w)
  serve host cancelling w = committed w (cancel host router w)

  deposit-plan :
      (host : Host X) (from : Address) (amount : ℤ) (w : World DcaPlan X)
      → (committed w (deposit host router from amount w)).store ≡ w.store
  unfolding deposit
  deposit-plan host from amount w = ground arith

  cancel-plan :
      (host : Host X) (w : World DcaPlan X)
      → ((committed w (cancel host router w)).store ≡ w.store)
        ⊎ ((committed w (cancel host router w)).store ≡ record (w.store) { active = false })
  unfolding cancel
  cancel-plan host w = ground arith

  advanced-IsPaced :
      (created interval max_swaps : ℕ) (host : Host X) (plan : DcaPlan)
      → ensure_due host.timestamp plan ≡ none
      → IsPaced created interval max_swaps host.timestamp plan
      → IsPaced created interval max_swaps host.timestamp (advanced host router plan)
  advanced-IsPaced created interval max_swaps host plan due p = record {
    same_interval = p.same_interval;
    same_max = p.same_max;
    capped = ground (arith, p.same_max);
    spaced = ground (arith, p.same_interval, p.spaced);
    soon = omega (arith, p.same_interval);
    since = p.since;
  }

  serve-IsPaced :
      (created interval max_swaps : ℕ) (host : Host X) (c : Call) (w : World DcaPlan X)
      → IsPaced created interval max_swaps host.timestamp w.store
      → IsPaced created interval max_swaps host.timestamp (serve host c w).store
  serve-IsPaced created interval max_swaps host (depositing from amount) w p =
      rw (deposit-plan host from amount w) p
  serve-IsPaced created interval max_swaps host cancelling w p = elim (cancel-plan host w) [
    | inl same ↦ rw same p
    | inr stopped ↦ rw stopped (record {
      same_interval = p.same_interval;
      same_max = p.same_max;
      capped = p.capped;
      spaced = p.spaced;
      soon = p.soon;
      since = p.since;
    })
  ]
  serve-IsPaced created interval max_swaps host swapping w p =
      elim (swap_tranche-cases host router w) [
        | inl (e, failed, rest) ↦ rw failed p
        | inr (inl trapped) ↦ rw trapped p
        | inr (inr (received, v, returned, t)) ↦
            rw (returned, t.plan_after)
              (advanced-IsPaced created interval max_swaps host w.store t.due p)
      ]

  -- From a state where this holds, such as that of a new vault, along every history of calls in
  -- order of time: the interval of the vault and its largest number of swaps stay as they are, it
  -- has swapped at most that often, and the next tranche may run no earlier than one interval
  -- after its creation for each swap, and no later than one interval from now.
  pub run-IsPaced :
      (created interval max_swaps : ℕ) (moments : List (Host X × Call)) (now : ℕ)
      (w : World DcaPlan X)
      → InOrder now moments
      → IsPaced created interval max_swaps now w.store
      → IsPaced created interval max_swaps (end_time now moments) (run serve moments w).store
  run-IsPaced created interval max_swaps =
      run-keeps serve (λ now w. IsPaced created interval max_swaps now w.store)
        (λ now later w le p. record {
          same_interval = p.same_interval;
          same_max = p.same_max;
          capped = p.capped;
          spaced = p.spaced;
          soon = omega (arith, p.soon);
          since = omega (arith, p.since);
        })
        (serve-IsPaced created interval max_swaps)

  -- Where `swap_tranche` returns, the tranche was due and swaps were left, the plan moved on by
  -- one swap, the owner was paid the returned amount, which is at least the tranche at the lowest
  -- price rounded down, and the swap took exactly the tranche of the sell token. The two tokens
  -- differ, and a swap of the router pays what it says and at least the least amount, and takes
  -- what it was authorized to.
  pub swap_tranche-pays :
      (host : Host X) (w v : World DcaPlan X) (received : ℤ)
      → RouterLaws host router
      → w.store.sell_token ≢ w.store.buy_token
      → swap_tranche host router w ≡ returns received v
      → (w.store.next_swap_at ≤ host.timestamp)
        × (w.store.executed_swaps < w.store.max_swaps)
        × (v.store ≡ advanced host router w.store)
        × (least host router w.store ≤ℤ received)
        × ((x : X) × (host.balance w.store.sell_token host.current_contract_address x
                +ℤ w.store.amount_per_swap
              ≡ host.balance w.store.sell_token host.current_contract_address w.outside)
            × (host.transfer w.store.buy_token host.current_contract_address w.store.owner received
                  x
                ≡ some v.outside))
  swap_tranche-pays host w v received laws distinct e = elim (swap_tranche-cases host router w) [
    | inl (error, failed, rest) ↦ cc
    | inr (inl trapped) ↦ cc
    | inr (inr (received', v', returned, t)) ↦
        let amount : received' ≡ received = ground arith in
        let state : v' ≡ v = ground arith in
        let due = t.due in
        let (enough, spent, got) =
          laws.swap_pays w.store.router t.pair w.store.sell_token w.store.buy_token
            w.store.amount_per_swap (least host router w.store) w.outside t.after_swap t.amounts
            distinct t.swap_ran in
        let last : last_or_zero t.amounts ≡ received = sym t.last_received ∙ amount in
        (
          ground (arith, due),
          ground (arith, due),
          ap (λ (u : World DcaPlan X). u.store) (sym state) ∙ t.plan_after,
          subst (λ (a : ℤ). least host router w.store ≤ℤ a) last enough,
          (
            t.after_swap,
            spent,
            ap
                  (λ (a : ℤ).
                    host.transfer w.store.buy_token host.current_contract_address w.store.owner a
                      t.after_swap)
                  (sym amount)
                ∙ t.owner_paid
                ∙ ap (λ (u : World DcaPlan X). some u.outside) state,
          ),
        )
  ]
