-- ===== src/Examples/Tests/Funds.antt =====
-- Vesting, subscriptions and self-extending storage.
use sorocron.Base.{
  ℕ, ◌<◌, ◌≤◌, ◌≡◌, refl, true, false, none, some, List, [], ◌∷◌, ltb, if◌then◌else◌, arith,
}
use sorocron.Base.Int.{pos, ◌+ℤ◌, ◌-ℤ◌}
use sorocron.Base.Lists.{length}
use sorocron.Base.Word.{u64_max}
use sorocron.Base.Dict.{find, put, sum_by}
use sorocron.Soroban.{World, Outcome, returns, fails, traps, committed}
use sorocron.Soroban.History.{run}
use sorocron.Soroban
use sorocron.Examples.Tests.Sample.{Ledger, host, laws, token_laws}
use sorocron.Examples.Vesting
use sorocron.Examples.Vesting.Backing
use sorocron.Examples.Vesting.Payments.{release_vested-pays}
use sorocron.Examples.Vesting.Locked.{create_schedule-locked}
use sorocron.Examples.Subscription
use sorocron.Examples.Subscription.Periods.{charge-again}
use sorocron.Examples.Subscription.Times.{run-OnPlan, OnPlan}
use sorocron.Examples.Subscription.Periods
use sorocron.Examples.SelfExtending
use sorocron.Examples.SelfExtending.Kept.{Extending, Extended, constructor-IsKept}
use sorocron.Examples.SelfExtending.Lasting.{run-extend_ttl}
use sorocron.Examples.SelfExtending.Lasting

abbrev wealth : Ledger
wealth token who = pos 5000

-- 1000 tokens for 4, from 100 on, with a cliff of 200 and a duration of 1000, of which 300 are paid.
abbrev schedule : Vesting.VestingSchedule
schedule = record {
  beneficiary = 4;
  total_amount = pos 1000;
  released_amount = pos 300;
  start_time = 100;
  cliff_duration = 200;
  total_duration = 1000;
  revocable = false;
  revoked = false;
}

abbrev vesting : World Vesting.Vesting Ledger
vesting = record {
  store = record { admin = 1; token = 2; schedules = (4, schedule) ∷ [] };
  outside = wealth;
}

stored : find 4 vesting.store.schedules ≡ some schedule
unfolding find
stored = refl

vesting-IsBacked : Backing.IsBacked (host 600) vesting
unfolding sum_by ◌+ℤ◌ ◌-ℤ◌
vesting-IsBacked = record {
  sound = (
    record {
      released_some = omega arith;
      released_within = omega arith;
      cliff_within = omega arith;
      lasting = omega arith;
    },
    tt,
  );
  backed = omega arith;
}

serve-IsBacked_example :
    Backing.IsBacked (host 600) (Backing.serve (host 600) (Backing.release 4) vesting)
serve-IsBacked_example =
    Backing.serve-IsBacked (host 600) (Backing.release 4) vesting (token_laws 600) vesting-IsBacked

release_vested-pays_example :
    (Vesting.should_run_for 600 vesting.store 4 ≡ some true)
    × ((y : Ledger) × ((host 600).transfer 2 9 4 (pos 200) wealth ≡ some y)
        × (Vesting.release_vested (host 600) 4 vesting
            ≡ returns (pos 200) (record {
              store = record (vesting.store) {
                schedules =
                    put 4 (record schedule { released_amount = pos 500 }) ((4, schedule) ∷ []);
              };
              outside = y;
            })))
release_vested-pays_example =
    release_vested-pays (laws 600) vesting 4 schedule 1000 300 vesting-IsBacked stored refl refl
      refl (omega arith) (omega arith) (omega arith) (omega arith)

-- A schedule for 5 that ends one second past the u64.
abbrev locked : World Vesting.Vesting Ledger
locked = committed vesting (Vesting.create_schedule (host 600) 5 (pos 10) u64_max 0 1 false vesting)

created :
    Vesting.create_schedule (host 600) 5 (pos 10) u64_max 0 1 false vesting ≡ returns tt locked
unfolding Vesting.create_schedule find
created = refl

create_schedule-locked_example : Vesting.release_vested (host 900) 5 locked ≡ traps
create_schedule-locked_example =
    create_schedule-locked (host 600) 5 (pos 10) u64_max 0 1 false vesting locked locked (host 900)
      created (omega arith) refl

abbrev plan : Subscription.Plan
plan = record { merchant = 3; token = 2; price = pos 10; period = 100 }

abbrev subscriptions : World Subscription.Subscriptions Ledger
subscriptions = record { store = record { plan = plan; subs = []; jobs = [] }; outside = wealth }

-- Two charges in the second period, of which one succeeds.
abbrev billing : List (Soroban.Host Ledger × Periods.Call)
billing =
    (host 10, Periods.subscribing 4)
    ∷ (host 20, Periods.charging 4)
    ∷ (host 150, Periods.charging 4)
    ∷ (host 160, Periods.charging 4)
    ∷ []

run-OnPlan_example : OnPlan 4 plan 160 (run (Periods.observed 4) billing (subscriptions, []))
unfolding find
run-OnPlan_example =
    run-OnPlan 4 plan billing 0 subscriptions []
      (omega arith, (omega arith, (omega arith, (omega arith, tt)))) (refl, tt, refl)

-- The two charges that returned, and their periods.
charges_noted : (run (Periods.observed 4) billing (subscriptions, [])).1 ≡ 150 ∷ 20 ∷ []
unfolding Subscription.subscribe Subscription.charge find put
charges_noted = refl

abbrev sub : Subscription.Subscription
sub = record { start = 10; last_charged = none; payments = 0 }

abbrev subscribed : World Subscription.Subscriptions Ledger
subscribed = record {
  store = record { plan = plan; subs = (4, sub) ∷ []; jobs = [] };
  outside = wealth;
}

abbrev paid : World Subscription.Subscriptions Ledger
paid = committed subscribed (Subscription.charge (host 120) 4 subscribed)

charged : Subscription.charge (host 120) 4 subscribed ≡ returns 1 paid
unfolding Subscription.charge find
charged = refl

sub_stored : find 4 subscribed.store.subs ≡ some sub
unfolding find
sub_stored = refl

charge-again_example :
    Subscription.charge (host 200) 4 paid ≡ fails Subscription.already_charged paid
charge-again_example =
    charge-again (host 120) 4 subscribed paid paid 1 (host 200) charged refl refl sub sub_stored
      (omega arith)

abbrev lengthened : ℕ → ℕ → ℕ → ℕ
lengthened ttl low high = if ltb ttl low then high else ttl

lengthening : Extending lengthened
lengthening = record {
  never_shorter = λ ttl low high h. ground arith;
  long_enough = λ ttl low high h. ground arith;
}

-- Ten days pass before the first extension, and fifteen after it.
abbrev entries : List (Soroban.Host Ledger × Lasting.Call)
entries =
    (host 5, Lasting.storing 7 1)
    ∷ (host 5, Lasting.passing 172800)
    ∷ (host 6, Lasting.storing 8 2)
    ∷ (host 7, Lasting.extending)
    ∷ (host 7, Lasting.passing 259200)
    ∷ []

abbrev empty : World SelfExtending.SelfExtending Ledger
empty = record { store = SelfExtending.constructor lengthened 518400 1; outside = wealth }

abbrev kept : SelfExtending.SelfExtending
kept = (run (Lasting.serve lengthened 518400) entries empty).store

run-extend_ttl_example :
    (0 < kept.instance_ttl)
    × ((key : ℕ) (e : SelfExtending.Entry) → find key kept.entries ≡ some e → 0 < e.ttl)
    × (length kept.index ≤ 50)
    × ((later : SelfExtending.SelfExtending) × (SelfExtending.extend_ttl lengthened 518400 kept
          ≡ some (length kept.index, later))
        × Extended lengthened 518400 lengthening kept later)
run-extend_ttl_example =
    run-extend_ttl lengthened 518400 lengthening entries 0 empty (omega arith, omega arith)
      (constructor-IsKept lengthened 518400 lengthening 1 (omega arith))
