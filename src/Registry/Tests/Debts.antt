-- ===== src/Registry/Tests/Debts.antt =====
-- A history of a new registry: its ledger and its debts.
use sorocron.Base.{
  ℕ, ◌≡◌, refl, ap, false, Option, some, none, List, [], ◌∷◌, arith, unwrap_or, ◌==◌, ◌&&◌,
}
use sorocron.Base.Int.{ℤ, pos, ◌+ℤ◌, ◌-ℤ◌, int_laws}
use sorocron.Registry.Storage.{Storage}
use sorocron.Registry.Admin.{constructor, empty_storage}
use sorocron.Registry.Host.{Env, World}
use sorocron.Registry.Call.{Call, run}
use sorocron.Registry.Solvency.{Custody, IsSolvent, gated}
use sorocron.Registry.Solvency.Steps.{run-IsSolvent, constructor-IsSolvent}
use sorocron.Registry.Tests.Sample.{Ledger, held, move, host, params, registry}

moves : (a p q : ℤ) → a +ℤ q -ℤ p +ℤ p ≡ a +ℤ q
moves a p q = omega int_laws

custody : (now : ℕ) → Custody registry held (host now)
custody now = record {
  here = refl;
  unsigned = refl;
  transfer_moves = λ token from to amount x y e t who.
      let same : move token from to amount x ≡ y = ap (λ (o : Option Ledger). unwrap_or o x) e in
      rw (← same) (
        moves (x t who) (gated (t == token && who == from) amount)
          (gated (t == token && who == to) amount));
  target_keeps = λ executor target function args x t. omega arith;
  resolver_keeps = λ resolver job_id x t. omega arith;
}

abbrev deployed : Storage
deployed = unwrap_or (constructor 1 2 3 (pos 20) 600) (
    empty_storage (record {
      admin = 0;
      fee_token = 0;
      stake_token = 0;
      min_stake = pos 0;
      unbonding_period = 0;
      paused = false;
      executor = none;
      min_interval = 0;
      max_args = 0;
      protocol_fee_bps = 0;
      treasury = none;
      max_failures = 0;
      grace_period = 0;
      slash_bps = 0;
      unbonding_epoch = 0;
    }))

abbrev nothing : Ledger
nothing token who = pos 0

abbrev start : World Ledger
start = record { store = deployed; outside = nothing; events = []; code = [] }

constructor-some : constructor 1 2 3 (pos 20) 600 ≡ some deployed
unfolding constructor
constructor-some = refl

start-IsSolvent : IsSolvent registry held start
start-IsSolvent =
    constructor-IsSolvent registry held 1 2 3 (pos 20) 600 start constructor-some (λ t. omega arith)

-- The executor is set, a keeper stakes, a job is created, run and cancelled.
abbrev calls : List (Env Ledger × Call)
calls =
    (host 10, Call.set_executor 7)
    ∷ (host 20, Call.stake 4 (pos 50))
    ∷ (host 30, Call.create_job 6 params (pos 100))
    ∷ (host 95, Call.execute 4 0)
    ∷ (host 99, Call.cancel_job 0)
    ∷ []

run-IsSolvent_example : IsSolvent registry held (run calls start)
run-IsSolvent_example =
    run-IsSolvent registry held calls start
      (custody 10, (custody 20, (custody 30, (custody 95, (custody 99, tt))))) start-IsSolvent
