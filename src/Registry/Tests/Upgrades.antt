-- ===== src/Registry/Tests/Upgrades.antt =====
-- An upgrade that is proposed, pushed back and applied.
use sorocron.Base.Int.{pos}
use sorocron.Base.Dict.{find}
use sorocron.Registry.Keepers.{withdraw_stake}
use sorocron.Base.{inl, false, List, ℕ, ◌≤◌, ◌≡◌, refl, true, none, some, [], ◌∷◌, arith}
use sorocron.Registry.Types.{PendingUpgrade}
use sorocron.Registry.Schedule.{unbonding_release}
use sorocron.Registry.Host.{Env, World, Outcome, returns, fails, traps}
use sorocron.Registry.Admin.{admin_config}
use sorocron.Registry.Upgrade.{
  min_upgrade_delay, upgrade_delay_for, push_back_pending_upgrade, set_unbonding_epoch,
  propose_upgrade, update_current_contract, apply_upgrade, set_upgrade_delay,
}
use sorocron.Registry.Upgrade.Delay.{IsTimely, apply_upgrade-returns, apply_upgrade-after-unbonding}
use sorocron.Registry.Call.{Call, run}
use sorocron.Registry.Upgrade.History.{run-IsTimely}
use sorocron.Registry.Tests.Sample.{Ledger, host, store, world, upgrade, keeper, move}

abbrev left_by : {A : Type 0} → Outcome Ledger A → World Ledger
left_by (returns a v) = v
left_by (fails e v) = v
left_by traps = world

abbrev proposed : Outcome Ledger ℕ
proposed = propose_upgrade (host 1200) (2 ∷ []) world

abbrev longer_epoch : Outcome Ledger (Unit {0})
longer_epoch = set_unbonding_epoch (host 1200) 1000 world

abbrev longer_delay : Outcome Ledger (Unit {0})
longer_delay = set_upgrade_delay (host 1200) 2000 world

abbrev applied : Outcome Ledger (Unit {0})
applied = apply_upgrade (host 1900) world

proposed-returns : proposed ≡ returns 2000 (left_by proposed)
unfolding propose_upgrade admin_config upgrade_delay_for min_upgrade_delay
proposed-returns = refl

longer_epoch-returns : longer_epoch ≡ returns tt (left_by longer_epoch)
unfolding set_unbonding_epoch admin_config push_back_pending_upgrade
longer_epoch-returns = refl

longer_delay-returns : longer_delay ≡ returns tt (left_by longer_delay)
unfolding set_upgrade_delay admin_config push_back_pending_upgrade min_upgrade_delay
longer_delay-returns = refl

applied-returns : applied ≡ returns tt (left_by applied)
unfolding apply_upgrade admin_config update_current_contract
applied-returns = refl

sample-IsTimely : IsTimely store
unfolding upgrade_delay_for min_upgrade_delay
sample-IsTimely = omega arith

apply_upgrade-returns_example :
    (p : PendingUpgrade) × (store.pending_upgrade ≡ some p)
    × (p.available_at ≤ 1900)
    × ((host 1900).authorized 1 ≡ true)
    × ((left_by applied).code ≡ p.wasm_hash)
    × ((left_by applied).store ≡ record store { pending_upgrade = none })
apply_upgrade-returns_example =
    apply_upgrade-returns (host 1900) world (left_by applied) applied-returns

-- Keeper 10 began unbonding at 200.
unbonding_stored : some 900 ≡ some (unbonding_release 200 600 100)
unfolding unbonding_release
unbonding_stored = refl

apply_upgrade-after-unbonding_example :
    (unbonding_release 200 600 100 ≤ 1900)
    × ((u : World Ledger) × (withdraw_stake (host 1900) 10 world ≡ returns (pos 50) u)
        × (u.outside ≡ move 3 9 10 (pos 50) world.outside))
unfolding find
apply_upgrade-after-unbonding_example =
    apply_upgrade-after-unbonding (host 1900) world (left_by applied) upgrade 10
      (record keeper { unbonding_at = some 900 }) 200 600 100 (move 3 9 10 (pos 50) world.outside)
      sample-IsTimely refl applied-returns refl unbonding_stored (omega arith) (omega arith)
      (omega arith) (omega arith) refl (inl (omega arith, refl))

-- A second proposal replaces the first, which a longer epoch had pushed back; a job is paused and
-- the new code is applied.
abbrev calls : List (Env Ledger × Call)
calls =
    (host 1200, Call.set_unbonding_epoch 1000)
    ∷ (host 1300, Call.propose_upgrade (2 ∷ []))
    ∷ (host 1400, Call.set_job_active 0 false)
    ∷ (host 4000, Call.apply_upgrade)
    ∷ []

run-IsTimely_example : IsTimely (run calls world).store
run-IsTimely_example = run-IsTimely calls world sample-IsTimely
