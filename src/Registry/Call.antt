-- ===== src/Registry/Call.antt =====
-- A call of the registry as a transaction: the public functions of contracts/registry/src/lib.rs that
-- change state, and the host's rollback of a call that fails or panics.
use sorocron.Base.{ℕ, Bool, Option, List, [], ◌∷◌}
use sorocron.Base.Int.{ℤ}
use sorocron.Registry.Types.{Address, Hash, JobParams, JobUpdate}
use sorocron.Registry.Host.{Env, World, Outcome, returns, fails, traps}
use sorocron.Registry.Jobs
use sorocron.Registry.Execution
use sorocron.Registry.Keepers
use sorocron.Registry.Admin
use sorocron.Registry.Upgrade

pub data Call : Type 0 where
  create_job : Address → JobParams → ℤ → Call
  create_jobs : Address → List JobParams → List ℤ → Call
  update_job : ℕ → JobUpdate → Call
  fund_job : Address → ℕ → ℤ → Call
  cancel_job : ℕ → Call
  withdraw_job_balance : ℕ → ℤ → Call
  set_job_active : ℕ → Bool → Call
  propose_job_owner : ℕ → Address → Call
  accept_job_owner : ℕ → Call
  execute : Address → ℕ → Call
  execute_batch : Address → List ℕ → Call
  stake : Address → ℤ → Call
  begin_unbonding : Address → Call
  withdraw_stake : Address → Call
  withdraw_stakes : List Address → Call
  set_executor : Address → Call
  propose_admin : Address → Call
  accept_admin : Call
  cancel_admin_proposal : Call
  set_paused : Bool → Call
  set_target_halted : Address → Bool → Call
  set_min_stake : ℤ → Call
  set_min_interval : ℕ → Call
  set_max_args : ℕ → Call
  set_protocol_fee : ℕ → Option Address → Call
  set_max_failures : ℕ → Call
  set_keeper_windows : ℕ → Call
  set_unbonding_epoch : ℕ → Call
  propose_upgrade : Hash → Call
  apply_upgrade : Call
  cancel_upgrade : Call
  set_upgrade_delay : ℕ → Call

module _ {X : Type 0} where
  -- What a transaction leaves: a call that fails or panics changes nothing.
  abbrev pub committed : {A : Type 0} → World X → Outcome X A → World X
  committed w (returns a v) = v
  committed w (fails e v) = w
  committed w traps = w

  unfoldable pub step : Env X → Call → World X → World X
  step env (Call.create_job o p d) w = committed w (Jobs.create_job env o p d w)
  step env (Call.create_jobs o ps ds) w = committed w (Jobs.create_jobs env o ps ds w)
  step env (Call.update_job id u) w = committed w (Jobs.update_job env id u w)
  step env (Call.fund_job a id n) w = committed w (Jobs.fund_job env a id n w)
  step env (Call.cancel_job id) w = committed w (Jobs.cancel_job env id w)
  step env (Call.withdraw_job_balance id n) w = committed w (Jobs.withdraw_job_balance env id n w)
  step env (Call.set_job_active id b) w = committed w (Jobs.set_job_active env id b w)
  step env (Call.propose_job_owner id a) w = committed w (Jobs.propose_job_owner env id a w)
  step env (Call.accept_job_owner id) w = committed w (Jobs.accept_job_owner env id w)
  step env (Call.execute k id) w = committed w (Execution.execute env k id w)
  step env (Call.execute_batch k ids) w = committed w (Execution.execute_batch env k ids w)
  step env (Call.stake k n) w = committed w (Keepers.stake env k n w)
  step env (Call.begin_unbonding k) w = committed w (Keepers.begin_unbonding env k w)
  step env (Call.withdraw_stake k) w = committed w (Keepers.withdraw_stake env k w)
  step env (Call.withdraw_stakes ks) w = committed w (Keepers.withdraw_stakes env ks w)
  step env (Call.set_executor a) w = committed w (Admin.set_executor env a w)
  step env (Call.propose_admin a) w = committed w (Admin.propose_admin env a w)
  step env Call.accept_admin w = committed w (Admin.accept_admin env w)
  step env Call.cancel_admin_proposal w = committed w (Admin.cancel_admin_proposal env w)
  step env (Call.set_paused b) w = committed w (Admin.set_paused env b w)
  step env (Call.set_target_halted a b) w = committed w (Admin.halt_target env a b w)
  step env (Call.set_min_stake n) w = committed w (Admin.set_min_stake env n w)
  step env (Call.set_min_interval n) w = committed w (Admin.set_min_interval env n w)
  step env (Call.set_max_args n) w = committed w (Admin.set_max_args env n w)
  step env (Call.set_protocol_fee n t) w = committed w (Admin.set_protocol_fee env n t w)
  step env (Call.set_max_failures n) w = committed w (Admin.set_max_failures env n w)
  step env (Call.set_keeper_windows n) w = committed w (Admin.set_keeper_windows env n w)
  step env (Call.set_unbonding_epoch n) w = committed w (Upgrade.set_unbonding_epoch env n w)
  step env (Call.propose_upgrade h) w = committed w (Upgrade.propose_upgrade env h w)
  step env Call.apply_upgrade w = committed w (Upgrade.apply_upgrade env w)
  step env Call.cancel_upgrade w = committed w (Upgrade.cancel_upgrade env w)
  step env (Call.set_upgrade_delay n) w = committed w (Upgrade.set_upgrade_delay env n w)

  -- A history: each call with the host at its time and with its signers.
  unfoldable pub run : List (Env X × Call) → World X → World X
  unfolding step
  run [] w = w
  run ((env, call) ∷ calls) w = run calls (step env call w)
