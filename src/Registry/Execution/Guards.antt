-- ===== src/Registry/Execution/Guards.antt =====
-- When a run passes the guards of `run_job`: contracts/registry/src/lib.rs, `run_job`, `ensure_due`
-- and `authorize_keeper`.
use sorocron.Base.{ℕ, ◌≤◌, ◌<◌, ◌≡◌, ◌⊎◌, true, false, Option, none, some, arith}
use sorocron.Base.Int.{◌≤ℤ◌}
use sorocron.Base.Word.{sat_add}
use sorocron.Base.Dict.{find}
use sorocron.Registry.Types.{Address, Config, JobSpec, JobState, Keeper, Error}
use sorocron.Registry.Result.{ok}
use sorocron.Registry.Storage.{is_target_halted}
use sorocron.Registry.Host.{Env, World, returns, fails}
use sorocron.Registry.Checks.{
  ensure_not_paused, ensure_active_keeper, ensure_due, is_forbidden_target, dependency_met,
}
use sorocron.Registry.Execution.{not_allowed, authorize_keeper, run_guards}

-- What `ensure_due` grants: the job is active, has runs left, has not expired, is funded and its time
-- has come.
pub record IsDue (spec : JobSpec) (state : JobState) (now : ℕ) : Type 0 where
  pub running : state.active ≡ true
  pub runs_left : (spec.max_runs ≡ 0) ⊎ (state.runs < spec.max_runs)
  pub not_expired : (spec.end_at ≡ 0) ⊎ (now < spec.end_at)
  pub funded : spec.fee_per_run ≤ℤ state.balance
  pub on_time : state.next_run ≤ now

-- `ensure_due` passes exactly for a job that is active, has runs left, has not expired, holds at
-- least its fee and whose time has come.
pub ensure_due_iff :
    (spec : JobSpec) (state : JobState) (now : ℕ)
    → (ensure_due spec state now ≡ ok tt → IsDue spec state now)
      × (IsDue spec state now → ensure_due spec state now ≡ ok tt)
unfolding ensure_due
ensure_due_iff spec state now = (λ h. ground arith, λ h. ground arith)

-- A keeper that may execute: it is not unbonding and stakes enough.
pub record IsEligible (config : Config) (info : Keeper) : Type 0 where
  pub bonded : info.unbonding_at ≡ none
  pub staked : config.min_stake ≤ℤ info.stake

pub ensure_active_keeper_iff :
    (config : Config) (info : Keeper)
    → (ensure_active_keeper config info ≡ ok tt → IsEligible config info)
      × (IsEligible config info → ensure_active_keeper config info ≡ ok tt)
unfolding ensure_active_keeper
ensure_active_keeper_iff config info = (λ h. ground arith, λ h. ground arith)

module _ {X : Type 0} (env : Env X) where
  pub authorize_keeper-returns :
      (config : Config) (keeper executor : Address) (info : Keeper) (w w' : World X)
      → authorize_keeper env config keeper w ≡ returns (executor, info) w'
      → (w' ≡ w)
        × (config.paused ≡ false)
        × (config.executor ≡ some executor)
        × (env.authorized keeper ≡ true)
        × (find keeper w.store.keepers ≡ some info)
        × (ensure_active_keeper config info ≡ ok tt)
  unfolding authorize_keeper ensure_not_paused
  authorize_keeper-returns config keeper executor info w w' h = ground arith

  pub run_guards-returns :
      (config : Config) (keeper : Address) (job_id : ℕ) (spec : JobSpec) (state : JobState)
      (assigned : Option Address) (seen : ℕ) (w w' : World X)
      → run_guards env config keeper job_id spec state assigned w ≡ returns seen w'
      → (w' ≡ w)
        × (ensure_due spec state env.timestamp ≡ ok tt)
        × (is_forbidden_target env.current_contract_address config spec.target ≡ false)
        × (is_target_halted w.store spec.target ≡ false)
        × (not_allowed spec.keepers keeper ≡ false)
        × ((assigned ≡ none) ⊎ (sat_add state.next_run config.grace_period ≤ env.timestamp))
        × (dependency_met w.store spec state ≡ ok seen)
  unfolding run_guards
  run_guards-returns config keeper job_id spec state assigned seen w w' h = ground arith

  pub run_guards-fails :
      (config : Config) (keeper : Address) (job_id : ℕ) (spec : JobSpec) (state : JobState)
      (assigned : Option Address) (e : Error) (w w' : World X)
      → run_guards env config keeper job_id spec state assigned w ≡ fails e w'
      → w' ≡ w
  unfolding run_guards
  run_guards-fails config keeper job_id spec state assigned e w w' h = ground arith
