-- ===== src/Registry/Solvency/Steps.antt =====
-- The invariant of Solvency at every transaction, along every history and from deployment.
use sorocron.Base.{ℕ, ◌≤◌, ◌≡◌, refl, Bool, true, false, some, List, [], ◌∷◌, arith}
use sorocron.Base.Int.{ℤ, pos, ◌+ℤ◌, ◌≤ℤ◌, int_laws}
use sorocron.Base.Dict.{sum_by}
use sorocron.Registry.Types.{Address}
use sorocron.Registry.Storage.{Storage}
use sorocron.Registry.Host.{Env, World, Outcome, returns, fails, traps}
use sorocron.Registry.Call.{Call, committed, step, run}
use sorocron.Registry.Admin.{constructor}
use sorocron.Registry.Solvency.{Custody, IsSolvent, jobs_total, stakes_total, gated}
use sorocron.Registry.Solvency.Jobs.{
  fund_job-IsSolvent, withdraw_job_balance-IsSolvent, set_job_active-IsSolvent,
  cancel_job-IsSolvent,
}
use sorocron.Registry.Solvency.Calls.{execute-IsSolvent, execute_batch-IsSolvent}
use sorocron.Registry.Solvency.Keepers.{
  stake-IsSolvent, begin_unbonding-IsSolvent, withdraw_stake-IsSolvent, withdraw_stakes-IsSolvent,
}
use sorocron.Registry.Solvency.Creation.{
  create_job-IsSolvent, create_jobs-IsSolvent, update_job-IsSolvent,
}
use sorocron.Registry.Solvency.Quiet.{
  IsQuiet, IsQuiet-IsSolvent, accept_job_owner-IsSolvent, propose_job_owner-IsQuiet,
  set_executor-IsQuiet, propose_admin-IsQuiet, accept_admin-IsQuiet, cancel_admin_proposal-IsQuiet,
  set_paused-IsQuiet, halt_target-IsQuiet, set_min_stake-IsQuiet, set_min_interval-IsQuiet,
  set_max_args-IsQuiet, set_protocol_fee-IsQuiet, set_max_failures-IsQuiet,
  set_keeper_windows-IsQuiet, set_unbonding_epoch-IsQuiet, propose_upgrade-IsQuiet,
  apply_upgrade-IsQuiet, cancel_upgrade-IsQuiet, set_upgrade_delay-IsQuiet,
}

committed-IsSolvent :
    {X A : Type 0} {registry : Address} {balance_of : Address → Address → X → ℤ} (w : World X)
    (o : Outcome X A)
    → IsSolvent registry balance_of w
    → ((a : A) (v : World X) → o ≡ returns a v → IsSolvent registry balance_of v)
    → IsSolvent registry balance_of (committed w o)
committed-IsSolvent w (returns a v) s keep = keep a v refl
committed-IsSolvent w (fails e v) s keep = s
committed-IsSolvent w traps s keep = s

committed-quiet :
    {X A : Type 0} {registry : Address} {balance_of : Address → Address → X → ℤ} (w : World X)
    (o : Outcome X A)
    → IsSolvent registry balance_of w
    → ((a : A) (v : World X) → o ≡ returns a v → IsQuiet w v)
    → IsSolvent registry balance_of (committed w o)
committed-quiet w o s quiet =
    committed-IsSolvent w o s (λ a v h. IsQuiet-IsSolvent _ _ w v s (quiet a v h))

module _ {X : Type 0} {registry : Address} {balance_of : Address → Address → X → ℤ} {env : Env X}
    (c : Custody registry balance_of env) where
  -- A transaction keeps the registry solvent, whichever public function it calls and however that ends.
  pub step-IsSolvent :
      (call : Call) (w : World X)
      → IsSolvent registry balance_of w
      → IsSolvent registry balance_of (step env call w)
  unfolding step
  step-IsSolvent (Call.create_job o p d) w s =
      committed-IsSolvent w _ s (λ b v h. create_job-IsSolvent c o p d b w v s h)
  step-IsSolvent (Call.create_jobs o ps ds) w s =
      committed-IsSolvent w _ s (λ b v h. create_jobs-IsSolvent c o ps ds b w v s h)
  step-IsSolvent (Call.fund_job a id n) w s =
      committed-IsSolvent w _ s (λ b v h. fund_job-IsSolvent c a id n b w v s h)
  step-IsSolvent (Call.cancel_job id) w s =
      committed-IsSolvent w _ s (λ b v h. cancel_job-IsSolvent c id b w v s h)
  step-IsSolvent (Call.withdraw_job_balance id n) w s =
      committed-IsSolvent w _ s (λ b v h. withdraw_job_balance-IsSolvent c id n b w v s h)
  step-IsSolvent (Call.execute_batch k ids) w s =
      committed-IsSolvent w _ s (λ b v h. execute_batch-IsSolvent c k ids b w v s h)
  step-IsSolvent (Call.stake k n) w s =
      committed-IsSolvent w _ s (λ b v h. stake-IsSolvent c k n b w v s h)
  step-IsSolvent (Call.begin_unbonding k) w s =
      committed-IsSolvent w _ s (λ b v h. begin_unbonding-IsSolvent c k b w v s h)
  step-IsSolvent (Call.withdraw_stake k) w s =
      committed-IsSolvent w _ s (λ b v h. withdraw_stake-IsSolvent c k b w v s h)
  step-IsSolvent (Call.withdraw_stakes ks) w s =
      committed-IsSolvent w _ s (λ b v h. withdraw_stakes-IsSolvent c ks b w v s h)
  step-IsSolvent (Call.set_job_active id b) w s =
      committed-IsSolvent w _ s (λ r v h. set_job_active-IsSolvent c id b w v s h)
  step-IsSolvent (Call.update_job id u) w s =
      committed-IsSolvent w _ s (λ r v h. update_job-IsSolvent c id u w v s h)
  step-IsSolvent (Call.execute k id) w s =
      committed-IsSolvent w _ s (λ r v h. execute-IsSolvent c k id w v s h)
  step-IsSolvent (Call.accept_job_owner id) w s =
      committed-IsSolvent w _ s
        (λ b v h. accept_job_owner-IsSolvent registry balance_of env id w v s h)
  step-IsSolvent (Call.propose_job_owner id a) w s =
      committed-quiet w _ s (λ r v h. propose_job_owner-IsQuiet env w v id a h)
  step-IsSolvent (Call.set_executor a) w s =
      committed-quiet w _ s (λ r v h. set_executor-IsQuiet env w v a h)
  step-IsSolvent (Call.propose_admin a) w s =
      committed-quiet w _ s (λ r v h. propose_admin-IsQuiet env w v a h)
  step-IsSolvent Call.accept_admin w s =
      committed-quiet w _ s (λ r v h. accept_admin-IsQuiet env w v h)
  step-IsSolvent Call.cancel_admin_proposal w s =
      committed-quiet w _ s (λ r v h. cancel_admin_proposal-IsQuiet env w v h)
  step-IsSolvent (Call.set_paused b) w s =
      committed-quiet w _ s (λ r v h. set_paused-IsQuiet env w v b h)
  step-IsSolvent (Call.set_target_halted a b) w s =
      committed-quiet w _ s (λ r v h. halt_target-IsQuiet env w v a b h)
  step-IsSolvent (Call.set_min_stake n) w s =
      committed-quiet w _ s (λ r v h. set_min_stake-IsQuiet env w v n h)
  step-IsSolvent (Call.set_min_interval n) w s =
      committed-quiet w _ s (λ r v h. set_min_interval-IsQuiet env w v n h)
  step-IsSolvent (Call.set_max_args n) w s =
      committed-quiet w _ s (λ r v h. set_max_args-IsQuiet env w v n h)
  step-IsSolvent (Call.set_protocol_fee n t) w s =
      committed-quiet w _ s (λ r v h. set_protocol_fee-IsQuiet env w v n t h)
  step-IsSolvent (Call.set_max_failures n) w s =
      committed-quiet w _ s (λ r v h. set_max_failures-IsQuiet env w v n h)
  step-IsSolvent (Call.set_keeper_windows n) w s =
      committed-quiet w _ s (λ r v h. set_keeper_windows-IsQuiet env w v n h)
  step-IsSolvent (Call.set_unbonding_epoch n) w s =
      committed-quiet w _ s (λ r v h. set_unbonding_epoch-IsQuiet env w v n h)
  step-IsSolvent (Call.propose_upgrade h) w s =
      committed-quiet w _ s (λ r v e. propose_upgrade-IsQuiet env w v h r e)
  step-IsSolvent Call.apply_upgrade w s =
      committed-quiet w _ s (λ r v h. apply_upgrade-IsQuiet env w v h)
  step-IsSolvent Call.cancel_upgrade w s =
      committed-quiet w _ s (λ r v h. cancel_upgrade-IsQuiet env w v h)
  step-IsSolvent (Call.set_upgrade_delay n) w s =
      committed-quiet w _ s (λ r v h. set_upgrade_delay-IsQuiet env w v n h)

-- Every host of a history keeps the registry's tokens safe.
abbrev pub AllCustody :
    {X : Type 0} → Address → (Address → Address → X → ℤ) → List (Env X × Call) → Type 0
AllCustody registry balance_of [] = Unit {0}
AllCustody registry balance_of ((env, call) ∷ calls) =
    Custody registry balance_of env × AllCustody registry balance_of calls

-- From a solvent state every history of calls leads to a solvent state: of every token the
-- registry holds at least the sum of the job balances, if it is the fee token, plus the sum of
-- the stakes, if it is the stake token, no balance and no stake is negative, every job pays a fee
-- and the protocol's share is at most a tenth. In each call the host gives the registry its own
-- address, nobody signs for that address, a token's transfer moves the amount and changes no
-- other balance, and no target or resolver lowers the registry's balances.
pub run-IsSolvent :
    {X : Type 0} (registry : Address) (balance_of : Address → Address → X → ℤ)
    (calls : List (Env X × Call)) (w : World X)
    → AllCustody registry balance_of calls
    → IsSolvent registry balance_of w
    → IsSolvent registry balance_of (run calls w)
unfolding run
run-IsSolvent registry balance_of [] w cs s = s
run-IsSolvent registry balance_of ((env, call) ∷ calls) w (c, cs) s =
    run-IsSolvent registry balance_of calls (step env call w) cs (step-IsSolvent c call w s)

constructor-facts :
    (admin fee_token stake_token : Address) (min_stake : ℤ) (unbonding_period : ℕ) (s : Storage)
    → constructor admin fee_token stake_token min_stake unbonding_period ≡ some s
    → (jobs_total s ≡ pos 0)
      × (stakes_total s ≡ pos 0)
      × (s.states ≡ [])
      × (s.specs ≡ [])
      × (s.keepers ≡ [])
      × (s.config.protocol_fee_bps ≤ 1000)
unfolding constructor sum_by
constructor-facts admin fee_token stake_token min_stake unbonding_period s h = ground arith

no_debts :
    (p q : Bool) (jobs stakes held : ℤ)
    → jobs ≡ pos 0
    → stakes ≡ pos 0
    → pos 0 ≤ℤ held
    → gated p jobs +ℤ gated q stakes ≤ℤ held
no_debts true true jobs stakes held e f h = rw (e, f) (omega int_laws)
no_debts true false jobs stakes held e f h = rw e (omega int_laws)
no_debts false true jobs stakes held e f h = rw f (omega int_laws)
no_debts false false jobs stakes held e f h = omega int_laws

-- A registry whose storage is what the constructor has just written is solvent, if it holds a
-- negative balance of no token.
pub constructor-IsSolvent :
    {X : Type 0} (registry : Address) (balance_of : Address → Address → X → ℤ)
    (admin fee_token stake_token : Address) (min_stake : ℤ) (unbonding_period : ℕ) (w : World X)
    → constructor admin fee_token stake_token min_stake unbonding_period ≡ some w.store
    → ((t : Address) → pos 0 ≤ℤ balance_of t registry w.outside)
    → IsSolvent registry balance_of w
constructor-IsSolvent registry balance_of admin fee_token stake_token min_stake unbonding_period w h
      held =
    let (jobs, stakes, states, specs, keepers, share) =
      constructor-facts admin fee_token stake_token min_stake unbonding_period w.store h in
    record {
      backed = λ t. no_debts _ _ _ _ _ jobs stakes (held t);
      balances = rw states tt;
      fees = rw specs tt;
      stakes = rw keepers tt;
      share = share;
    }
