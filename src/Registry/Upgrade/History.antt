-- ===== src/Registry/Upgrade/History.antt =====
-- The delay of a pending upgrade along every history: contracts/registry/src/lib.rs.
use sorocron.Base.{◌≡◌, refl, ap, Option, none, some, List, [], ◌∷◌, arith}
use sorocron.Registry.Types.{PendingUpgrade}
use sorocron.Registry.Storage.{Storage}
use sorocron.Registry.Host.{Env, World, Outcome, returns, fails, traps}
use sorocron.Registry.Call.{Call, committed, step, run}
use sorocron.Registry.Upgrade.{upgrade_delay_for, min_upgrade_delay, apply_upgrade, cancel_upgrade}
use sorocron.Registry.Upgrade.Delay.{
  WaitsIn, IsTimely, propose_upgrade-IsTimely, set_unbonding_epoch-IsTimely,
  set_upgrade_delay-IsTimely, apply_upgrade-returns,
}
use sorocron.Registry.Upgrade.Frame.{
  SameTiming, create_jobs-SameTiming, withdraw_stakes-SameTiming, create_job-SameTiming,
  fund_job-SameTiming, cancel_job-SameTiming, withdraw_job_balance-SameTiming, stake-SameTiming,
  begin_unbonding-SameTiming, withdraw_stake-SameTiming, propose_job_owner-SameTiming,
  set_executor-SameTiming, propose_admin-SameTiming, accept_admin-SameTiming,
  cancel_admin_proposal-SameTiming, set_paused-SameTiming, halt_target-SameTiming,
  set_min_stake-SameTiming, set_min_interval-SameTiming, set_max_args-SameTiming,
  set_protocol_fee-SameTiming, set_max_failures-SameTiming, set_keeper_windows-SameTiming,
  set_job_active-SameTiming, update_job-SameTiming, accept_job_owner-SameTiming,
}
use sorocron.Registry.Upgrade.Runs.{execute-SameTiming, execute_batch-SameTiming}

same_delay :
    (s t : Storage) → SameTiming s t → upgrade_delay_for t t.config ≡ upgrade_delay_for s s.config
unfolding upgrade_delay_for min_upgrade_delay
same_delay s t e = rw (e.delay, e.period, e.epoch) refl

waits_too : (s t : Storage) (o : Option PendingUpgrade) → SameTiming s t → WaitsIn s o → WaitsIn t o
waits_too s t none e h = tt
waits_too s t (some p) e h = rw (same_delay s t e) h

SameTiming-IsTimely : (s t : Storage) → SameTiming s t → IsTimely s → IsTimely t
unfolding upgrade_delay_for
SameTiming-IsTimely s t e h = rw e.pending (waits_too s t s.pending_upgrade e h)

none-IsTimely : (s : Storage) → s.pending_upgrade ≡ none → IsTimely s
none-IsTimely s e = rw e tt

committed-IsTimely :
    {X A : Type 0} (w : World X) (o : Outcome X A)
    → IsTimely w.store
    → ((a : A) (v : World X) → o ≡ returns a v → IsTimely v.store)
    → IsTimely (committed w o).store
committed-IsTimely w (returns a v) s keep = keep a v refl
committed-IsTimely w (fails e v) s keep = s
committed-IsTimely w traps s keep = s

committed-same :
    {X A : Type 0} (w : World X) (o : Outcome X A)
    → IsTimely w.store
    → ((a : A) (v : World X) → o ≡ returns a v → SameTiming w.store v.store)
    → IsTimely (committed w o).store
committed-same w o s same =
    committed-IsTimely w o s (λ a v h. SameTiming-IsTimely w.store v.store (same a v h) s)

module _ {X : Type 0} (env : Env X) where
  apply_upgrade-IsTimely : (w v : World X) → apply_upgrade env w ≡ returns tt v → IsTimely v.store
  apply_upgrade-IsTimely w v h =
      let (_, _, _, _, _, store) = apply_upgrade-returns env w v h in
      none-IsTimely v.store (ap (λ (s : Storage). s.pending_upgrade) store)

  cancel_upgrade-IsTimely : (w v : World X) → cancel_upgrade env w ≡ returns tt v → IsTimely v.store
  cancel_upgrade-IsTimely w v h = none-IsTimely v.store (unfold cancel_upgrade in ground arith)

  step-IsTimely : (call : Call) (w : World X) → IsTimely w.store → IsTimely (step env call w).store
  unfolding step
  step-IsTimely (Call.create_job o p d) w s =
      committed-same w _ s (λ r v h. create_job-SameTiming env w v o p d r h)
  step-IsTimely (Call.fund_job a id n) w s =
      committed-same w _ s (λ r v h. fund_job-SameTiming env w v a id n r h)
  step-IsTimely (Call.cancel_job id) w s =
      committed-same w _ s (λ r v h. cancel_job-SameTiming env w v id r h)
  step-IsTimely (Call.withdraw_job_balance id n) w s =
      committed-same w _ s (λ r v h. withdraw_job_balance-SameTiming env w v id n r h)
  step-IsTimely (Call.stake k n) w s =
      committed-same w _ s (λ r v h. stake-SameTiming env w v k n r h)
  step-IsTimely (Call.begin_unbonding k) w s =
      committed-same w _ s (λ r v h. begin_unbonding-SameTiming env w v k r h)
  step-IsTimely (Call.withdraw_stake k) w s =
      committed-same w _ s (λ r v h. withdraw_stake-SameTiming env w v k r h)
  step-IsTimely (Call.create_jobs o ps ds) w s =
      committed-same w _ s (λ r v h. create_jobs-SameTiming env o ps ds r w v h)
  step-IsTimely (Call.withdraw_stakes ks) w s =
      committed-same w _ s (λ r v h. withdraw_stakes-SameTiming env ks r w v h)
  step-IsTimely (Call.execute_batch k ids) w s =
      committed-same w _ s (λ r v h. execute_batch-SameTiming env k ids r w v h)
  step-IsTimely (Call.execute k id) w s =
      committed-same w _ s (λ r v h. execute-SameTiming env k id w v h)
  step-IsTimely (Call.propose_job_owner id a) w s =
      committed-same w _ s (λ r v h. propose_job_owner-SameTiming env w v id a h)
  step-IsTimely (Call.set_executor a) w s =
      committed-same w _ s (λ r v h. set_executor-SameTiming env w v a h)
  step-IsTimely (Call.propose_admin a) w s =
      committed-same w _ s (λ r v h. propose_admin-SameTiming env w v a h)
  step-IsTimely Call.accept_admin w s =
      committed-same w _ s (λ r v h. accept_admin-SameTiming env w v h)
  step-IsTimely Call.cancel_admin_proposal w s =
      committed-same w _ s (λ r v h. cancel_admin_proposal-SameTiming env w v h)
  step-IsTimely (Call.set_paused b) w s =
      committed-same w _ s (λ r v h. set_paused-SameTiming env w v b h)
  step-IsTimely (Call.set_target_halted a b) w s =
      committed-same w _ s (λ r v h. halt_target-SameTiming env w v a b h)
  step-IsTimely (Call.set_min_stake n) w s =
      committed-same w _ s (λ r v h. set_min_stake-SameTiming env w v n h)
  step-IsTimely (Call.set_min_interval n) w s =
      committed-same w _ s (λ r v h. set_min_interval-SameTiming env w v n h)
  step-IsTimely (Call.set_max_args n) w s =
      committed-same w _ s (λ r v h. set_max_args-SameTiming env w v n h)
  step-IsTimely (Call.set_protocol_fee n t) w s =
      committed-same w _ s (λ r v h. set_protocol_fee-SameTiming env w v n t h)
  step-IsTimely (Call.set_max_failures n) w s =
      committed-same w _ s (λ r v h. set_max_failures-SameTiming env w v n h)
  step-IsTimely (Call.set_keeper_windows n) w s =
      committed-same w _ s (λ r v h. set_keeper_windows-SameTiming env w v n h)
  step-IsTimely (Call.set_job_active id b) w s =
      committed-same w _ s (λ r v h. set_job_active-SameTiming env w v id b h)
  step-IsTimely (Call.update_job id u) w s =
      committed-same w _ s (λ r v h. update_job-SameTiming env w v id u h)
  step-IsTimely (Call.accept_job_owner id) w s =
      committed-same w _ s (λ r v h. accept_job_owner-SameTiming env w v id h)
  step-IsTimely (Call.set_unbonding_epoch n) w s =
      committed-IsTimely w _ s (λ r v h. (set_unbonding_epoch-IsTimely env w v n h).0)
  step-IsTimely (Call.propose_upgrade h) w s =
      committed-IsTimely w _ s (λ r v e. (propose_upgrade-IsTimely env w v h r e).0)
  step-IsTimely Call.apply_upgrade w s =
      committed-IsTimely w _ s (λ r v h. apply_upgrade-IsTimely w v h)
  step-IsTimely Call.cancel_upgrade w s =
      committed-IsTimely w _ s (λ r v h. cancel_upgrade-IsTimely w v h)
  step-IsTimely (Call.set_upgrade_delay n) w s =
      committed-IsTimely w _ s (λ r v h. (set_upgrade_delay-IsTimely env w v n h).0)

-- Along every history of calls a pending upgrade waits at least the delay in force, from its
-- proposal on: where the storage starts so, it stays so, whatever the calls are, whoever makes
-- them and however they end.
pub run-IsTimely :
    {X : Type 0} (calls : List (Env X × Call)) (w : World X)
    → IsTimely w.store
    → IsTimely (run calls w).store
unfolding run
run-IsTimely [] w s = s
run-IsTimely ((env, call) ∷ calls) w s =
    run-IsTimely calls (step env call w) (step-IsTimely env call w s)
