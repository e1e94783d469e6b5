-- ===== src/Registry/Solvency/Runs.antt =====
-- Solvency while jobs run: contracts/registry/src/lib.rs, "Execution". Between a
-- job's charge and the transfers of `settle`, the payout is owed as well.
use sorocron.Base.{sym, ap, ℕ, ◌≤◌, ◌≡◌, refl, ◌∙◌, inl, inr, Bool, some, arith, Option-cases}
use sorocron.Base.Int.{ℤ, pos, ◌+ℤ◌, ◌-ℤ◌, ◌≤ℤ◌, ◌<ℤ◌, int_laws}
use sorocron.Base.Dict.{put, sum_by, Each, Each-find, Each-put}
use sorocron.Registry.Types.{Address, Config, JobSpec, JobState, Error}
use sorocron.Registry.Schedule.{ramped_fee, split_fee}
use sorocron.Registry.Schedule.Fees.{split_fee-parts, ramped_fee-covered}
use sorocron.Registry.Host.{CallResult, Env, World, returns, fails}
use sorocron.Registry.Execution.{
  Payout, KeeperRecord, Charge, succeeded, state_after, charge_run, add_payout, run_job,
}
use sorocron.Registry.Execution.Misses.{HasStake}
use sorocron.Registry.Execution.Runs.{run_job-returns, run_job-fails, Asked}
use sorocron.Registry.Solvency.{
  Custody, Backed, balance_in, jobs_total, stakes_total, Backed-mono, jobs_total-lower,
  get_job_parts-find,
}

-- The charge of a funded job divides its fee and leaves a balance.
pub charge_run-parts :
    (config : Config) (now : ℕ) (spec : JobSpec) (state : JobState) (c : Charge)
    → pos 0 <ℤ spec.fee_per_run
    → spec.fee_per_run ≤ℤ state.balance
    → config.protocol_fee_bps ≤ 1000
    → charge_run config now spec state ≡ some c
    → (pos 0 ≤ℤ c.keeper_fee)
      × (pos 0 ≤ℤ c.protocol_fee)
      × (c.keeper_fee +ℤ c.protocol_fee ≡ c.fee)
      × (c.fee ≤ℤ state.balance)
      × (c.balance ≡ state.balance -ℤ c.fee)
unfolding charge_run
charge_run-parts config now spec state c p covers share h =
    elim (Option-cases (ramped_fee spec state now)) [
      | inl overflow ↦ ground arith
      | inr (fee, ef) ↦
          let (nonneg, within) = ramped_fee-covered spec state now fee p covers ef in
          elim (Option-cases (split_fee fee config.protocol_fee_bps)) [
            | inl overflow ↦ ground arith
            | inr ((k, s), es) ↦
                let (pk, ps, sum) =
                  split_fee-parts fee config.protocol_fee_bps k s nonneg (omega arith) es in
                ground arith
          ]
    ]

add_payout-parts :
    (p p' : Payout) (c : Charge)
    → add_payout p c ≡ some p'
    → (p'.keeper_fees ≡ p.keeper_fees +ℤ c.keeper_fee)
      × (p'.protocol_fees ≡ p.protocol_fees +ℤ c.protocol_fee)
unfolding add_payout
add_payout-parts p p' c h = ground arith

-- Moving a fee from a job to the payout leaves the sum of what is owed.
moved_fee :
    (jobs jobs' fee k s k' s' dk ds : ℤ)
    → jobs' +ℤ fee ≡ jobs
    → dk +ℤ ds ≡ fee
    → k' ≡ k +ℤ dk
    → s' ≡ s +ℤ ds
    → jobs' +ℤ (k' +ℤ s') ≡ jobs +ℤ (k +ℤ s)
moved_fee jobs jobs' fee k s k' s' dk ds ej ef ek es = rw (ek, es, ← ej, ← ef) (omega int_laws)

nonneg_sum : (a b c : ℤ) → c ≡ a +ℤ b → pos 0 ≤ℤ a → pos 0 ≤ℤ b → pos 0 ≤ℤ c
nonneg_sum a b c e p q = rw e (omega int_laws)

nonneg_rest : (a b c : ℤ) → c ≡ a -ℤ b → b ≤ℤ a → pos 0 ≤ℤ c
nonneg_rest a b c e p = rw e (omega int_laws)

state_after-balance :
    (config : Config) (state : JobState) (success : Bool) (seen next_run : ℕ) (balance : ℤ)
    → (state_after config state success seen next_run balance).balance ≡ balance
unfolding state_after
state_after-balance config state success seen next_run balance = refl

module _ {X : Type 0} (registry : Address) (balance_of : Address → Address → X → ℤ) where
  -- The invariant within a call that runs jobs: the payout so far is owed besides the balances.
  pub record IsRunning (w : World X) (p : Payout) : Type 0 where
    pub backed :
        Backed registry balance_of w.store.config.fee_token w.store.config.stake_token
          (jobs_total w.store +ℤ (p.keeper_fees +ℤ p.protocol_fees))
          (stakes_total w.store)
          w.outside
    pub keeper_part : pos 0 ≤ℤ p.keeper_fees
    pub protocol_part : pos 0 ≤ℤ p.protocol_fees
    pub balances : Each (λ (st : JobState). pos 0 ≤ℤ st.balance) w.store.states
    pub fees : Each (λ (spec : JobSpec). pos 0 <ℤ spec.fee_per_run) w.store.specs
    pub stakes : Each HasStake w.store.keepers
    pub share : w.store.config.protocol_fee_bps ≤ 1000

module _ {X : Type 0} {registry : Address} {balance_of : Address → Address → X → ℤ} {env : Env X}
    (c : Custody registry balance_of env) where
  asked_keeps :
      (job_id : ℕ) (x y : X) (t : Address)
      → Asked env job_id x y
      → balance_of t registry x ≤ℤ balance_of t registry y
  asked_keeps job_id x y t (inl same) = rw same (omega arith)
  asked_keeps job_id x y t (inr (resolver, e)) = rw e (c.resolver_keeps resolver job_id x t)

  kept_by :
      (spec : JobSpec) (x y : X) (t executor : Address)
      → y ≡ (env.try_execute executor spec.target spec.function spec.args x).1
      → balance_of t registry x ≤ℤ balance_of t registry y
  kept_by spec x y t executor e =
      rw e (c.target_keeps executor spec.target spec.function spec.args x t)

  pub run_job-IsRunning :
      (executor keeper : Address) (r : KeeperRecord) (job_id : ℕ) (p : Payout) (w v : World X)
      (out : KeeperRecord × Payout)
      → IsRunning registry balance_of w p
      → run_job env w.store.config executor keeper r job_id p w ≡ returns out v
      → IsRunning registry balance_of v out.1
  run_job-IsRunning executor keeper r job_id p w v out s h =
      let (spec, state, seen, result, parts, due, _, _, _, _, _, effect, (y, asked, _, called)) =
        run_job-returns env w.store.config executor keeper r job_id p w v out h in
      let (found, found_spec) = get_job_parts-find w.store job_id spec state parts in
      let charge = effect.charge in
      let (pk, ps, sum, within, left) =
        charge_run-parts w.store.config env.timestamp spec state charge
          (Each-find _ job_id spec _ s.fees found_spec) due.funded s.share effect.charged in
      let (ek, es) = add_payout-parts p out.1 charge effect.paid in
      let after =
        state_after w.store.config state (succeeded result) seen charge.next_run charge.balance in
      let balance =
        state_after-balance w.store.config state (succeeded result) seen charge.next_run
          charge.balance in
      let total =
        jobs_total-lower job_id state after charge.fee w.store.states found (balance ∙ left) in
      let owed =
        moved_fee (jobs_total w.store) (sum_by balance_in (put job_id after w.store.states))
          charge.fee p.keeper_fees p.protocol_fees out.1.keeper_fees out.1.protocol_fees
          charge.keeper_fee charge.protocol_fee total sum ek es in
      record {
        backed = λ t.
            rw (effect.config_kept, effect.state_put, owed, effect.total_kept)
              (omega (
                arith,
                s.backed t,
                asked_keeps job_id w.outside y t asked,
                kept_by spec y v.outside t executor (sym (ap (λ (o : CallResult × X). o.1) called)),
              ));
        keeper_part = nonneg_sum _ _ _ ek s.keeper_part pk;
        protocol_part = nonneg_sum _ _ _ es s.protocol_part ps;
        balances = rw effect.state_put (
            Each-put (λ (st : JobState). pos 0 ≤ℤ st.balance) job_id after w.store.states s.balances
              (nonneg_rest _ _ _ (balance ∙ left) within));
        fees = rw effect.specs_kept s.fees;
        stakes = effect.held_kept s.stakes;
        share = rw effect.config_kept s.share;
      }

  pub run_job-IsRunning_fails :
      (executor keeper : Address) (r : KeeperRecord) (job_id : ℕ) (p : Payout) (w v : World X)
      (e : Error)
      → IsRunning registry balance_of w p
      → run_job env w.store.config executor keeper r job_id p w ≡ fails e v
      → IsRunning registry balance_of v p
  run_job-IsRunning_fails executor keeper r job_id p w v e s h =
      let (store, _, _, asked) =
        run_job-fails env w.store.config executor keeper r job_id p w v e h in
      record {
        backed = rw store (
            Backed-mono registry balance_of _ _ _ _ _ _ w.outside v.outside (omega arith)
              (omega arith) (λ t. asked_keeps job_id w.outside v.outside t asked) s.backed);
        keeper_part = s.keeper_part;
        protocol_part = s.protocol_part;
        balances = rw store s.balances;
        fees = rw store s.fees;
        stakes = rw store s.stakes;
        share = rw store s.share;
      }
