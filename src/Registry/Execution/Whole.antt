-- ===== src/Registry/Execution/Whole.antt =====
-- What `execute` does to a job and to stakes: contracts/registry/src/lib.rs.
use sorocron.Base.{
  ℕ, ◌≢◌, ◌≡◌, refl, ap, sym, ◌∙◌, inl, inr, true, false, some, arith, Option-cases,
}
use sorocron.Base.Int.{ℤ, ◌+ℤ◌, int_laws, pos, ltb_ℤ}
use sorocron.Base.Dict.{find, find-put}
use sorocron.Registry.Types.{Address, Config, JobSpec, JobState, Keeper}
use sorocron.Registry.Storage.{
  Storage, get_job_parts, is_target_halted, set_keeper, get_keeper_recent, set_keeper_recent,
}
use sorocron.Registry.Host.{CallResult, Env, World, returns, when, transfer}
use sorocron.Registry.Host.Laws.{Outcome-cases, continue-returns}
use sorocron.Registry.Execution.{
  add_payout, Payout, KeeperRecord, Charge, no_payout, record_after, state_after, authorize_keeper,
  save, succeeded, pay_treasury, settle, run_job, execute,
}
use sorocron.Registry.Execution.Guards.{IsDue, authorize_keeper-returns}
use sorocron.Registry.Execution.Misses.{stake_at, stake_at-put}
use sorocron.Registry.Execution.Runs.{Agreed, run_job-returns}
use sorocron.Registry.Execution.After.{AfterRun, charge_run-facts, state_after-AfterRun}
use sorocron.Registry.Schedule.{split_fee}
use sorocron.Registry.Execution.Payments.{
  when-transfer, pay_treasury-moves, PaidTo, TreasuryPaid, when-PaidTo, pay_treasury-TreasuryPaid,
}

-- What a completed `execute` has done: the target was called for the job that is charged, the fee is split
-- between keeper and treasury and paid, and besides the job's state no job, specification or stake changes.
pub record Executed {X : Type 0} (env : Env X) (keeper : Address) (job_id : ℕ) (w v : World X)
    : Type 0 where
  pub spec : JobSpec
  pub state : JobState
  pub next : JobState
  pub executor : Address
  pub result : CallResult
  pub fee : ℤ
  pub keeper_fee : ℤ
  pub protocol_fee : ℤ
  pub asked : X
  pub called : X
  pub kept : X
  pub signed : env.authorized keeper ≡ true
  pub running : w.store.config.paused ≡ false
  pub executor_set : w.store.config.executor ≡ some executor
  pub job : get_job_parts w.store job_id ≡ some (spec, state)
  pub due : IsDue spec state env.timestamp
  pub not_halted : is_target_halted w.store spec.target ≡ false
  pub resolver_agreed : Agreed env job_id spec w.outside asked
  pub target_called :
      env.try_execute executor spec.target spec.function spec.args asked ≡ (result, called)
  pub stored : find job_id v.store.states ≡ some next
  pub after : AfterRun w.store.config env.timestamp w.store spec state result fee next
  pub split : split_fee fee w.store.config.protocol_fee_bps ≡ some (keeper_fee, protocol_fee)
  pub keeper_paid : PaidTo env w.store.config.fee_token keeper keeper_fee called kept
  pub treasury_paid : TreasuryPaid env w.store.config protocol_fee kept v.outside
  pub specs_kept : v.store.specs ≡ w.store.specs
  pub others_kept : (j : ℕ) → j ≢ job_id → find j v.store.states ≡ find j w.store.states
  pub stakes_kept : (k : Address) → stake_at v.store k ≡ stake_at w.store k

zero_plus : (a : ℤ) → pos 0 +ℤ a ≡ a
zero_plus a = omega int_laws

-- The payout of one run.
one_payout :
    (p : Payout) (c : Charge)
    → add_payout no_payout c ≡ some p
    → (p.keeper_fees ≡ c.keeper_fee) × (p.protocol_fees ≡ c.protocol_fee)
unfolding add_payout
one_payout p c h =
    (ground (arith, zero_plus c.keeper_fee), ground (arith, zero_plus c.protocol_fee))

stake_of_found :
    (s : Storage) (k : Address) (info : Keeper)
    → find k s.keepers ≡ some info
    → stake_at s k ≡ some info.stake
stake_of_found s k info e = ground arith

record_after-stake :
    (r : KeeperRecord) (lateness : ℕ)
    → some (record_after r lateness).info.stake ≡ some r.info.stake
unfolding record_after
record_after-stake r lateness = refl

module _ {X : Type 0} (env : Env X) where
  settle-pays :
      (config : Config) (keeper : Address) (p : Payout) (w v : World X)
      → settle env config keeper p w ≡ returns tt v
      → (v.store ≡ w.store)
        × ((y : X) × PaidTo env config.fee_token keeper p.keeper_fees w.outside y
            × TreasuryPaid env config p.protocol_fees y v.outside)
  unfolding settle
  settle-pays config keeper p w v h =
      let (_, w1, first, second) =
        continue-returns {A = Unit {0}}
          (when (ltb_ℤ (pos 0) p.keeper_fees)
            (transfer env config.fee_token env.current_contract_address keeper p.keeper_fees) w)
          (λ _ u. pay_treasury env config config.treasury p.protocol_fees u) h in
      (
        (pay_treasury-moves env config config.treasury p.protocol_fees w1 v second).0
            ∙ (when-transfer env _ config.fee_token env.current_contract_address keeper
                p.keeper_fees w w1 first).0,
        (
          w1.outside,
          when-PaidTo env config.fee_token keeper p.keeper_fees w w1 first,
          pay_treasury-TreasuryPaid env config p.protocol_fees w1 v second,
        ),
      )

  pub settle-store :
      (config : Config) (keeper : Address) (p : Payout) (w v : World X)
      → settle env config keeper p w ≡ returns tt v
      → v.store ≡ w.store
  settle-store config keeper p w v h = (settle-pays config keeper p w v h).0

  save-keeps :
      (keeper : Address) (r : KeeperRecord) (w v : World X)
      → stake_at w.store keeper ≡ some r.info.stake
      → save env keeper r w ≡ returns tt v
      → (v.store.specs ≡ w.store.specs)
        × (v.store.states ≡ w.store.states)
        × ((k : Address) → stake_at v.store k ≡ stake_at w.store k)
        × (v.outside ≡ w.outside)
  save-keeps keeper r w v e h = elim (Option-cases (find keeper w.store.keepers)) [
    | inl missing ↦ ground arith
    | inr (info, found) ↦
        let s = set_keeper keeper r.info w.store in
        let same : r.info.stake ≡ info.stake = ground arith in
        let written : v.store ≡ set_keeper_recent keeper r.recent s = unfold save in ground arith in
        let kept : (k : Address) → stake_at s k ≡ stake_at w.store k =
          λ k. stake_at-put w.store keeper k info r.info found same in
        (
          rw written (unfold set_keeper_recent set_keeper in refl),
          rw written (unfold set_keeper_recent set_keeper in refl),
          λ k. rw written (unfold set_keeper_recent in kept k),
          unfold save in ground arith,
        )
  ]

  -- The steps of a completed `execute`, put together.
  steps-Executed :
      (executor keeper : Address) (info : Keeper) (job_id : ℕ) (w w2 w3 v : World X)
      (r r' : KeeperRecord) (p : Payout)
      → w.store.config.paused ≡ false
      → w.store.config.executor ≡ some executor
      → env.authorized keeper ≡ true
      → find keeper w.store.keepers ≡ some info
      → r.info ≡ info
      → run_job env w.store.config executor keeper r job_id no_payout w ≡ returns (r', p) w2
      → save env keeper r' w2 ≡ returns tt w3
      → settle env w.store.config keeper p w3 ≡ returns tt v
      → Executed env keeper job_id w v
  steps-Executed executor keeper info job_id w w2 w3 v r r' p running executor_is signed found
        same_info er es ep =
      let config = w.store.config in
      let (
        spec,
        state,
        seen,
        result,
        job,
        due,
        _,
        halt,
        _,
        _,
        leader,
        effect,
        (x, _, agreed, called),
      ) =
        run_job-returns env config executor keeper r job_id no_payout w w2 (r', p) er in
      let own : stake_at w2.store keeper ≡ some r'.info.stake =
        effect.stakes_kept keeper
        ∙ stake_of_found w.store keeper info found
        ∙ sym (
            ap (λ (k : KeeperRecord). some k.info.stake) effect.counted
            ∙ record_after-stake r _
            ∙ ap (λ (k : Keeper). some k.stake) same_info) in
      let (specs, states, stakes, outside) = save-keeps keeper r' w2 w3 own es in
      let (paid, (y, to_keeper, to_treasury)) = settle-pays config keeper p w3 v ep in
      let c = effect.charge in
      let (_, split, _, _) = charge_run-facts config env.timestamp spec state c effect.charged in
      let (keeper_share, treasury_share) = one_payout p c effect.paid in
      let put_states = ap (λ (s : Storage). s.states) paid ∙ states ∙ effect.state_put in
      record {
        spec = spec;
        state = state;
        next = state_after config state (succeeded result) seen c.next_run c.balance;
        executor = executor;
        result = result;
        fee = c.fee;
        keeper_fee = c.keeper_fee;
        protocol_fee = c.protocol_fee;
        asked = x;
        called = w2.outside;
        kept = y;
        signed = signed;
        running = running;
        executor_set = executor_is;
        job = job;
        due = due;
        not_halted = halt;
        resolver_agreed = agreed;
        target_called = called;
        stored = rw (put_states, find-put job_id job_id _ w.store.states) (ground arith);
        after =
            state_after-AfterRun config env.timestamp w.store spec state result seen c
              effect.charged due leader;
        split = split;
        keeper_paid = rw (← keeper_share, ← outside) to_keeper;
        treasury_paid = rw (← treasury_share) to_treasury;
        specs_kept = rw paid (specs ∙ effect.specs_kept);
        others_kept = λ j other. rw (put_states, find-put j job_id _ w.store.states) (ground arith);
        stakes_kept = λ k. rw paid (stakes k ∙ effect.stakes_kept k);
      }

  -- A completed `execute` ran a job that exists and was due, while the registry was not paused
  -- and the target not halted, for a keeper who authorized the call: the target was called
  -- through the executor, after the resolver, if there is one, agreed. The job's runs went up by
  -- one, up to the largest u32; its failures are cleared after a call that returned and one more
  -- otherwise, up to the largest u32, and the job is paused where they reach the configured
  -- number; its next run is the first time on the grid after now, for an interval of at least one
  -- second that is late by less than the largest u64; and where it has a leader, that one has run
  -- since. The fee left the balance; for amounts within the i128 it lies between the base fee and
  -- the larger of base fee and ceiling. It is split by `split_fee`, and the keeper and the
  -- treasury are paid their parts. No other job's state, no specification and no stake changes.
  pub execute-returns :
      (keeper : Address) (job_id : ℕ) (w v : World X)
      → execute env keeper job_id w ≡ returns tt v
      → Executed env keeper job_id w v
  unfolding execute
  execute-returns keeper job_id w v h =
      let config = w.store.config in
      elim (Outcome-cases (authorize_keeper env config keeper w)) [
        | inr (inl (e, w1, ea)) ↦ ground arith
        | inr (inr ea) ↦ ground arith
        | inl ((executor, info), w1, ea) ↦
            let (same, running, executor_is, signed, found, _) =
              authorize_keeper-returns env config keeper executor info w w1 ea in
            let r : KeeperRecord = record {
              info = info;
              recent = get_keeper_recent w.store keeper;
            } in
            elim (Outcome-cases (run_job env config executor keeper r job_id no_payout w)) [
              | inr (inl (e, w2, er)) ↦ ground arith
              | inr (inr er) ↦ ground arith
              | inl ((r', p), w2, er) ↦ elim (Outcome-cases (save env keeper r' w2)) [
                | inr (inl (e, w3, es)) ↦ ground arith
                | inr (inr es) ↦ ground arith
                | inl (_, w3, es) ↦
                    steps-Executed executor keeper info job_id w w2 w3 v r r' p running executor_is
                      signed found refl er es (ground arith)
              ]
            ]
      ]
