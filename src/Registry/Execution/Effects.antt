-- ===== src/Registry/Execution/Effects.antt =====
-- What one run writes: contracts/registry/src/lib.rs, `run_job`.
use mathlib.Core.Path.{subst}
use sorocron.Base.{
  ℕ, ◌-◌, ◌≡◌, refl, ap, sym, ◌∙◌, ◌≢◌, inl, inr, Bool, true, false, Option, some, ◌∷◌, arith,
  Option-cases,
}
use sorocron.Base.Int.{ltb_ℤ}
use sorocron.Base.Dict.{put, sum_by, Each}
use sorocron.Registry.Types.{Address, Config, JobSpec, JobState, Error}
use sorocron.Registry.Event.{Event}
use sorocron.Registry.Storage.{Storage, set_state}
use sorocron.Registry.Host.{Env, World, CallResult, returns, fails, ◌>>◌, when, publish, modify}
use sorocron.Registry.Execution.{
  Payout, KeeperRecord, Charge, succeeded, gives_up, state_after, record_after, charge_run,
  add_payout, write_state, note_miss, settle_run, result_hash,
}
use sorocron.Registry.Execution.Misses.{SameFunds, note_miss_lem, stake_of, stake_at, HasStake}

module _ {X : Type 0} where
  between_events :
      (p q : Bool) (d e : Event) (f : Storage → Storage) (w : World X)
      → (v : World X) × ((when p (publish d) >> (modify f >> when q (publish e))) w ≡ returns tt v)
        × (v.store ≡ f w.store)
        × (v.outside ≡ w.outside)
        × (v.code ≡ w.code)
  between_events true true d e f w = (_, refl, refl, refl, refl)
  between_events true false d e f w = (_, refl, refl, refl, refl)
  between_events false true d e f w = (_, refl, refl, refl, refl)
  between_events false false d e f w = (_, refl, refl, refl, refl)

  -- The job's state is written, and besides it only events.
  pub write_state_lem :
      (job_id : ℕ) (spec : JobSpec) (paused : Bool) (after : JobState) (w : World X)
      → (v : World X) × (write_state job_id spec paused after w ≡ returns tt v)
        × (v.store ≡ set_state job_id after w.store)
        × (v.outside ≡ w.outside)
        × (v.code ≡ w.code)
  unfolding write_state
  write_state_lem job_id spec paused after w =
      between_events paused (ltb_ℤ after.balance spec.fee_per_run) _ _ (set_state job_id after) w

-- What a completed run of a job has written: the job's state after the run, and otherwise only
-- counters of keepers, events, and what the resolver and the target did elsewhere.
pub record RunEffect {X : Type 0} (env : Env X) (config : Config) (job_id : ℕ) (spec : JobSpec)
    (state : JobState) (seen : ℕ) (result : CallResult) (w v : World X) (r r' : KeeperRecord)
    (p p' : Payout) : Type 0 where
  pub charge : Charge
  pub charged : charge_run config env.timestamp spec state ≡ some charge
  pub paid : add_payout p charge ≡ some p'
  pub counted : r' ≡ record_after r (env.timestamp - state.next_run)
  pub config_kept : v.store.config ≡ w.store.config
  pub specs_kept : v.store.specs ≡ w.store.specs
  pub ids_kept : v.store.next_job_id ≡ w.store.next_job_id
  pub code_kept : v.code ≡ w.code
  pub pending_kept : v.store.pending_upgrade ≡ w.store.pending_upgrade
  pub delay_kept : v.store.upgrade_delay ≡ w.store.upgrade_delay
  pub state_put :
      v.store.states
      ≡ put job_id
          (state_after config state (succeeded result) seen charge.next_run charge.balance)
          w.store.states
  pub stakes_kept : (k : Address) → stake_at v.store k ≡ stake_at w.store k
  pub total_kept : sum_by stake_of v.store.keepers ≡ sum_by stake_of w.store.keepers
  pub held_kept : Each HasStake w.store.keepers → Each HasStake v.store.keepers

module _ {X : Type 0} (env : Env X) (config : Config) (keeper : Address) (r : KeeperRecord)
    (job_id : ℕ) (p : Payout) (spec : JobSpec) (state : JobState) (assigned : Option Address)
    (seen : ℕ) (result : CallResult) where
  -- The steps of `settle_run`, put together.
  settle_run_steps :
      (w w2 w3 : World X) (c : Charge) (p' : Payout)
      → charge_run config env.timestamp spec state ≡ some c
      → write_state job_id spec
          (gives_up config (succeeded result) state)
          (state_after config state (succeeded result) seen c.next_run c.balance)
          w
        ≡ returns tt w2
      → note_miss env keeper job_id spec state.next_run assigned w2 ≡ returns tt w3
      → add_payout p c ≡ some p'
      → (v : World X) × (settle_run env config keeper r job_id p spec state assigned seen result w
          ≡ returns (record_after r (env.timestamp - state.next_run), p') v)
        × (v.store ≡ w3.store)
        × (v.outside ≡ w3.outside)
        × (v.code ≡ w3.code)
  unfolding settle_run
  settle_run_steps w w2 w3 c p' ec e2 e3 ep =
      let success = succeeded result in
      let after = state_after config state success seen c.next_run c.balance in
      let receipt =
        Event.job_executed job_id keeper success c.fee c.protocol_fee after.runs c.next_run
          (env.timestamp - state.next_run) after.failures (result_hash env result) in
      (record w3 { events = receipt ∷ w3.events }, ground arith, refl, refl, refl)

  -- The result of `settle_run`, from the charge and the worlds between its steps.
  settled :
      (w w2 w3 v : World X) (out : KeeperRecord × Payout) (c : Charge) (p' : Payout)
      → settle_run env config keeper r job_id p spec state assigned seen result w ≡ returns out v
      → charge_run config env.timestamp spec state ≡ some c
      → add_payout p c ≡ some p'
      → write_state job_id spec
          (gives_up config (succeeded result) state)
          (state_after config state (succeeded result) seen c.next_run c.balance)
          w
        ≡ returns tt w2
      → w2.store
        ≡ set_state job_id
            (state_after config state (succeeded result) seen c.next_run c.balance)
            w.store
      → w2.outside ≡ w.outside
      → w2.code ≡ w.code
      → note_miss env keeper job_id spec state.next_run assigned w2 ≡ returns tt w3
      → SameFunds w2 w3
      → RunEffect env config job_id spec state seen result w v r out.0 p out.1
        × (v.outside ≡ w.outside)
  unfolding set_state
  settled w w2 w3 v out c p' h ec ep e2 store2 outside2 code2 e3 same =
      let (v', e, store', outside', code') = settle_run_steps w w2 w3 c p' ec e2 e3 ep in
      let ends : returns out v ≡ returns (record_after r (env.timestamp - state.next_run), p') v' =
        sym h ∙ e in
      let same_out : out ≡ (record_after r (env.timestamp - state.next_run), p') = ground arith in
      let same_world : v ≡ v' = ground arith in
      let store3 : v.store ≡ w3.store = ap (λ (u : World X). u.store) same_world ∙ store' in
      (
        record {
          charge = c;
          charged = ec;
          paid = ep ∙ ap some (sym (ap (λ (o : KeeperRecord × Payout). o.1) same_out));
          counted = ap (λ (o : KeeperRecord × Payout). o.0) same_out;
          config_kept =
              ap (λ (s : Storage). s.config) store3
              ∙ same.config
              ∙ ap (λ (s : Storage). s.config) store2;
          specs_kept =
              ap (λ (s : Storage). s.specs) store3
              ∙ same.specs
              ∙ ap (λ (s : Storage). s.specs) store2;
          ids_kept =
              ap (λ (s : Storage). s.next_job_id) store3
              ∙ same.next_job_id
              ∙ ap (λ (s : Storage). s.next_job_id) store2;
          pending_kept =
              ap (λ (s : Storage). s.pending_upgrade) store3
              ∙ same.pending
              ∙ ap (λ (s : Storage). s.pending_upgrade) store2;
          delay_kept =
              ap (λ (s : Storage). s.upgrade_delay) store3
              ∙ same.delay
              ∙ ap (λ (s : Storage). s.upgrade_delay) store2;
          code_kept = ap (λ (u : World X). u.code) same_world ∙ code' ∙ same.code ∙ code2;
          state_put =
              ap (λ (s : Storage). s.states) store3
              ∙ same.states
              ∙ ap (λ (s : Storage). s.states) store2;
          stakes_kept = λ k.
              ap (λ (s : Storage). stake_at s k) store3
              ∙ same.stakes k
              ∙ ap (λ (s : Storage). stake_at s k) store2;
          total_kept =
              ap (λ (s : Storage). sum_by stake_of s.keepers) store3
              ∙ same.total
              ∙ ap (λ (s : Storage). sum_by stake_of s.keepers) store2;
          held_kept = λ h.
              subst (λ (s : Storage). Each HasStake s.keepers) (sym store3)
                (same.held (subst (λ (s : Storage). Each HasStake s.keepers) (sym store2) h));
        },
        ap (λ (u : World X). u.outside) same_world ∙ outside' ∙ same.outside ∙ outside2,
      )

  -- `settle_run` returns no error, and what it writes is a RunEffect. It calls no other contract.
  pub settle_run-returns :
      (w v : World X) (out : KeeperRecord × Payout)
      → settle_run env config keeper r job_id p spec state assigned seen result w ≡ returns out v
      → RunEffect env config job_id spec state seen result w v r out.0 p out.1
        × (v.outside ≡ w.outside)
  settle_run-returns w v out h = elim (Option-cases (charge_run config env.timestamp spec state)) [
    | inl overflow ↦ unfold settle_run in ground arith
    | inr (c, ec) ↦
        let success = succeeded result in
        let after = state_after config state success seen c.next_run c.balance in
        let (w2, e2, store2, outside2, code2) =
          write_state_lem job_id spec (gives_up config success state) after w in
        let (w3, e3, same) = note_miss_lem env keeper job_id spec state.next_run assigned w2 in
        elim (Option-cases (add_payout p c)) [
          | inl overflow ↦ unfold settle_run in ground arith
          | inr (p', ep) ↦ settled w w2 w3 v out c p' h ec ep e2 store2 outside2 code2 e3 same
        ]
  ]

  pub settle_run-ne-fails :
      (w v : World X) (e : Error)
      → settle_run env config keeper r job_id p spec state assigned seen result w ≢ fails e v
  settle_run-ne-fails w v e h = elim (Option-cases (charge_run config env.timestamp spec state)) [
    | inl overflow ↦ unfold settle_run in ground arith
    | inr (c, ec) ↦
        let success = succeeded result in
        let after = state_after config state success seen c.next_run c.balance in
        let (w2, e2, store2, outside2, code2) =
          write_state_lem job_id spec (gives_up config success state) after w in
        let (w3, e3, same) = note_miss_lem env keeper job_id spec state.next_run assigned w2 in
        elim (Option-cases (add_payout p c)) [
          | inl overflow ↦ unfold settle_run in ground arith
          | inr (p', ep) ↦
              let (v', e', _, _, _) = settle_run_steps w w2 w3 c p' ec e2 e3 ep in ground arith
        ]
  ]
