-- ===== src/Registry/Solvency/Jobs.antt =====
-- Solvency at the operations on jobs: contracts/registry/src/lib.rs, "Jobs".
use sorocron.Base.{
  ℕ, ◌≡◌, refl, ap, ◌∙◌, Bool, true, some, arith, Option-cases, inl, inr, ◌⊎◌, Bool-cases,
  if◌then◌else◌,
}
use sorocron.Base.Int.{ℤ, pos, ◌+ℤ◌, ◌-ℤ◌, ◌≤ℤ◌, ◌<ℤ◌, ltb_ℤ, int_laws}
use sorocron.Base.Dict.{find, put, delete, sum_by, sum_by-delete, Each-find, Each-put, Each-delete}
use sorocron.Registry.Types.{Address, JobSpec, JobState}
use sorocron.Registry.Storage.{get_job_parts, set_state, touch_job, remove_job, remove_owner_job}
use sorocron.Registry.Host.{Env, World, returns}
use sorocron.Registry.Jobs.{fund_job, cancel_job, withdraw_job_balance, set_job_active}
use sorocron.Registry.Execution.Misses.{stake_of}
use sorocron.Registry.Solvency.{
  Custody, IsSolvent, IsSolvent-after, Backed, jobs_total-raise, jobs_total-lower, jobs_total-same,
  get_job_parts-find, balance_in, jobs_total, stakes_total, Backed-mono, Backed-deposit, Backed-pay,
}

raised : (a b : ℤ) → pos 0 <ℤ b → pos 0 ≤ℤ a → pos 0 ≤ℤ (a +ℤ b)
raised a b p q = omega int_laws

lowered : (a b : ℤ) → b ≤ℤ a → pos 0 ≤ℤ (a -ℤ b)
lowered a b p = omega int_laws

below : (rest total balance : ℤ) → rest +ℤ balance ≡ total → pos 0 ≤ℤ balance → rest ≤ℤ total
below rest total balance e n = rw (← e) (omega int_laws)

module _ {X : Type 0} (env : Env X) where
  fund_job-facts :
      (from : Address) (job_id : ℕ) (amount b : ℤ) (w v : World X) (state : JobState) (y : X)
      → fund_job env from job_id amount w ≡ returns b v
      → find job_id w.store.states ≡ some state
      → env.transfer w.store.config.fee_token from env.current_contract_address amount w.outside
        ≡ some y
      → (env.authorized from ≡ true)
        × (pos 0 <ℤ amount)
        × (v.outside ≡ y)
        × (v.store.states
            ≡ put job_id (record state { balance = state.balance +ℤ amount }) w.store.states)
        × (v.store.config ≡ w.store.config)
        × (v.store.specs ≡ w.store.specs)
        × (v.store.keepers ≡ w.store.keepers)
  unfolding fund_job set_state touch_job
  fund_job-facts from job_id amount b w v state y h e f = ground arith

  withdraw-facts :
      (job_id : ℕ) (amount b : ℤ) (w v : World X) (spec : JobSpec) (state : JobState) (y : X)
      → withdraw_job_balance env job_id amount w ≡ returns b v
      → get_job_parts w.store job_id ≡ some (spec, state)
      → env.transfer w.store.config.fee_token env.current_contract_address spec.owner amount
          w.outside
        ≡ some y
      → (pos 0 <ℤ amount)
        × (amount ≤ℤ state.balance)
        × (v.outside ≡ y)
        × (v.store.states
            ≡ put job_id (record state { balance = state.balance -ℤ amount }) w.store.states)
        × (v.store.config ≡ w.store.config)
        × (v.store.specs ≡ w.store.specs)
        × (v.store.keepers ≡ w.store.keepers)
  unfolding withdraw_job_balance set_state touch_job
  withdraw-facts job_id amount b w v spec state y h e f = ground arith

  set_active-facts :
      (job_id : ℕ) (active : Bool) (w v : World X) (spec : JobSpec) (state : JobState)
      → set_job_active env job_id active w ≡ returns tt v
      → get_job_parts w.store job_id ≡ some (spec, state)
      → (v.outside ≡ w.outside)
        × (v.store.states
            ≡ put job_id
                (record state { active = active; failures = if active then 0 else state.failures })
                w.store.states)
        × (v.store.config ≡ w.store.config)
        × (v.store.specs ≡ w.store.specs)
        × (v.store.keepers ≡ w.store.keepers)
  unfolding set_job_active set_state touch_job
  set_active-facts job_id active w v spec state h e = ground arith

  cancel-facts :
      (job_id : ℕ) (b : ℤ) (w v : World X) (spec : JobSpec) (state : JobState)
      → cancel_job env job_id w ≡ returns b v
      → get_job_parts w.store job_id ≡ some (spec, state)
      → (v.store.states ≡ delete job_id w.store.states)
        × (v.store.specs ≡ delete job_id w.store.specs)
        × (v.store.config ≡ w.store.config)
        × (v.store.keepers ≡ w.store.keepers)
  unfolding cancel_job remove_job remove_owner_job
  cancel-facts job_id b w v spec state h e = ground arith

  cancel-pays :
      (job_id : ℕ) (b : ℤ) (w v : World X) (spec : JobSpec) (state : JobState)
      → cancel_job env job_id w ≡ returns b v
      → get_job_parts w.store job_id ≡ some (spec, state)
      → ((env.transfer w.store.config.fee_token env.current_contract_address spec.owner
              state.balance w.outside
            ≡ some v.outside)
          ⊎ ((state.balance ≤ℤ pos 0) × (v.outside ≡ w.outside)))
  unfolding cancel_job
  cancel-pays job_id b w v spec state h e = elim (Bool-cases (ltb_ℤ (pos 0) state.balance)) [
    | inl some_left ↦
        elim (Option-cases (
          env.transfer w.store.config.fee_token env.current_contract_address spec.owner
            state.balance w.outside)) [
              | inl refused ↦ ground arith
              | inr (y, f) ↦ inl (ground arith)
            ]
    | inr empty ↦ inr (ground arith)
  ]

module _ {X : Type 0} {registry : Address} {balance_of : Address → Address → X → ℤ} {env : Env X}
    (c : Custody registry balance_of env) where
  pub fund_job-IsSolvent :
      (from : Address) (job_id : ℕ) (amount b : ℤ) (w v : World X)
      → IsSolvent registry balance_of w
      → fund_job env from job_id amount w ≡ returns b v
      → IsSolvent registry balance_of v
  fund_job-IsSolvent from job_id amount b w v s h =
      elim (Option-cases (find job_id w.store.states)) [
        | inl missing ↦ unfold fund_job in ground arith
        | inr (state, e) ↦
            elim (Option-cases (
              env.transfer w.store.config.fee_token from env.current_contract_address amount
                w.outside)) [
                  | inl refused ↦ unfold fund_job in ground arith
                  | inr (y, f) ↦
                      let (signed, positive, out, states, config, specs, keepers) =
                        fund_job-facts env from job_id amount b w v state y h e f in
                      IsSolvent-after registry balance_of w v (jobs_total w.store +ℤ amount)
                        (stakes_total w.store) y config out
                        (ap (sum_by balance_in) states
                          ∙ jobs_total-raise job_id state _ amount w.store.states e refl)
                        (ap (sum_by stake_of) keepers)
                        (Backed-deposit c _ _ from _ _ amount w.outside y signed (rw (← c.here) f)
                          s.backed)
                        (rw states (
                          Each-put (λ (st : JobState). pos 0 ≤ℤ st.balance) job_id _ w.store.states
                            s.balances
                            (raised state.balance amount positive
                              (Each-find _ job_id state _ s.balances e))))
                        (rw specs s.fees) (rw keepers s.stakes) s.share
                ]
      ]

  pub withdraw_job_balance-IsSolvent :
      (job_id : ℕ) (amount b : ℤ) (w v : World X)
      → IsSolvent registry balance_of w
      → withdraw_job_balance env job_id amount w ≡ returns b v
      → IsSolvent registry balance_of v
  withdraw_job_balance-IsSolvent job_id amount b w v s h =
      elim (Option-cases (get_job_parts w.store job_id)) [
        | inl missing ↦ unfold withdraw_job_balance in ground arith
        | inr ((spec, state), e) ↦
            elim (Option-cases (
              env.transfer w.store.config.fee_token env.current_contract_address spec.owner amount
                w.outside)) [
                  | inl refused ↦ unfold withdraw_job_balance in ground arith
                  | inr (y, f) ↦
                      let (positive, covered, out, states, config, specs, keepers) =
                        withdraw-facts env job_id amount b w v spec state y h e f in
                      let (found, _) = get_job_parts-find w.store job_id spec state e in
                      let total =
                        jobs_total-lower job_id state
                          (record state { balance = state.balance -ℤ amount }) amount w.store.states
                          found refl in
                      IsSolvent-after registry balance_of w v _ (stakes_total w.store) y config out
                        (ap (sum_by balance_in) states) (ap (sum_by stake_of) keepers)
                        (Backed-pay c _ _ spec.owner _ _ amount w.outside y (omega arith)
                          (rw (← c.here) f) (λ t. rw total (s.backed t)))
                        (rw states (
                          Each-put (λ (st : JobState). pos 0 ≤ℤ st.balance) job_id _ w.store.states
                            s.balances (lowered state.balance amount covered)))
                        (rw specs s.fees) (rw keepers s.stakes) s.share
                ]
      ]

  pub set_job_active-IsSolvent :
      (job_id : ℕ) (active : Bool) (w v : World X)
      → IsSolvent registry balance_of w
      → set_job_active env job_id active w ≡ returns tt v
      → IsSolvent registry balance_of v
  set_job_active-IsSolvent job_id active w v s h =
      elim (Option-cases (get_job_parts w.store job_id)) [
        | inl missing ↦ unfold set_job_active in ground arith
        | inr ((spec, state), e) ↦
            let (out, states, config, specs, keepers) =
              set_active-facts env job_id active w v spec state h e in
            let (found, _) = get_job_parts-find w.store job_id spec state e in
            IsSolvent-after registry balance_of w v (jobs_total w.store) (stakes_total w.store)
              w.outside config out
              (ap (sum_by balance_in) states
                ∙ jobs_total-same job_id state _ w.store.states found refl)
              (ap (sum_by stake_of) keepers) s.backed
              (rw states (
                Each-put (λ (st : JobState). pos 0 ≤ℤ st.balance) job_id _ w.store.states s.balances
                  (Each-find _ job_id state _ s.balances found)))
              (rw specs s.fees) (rw keepers s.stakes) s.share
      ]

  pub cancel_job-IsSolvent :
      (job_id : ℕ) (b : ℤ) (w v : World X)
      → IsSolvent registry balance_of w
      → cancel_job env job_id w ≡ returns b v
      → IsSolvent registry balance_of v
  cancel_job-IsSolvent job_id b w v s h = elim (Option-cases (get_job_parts w.store job_id)) [
    | inl missing ↦ unfold cancel_job in ground arith
    | inr ((spec, state), e) ↦
        let (states, specs, config, keepers) = cancel-facts env job_id b w v spec state h e in
        let (found, _) = get_job_parts-find w.store job_id spec state e in
        let total = sum_by-delete balance_in job_id state w.store.states found in
        let nonneg = Each-find _ job_id state _ s.balances found in
        let rest = sum_by balance_in (delete job_id w.store.states) in
        let backed : Backed registry balance_of w.store.config.fee_token w.store.config.stake_token
            rest (stakes_total w.store) v.outside =
          elim (cancel-pays env job_id b w v spec state h e) [
            | inl paid ↦
                Backed-pay c _ _ spec.owner rest (stakes_total w.store) state.balance w.outside
                  v.outside nonneg (rw (← c.here) paid) (λ t. rw total (s.backed t))
            | inr (empty, out) ↦ rw out (
                Backed-mono registry balance_of _ _ (jobs_total w.store) (stakes_total w.store) rest
                  (stakes_total w.store) w.outside w.outside
                  (below rest (jobs_total w.store) state.balance total nonneg) (omega arith)
                  (λ t. omega arith) s.backed)
          ] in
        IsSolvent-after registry balance_of w v rest (stakes_total w.store) v.outside config refl
          (ap (sum_by balance_in) states) (ap (sum_by stake_of) keepers) backed
          (rw states (Each-delete _ job_id w.store.states s.balances))
          (rw specs (Each-delete _ job_id w.store.specs s.fees)) (rw keepers s.stakes) s.share
  ]
