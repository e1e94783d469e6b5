-- ===== src/Registry/Solvency/Creation.antt =====
-- Solvency at creating and updating jobs: contracts/registry/src/lib.rs.
use mathlib.Core.Path.{subst}
use sorocron.Base.{
  ℕ, ◌≤◌, ◌≡◌, refl, ap, sym, ◌∙◌, inl, inr, true, some, List, [], ◌∷◌, arith, Option-cases,
}
use sorocron.Base.Int.{ℤ, pos, ◌+ℤ◌, ◌≤ℤ◌, ◌<ℤ◌}
use sorocron.Base.Dict.{put, sum_by, Each, Each-put, Each-find}
use sorocron.Registry.Types.{Address, JobParams, JobSpec, JobState, JobUpdate}
use sorocron.Registry.Result.{Result-cases}
use sorocron.Registry.Storage.{get_job_parts}
use sorocron.Registry.Host.{Env, World, returns}
use sorocron.Registry.Host.Laws.{Outcome-cases}
use sorocron.Registry.Checks.{validate_job}
use sorocron.Registry.Jobs.{
  new_spec, new_state, insert_job, insert_jobs, validate_jobs, create_job, create_jobs, update_job,
}
use sorocron.Registry.Execution.Misses.{stake_of, HasStake}
use sorocron.Registry.Solvency.{
  Custody, IsSolvent, IsSolvent-after, Backed, balance_in, jobs_total, stakes_total, Backed-mono,
  Backed-deposit, jobs_total-same, get_job_parts-find,
}
use sorocron.Registry.Solvency.Validation.{
  validate_job-deposit, insert_job-facts, update-facts, create_job-steps, create_jobs-steps, put-le,
  move_deposit, zero_plus, plus_zero, deposits_total, AllFunded, funded, validate_jobs-ok,
}

new_spec-fee :
    (owner : Address) (params : JobParams)
    → (new_spec owner params).fee_per_run ≡ params.fee_per_run
unfolding new_spec
new_spec-fee owner params = refl

module _ {X : Type 0} (registry : Address) (balance_of : Address → Address → X → ℤ) where
  -- Between the transfer and the last new job, the deposits still to be credited are owed too.
  record IsFunded (w : World X) (pending : ℤ) : Type 0 where
    backed :
        Backed registry balance_of w.store.config.fee_token w.store.config.stake_token
          (jobs_total w.store +ℤ pending)
          (stakes_total w.store)
          w.outside
    balances : Each (λ (st : JobState). pos 0 ≤ℤ st.balance) w.store.states
    fees : Each (λ (spec : JobSpec). pos 0 <ℤ spec.fee_per_run) w.store.specs
    stakes : Each HasStake w.store.keepers
    share : w.store.config.protocol_fee_bps ≤ 1000

  funded_all : (w : World X) → IsFunded w (pos 0) → IsSolvent registry balance_of w
  funded_all w s = record {
    backed = λ t. rw (← plus_zero (jobs_total w.store)) (s.backed t);
    balances = s.balances;
    fees = s.fees;
    stakes = s.stakes;
    share = s.share;
  }

module _ {X : Type 0} {registry : Address} {balance_of : Address → Address → X → ℤ} {env : Env X}
    (c : Custody registry balance_of env) where
  insert_job-IsFunded :
      (owner : Address) (params : JobParams) (deposit rest : ℤ) (id : ℕ) (w v : World X)
      → pos 0 <ℤ params.fee_per_run
      → pos 0 ≤ℤ deposit
      → IsFunded registry balance_of w (deposit +ℤ rest)
      → insert_job env owner params deposit w ≡ returns id v
      → IsFunded registry balance_of v rest
  unfolding new_state
  insert_job-IsFunded owner params deposit rest id w v fee nonneg s h =
      let (_, _, specs, states, out, config, keepers) =
        insert_job-facts env owner params deposit id w v h in
      let new = new_state env.timestamp w.store params deposit in
      let jobs = sum_by balance_in (put id new w.store.states) in
      let owed : jobs +ℤ rest ≤ℤ jobs_total w.store +ℤ (deposit +ℤ rest) =
        move_deposit (jobs_total w.store) jobs deposit rest
          (put-le id new w.store.states s.balances) in
      record {
        backed =
            rw (config, states, keepers, out)
              (Backed-mono registry balance_of _ _ (jobs_total w.store +ℤ (deposit +ℤ rest))
                (stakes_total w.store) (jobs +ℤ rest) (stakes_total w.store) w.outside w.outside
                owed (omega arith) (λ t. omega arith) s.backed);
        balances = rw states (Each-put _ id new w.store.states s.balances nonneg);
        fees = rw specs (
            Each-put (λ (spec : JobSpec). pos 0 <ℤ spec.fee_per_run) id (new_spec owner params)
              w.store.specs s.fees (rw (new_spec-fee owner params) fee));
        stakes = rw keepers s.stakes;
        share = rw config s.share;
      }

  insert_jobs-IsFunded :
      (ps : List JobParams) (ds : List ℤ) (owner : Address) (ids : List ℕ) (w v : World X)
      → AllFunded ps ds
      → IsFunded registry balance_of w (deposits_total ps ds)
      → insert_jobs env owner ps ds w ≡ returns ids v
      → IsSolvent registry balance_of v
  unfolding insert_jobs
  insert_jobs-IsFunded [] ds owner ids w v all s h =
      let here : v ≡ w = ground arith in rw here (funded_all registry balance_of w s)
  insert_jobs-IsFunded (p ∷ ps) [] owner ids w v all s h =
      let here : v ≡ w = ground arith in rw here (funded_all registry balance_of w s)
  insert_jobs-IsFunded (p ∷ ps) (d ∷ ds) owner ids w v (fee, nonneg, all) s h =
      elim (Outcome-cases (insert_job env owner p d w)) [
        | inr (inr e) ↦ ground arith
        | inr (inl (e, w1, f)) ↦ ground arith
        | inl (id, w1, f) ↦
            let mid = insert_job-IsFunded owner p d (deposits_total ps ds) id w w1 fee nonneg s f in
            elim (Outcome-cases (insert_jobs env owner ps ds w1)) [
              | inr (inr e) ↦ ground arith
              | inr (inl (e, w2, g)) ↦ ground arith
              | inl (ids', w2, g) ↦
                  let here : v ≡ w2 = ground arith in
                  rw here (insert_jobs-IsFunded ps ds owner ids' w1 w2 all mid g)
            ]
      ]

  -- The world after the transfer of the deposits.
  deposited :
      (owner : Address) (total : ℤ) (w : World X) (y : X)
      → env.authorized owner ≡ true
      → env.transfer w.store.config.fee_token owner env.current_contract_address total w.outside
        ≡ some y
      → IsSolvent registry balance_of w
      → IsFunded registry balance_of (record w { outside = y }) total
  deposited owner total w y signed f s = record {
    backed =
        Backed-deposit c _ _ owner (jobs_total w.store) (stakes_total w.store) total w.outside y
          signed (rw (← c.here) f) s.backed;
    balances = s.balances;
    fees = s.fees;
    stakes = s.stakes;
    share = s.share;
  }

  pub create_job-IsSolvent :
      (owner : Address) (params : JobParams) (deposit : ℤ) (id : ℕ) (w v : World X)
      → IsSolvent registry balance_of w
      → create_job env owner params deposit w ≡ returns id v
      → IsSolvent registry balance_of v
  create_job-IsSolvent owner params deposit id w v s h =
      let fee_token = w.store.config.fee_token in
      elim (Option-cases
        (env.transfer fee_token owner env.current_contract_address deposit w.outside)) [
          | inl refused ↦ unfold create_job in ground arith
          | inr (y, f) ↦
              elim (Result-cases
                (validate_job env.current_contract_address w.store params deposit)) [
                  | inr (e, g) ↦ unfold create_job in ground arith
                  | inl (u, g) ↦
                      let (fee, covers) = validate_job-deposit _ w.store params deposit g in
                      let (signed, inserted) =
                        create_job-steps env owner params deposit id w v y h f in
                      funded_all registry balance_of v (
                        insert_job-IsFunded owner params deposit (pos 0) id
                          (record w { outside = y }) v fee
                          (funded params.fee_per_run deposit fee covers)
                          (subst (IsFunded registry balance_of (record w { outside = y }))
                            (sym (plus_zero deposit)) (deposited owner deposit w y signed f s))
                          inserted)
                ]
        ]

  pub create_jobs-IsSolvent :
      (owner : Address) (ps : List JobParams) (ds : List ℤ) (ids : List ℕ) (w v : World X)
      → IsSolvent registry balance_of w
      → create_jobs env owner ps ds w ≡ returns ids v
      → IsSolvent registry balance_of v
  create_jobs-IsSolvent owner ps ds ids w v s h =
      elim (Result-cases (validate_jobs env.current_contract_address w.store ps ds (pos 0))) [
        | inr (e, g) ↦ unfold create_jobs in ground arith
        | inl (total, g) ↦
            elim (Option-cases (
              env.transfer w.store.config.fee_token owner env.current_contract_address total
                w.outside)) [
                  | inl refused ↦ unfold create_jobs in ground arith
                  | inr (y, f) ↦
                      let (sum, all) =
                        validate_jobs-ok env.current_contract_address w.store ps ds (pos 0) total
                          g in
                      let (signed, inserted) =
                        create_jobs-steps env owner ps ds ids total w v y h g f in
                      insert_jobs-IsFunded ps ds owner ids (record w { outside = y }) v all
                        (subst (IsFunded registry balance_of (record w { outside = y }))
                          (sum ∙ zero_plus (deposits_total ps ds))
                          (deposited owner total w y signed f s))
                        inserted
                ]
      ]

  pub update_job-IsSolvent :
      (job_id : ℕ) (update : JobUpdate) (w v : World X)
      → IsSolvent registry balance_of w
      → update_job env job_id update w ≡ returns tt v
      → IsSolvent registry balance_of v
  update_job-IsSolvent job_id update w v s h = elim (Option-cases (get_job_parts w.store job_id)) [
    | inl missing ↦ unfold update_job in ground arith
    | inr ((spec, state), e) ↦
        let (new, next, fee, balance, specs, states, out, config, keepers) =
          update-facts env job_id update w v spec state h e in
        let (found, _) = get_job_parts-find w.store job_id spec state e in
        IsSolvent-after registry balance_of w v (jobs_total w.store) (stakes_total w.store)
          w.outside config out
          (ap (sum_by balance_in) states
            ∙ jobs_total-same job_id state next w.store.states found balance)
          (ap (sum_by stake_of) keepers) s.backed
          (rw states (
            Each-put (λ (st : JobState). pos 0 ≤ℤ st.balance) job_id next w.store.states s.balances
              (rw balance (Each-find _ job_id state _ s.balances found))))
          (rw specs (
            Each-put (λ (spec : JobSpec). pos 0 <ℤ spec.fee_per_run) job_id new w.store.specs s.fees
              fee))
          (rw keepers s.stakes) s.share
  ]
