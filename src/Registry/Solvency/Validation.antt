-- ===== src/Registry/Solvency/Validation.antt =====
-- What creating and updating jobs validate and store: contracts/registry/src/lib.rs, `validate_job`,
-- `insert_job`, `create_job`, `create_jobs` and `update_job`.
use sorocron.Base.{
  ℕ, ◌+◌, ◌≡◌, refl, ap, inl, inr, true, Option, some, List, [], ◌∷◌, arith, Option-cases,
  Bool-cases,
}
use sorocron.Base.Int.{ℤ, pos, ◌+ℤ◌, ◌≤ℤ◌, ◌<ℤ◌, pos_part, neg_part, int_laws}
use sorocron.Base.Lists.{length}
use sorocron.Base.Word.{in_i128}
use sorocron.Base.Dict.{Dict, find, put, sum_by, sum_by-put, sum_by-put_new, Each, Each-find}
use sorocron.Registry.Types.{Address, Config, JobParams, JobSpec, JobState, JobUpdate, Schedule}
use sorocron.Registry.Result.{ok, Result-cases}
use sorocron.Registry.Storage.{
  Storage, get_job_parts, set_spec, set_state, add_owner_job, touch_job,
}
use sorocron.Registry.Host.{Env, World, returns}
use sorocron.Registry.Checks.{validate_schedule, validate_job}
use sorocron.Registry.Jobs.{
  new_spec, new_state, updated_spec, updated_leader_runs, rescheduled, insert_job, insert_jobs,
  validate_jobs, create_job, create_jobs, update_job,
}
use sorocron.Registry.Solvency.{balance_in}

-- A validated schedule pays a fee.
validate_schedule-fee :
    (config : Config) (interval : ℕ) (schedule : Schedule) (args : ℕ) (fee ceiling : ℤ)
    (keepers : Option (List Address)) (effective : ℕ)
    → validate_schedule config interval schedule args fee ceiling keepers ≡ ok effective
    → pos 0 <ℤ fee
unfolding validate_schedule
validate_schedule-fee config interval schedule args fee ceiling keepers effective h = ground arith

-- So does a validated job, and its deposit covers one run.
pub validate_job-deposit :
    (registry : Address) (s : Storage) (params : JobParams) (deposit : ℤ)
    → validate_job registry s params deposit ≡ ok tt
    → (pos 0 <ℤ params.fee_per_run) × (params.fee_per_run ≤ℤ deposit)
unfolding validate_job validate_schedule
validate_job-deposit registry s params deposit h = ground arith

module _ {X : Type 0} (env : Env X) where
  pub insert_job-facts :
      (owner : Address) (params : JobParams) (deposit : ℤ) (id : ℕ) (w v : World X)
      → insert_job env owner params deposit w ≡ returns id v
      → (id ≡ w.store.next_job_id)
        × (v.store.next_job_id ≡ w.store.next_job_id + 1)
        × (v.store.specs ≡ put id (new_spec owner params) w.store.specs)
        × (v.store.states ≡ put id (new_state env.timestamp w.store params deposit) w.store.states)
        × (v.outside ≡ w.outside)
        × (v.store.config ≡ w.store.config)
        × (v.store.keepers ≡ w.store.keepers)
  unfolding insert_job set_spec set_state add_owner_job
  insert_job-facts owner params deposit id w v h = ground arith

  pub update-facts :
      (job_id : ℕ) (update : JobUpdate) (w v : World X) (spec : JobSpec) (state : JobState)
      → update_job env job_id update w ≡ returns tt v
      → get_job_parts w.store job_id ≡ some (spec, state)
      → (new : JobSpec) × (next : JobState) × (pos 0 <ℤ new.fee_per_run)
        × (next.balance ≡ state.balance)
        × (v.store.specs ≡ put job_id new w.store.specs)
        × (v.store.states ≡ put job_id next w.store.states)
        × (v.outside ≡ w.outside)
        × (v.store.config ≡ w.store.config)
        × (v.store.keepers ≡ w.store.keepers)
  unfolding update_job updated_spec set_spec set_state touch_job
  update-facts job_id update w v spec state h e =
      elim (Result-cases (
        validate_schedule w.store.config update.interval update.schedule (length update.args)
          update.fee_per_run update.max_fee_per_run update.keepers)) [
            | inr (error, f) ↦ ground arith
            | inl (interval, f) ↦
                elim (Result-cases (updated_leader_runs w.store job_id spec state update.after)) [
                  | inr (error, g) ↦ ground arith
                  | inl (seen, g) ↦ (
                    updated_spec spec update interval,
                    record state {
                      next_run = rescheduled env.timestamp spec state update;
                      leader_runs = seen;
                    },
                    validate_schedule-fee _ _ _ _ _ _ _ _ f,
                    refl,
                    ground arith,
                    ground arith,
                    ground arith,
                    ground arith,
                    ground arith,
                  )
                ]
          ]

  pub create_job-steps :
      (owner : Address) (params : JobParams) (deposit : ℤ) (id : ℕ) (w v : World X) (y : X)
      → create_job env owner params deposit w ≡ returns id v
      → env.transfer w.store.config.fee_token owner env.current_contract_address deposit w.outside
        ≡ some y
      → (env.authorized owner ≡ true)
        × (insert_job env owner params deposit (record w { outside = y }) ≡ returns id v)
  unfolding create_job
  create_job-steps owner params deposit id w v y h f = ground arith

  pub create_jobs-steps :
      (owner : Address) (ps : List JobParams) (ds : List ℤ) (ids : List ℕ) (total : ℤ)
      (w v : World X) (y : X)
      → create_jobs env owner ps ds w ≡ returns ids v
      → validate_jobs env.current_contract_address w.store ps ds (pos 0) ≡ ok total
      → env.transfer w.store.config.fee_token owner env.current_contract_address total w.outside
        ≡ some y
      → (env.authorized owner ≡ true)
        × (insert_jobs env owner ps ds (record w { outside = y }) ≡ returns ids v)
  unfolding create_jobs
  create_jobs-steps owner ps ds ids total w v y h g f = ground arith

-- A new job adds at most its deposit to the balances.
pub put-le :
    (id : ℕ) (new : JobState) (d : Dict JobState)
    → Each (λ (st : JobState). pos 0 ≤ℤ st.balance) d
    → sum_by balance_in (put id new d) ≤ℤ sum_by balance_in d +ℤ new.balance
put-le id new d h = elim (Option-cases (find id d)) [
  | inl missing ↦ rw (sum_by-put_new balance_in id new d missing) (omega arith)
  | inr (old, found) ↦
      let p = sum_by-put balance_in id new old d found in
      let nonneg = Each-find (λ (st : JobState). pos 0 ≤ℤ st.balance) id old d h found in
      omega (int_laws, ap pos_part p, ap neg_part p)
]

pub move_deposit :
    (jobs jobs' deposit rest : ℤ)
    → jobs' ≤ℤ jobs +ℤ deposit
    → jobs' +ℤ rest ≤ℤ jobs +ℤ (deposit +ℤ rest)
move_deposit jobs jobs' deposit rest h = omega int_laws

pub zero_plus : (jobs : ℤ) → pos 0 +ℤ jobs ≡ jobs
zero_plus jobs = omega int_laws

pub plus_zero : (jobs : ℤ) → jobs +ℤ pos 0 ≡ jobs
plus_zero jobs = omega int_laws

-- The deposits of the jobs of a batch, and what `validate_jobs` grants each.
abbrev pub deposits_total : List JobParams → List ℤ → ℤ
deposits_total [] ds = pos 0
deposits_total (p ∷ ps) [] = pos 0
deposits_total (p ∷ ps) (d ∷ ds) = d +ℤ deposits_total ps ds

abbrev pub AllFunded : List JobParams → List ℤ → Type 0
AllFunded [] ds = Unit
AllFunded (p ∷ ps) [] = Unit
AllFunded (p ∷ ps) (d ∷ ds) = (pos 0 <ℤ p.fee_per_run) × (pos 0 ≤ℤ d) × AllFunded ps ds

pub funded : (fee deposit : ℤ) → pos 0 <ℤ fee → fee ≤ℤ deposit → pos 0 ≤ℤ deposit
funded fee deposit p q = omega arith

next_total : (acc d total rest : ℤ) → total ≡ (acc +ℤ d) +ℤ rest → total ≡ acc +ℤ (d +ℤ rest)
next_total acc d total rest e = rw e (omega int_laws)

pub validate_jobs-ok :
    (registry : Address) (s : Storage) (ps : List JobParams) (ds : List ℤ) (acc total : ℤ)
    → validate_jobs registry s ps ds acc ≡ ok total
    → (total ≡ acc +ℤ deposits_total ps ds) × AllFunded ps ds
unfolding validate_jobs
validate_jobs-ok registry s [] ds acc total h = (ground (arith, plus_zero acc), tt)
validate_jobs-ok registry s (p ∷ ps) [] acc total h = (ground (arith, plus_zero acc), tt)
validate_jobs-ok registry s (p ∷ ps) (d ∷ ds) acc total h =
    elim (Result-cases (validate_job registry s p d)) [
      | inr (e, f) ↦ ground arith
      | inl (u, f) ↦
          let (fee, covers) = validate_job-deposit registry s p d f in
          elim (Bool-cases (in_i128 (acc +ℤ d))) [
            | inr overflow ↦ ground arith
            | inl fits ↦
                let (sum, all) =
                  validate_jobs-ok registry s ps ds (acc +ℤ d) total (ground arith) in
                (
                  next_total acc d total (deposits_total ps ds) sum,
                  (fee, funded p.fee_per_run d fee covers, all),
                )
          ]
    ]
