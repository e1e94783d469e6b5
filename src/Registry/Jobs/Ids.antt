-- ===== src/Registry/Jobs/Ids.antt =====
-- The ids of new jobs: contracts/registry/src/lib.rs, `create_jobs`.
use sorocron.Base.{ℕ, zero, suc, ◌+◌, ◌<◌, ◌≡◌, true, some, List, [], ◌∷◌}
use sorocron.Base.Dict.{find}
use sorocron.Registry.Storage.{Storage}
use sorocron.Base.Int.{ℤ}
use sorocron.Base.Lists.{length}
use sorocron.Registry.Types.{Address, JobParams, JobSpec, JobState}
use sorocron.Registry.Host.{Env}

-- `n` ids from `start` on.
abbrev pub ids_from : ℕ → ℕ → List ℕ
ids_from start zero = []
ids_from start (suc n) = start ∷ ids_from (start + 1) n

-- A job that is stored as it was ordered, with its deposit, and that has not run yet.
pub record IsNew (owner : Address) (params : JobParams) (deposit : ℤ) (spec : JobSpec)
    (state : JobState) : Type 0 where
  pub owned : spec.owner ≡ owner
  pub target : spec.target ≡ params.target
  pub function : spec.function ≡ params.function
  pub args : spec.args ≡ params.args
  pub schedule : spec.schedule ≡ params.schedule
  pub fee : spec.fee_per_run ≡ params.fee_per_run
  pub max_fee : spec.max_fee_per_run ≡ params.max_fee_per_run
  pub max_runs : spec.max_runs ≡ params.max_runs
  pub end_at : spec.end_at ≡ params.end_at
  pub resolver : spec.resolver ≡ params.resolver
  pub keepers : spec.keepers ≡ params.keepers
  pub after : spec.after ≡ params.after
  pub deposited : state.balance ≡ deposit
  pub runs : state.runs ≡ 0
  pub failures : state.failures ≡ 0
  pub active : state.active ≡ true

abbrev pub NewJob : Address → JobParams → ℤ → ℕ → Storage → Type 0
NewJob owner params deposit id s =
    (spec : JobSpec) × (state : JobState) × (find id s.specs ≡ some spec)
    × (find id s.states ≡ some state)
    × IsNew owner params deposit spec state

-- The jobs of a batch are stored one after the other from an id on.
abbrev pub NewJobs : Address → List JobParams → List ℤ → ℕ → Storage → Type 0
NewJobs owner [] ds id s = Unit {0}
NewJobs owner (p ∷ ps) [] id s = ◌≡◌ {A = ℕ} 1 0
NewJobs owner (p ∷ ps) (d ∷ ds) id s = NewJob owner p d id s × NewJobs owner ps ds (id + 1) s

-- What an insertion leaves alone.
abbrev pub SameBefore : ℕ → Storage → Storage → Type 0
SameBefore n s t =
    (j : ℕ) → j < n → (find j t.specs ≡ find j s.specs) × (find j t.states ≡ find j s.states)

module _ {X : Type 0} (env : Env X) where
  -- What the ids of a batch stand for.
  abbrev Inserted : Address → List JobParams → List ℤ → List ℕ → Storage → Storage → Type 0
  Inserted owner ps ds ids s t =
      (ids ≡ ids_from s.next_job_id (length ps))
      × (t.next_job_id ≡ s.next_job_id + length ps)
      × NewJobs owner ps ds s.next_job_id t
      × SameBefore s.next_job_id s t
