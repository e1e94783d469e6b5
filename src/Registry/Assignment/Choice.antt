-- ===== src/Registry/Assignment/Choice.antt =====
-- Who an assigned window belongs to: contracts/registry/src/lib.rs, `assigned_keeper_for` and
-- `had_whole_window`.
use sorocron.Base.{
  refl, ◌%◌, ◌^◌, ◌++◌, ℕ, zero, suc, ◌<◌, ◌≡◌, ap, sym, ◌∙◌, inl, inr, true, Option, none, some,
  List, [], ◌∷◌, arith, Option-cases, Bool-cases, ◌==◌,
}
use sorocron.Base.Lists.{length, get_elem?, contains}
use sorocron.Base.Dict.{find}
use sorocron.Registry.Types.{Address, JobSpec, JobState, Keeper}
use sorocron.Registry.Storage.{Storage}
use sorocron.Registry.Host.{Env}
use sorocron.Registry.Checks.{ensure_active_keeper}
use sorocron.Registry.Assignment.{
  to_be_bytes, from_be_bytes, take, candidates, if_eligible, choose, assigned_keeper_for,
}
use sorocron.Registry.Execution.Guards.{IsEligible, ensure_active_keeper_iff}

contains-get_elem :
    (xs : List Address) (i : ℕ) (a : Address) → get_elem? xs i ≡ some a → contains xs a ≡ true
contains-get_elem [] i a h = cc
contains-get_elem (x ∷ xs) zero a h = ground arith
contains-get_elem (x ∷ xs) (suc i) a h = let rest = contains-get_elem xs i a h in ground arith

contains-choose :
    (sha256 : List ℕ → List ℕ) (job_id runs : ℕ) (cs : List Address) (a : Address)
    → choose sha256 job_id runs cs ≡ some a
    → contains cs a ≡ true
unfolding choose
contains-choose sha256 job_id runs [] a h = cc
contains-choose sha256 job_id runs (c ∷ cs) a h = contains-get_elem (c ∷ cs) _ a h

if_eligible_lem :
    (s : Storage) (o : Option Address) (a : Address)
    → if_eligible s o ≡ some a
    → (o ≡ some a) × (info : Keeper) × (find a s.keepers ≡ some info) × IsEligible s.config info
if_eligible_lem s none a h = unfold if_eligible in cc
if_eligible_lem s (some c) a h = elim (Option-cases (find c s.keepers)) [
  | inl gone ↦ unfold if_eligible in ground arith
  | inr (info, e) ↦
      let same : c ≡ a = unfold if_eligible ensure_active_keeper in ground arith in
      (
        ap some same,
        info,
        ap (λ (t : Address). find t s.keepers) (sym same) ∙ e,
        (ensure_active_keeper_iff s.config info).0
            (unfold if_eligible ensure_active_keeper in ground arith),
      )
]

module _ {X : Type 0} (env : Env X) where
  -- A window is only ever assigned to a registered keeper who is not unbonding and stakes enough,
  -- and who is a candidate: on the job's allowlist if it has one, in the rotation if not. Nobody
  -- is assigned without a grace period.
  pub assigned_keeper_for_lem :
      (s : Storage) (job_id : ℕ) (spec : JobSpec) (state : JobState) (a : Address)
      → assigned_keeper_for env s job_id spec state ≡ some a
      → (0 < s.config.grace_period)
        × (contains (candidates s spec) a ≡ true)
        × (info : Keeper) × (find a s.keepers ≡ some info)
        × IsEligible s.config info
  assigned_keeper_for_lem s job_id spec state a h = elim (Bool-cases (s.config.grace_period == 0)) [
    | inl off ↦ unfold assigned_keeper_for in ground arith
    | inr on ↦
        let e : if_eligible s (choose env.sha256 job_id state.runs (candidates s spec)) ≡ some a =
          unfold assigned_keeper_for in ground arith in
        let (f, info, g, k) = if_eligible_lem s _ a e in
        (
          ground arith,
          contains-choose env.sha256 job_id state.runs (candidates s spec) a f,
          info,
          g,
          k,
        )
  ]

get_elem?-within :
    (xs : List Address) (i : ℕ) → i < length xs → (a : Address) × (get_elem? xs i ≡ some a)
get_elem?-within [] i h = absurd (omega arith)
get_elem?-within (x ∷ xs) zero h = (x, refl)
get_elem?-within (x ∷ xs) (suc i) h = get_elem?-within xs i (omega arith)

mod_lt : (n m : ℕ) → 0 < m → n % m % 2 ^ 32 < m
mod_lt n m h = grind arith

choose-total :
    (sha256 : List ℕ → List ℕ) (job_id runs : ℕ) (cs : List Address)
    → 0 < length cs
    → (a : Address) × (choose sha256 job_id runs cs ≡ some a)
unfolding choose
choose-total sha256 job_id runs [] h = absurd (omega arith)
choose-total sha256 job_id runs (c ∷ cs) h = get_elem?-within (c ∷ cs) _ (
    mod_lt (from_be_bytes 0 (take 8 (sha256 (to_be_bytes 8 job_id ++ to_be_bytes 4 runs))))
      (length (c ∷ cs)) h)

-- A registered keeper that may execute.
abbrev pub MayExecute : Storage → Address → Type 0
MayExecute s a = (info : Keeper) × (find a s.keepers ≡ some info) × IsEligible s.config info

if_eligible-total : (s : Storage) (a : Address) → MayExecute s a → if_eligible s (some a) ≡ some a
unfolding if_eligible ensure_active_keeper
if_eligible-total s a (info, e, k) =
    let passes = (ensure_active_keeper_iff s.config info).1 k in ground arith

module _ {X : Type 0} (env : Env X) where
  -- With a grace period and at least one candidate, the allowlist's keepers or the rotation,
  -- somebody is assigned, if every candidate is a registered keeper who is not unbonding and
  -- stakes enough.
  pub assigned_keeper_for-total :
      (s : Storage) (job_id : ℕ) (spec : JobSpec) (state : JobState)
      → 0 < s.config.grace_period
      → 0 < length (candidates s spec)
      → ((a : Address) → contains (candidates s spec) a ≡ true → MayExecute s a)
      → (a : Address) × (assigned_keeper_for env s job_id spec state ≡ some a)
  unfolding assigned_keeper_for
  assigned_keeper_for-total s job_id spec state grace some_one all =
      let (a, chosen) = choose-total env.sha256 job_id state.runs (candidates s spec) some_one in
      let listed = contains-choose env.sha256 job_id state.runs (candidates s spec) a chosen in
      let granted = if_eligible-total s a (all a listed) in (a, ground arith)
