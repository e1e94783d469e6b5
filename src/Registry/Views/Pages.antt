-- ===== src/Registry/Views/Pages.antt =====
-- The paged listing of jobs: contracts/registry/src/lib.rs, `get_jobs`.
use sorocron.Base.{
  ℕ, zero, suc, ◌+◌, ◌-◌, ◌≤◌, ◌<◌, ◌≡◌, refl, ap, inl, inr, none, some, List, ◌∷◌, arith,
  Option-cases, Bool-cases, ◌==◌, eq-of-==, sym, ◌∙◌, ◌↔◌, min,
}
use sorocron.Base.Word.{sat_add}
use sorocron.Base.Lists.{length, get_elem?}
use sorocron.Registry.Types.{Job}
use sorocron.Registry.Storage.{Storage, get_job}
use sorocron.Registry.Views.{collect_jobs, get_jobs, max_get_jobs_limit}

-- `job` stands in the list.
abbrev pub Lists : List Job → Job → Type 0
Lists jobs job = (i : ℕ) × (get_elem? jobs i ≡ some job)

collect_jobs-skip :
    (s : Storage) (start left : ℕ)
    → get_job s start ≡ none
    → collect_jobs s start (suc left) ≡ collect_jobs s (start + 1) left
unfolding collect_jobs
collect_jobs-skip s start left e = rw (collect_jobs, e) refl

collect_jobs-take :
    (s : Storage) (start left : ℕ) (job : Job)
    → get_job s start ≡ some job
    → collect_jobs s start (suc left) ≡ job ∷ collect_jobs s (start + 1) left
unfolding collect_jobs
collect_jobs-take s start left job e = rw (collect_jobs, e) refl

collect_jobs-finds :
    (s : Storage) (start left id : ℕ) (job : Job)
    → start ≤ id
    → id < start + left
    → get_job s id ≡ some job
    → Lists (collect_jobs s start left) job
collect_jobs-finds s start zero id job h k e = absurd (omega arith)
collect_jobs-finds s start (suc left) id job h k e = elim (Bool-cases (start == id)) [
  | inl here ↦
      let found : get_job s start ≡ some job = ap (get_job s) (eq-of-== start id here) ∙ e in
      rw (collect_jobs-take s start left job found) (0, refl)
  | inr there ↦
      let (i, listed) =
        collect_jobs-finds s (start + 1) left id job (ground arith) (omega arith) e in
      elim (Option-cases (get_job s start)) [
        | inl missing ↦ rw (collect_jobs-skip s start left missing) (i, listed)
        | inr (first, f) ↦ rw (collect_jobs-take s start left first f) (suc i, listed)
      ]
]

-- `job` is stored at an id of the range.
abbrev pub InRange : Storage → ℕ → ℕ → Job → Type 0
InRange s start end job = (id : ℕ) × (start ≤ id) × (id < end) × (get_job s id ≡ some job)

widen :
    (s : Storage) (start left : ℕ) (job : Job)
    → InRange s (start + 1) (start + 1 + left) job
    → InRange s start (start + suc left) job
widen s start left job (id, h, k, e) = (id, omega arith, omega arith, e)

collect_jobs-stored :
    (s : Storage) (start left i : ℕ) (job : Job)
    → get_elem? (collect_jobs s start left) i ≡ some job
    → InRange s start (start + left) job
unfolding collect_jobs
collect_jobs-stored s start zero i job e = cc
collect_jobs-stored s start (suc left) i job e = elim (Option-cases (get_job s start)) [
  | inl missing ↦ widen s start left job (
      collect_jobs-stored s (start + 1) left i job
        (ap (λ (l : List Job). get_elem? l i) (sym (collect_jobs-skip s start left missing)) ∙ e))
  | inr (first, f) ↦
      taken i (collect_jobs-stored s (start + 1) left)
        (ap (λ (l : List Job). get_elem? l i) (sym (collect_jobs-take s start left first f)) ∙ e) f
]
  where
    taken :
        {first : Job} (i : ℕ)
        → ((i : ℕ) (job : Job)
            → get_elem? (collect_jobs s (start + 1) left) i ≡ some job
            → InRange s (start + 1) (start + 1 + left) job)
        → get_elem? (first ∷ collect_jobs s (start + 1) left) i ≡ some job
        → get_job s start ≡ some first
        → InRange s start (start + suc left) job
    taken zero later e f = (start, omega arith, omega arith, f ∙ e)
    taken (suc i) later e f = widen s start left job (later i job e)

collect_jobs-length : (s : Storage) (start left : ℕ) → length (collect_jobs s start left) ≤ left
unfolding collect_jobs
collect_jobs-length s start zero = omega arith
collect_jobs-length s start (suc left) =
    let rest = collect_jobs-length s (start + 1) left in
    elim (Option-cases (get_job s start)) [
      | inl missing ↦ rw (collect_jobs-skip s start left missing) (omega arith)
      | inr (first, f) ↦ rw (collect_jobs-take s start left first f) (omega arith)
    ]

-- A page lists exactly the stored jobs of its ids, which are those from `start` on, at most
-- `limit`, at most fifty and below the next new id; it never lists more than fifty jobs.
pub get_jobs_lem :
    (s : Storage) (start limit : ℕ) (job : Job)
    → (Lists (get_jobs s start limit) job
        ↔ InRange s start (min (sat_add start (min limit max_get_jobs_limit)) s.next_job_id) job)
      × (length (get_jobs s start limit) ≤ 50)
unfolding get_jobs
get_jobs_lem s start limit job =
    let end = min (sat_add start (min limit max_get_jobs_limit)) s.next_job_id in
    (
      (
        λ (i, e).
            let (id, h, k, f) = collect_jobs-stored s start (end - start) i job e in
            (id, h, omega arith, f),
        λ (id, h, k, f). collect_jobs-finds s start (end - start) id job h (omega arith) f,
      ),
      let short = collect_jobs-length s start (end - start) in omega arith,
    )
