-- ===== src/Registry/Views.antt =====
-- The read-only functions: contracts/registry/src/lib.rs, "Views". `is_due` asks the resolver, so
-- it is an action; the others are functions of the storage.
pub mod Pages
use sorocron.Base.{
  ℕ, zero, suc, ◌+◌, ◌-◌, ◌/◌, ◌%◌, ◌^◌, min, Bool, true, false, not, ◌&&◌, ◌||◌, Option, none,
  some, List, [], ◌∷◌, ltb, ◌==◌, if◌then◌else◌, is_some,
}
use sorocron.Base.Int.{ℤ}
use sorocron.Base.Word.{sat_add}
use sorocron.Base.Dict.{find}
use sorocron.Registry.Types.{Address, Config, Job, JobSpec, JobState, Keeper, KeeperStats}
use sorocron.Registry.Schedule.{ramped_fee}
use sorocron.Registry.Storage.{Storage, get_job, get_job_parts, get_keeper_recent, is_target_halted}
use sorocron.Registry.Result.{is_ok}
use sorocron.Registry.Host.{Env, World, M, returns}
use sorocron.Registry.Checks.{ensure_active_keeper, ensure_due, dependency_met}
use sorocron.Registry.Assignment.{assigned_keeper_for}
use sorocron.Registry.Execution.{resolver_allows}

abbrev pub max_get_jobs_limit : ℕ
max_get_jobs_limit = 50

unfoldable pub keeper_stats : Storage → Address → Option KeeperStats
keeper_stats s keeper = elim (find keeper s.keepers) [
  | none ↦ none
  | some info ↦
      let recent = get_keeper_recent s keeper in
      some (record {
        stake = info.stake;
        executions = info.executions;
        average_lateness =
            if info.executions == 0 then 0 else info.total_lateness / info.executions;
        missed = info.missed;
        slashed = info.slashed;
        eligible = is_ok (ensure_active_keeper s.config info);
        recent_lateness = recent.lateness / 8;
        recent_miss_bps = (recent.misses / 8) % 2 ^ 32;
      })
]

-- The loop of `get_jobs`, from `id` on for `left` more ids.
unfoldable pub collect_jobs : Storage → ℕ → ℕ → List Job
collect_jobs s id zero = []
collect_jobs s id (suc left) = elim (get_job s id) [
  | none ↦ collect_jobs s (id + 1) left
  | some job ↦ job ∷ collect_jobs s (id + 1) left
]

unfoldable pub get_jobs : Storage → ℕ → ℕ → List Job
unfolding collect_jobs
get_jobs s start limit =
    let end = min (sat_add start (min limit max_get_jobs_limit)) s.next_job_id in
    collect_jobs s start (end - start)

unfoldable pub current_fee : ℕ → Storage → ℕ → Option (Option ℤ)
current_fee now s job_id = elim (get_job_parts s job_id) [
  | none ↦ some none
  | some (spec, state) ↦ elim (ramped_fee spec state now) [
    | none ↦ none
    | some fee ↦ some (some fee)
  ]
]

module _ {X : Type 0} (env : Env X) where
  unfoldable pub assigned_keeper : Storage → ℕ → Option Address
  assigned_keeper s job_id = elim (get_job_parts s job_id) [
    | none ↦ none
    | some (spec, state) ↦ assigned_keeper_for env s job_id spec state
  ]

  -- The conditions of `is_due` that come before the resolver.
  unfoldable pub may_run : Storage → JobSpec → JobState → Bool
  may_run s spec state =
      is_ok (ensure_due spec state env.timestamp)
      && (not (is_target_halted s spec.target) && is_ok (dependency_met s spec state))

  unfoldable pub is_due : ℕ → M X Bool
  unfolding may_run
  is_due job_id w =
      if w.store.config.paused || not (is_some w.store.config.executor)
      then returns false w
      else elim (get_job_parts w.store job_id) [
        | none ↦ returns false w
        | some (spec, state) ↦
            if may_run w.store spec state
            then resolver_allows env job_id spec w
            else returns false w
      ]
