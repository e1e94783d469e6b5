-- ===== src/Registry/Assignment.antt =====
-- Assigned windows: contracts/registry/src/lib.rs, `assigned_keeper_for`, `had_whole_window` and
-- `record_miss`.
pub mod Choice
use sorocron.Base.{
  ℕ, zero, suc, ◌+◌, ◌*◌, ◌/◌, ◌%◌, ◌^◌, max, Bool, true, false, not, ◌||◌, Option, none, some,
  List, [], ◌∷◌, ◌++◌, leb, ◌==◌, if◌then◌else◌, is_some,
}
use sorocron.Base.Word.{u32_max, sat_add, sat_suc}
use sorocron.Base.Lists.{length, get_elem?}
use sorocron.Base.Dict.{find}
use sorocron.Registry.Types.{Address, Config, JobSpec, JobState, Keeper, KeeperRecent}
use sorocron.Registry.Event.{Event}
use sorocron.Registry.Schedule.{smooth}
use sorocron.Registry.Storage.{
  Storage, job_touched, target_resumed, set_keeper, get_keeper_recent, set_keeper_recent,
}
use sorocron.Registry.Result.{is_ok}
use sorocron.Registry.Host.{Env, World, M, ◌>>=◌, ◌>>◌, pure, gets, modify, publish}
use sorocron.Registry.Checks.{ensure_active_keeper}

-- 100% in basis points: a missed window's sample.
abbrev pub max_bps_scale : ℕ
max_bps_scale = 10000

-- The `n` low bytes of a number, the highest first, and back.
unfoldable pub to_be_bytes : ℕ → ℕ → List ℕ
to_be_bytes zero x = []
to_be_bytes (suc n) x = to_be_bytes n (x / 256) ++ (x % 256) ∷ []

unfoldable pub from_be_bytes : ℕ → List ℕ → ℕ
from_be_bytes acc [] = acc
from_be_bytes acc (b ∷ bs) = from_be_bytes (acc * 256 + b) bs

unfoldable pub take : ℕ → List ℕ → List ℕ
take zero bs = []
take (suc n) [] = []
take (suc n) (b ∷ bs) = b ∷ take n bs

-- A keeper that may execute, or none.
unfoldable pub if_eligible : Storage → Option Address → Option Address
if_eligible s none = none
if_eligible s (some chosen) = elim (find chosen s.keepers) [
  | none ↦ none
  | some info ↦ if is_ok (ensure_active_keeper s.config info) then some chosen else none
]

-- The allowlist, or the rotation where the job has none.
abbrev pub candidates : Storage → JobSpec → List Address
candidates s spec = elim spec.keepers [ some list ↦ list | none ↦ s.active_keepers ]

-- The first eight bytes of sha256(job_id, runs), modulo the number of candidates.
unfoldable pub choose : (List ℕ → List ℕ) → ℕ → ℕ → List Address → Option Address
unfolding to_be_bytes from_be_bytes take
choose sha256 job_id runs [] = none
choose sha256 job_id runs (c ∷ cs) =
    let digest = sha256 (to_be_bytes 8 job_id ++ to_be_bytes 4 runs) in
    let index = (from_be_bytes 0 (take 8 digest) % length (c ∷ cs)) % 2 ^ 32 in
    get_elem? (c ∷ cs) index

module _ {X : Type 0} (env : Env X) where
  unfoldable pub assigned_keeper_for : Storage → ℕ → JobSpec → JobState → Option Address
  unfolding choose if_eligible
  assigned_keeper_for s job_id spec state =
      if s.config.grace_period == 0
      then none
      else if_eligible s (choose env.sha256 job_id state.runs (candidates s spec))

  -- When the window of a run that was due at `due_at` opened.
  unfoldable pub window_opened : Storage → ℕ → JobSpec → ℕ → ℕ
  window_opened s job_id spec due_at =
      max (max (max due_at (job_touched s job_id)) s.registry_resumed)
        (target_resumed s spec.target)

  unfoldable pub had_whole_window : Storage → ℕ → JobSpec → ℕ → Bool
  unfolding window_opened
  had_whole_window s job_id spec due_at =
      if is_some spec.resolver || is_some spec.after
      then false
      else leb (sat_add (window_opened s job_id spec due_at) s.config.grace_period) env.timestamp

-- The keeper's counters after a miss.
abbrev pub missed_once : Keeper → Keeper
missed_once info = record info { missed = sat_suc info.missed }

abbrev pub recent_miss : KeeperRecent → KeeperRecent
recent_miss recent = record recent { misses = smooth recent.misses max_bps_scale }

unfoldable pub record_miss : {X : Type 0} → Address → Address → ℕ → M X (Unit {0})
record_miss missed ran_by job_id w = elim (find missed w.store.keepers) [
  | none ↦ pure tt w
  | some info ↦
      (do
        modify (set_keeper missed (missed_once info))
        modify (λ s. set_keeper_recent missed (recent_miss (get_keeper_recent s missed)) s)
        publish (Event.keeper_missed_window missed job_id ran_by))
        w
]
