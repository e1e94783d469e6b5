-- ===== src/Registry/Storage.antt =====
-- The contract's storage: contracts/registry/src/storage.rs and the enum DataKey of types.rs. Each
-- kind of key is a field: instance entries are values, keyed entries a Dict. An entry's time-to-live
-- is not modelled, since every access extends it; a temporary entry that expires reads as 0, which
-- is what `unwrap_or` gives for one that was never written.
use sorocron.Base.{
  ℕ, Bool, true, false, ◌||◌, Option, none, some, List, [], ◌∷◌, ◌++◌, leb, if◌then◌else◌,
  unwrap_or, is_some,
}
use sorocron.Base.Lists.{length, contains, remove_first}
use sorocron.Base.Dict.{Dict, find, put, delete}
use sorocron.Registry.Types.{
  Address, Config, Job, JobSpec, JobState, Keeper, KeeperRecent, PendingUpgrade,
}

pub record Storage : Type 0 where
  pub config : Config
  pub next_job_id : ℕ
  pub pending_admin : Option Address
  pub upgrade_delay : ℕ
  pub pending_upgrade : Option PendingUpgrade
  pub registry_resumed : ℕ
  pub specs : Dict JobSpec
  pub states : Dict JobState
  pub pending_owners : Dict Address
  pub owner_lists : Dict (List ℕ)
  pub keepers : Dict Keeper
  pub recents : Dict KeeperRecent
  pub active_keepers : List Address
  pub halted : Dict (Unit {0})
  pub touched : Dict ℕ
  pub resumed : Dict ℕ

unfoldable pub job_touched : Storage → ℕ → ℕ
job_touched s id = unwrap_or (find id s.touched) 0

unfoldable pub touch_job : ℕ → ℕ → Storage → Storage
touch_job id at s = record s { touched = put id at s.touched }

unfoldable pub target_resumed : Storage → Address → ℕ
target_resumed s target = unwrap_or (find target s.resumed) 0

unfoldable pub set_target_resumed : Address → ℕ → Storage → Storage
set_target_resumed target at s = record s { resumed = put target at s.resumed }

unfoldable pub set_config : Config → Storage → Storage
set_config c s = record s { config = c }

-- `get_job_parts`: the state is read first, and both entries must be there.
unfoldable pub get_job_parts : Storage → ℕ → Option (JobSpec × JobState)
get_job_parts s id = elim (find id s.states) [
  | none ↦ none
  | some state ↦ elim (find id s.specs) [ none ↦ none | some spec ↦ some (spec, state) ]
]

unfoldable pub set_spec : ℕ → JobSpec → Storage → Storage
set_spec id spec s = record s { specs = put id spec s.specs }

unfoldable pub set_state : ℕ → JobState → Storage → Storage
set_state id state s = record s { states = put id state s.states }

unfoldable pub remove_pending_owner : ℕ → Storage → Storage
remove_pending_owner id s = record s { pending_owners = delete id s.pending_owners }

unfoldable pub set_pending_owner : ℕ → Address → Storage → Storage
set_pending_owner id owner s = record s { pending_owners = put id owner s.pending_owners }

unfoldable pub remove_job : ℕ → Storage → Storage
unfolding remove_pending_owner
remove_job id s =
    remove_pending_owner id (record s { specs = delete id s.specs; states = delete id s.states })

unfoldable pub job_view : ℕ → JobSpec → JobState → Job
job_view id spec state = record {
  id = id;
  owner = spec.owner;
  target = spec.target;
  function = spec.function;
  args = spec.args;
  interval = spec.interval;
  schedule = spec.schedule;
  next_run = state.next_run;
  fee_per_run = spec.fee_per_run;
  max_fee_per_run = spec.max_fee_per_run;
  balance = state.balance;
  max_runs = spec.max_runs;
  runs = state.runs;
  end_at = spec.end_at;
  resolver = spec.resolver;
  keepers = spec.keepers;
  after = spec.after;
  active = state.active;
  failures = state.failures;
}

unfoldable pub get_job : Storage → ℕ → Option Job
unfolding get_job_parts job_view
get_job s id = elim (get_job_parts s id) [
  | none ↦ none
  | some (spec, state) ↦ some (job_view id spec state)
]

unfoldable pub owner_jobs : Storage → Address → List ℕ
owner_jobs s owner = unwrap_or (find owner s.owner_lists) []

unfoldable pub add_owner_job : Address → ℕ → Storage → Storage
unfolding owner_jobs
add_owner_job owner id s = record s {
  owner_lists = put owner (owner_jobs s owner ++ id ∷ []) s.owner_lists;
}

-- The list is written back only where the id was found.
unfoldable pub remove_owner_job : Address → ℕ → Storage → Storage
unfolding owner_jobs
remove_owner_job owner id s =
    if contains (owner_jobs s owner) id
    then record s { owner_lists = put owner (remove_first id (owner_jobs s owner)) s.owner_lists }
    else s

unfoldable pub set_keeper : Address → Keeper → Storage → Storage
set_keeper keeper info s = record s { keepers = put keeper info s.keepers }

unfoldable pub remove_keeper : Address → Storage → Storage
remove_keeper keeper s = record s {
  keepers = delete keeper s.keepers;
  recents = delete keeper s.recents;
}

unfoldable pub get_keeper_recent : Storage → Address → KeeperRecent
get_keeper_recent s keeper = unwrap_or (find keeper s.recents) (record { lateness = 0; misses = 0 })

unfoldable pub set_keeper_recent : Address → KeeperRecent → Storage → Storage
set_keeper_recent keeper recent s = record s { recents = put keeper recent s.recents }

-- Whether `add_active_keeper` adds the keeper: its result.
unfoldable pub joins_rotation : Storage → Address → ℕ → Bool
joins_rotation s keeper cap =
    if contains s.active_keepers keeper || leb cap (length s.active_keepers) then false else true

unfoldable pub add_active_keeper : Address → ℕ → Storage → Storage
unfolding joins_rotation
add_active_keeper keeper cap s =
    if joins_rotation s keeper cap
    then record s { active_keepers = s.active_keepers ++ keeper ∷ [] }
    else s

unfoldable pub remove_active_keeper : Address → Storage → Storage
remove_active_keeper keeper s = record s { active_keepers = remove_first keeper s.active_keepers }

unfoldable pub is_target_halted : Storage → Address → Bool
is_target_halted s target = is_some (find target s.halted)

unfoldable pub set_target_halted : Address → Bool → Storage → Storage
set_target_halted target halted s =
    if halted
    then record s { halted = put target tt s.halted }
    else record s { halted = delete target s.halted }
