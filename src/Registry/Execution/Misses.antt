-- ===== src/Registry/Execution/Misses.antt =====
-- Recording a miss: contracts/registry/src/lib.rs, `record_miss` and its call in `run_job`.
use sorocron.Base.{
  ℕ, ◌≡◌, refl, ap, ◌∙◌, ◌∷◌, Option, none, some, arith, Option-cases, inl, inr, Bool-cases,
}
use sorocron.Base.Int.{ℤ, pos, ◌+ℤ◌, ◌≤ℤ◌, +ℤ-cancel}
use sorocron.Base.Dict.{Dict, find, put, sum_by, find-put, sum_by-put, Each, Each-find, Each-put}
use sorocron.Registry.Types.{Address, Keeper, JobSpec}
use sorocron.Registry.Storage.{Storage, set_keeper, get_keeper_recent, set_keeper_recent}
use sorocron.Registry.Event.{Event}
use sorocron.Registry.Host.{Env, World, returns}
use sorocron.Registry.Assignment.{record_miss, missed_once, recent_miss, had_whole_window}
use sorocron.Registry.Execution.{note_miss}

abbrev pub stake_of : Keeper → ℤ
stake_of info = info.stake

-- The stake of a keeper, if it is registered.
abbrev pub stake_at : Storage → Address → Option ℤ
stake_at s k = elim (find k s.keepers) [ none ↦ none | some info ↦ some info.stake ]

abbrev pub HasStake : Keeper → Type 0
HasStake info = pos 0 ≤ℤ info.stake

-- The worlds differ at most in keepers' counters and in events: no stake has changed.
pub record SameFunds {X : Type 0} (w v : World X) : Type 0 where
  pub config : v.store.config ≡ w.store.config
  pub specs : v.store.specs ≡ w.store.specs
  pub states : v.store.states ≡ w.store.states
  pub next_job_id : v.store.next_job_id ≡ w.store.next_job_id
  pub outside : v.outside ≡ w.outside
  pub code : v.code ≡ w.code
  pub pending : v.store.pending_upgrade ≡ w.store.pending_upgrade
  pub delay : v.store.upgrade_delay ≡ w.store.upgrade_delay
  pub stakes : (k : Address) → stake_at v.store k ≡ stake_at w.store k
  pub total : sum_by stake_of v.store.keepers ≡ sum_by stake_of w.store.keepers
  pub held : Each HasStake w.store.keepers → Each HasStake v.store.keepers

pub stake_at-put :
    (s : Storage) (k j : Address) (info info' : Keeper)
    → find k s.keepers ≡ some info
    → info'.stake ≡ info.stake
    → stake_at (set_keeper k info' s) j ≡ stake_at s j
unfolding set_keeper
stake_at-put s k j info info' e same = ground (arith, find-put j k info' s.keepers)

pub sum_by-put_same :
    (k : Address) (d : Dict Keeper) (info info' : Keeper)
    → find k d ≡ some info
    → info'.stake ≡ info.stake
    → sum_by stake_of (put k info' d) ≡ sum_by stake_of d
sum_by-put_same k d info info' e same =
    +ℤ-cancel _ _ (stake_of info)
      (sum_by-put stake_of k info' info d e ∙ ap (λ (a : ℤ). sum_by stake_of d +ℤ a) same)

module _ {X : Type 0} where
  SameFunds-refl : (w : World X) → SameFunds w w
  SameFunds-refl w = record {
    config = refl;
    specs = refl;
    states = refl;
    next_job_id = refl;
    outside = refl;
    code = refl;
    pending = refl;
    delay = refl;
    stakes = λ k. refl;
    total = refl;
    held = λ h. h;
  }

  -- A miss is only counted.
  pub record_miss_lem :
      (missed ran_by : Address) (job_id : ℕ) (w : World X)
      → (v : World X) × (record_miss missed ran_by job_id w ≡ returns tt v) × SameFunds w v
  unfolding record_miss
  record_miss_lem missed ran_by job_id w = elim (Option-cases (find missed w.store.keepers)) [
    | inl gone ↦ (w, rw (gone, record_miss) refl, SameFunds-refl w)
    | inr (info, e) ↦
        let s = set_keeper missed (missed_once info) w.store in
        let recent = recent_miss (get_keeper_recent s missed) in
        let v : World X = record w {
          store = set_keeper_recent missed recent s;
          events = Event.keeper_missed_window missed job_id ran_by ∷ w.events;
        } in
        (
          v,
          rw (e, record_miss) refl,
          unfold set_keeper_recent set_keeper in
              record {
                config = refl;
                specs = refl;
                states = refl;
                next_job_id = refl;
                outside = refl;
                code = refl;
                pending = refl;
                delay = refl;
                stakes = λ k. stake_at-put w.store missed k info (missed_once info) e refl;
                total = sum_by-put_same missed w.store.keepers info (missed_once info) e refl;
                held = λ h.
                    Each-put HasStake missed (missed_once info) w.store.keepers h
                      (Each-find HasStake missed info w.store.keepers h e);
              },
        )
  ]

  -- Noting the miss of an assigned keeper, if there is one and it had its whole window, always
  -- succeeds and costs nobody anything: no stake, job, setting or other contract changes.
  pub note_miss_lem :
      (env : Env X) (keeper : Address) (job_id : ℕ) (spec : JobSpec) (due_at : ℕ)
      (assigned : Option Address) (w : World X)
      → (v : World X) × (note_miss env keeper job_id spec due_at assigned w ≡ returns tt v)
        × SameFunds w v
  unfolding note_miss
  note_miss_lem env keeper job_id spec due_at none w = (w, refl, SameFunds-refl w)
  note_miss_lem env keeper job_id spec due_at (some missed) w =
      elim (Bool-cases (had_whole_window env w.store job_id spec due_at)) [
        | inl whole ↦ rw (whole) (record_miss_lem missed keeper job_id w)
        | inr part ↦ rw (part) (w, refl, SameFunds-refl w)
      ]
