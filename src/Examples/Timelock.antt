-- ===== src/Examples/Timelock.antt =====
-- The timelock that executes governance calls: contracts/examples/timelock/src/lib.rs.
pub mod Consistent
pub mod Progress
pub mod Ready
use sorocron.Base.{
  ℕ, ◌+◌, Bool, true, false, ◌||◌, Option, none, some, List, [], ◌∷◌, ◌++◌, ltb, leb, if◌then◌else◌,
}
use sorocron.Base.Lists.{contains, remove_first}
use sorocron.Base.Word.{sat_add, checked_u64}
use sorocron.Base.Dict.{Dict, find, put, delete}
use sorocron.Registry.Types.{Address, Symbol, Val}
use sorocron.Soroban.{
  Host, World, M, continue, returns, ◌>>=◌, ◌>>◌, pure, gets, modify, or_trap, ok_or, fail_if,
  require_auth, try_invoke,
}

abbrev max_per_run : ℕ
max_per_run = 10

pub data Error : Type 0 where
  eta_too_soon unknown_call : Error

pub record QueuedCall : Type 0 where
  pub target : Address
  pub function : Symbol
  pub args : List Val
  pub eta : ℕ

pub data Event : Type 0 where
  call_executed : ℕ → Event
  call_expired : ℕ → Event

-- Each variant of `Key`, and the events published so far, the latest first.
pub record Timelock : Type 0 where
  pub admin : Address
  pub delay : ℕ
  pub grace : ℕ
  pub next_id : ℕ
  pub queue : List ℕ
  pub calls : Dict QueuedCall
  pub events : List Event

unfoldable pub constructor : Address → ℕ → ℕ → Timelock
constructor admin delay grace = record {
  admin = admin;
  delay = delay;
  grace = grace;
  next_id = 0;
  queue = [];
  calls = [];
  events = [];
}

-- `remove`: nothing happens to an id that is not queued, and that is its `None`.
unfoldable pub remove : ℕ → Timelock → Timelock
remove id s =
    if contains s.queue id
    then record s { queue = remove_first id s.queue; calls = delete id s.calls }
    else s

abbrev pub publish : Event → Timelock → Timelock
publish e s = record s { events = e ∷ s.events }

module _ {X : Type 0} (host : Host X) where
  unfoldable pub enqueue : Address → Symbol → List Val → ℕ → M Error (World Timelock X) ℕ
  enqueue target function args eta = do
    s ← gets (λ s. s)
    require_auth host s.admin
    fail_if (ltb eta (sat_add host.timestamp s.delay)) Error.eta_too_soon
    next ← or_trap (checked_u64 (s.next_id + 1))
    modify (λ s. record s {
      next_id = next;
      calls =
          put s.next_id (record { target = target; function = function; args = args; eta = eta })
            s.calls;
      queue = s.queue ++ s.next_id ∷ [];
    })
    pure s.next_id

  unfoldable pub cancel : ℕ → M Error (World Timelock X) (Unit {0})
  unfolding remove
  cancel id = do
    s ← gets (λ s. s)
    require_auth host s.admin
    fail_if (if contains s.queue id then false else true) Error.unknown_call
    modify (remove id)

  -- What follows `try_invoke_contract`: the new count.
  unfoldable pub record_call : ℕ → ℕ → Bool → M Error (World Timelock X) ℕ
  unfolding remove
  record_call id executed true = do
    modify (remove id)
    modify (publish (call_executed id))
    pure (executed + 1)
  record_call id executed false = pure executed

  -- One round of the loop of `execute_ready`; `continue` keeps the count.
  unfoldable pub visit : ℕ → ℕ → Option QueuedCall → M Error (World Timelock X) ℕ
  unfolding record_call
  visit id executed none w = returns executed w
  visit id executed (some call) w =
      if ltb host.timestamp call.eta
      then returns executed w
      else if leb (sat_add call.eta w.store.grace) host.timestamp
      then (do modify (remove id); modify (publish (call_expired id)); pure executed) w
      else (do
        called ← try_invoke host call.target call.function call.args
        record_call id executed called)
          w

  unfoldable pub visit_all : List ℕ → ℕ → M Error (World Timelock X) ℕ
  visit_all [] executed w = returns executed w
  visit_all (id ∷ ids) executed w =
      if leb max_per_run executed
      then returns executed w
      else continue (visit id executed (find id w.store.calls) w) (λ count u. visit_all ids count u)

  unfoldable pub execute_ready : M Error (World Timelock X) ℕ
  unfolding visit_all
  execute_ready w = visit_all w.store.queue 0 w

  abbrev is_ready : Option QueuedCall → Bool
  is_ready none = false
  is_ready (some call) = leb call.eta host.timestamp

  abbrev any_ready : Timelock → List ℕ → Bool
  any_ready s [] = false
  any_ready s (id ∷ ids) = is_ready (find id s.calls) || any_ready s ids

  unfoldable pub should_run : Timelock → Bool
  should_run s = any_ready s s.queue
