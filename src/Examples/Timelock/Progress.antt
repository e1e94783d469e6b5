-- ===== src/Examples/Timelock/Progress.antt =====
-- What a part of a run of `execute_ready` does: contracts/examples/timelock/src/lib.rs.
use sorocron.Soroban.{Host}
use sorocron.Base.{
  ◌⊎◌, inl, inr, Bool, true, false, none, Option, ◌||◌, ◌==◌, Bool-cases, ℕ, suc, ◌+◌, ◌≤◌, ◌<◌,
  ◌≡◌, refl, ap, sym, ◌∙◌, some, List, [], ◌∷◌, ◌++◌, arith, eq-of-==,
}
use sorocron.Base.Word.{sat_add}
use sorocron.Base.Dict.{find}
use sorocron.Examples.Timelock.{
  Timelock, QueuedCall, Event, call_executed, call_expired, remove, publish,
}
use sorocron.Examples.Timelock.Consistent.{IsConsistent, find-remove}

-- How many of the events are executions.
abbrev pub executions : List Event → ℕ
executions [] = 0
executions (call_executed id ∷ events) = suc (executions events)
executions (call_expired id ∷ events) = executions events

executions-append : (xs ys : List Event) → executions (xs ++ ys) ≡ executions xs + executions ys
executions-append [] ys = omega arith
executions-append (call_executed id ∷ xs) ys = omega (arith, executions-append xs ys)
executions-append (call_expired id ∷ xs) ys = executions-append xs ys

append_assoc : (xs ys zs : List Event) → (xs ++ ys) ++ zs ≡ xs ++ (ys ++ zs)
append_assoc [] ys zs = refl
append_assoc (x ∷ xs) ys zs = ap (λ (l : List Event). x ∷ l) (append_assoc xs ys zs)

abbrev event_id : Event → ℕ
event_id (call_executed id) = id
event_id (call_expired id) = id

-- Whether one of the events is about a call.
abbrev tells : List Event → ℕ → Bool
tells [] id = false
tells (e ∷ es) id = event_id e == id || tells es id

tells-append : (xs ys : List Event) (id : ℕ) → tells (xs ++ ys) id ≡ (tells xs id || tells ys id)
tells-append [] ys id = refl
tells-append (x ∷ xs) ys id = ground (arith, tells-append xs ys id)

-- No event is about a call that is still stored.
abbrev AllGone : Timelock → List Event → Type 0
AllGone t [] = Unit {0}
AllGone t (e ∷ es) = (find (event_id e) t.calls ≡ none) × AllGone t es

AllGone-later :
    (t u : Timelock) (es : List Event)
    → ((id : ℕ) (call : QueuedCall) → find id u.calls ≡ some call → find id t.calls ≡ some call)
    → AllGone t es
    → AllGone u es
AllGone-later t u [] left a = tt
AllGone-later t u (e ∷ es) left (gone, a) =
    (still_gone (find (event_id e) u.calls) refl, AllGone-later t u es left a)
  where
    still_gone :
        (o : Option QueuedCall) → find (event_id e) u.calls ≡ o → find (event_id e) u.calls ≡ none
    still_gone none h = h
    still_gone (some call) h = cc (left (event_id e) call h, gone)

AllGone-append :
    (t : Timelock) (xs ys : List Event) → AllGone t xs → AllGone t ys → AllGone t (xs ++ ys)
AllGone-append t [] ys a b = b
AllGone-append t (x ∷ xs) ys (p, a) b = (p, AllGone-append t xs ys a b)

module _ {X : Type 0} (host : Host X) where
  abbrev now : ℕ
  now = host.timestamp

  -- The call of a target, as it ends at some point of the run.
  abbrev pub Answered : QueuedCall → Bool → Type 0
  Answered call answer =
      (x : X) × (y : X) × (host.try_invoke call.target call.function call.args x ≡ (answer, y))

  -- An executed call was in its window and its target was called and did not fail, an expired one was past
  -- it; both were stored before.
  abbrev InWindow : Timelock → Event → Type 0
  InWindow s (call_executed id) =
      (call : QueuedCall) × (find id s.calls ≡ some call)
      × (call.eta ≤ now)
      × (now < sat_add call.eta s.grace)
      × Answered call true
  InWindow s (call_expired id) =
      (call : QueuedCall) × (find id s.calls ≡ some call) × (sat_add call.eta s.grace ≤ now)

  abbrev AllInWindow : Timelock → List Event → Type 0
  AllInWindow s [] = Unit {0}
  AllInWindow s (e ∷ es) = InWindow s e × AllInWindow s es

  -- What a part of a run has done between two states.
  pub record Progress (s t : Timelock) (before after : ℕ) : Type 0 where
    pub published : List Event
    pub added : t.events ≡ published ++ s.events
    pub counted : after ≡ executions published + before
    pub windows : AllInWindow s published
    pub gone : AllGone t published
    pub told :
        (id : ℕ) (call : QueuedCall)
        → find id s.calls ≡ some call
        → (find id t.calls ≡ some call) ⊎ (tells published id ≡ true)
    pub left :
        (id : ℕ) (call : QueuedCall) → find id t.calls ≡ some call → find id s.calls ≡ some call
    pub waiting :
        (id : ℕ) (call : QueuedCall)
        → find id s.calls ≡ some call
        → now < call.eta
        → find id t.calls ≡ some call
    pub grace_kept : t.grace ≡ s.grace

  pub Progress-refl : (s : Timelock) (n : ℕ) → Progress s s n n
  Progress-refl s n = record {
    published = [];
    added = refl;
    counted = omega arith;
    windows = tt;
    gone = tt;
    told = λ id call e. inl e;
    left = λ id call e. e;
    waiting = λ id call e h. e;
    grace_kept = refl;
  }

  InWindow-earlier :
      (s t : Timelock) (e : Event)
      → ((id : ℕ) (call : QueuedCall) → find id t.calls ≡ some call → find id s.calls ≡ some call)
      → t.grace ≡ s.grace
      → InWindow t e
      → InWindow s e
  InWindow-earlier s t (call_executed id) left g (call, e, p, q, a) =
      (call, left id call e, p, rw (← g) q, a)
  InWindow-earlier s t (call_expired id) left g (call, e, p) = (call, left id call e, rw (← g) p)

  AllInWindow-earlier :
      (s t : Timelock) (es : List Event)
      → ((id : ℕ) (call : QueuedCall) → find id t.calls ≡ some call → find id s.calls ≡ some call)
      → t.grace ≡ s.grace
      → AllInWindow t es
      → AllInWindow s es
  AllInWindow-earlier s t [] left g a = tt
  AllInWindow-earlier s t (e ∷ es) left g (a, as') =
      (InWindow-earlier s t e left g a, AllInWindow-earlier s t es left g as')

  AllInWindow-append :
      (s : Timelock) (xs ys : List Event)
      → AllInWindow s xs
      → AllInWindow s ys
      → AllInWindow s (xs ++ ys)
  AllInWindow-append s [] ys a b = b
  AllInWindow-append s (x ∷ xs) ys (p, a) b = (p, AllInWindow-append s xs ys a b)

  pub Progress-trans :
      (s t u : Timelock) (i j k : ℕ) → Progress s t i j → Progress t u j k → Progress s u i k
  Progress-trans s t u i j k p q = record {
    published = q.published ++ p.published;
    added =
        q.added
        ∙ ap (λ (l : List Event). q.published ++ l) p.added
        ∙ sym (append_assoc q.published p.published s.events);
    counted = omega (arith, executions-append q.published p.published, p.counted, q.counted);
    windows =
        AllInWindow-append s q.published p.published
          (AllInWindow-earlier s t q.published p.left p.grace_kept q.windows) p.windows;
    gone =
        AllGone-append u q.published p.published q.gone
          (AllGone-later t u p.published q.left p.gone);
    told = λ id call e. elim (p.told id call e) [
      | inl kept ↦ elim (q.told id call kept) [
        | inl still ↦ inl still
        | inr later ↦ inr (ground (arith, tells-append q.published p.published id))
      ]
      | inr earlier ↦ inr (ground (arith, tells-append q.published p.published id))
    ];
    left = λ id call e. p.left id call (q.left id call e);
    waiting = λ id call e h. q.waiting id call (p.waiting id call e h) h;
    grace_kept = q.grace_kept ∙ p.grace_kept;
  }

  -- A call whose time has come is removed with an event.
  pub removed :
      (id : ℕ) (call : QueuedCall) (s : Timelock) (event : Event) (n k : ℕ)
      → IsConsistent s
      → find id s.calls ≡ some call
      → call.eta ≤ now
      → event_id event ≡ id
      → InWindow s event
      → k ≡ executions (event ∷ []) + n
      → Progress s (publish event (remove id s)) n k
  removed id call s event n k c e h same window counted = record {
    published = event ∷ [];
    added = unfold remove in ground arith;
    counted = counted;
    windows = (window, tt);
    gone = (rw same (find-remove id id s c ∙ ground arith), tt);
    told = λ j d f. elim (Bool-cases (id == j)) [
      | inl own ↦ inr (ground arith)
      | inr other ↦ inl (find-remove id j s c ∙ ground arith)
    ];
    left = λ j d f. ground (arith, find-remove id j s c);
    waiting = λ j d f late. ground (arith, find-remove id j s c, eq-of-== id j);
    grace_kept = unfold remove in ground arith;
  }
