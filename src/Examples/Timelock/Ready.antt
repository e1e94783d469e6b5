-- ===== src/Examples/Timelock/Ready.antt =====
-- What `execute_ready` runs: contracts/examples/timelock/src/lib.rs.
use sorocron.Base.{
  ◌⊎◌, true, ◌<◌, ℕ, ◌≤◌, ◌≡◌, refl, false, some, List, [], ◌∷◌, arith, Option-cases, inl, inr,
}
use sorocron.Base.Dict.{find}
use sorocron.Base.Lists.{contains}
use sorocron.Soroban.{Host, World, Outcome, returns}
use sorocron.Examples.Timelock.{
  Timelock, QueuedCall, Error, visit, visit_all, execute_ready, any_ready, should_run,
}
use sorocron.Examples.Timelock.Consistent.{IsConsistent}
use sorocron.Examples.Timelock.Progress.{Progress, Answered}

module _ {X : Type 0} (host : Host X) where
  -- A run goes on from `w` to the count `k`.
  abbrev Runs :
      Outcome Error (World Timelock X) ℕ
      → World Timelock X
      → ℕ
      → ℕ
      → (ℕ → World Timelock X → Type 0)
      → Type 0
  Runs o w n most More =
      (k : ℕ) × (v : World Timelock X) × (o ≡ returns k v)
      × (k ≤ most)
      × IsConsistent v.store
      × Progress host w.store v.store n k
      × More k v

  -- Why a call is still stored after a run that executed `k` calls: the run was full, it waits for its time
  -- or its target failed.
  abbrev pub Kept : ℕ → QueuedCall → Type 0
  Kept k call = (10 ≤ k) ⊎ ((host.timestamp < call.eta) ⊎ Answered host call false)

  abbrev KeptAs : ℕ → ℕ → Timelock → Type 0
  KeptAs id k s = (call : QueuedCall) → find id s.calls ≡ some call → Kept k call

  -- The calls of a list that are still stored.
  abbrev AllKept : List ℕ → ℕ → Timelock → Type 0
  AllKept ids k s = (id : ℕ) → contains ids id ≡ true → KeptAs id k s

  idle :
      (ids : List ℕ) (n : ℕ) (w : World Timelock X)
      → any_ready host w.store ids ≡ false
      → visit_all host ids n w ≡ returns n w
  unfolding visit_all visit
  idle [] n w h = refl
  idle (id ∷ ids) n w h = elim (Option-cases (find id w.store.calls)) [
    | inl gone ↦ ground (arith, idle ids n w)
    | inr (call, e) ↦ ground (arith, idle ids n w)
  ]

  should_run-false :
      (w : World Timelock X) → should_run host w.store ≡ false → execute_ready host w ≡ returns 0 w
  unfolding should_run execute_ready
  should_run-false w h = idle w.store.queue 0 w h
