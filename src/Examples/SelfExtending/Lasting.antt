-- ===== src/Examples/SelfExtending/Lasting.antt =====
-- Storage that is never archived: contracts/examples/self-extending/src/lib.rs.
use sorocron.Base.{ℕ, ◌+◌, ◌≤◌, ◌<◌, ◌≡◌, none, some, List, [], ◌∷◌, arith}
use sorocron.Base.Dict.{find}
use sorocron.Base.Lists.{length}
use sorocron.Registry.Types.{Symbol, Val}
use sorocron.Soroban.{Host, World, committed}
use sorocron.Soroban.History.{run}
use sorocron.Examples.SelfExtending.{
  threshold, Entry, SelfExtending, pass_ledgers, extend_ttl, store,
}
use sorocron.Examples.SelfExtending.Kept.{
  Extending, IsKept, Extended, pass_ledgers-IsKept, store-IsKept, extend_ttl_lem,
}

-- The calls that change the storage, and ledgers that pass between them.
pub data Call : Type 0 where
  storing : Symbol → Val → Call
  extending : Call
  passing : ℕ → Call

module _ {X : Type 0} (extended : ℕ → ℕ → ℕ → ℕ) (fresh : ℕ) where
  abbrev pub serve : Host X → Call → World SelfExtending X → World SelfExtending X
  serve host (storing key value) w = committed w (store extended fresh host key value w)
  serve host (passing n) w = record w { store = pass_ledgers n w.store }
  serve host extending w = elim (extend_ttl extended fresh w.store) [
    | none ↦ w
    | some (count, later) ↦ record w { store = later }
  ]

-- After the `n` ledgers that have passed, `extend_ttl` is called in time: fewer ledgers pass than the
-- threshold until the first call, between two of them and after the last.
abbrev InTime : {X : Type 0} → ℕ → List (Host X × Call) → Type 0
InTime n [] = n < threshold
InTime n ((host, storing key value) ∷ moments) = InTime n moments
InTime n ((host, passing k) ∷ moments) = InTime (n + k) moments
InTime n ((host, extending) ∷ moments) = (n < threshold) × InTime 0 moments

module _ {X : Type 0} (extended : ℕ → ℕ → ℕ → ℕ) (fresh : ℕ) (laws : Extending extended) where
  run-IsKept :
      (moments : List (Host X × Call)) (n : ℕ) (w : World SelfExtending X)
      → InTime n moments
      → IsKept n w.store
      → (m : ℕ) × (m < threshold) × IsKept m (run (serve extended fresh) moments w).store
  run-IsKept [] n w early i = (n, early, i)
  run-IsKept ((host, storing key value) ∷ moments) n w t i =
      run-IsKept moments n (serve extended fresh host (storing key value) w) t
        (store-IsKept extended fresh laws host key value n w i)
  run-IsKept ((host, passing k) ∷ moments) n w t i =
      run-IsKept moments (n + k) (serve extended fresh host (passing k) w) t
        (pass_ledgers-IsKept n k w.store i)
  run-IsKept ((host, extending) ∷ moments) n w (early, t) i =
      let (later, e, _, kept) = extend_ttl_lem extended fresh laws n w.store early i in
      run-IsKept moments 0 (serve extended fresh host extending w) t (rw (serve, e) kept)

  -- From a state where everything stored is indexed and lived as long as the threshold `n`
  -- ledgers ago, such as that of the constructor where the host gives new entries at least the
  -- threshold: along every history of calls in which `extend_ttl` is called in time, that is,
  -- fewer ledgers than the threshold pass since then before the first call, between two of them
  -- and after the last, neither the instance nor an entry is archived at the end. `extend_ttl`
  -- does not panic then, visits at most fifty keys, and makes the instance and each stored entry
  -- live at least as long as the threshold and no shorter than before, each with the same value.
  -- The host's extension never shortens a life and reaches the threshold.
  pub run-extend_ttl :
      (moments : List (Host X × Call)) (n : ℕ) (w : World SelfExtending X)
      → InTime n moments
      → IsKept n w.store
      → let s = (run (serve extended fresh) moments w).store in
        (0 < s.instance_ttl)
        × ((key : Symbol) (e : Entry) → find key s.entries ≡ some e → 0 < e.ttl)
        × (length s.index ≤ 50)
        × ((later : SelfExtending) × (extend_ttl extended fresh s ≡ some (length s.index, later))
            × Extended extended fresh laws s later)
  run-extend_ttl moments n w t i =
      let (m, early, kept) = run-IsKept moments n w t i in
      let (later, e, longer, _) =
        extend_ttl_lem extended fresh laws m (run (serve extended fresh) moments w).store early
          kept in
      (
        omega (arith, kept.instance_lasting),
        λ key entry found. omega (arith, kept.lasting key entry found),
        kept.few,
        (later, e, longer),
      )
