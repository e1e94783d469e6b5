-- ===== src/Examples/Composite/Answers.antt =====
-- What the combined answer is: contracts/examples/composite-resolver/src/lib.rs.
use sorocron.Base.{
  ℕ, ◌≤◌, ◌≡◌, refl, Bool, true, false, ◌&&◌, ◌||◌, some, List, [], ◌∷◌, arith, Bool-cases, inl,
  inr,
}
use sorocron.Base.Lists.{length}
use sorocron.Registry.Types.{Address}
use sorocron.Soroban.{Host, World, committed}
use sorocron.Examples.Composite.{
  Mode, all_of, any_of, Composite, constructor, set, all_true, any_true, combined, should_run,
}

-- All, or any, of the answers of the sub-resolvers.
abbrev verdict : (Address → Bool) → Mode → List Address → Bool
verdict answer all_of [] = true
verdict answer all_of (r ∷ rs) = answer r && verdict answer all_of rs
verdict answer any_of [] = false
verdict answer any_of (r ∷ rs) = answer r || verdict answer any_of rs

module _ {X : Type 0} (ask : Address → ℕ → X → Bool × X) (job_id : ℕ) (x : X)
    (reads : (r : Address) → (ask r job_id x).1 ≡ x) where
  all-verdict :
      (rs : List Address)
      → all_true ask job_id rs x ≡ (verdict (λ r. (ask r job_id x).0) all_of rs, x)
  unfolding all_true
  all-verdict [] = refl
  all-verdict (r ∷ rs) = elim (Bool-cases (ask r job_id x).0) [
    | inl positive ↦ ground (arith, reads r, all-verdict rs)
    | inr negative ↦ ground (arith, reads r)
  ]

  any-verdict :
      (rs : List Address)
      → any_true ask job_id rs x ≡ (verdict (λ r. (ask r job_id x).0) any_of rs, x)
  unfolding any_true
  any-verdict [] = refl
  any-verdict (r ∷ rs) = elim (Bool-cases (ask r job_id x).0) [
    | inl positive ↦ ground (arith, reads r)
    | inr negative ↦ ground (arith, reads r, any-verdict rs)
  ]

  combined-verdict :
      (mode : Mode) (rs : List Address)
      → combined ask job_id mode rs x ≡ (verdict (λ r. (ask r job_id x).0) mode rs, x)
  unfolding combined
  combined-verdict all_of rs = all-verdict rs
  combined-verdict any_of rs = any-verdict rs

  should_run-verdict :
      (s : Composite)
      → should_run ask job_id s x ≡ (verdict (λ r. (ask r job_id x).0) s.mode s.resolvers, x)
  unfolding should_run
  should_run-verdict s = combined-verdict s.mode s.resolvers

-- One to eight sub-resolvers.
abbrev IsBounded : List Address → Type 0
IsBounded rs = (1 ≤ length rs) × (length rs ≤ 8)

constructor-IsBounded :
    (admin : Address) (mode : Mode) (rs : List Address) (s : Composite)
    → constructor admin mode rs ≡ some s
    → IsBounded s.resolvers
unfolding constructor
constructor-IsBounded admin mode [] s e = cc
constructor-IsBounded admin mode (r ∷ rs) s e = ground arith

set-IsBounded :
    {X : Type 0} (host : Host X) (mode : Mode) (rs : List Address) (w : World Composite X)
    → IsBounded w.store.resolvers
    → IsBounded (committed w (set host mode rs w)).store.resolvers
unfolding set
set-IsBounded host mode [] w h = ground arith
set-IsBounded host mode (r ∷ rs) w h = ground arith
