-- ===== src/TtlGuardian/Tests.antt =====
-- Two contracts that are about to be archived.
use sorocron.Base.{
  ℕ, ◌≡◌, refl, Bool, Bool-cases, inl, inr, eq-of-==, some, [], ◌∷◌, ltb, ◌==◌, if◌then◌else◌,
  arith,
}
use sorocron.Registry.Types.{Address}
use sorocron.Soroban.{World, returns}
use sorocron.TtlGuardian.{Ledger, Events, ttl_extended, extend_many}
use sorocron.TtlGuardian.Extends.{Extension, Alive, extend_many-returns}

-- How long each contract lives.
abbrev Lives : Type 0
Lives = Address → ℕ

abbrev extended : Address → ℕ → ℕ → Lives → Lives
extended c threshold extend_to x d =
    if c == d then (if ltb (x c) threshold then extend_to else x c) else x d

abbrev ledger : Ledger Lives
ledger = record {
  max_ttl = 500;
  extend_ttl = λ c threshold extend_to x. some (extended c threshold extend_to x);
}

abbrev ttl : Address → Lives → ℕ
ttl d x = x d

abbrev present : Address → Lives → Bool
present d x = ltb 0 (x d)

extension : Extension ledger present ttl
extension = record {
  extends = λ c threshold extend_to x here small room. (
    extended c threshold extend_to x,
    refl,
    ground arith,
    λ d there. elim (Bool-cases (c == d)) [
      | inl same ↦ (ground (arith, eq-of-== c d same), ground (arith, eq-of-== c d same))
      | inr other ↦ (ground arith, ground arith)
    ],
  );
}

abbrev world : World Events Lives
world = record { store = []; outside = λ d. 7 }

extend_many-returns_example :
    (v : World Events Lives) × (extend_many ledger (1 ∷ 2 ∷ []) 100 1000 world
      ≡ returns (500 ∷ 500 ∷ []) v)
    × (v.store ≡ ttl_extended 2 100 500 ∷ ttl_extended 1 100 500 ∷ [])
    × Alive extension 100 1000 (1 ∷ 2 ∷ []) (λ d. 7) v.outside
extend_many-returns_example =
    extend_many-returns extension 100 1000 (1 ∷ 2 ∷ []) world (omega arith) (omega arith)
      (refl, (refl, tt))
