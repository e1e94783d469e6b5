-- ===== src/TtlGuardian.antt =====
-- Extending the time-to-live of contracts: contracts/ttl-guardian/src/lib.rs.
pub mod Extends
mod Tests
use sorocron.Base.{ℕ, min, Bool, Option, List, [], ◌∷◌, ltb}
use sorocron.Base.Lists.{length}
use sorocron.Registry.Types.{Address}
use sorocron.Soroban.{World, M, ◌>>=◌, ◌>>◌, pure, fail_if, modify, moved}

abbrev max_extend_many : ℕ
max_extend_many = 20

pub data Error : Type 0 where
  invalid_ttl too_many_contracts : Error

-- The contract, the threshold and the new time-to-live.
pub data TtlExtended : Type 0 where
  ttl_extended : Address → ℕ → ℕ → TtlExtended

-- `deployer().extend_ttl` is `none` where it panics.
pub record Ledger (X : Type 0) : Type 0 where
  pub max_ttl : ℕ
  pub extend_ttl : Address → ℕ → ℕ → X → Option X

-- The contract has no storage; the world's store is the events, the latest first.
abbrev pub Events : Type 0
Events = List TtlExtended

module _ {X : Type 0} (ledger : Ledger X) where
  unfoldable pub extend_one : Address → ℕ → ℕ → M Error (World Events X) ℕ
  extend_one contract threshold requested = do
    let extend_to = min requested ledger.max_ttl
    fail_if (ltb extend_to threshold) Error.invalid_ttl
    λ w. moved (ledger.extend_ttl contract threshold extend_to w.outside) w
    modify (λ events. ttl_extended contract threshold extend_to ∷ events)
    pure extend_to

  unfoldable extend : Address → ℕ → ℕ → M Error (World Events X) ℕ
  unfolding extend_one
  extend contract threshold extend_to = extend_one contract threshold extend_to

  -- The loop of `extend_many`.
  unfoldable pub extend_each : List Address → ℕ → ℕ → M Error (World Events X) (List ℕ)
  unfolding extend_one
  extend_each [] threshold extend_to = pure []
  extend_each (c ∷ cs) threshold extend_to = do
    applied ← extend_one c threshold extend_to
    rest ← extend_each cs threshold extend_to
    pure (applied ∷ rest)

  unfoldable pub extend_many : List Address → ℕ → ℕ → M Error (World Events X) (List ℕ)
  unfolding extend_each
  extend_many contracts threshold extend_to = do
    fail_if (ltb max_extend_many (length contracts)) Error.too_many_contracts
    extend_each contracts threshold extend_to
