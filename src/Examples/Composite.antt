-- ===== src/Examples/Composite.antt =====
-- A resolver that combines others: contracts/examples/composite-resolver/src/lib.rs.
pub mod Answers
use sorocron.Base.{ℕ, Bool, true, false, Option, none, some, List, [], ◌∷◌, ltb, if◌then◌else◌}
use sorocron.Base.Lists.{length}
use sorocron.Registry.Types.{Address}
use sorocron.Soroban.{Host, World, M, ◌>>=◌, ◌>>◌, gets, modify, check, require_auth}

abbrev max_resolvers : ℕ
max_resolvers = 8

pub data Error : Type 0 where
  too_many_resolvers no_resolvers : Error

pub data Mode : Type 0 where
  all_of any_of : Mode

pub record Composite : Type 0 where
  pub admin : Address
  pub mode : Mode
  pub resolvers : List Address

-- The error of `store`, if any.
abbrev pub refusal : List Address → Option Error
refusal [] = some no_resolvers
refusal (r ∷ rs) = if ltb max_resolvers (length (r ∷ rs)) then some too_many_resolvers else none

-- `none` is the panic with the error of `store`.
unfoldable pub constructor : Address → Mode → List Address → Option Composite
constructor admin mode resolvers = elim (refusal resolvers) [
  | none ↦ some (record { admin = admin; mode = mode; resolvers = resolvers })
  | some e ↦ none
]

module _ {X : Type 0} (host : Host X) where
  unfoldable pub set : Mode → List Address → M Error (World Composite X) (Unit {0})
  set mode resolvers = do
    s ← gets (λ s. s)
    require_auth host s.admin
    check (refusal resolvers)
    modify (λ s. record s { mode = mode; resolvers = resolvers })

-- The call of a sub-resolver: whether it returned `true`, and what it left.
module _ {X : Type 0} (ask : Address → ℕ → X → Bool × X) (job_id : ℕ) where
  -- `Iterator::all` and `Iterator::any` over the calls: each stops at the answer that decides.
  unfoldable pub all_true : List Address → X → Bool × X
  all_true [] x = (true, x)
  all_true (r ∷ rs) x =
      let (answer, y) = ask r job_id x in elim answer [ true ↦ all_true rs y | false ↦ (false, y) ]

  unfoldable pub any_true : List Address → X → Bool × X
  any_true [] x = (false, x)
  any_true (r ∷ rs) x =
      let (answer, y) = ask r job_id x in elim answer [ true ↦ (true, y) | false ↦ any_true rs y ]

  unfoldable pub combined : Mode → List Address → X → Bool × X
  unfolding all_true any_true
  combined all_of rs x = all_true rs x
  combined any_of rs x = any_true rs x

  unfoldable pub should_run : Composite → X → Bool × X
  unfolding combined
  should_run s x = combined s.mode s.resolvers x
