-- ===== src/Registry/Host.antt =====
-- What a call of the registry runs against: the Soroban host and the other contracts (soroban-sdk,
-- the tokens, targets and resolvers), which are parameters, and the state that a call passes on.
pub mod Laws
use sorocron.Base.{ℕ, Bool, true, false, Option, none, some, List, ◌∷◌, if◌then◌else◌}
use sorocron.Base.Int.{ℤ}
use sorocron.Registry.Types.{Address, Symbol, Val, Hash, Error}
use sorocron.Registry.Event.{Event}
use sorocron.Registry.Storage.{Storage}
use sorocron.Registry.Result.{Result, ok, err}

-- What `try_execute` returns: `Ok(Ok(value))`, `Ok(Err(_))`, `Err(Ok(err))`, `Err(Err(_))`.
pub data CallResult : Type 0 where
  value : Val → CallResult
  unconverted : CallResult
  contract_error : ℕ → CallResult
  invoke_error : CallResult

-- `X` is the state of all other contracts. A transfer is `none` where the token panics.
pub record Env (X : Type 0) : Type 0 where
  pub timestamp : ℕ
  pub current_contract_address : Address
  pub authorized : Address → Bool
  pub transfer : Address → Address → Address → ℤ → X → Option X
  -- The executor, the target, its function and arguments.
  pub try_execute : Address → Address → Symbol → List Val → X → CallResult × X
  -- The resolver and the job id; `none` where the call fails or returns no boolean.
  pub try_should_run : Address → ℕ → X → Option Bool × X
  pub sha256 : List ℕ → Hash
  pub value_to_xdr : Val → List ℕ
  pub error_to_xdr : ℕ → List ℕ
  pub has_wasm : Hash → Bool

-- `code` is the hash of the contract's installed code.
pub record World (X : Type 0) : Type 0 where
  pub store : Storage
  pub outside : X
  pub events : List Event
  pub code : Hash

-- A returned value, a returned error, or a panic, which ends the transaction.
pub data Outcome (X : Type 0) (A : Type 0) : Type 0 where
  returns : A → World X → Outcome X A
  fails : Error → World X → Outcome X A
  traps : Outcome X A

abbrev pub M : Type 0 → Type 0 → Type 0
M X A = World X → Outcome X A

-- The rest of a computation, after an outcome.
abbrev pub continue : {X A B : Type 0} → Outcome X A → (A → World X → Outcome X B) → Outcome X B
continue (returns a w) f = f a w
continue (fails e w) f = fails e w
continue traps f = traps

infixl 5 ◌>>=◌ ◌>>◌
abbrev pub ◌>>=◌ : {X A B : Type 0} → M X A → (A → M X B) → M X B
◌>>=◌ m f w = continue (m w) f

abbrev pub ◌>>◌ : {X A B : Type 0} → M X A → M X B → M X B
m >> k = m >>= λ _. k

abbrev pub from_result : {X A : Type 0} → Result A → World X → Outcome X A
from_result (ok a) w = returns a w
from_result (err e) w = fails e w

abbrev pub from_option : {X A : Type 0} → Option A → World X → Outcome X A
from_option (some a) w = returns a w
from_option none w = traps

module _ {X A : Type 0} where
  abbrev pub pure : A → M X A
  pure a w = returns a w

  -- `?` on a result computed from the storage.
  abbrev pub attempt : (Storage → Result A) → M X A
  attempt f w = from_result (f w.store) w

  abbrev pub gets : (Storage → A) → M X A
  gets f w = returns (f w.store) w

  -- Overflow-checked arithmetic panics on `none`.
  abbrev pub or_trap : Option A → M X A
  or_trap o w = from_option o w

module _ {X : Type 0} where
  abbrev pub fail_if : Bool → Error → M X (Unit {0})
  fail_if true e w = fails e w
  fail_if false e w = returns tt w

  abbrev pub modify : (Storage → Storage) → M X (Unit {0})
  modify f w = returns tt (record w { store = f w.store })

  -- The latest event stands first.
  abbrev pub publish : Event → M X (Unit {0})
  publish e w = returns tt (record w { events = e ∷ w.events })

  abbrev pub or_panic : Bool → M X (Unit {0})
  or_panic true w = returns tt w
  or_panic false w = traps

  -- `Address::require_auth`.
  abbrev pub require_auth : Env X → Address → M X (Unit {0})
  require_auth env a w = or_panic (env.authorized a) w

  abbrev pub moved : Option X → World X → Outcome X (Unit {0})
  moved none w = traps
  moved (some x) w = returns tt (record w { outside = x })

  -- `TokenClient::transfer`.
  abbrev pub transfer : Env X → Address → Address → Address → ℤ → M X (Unit {0})
  transfer env token from to amount w = moved (env.transfer token from to amount w.outside) w

  -- `if amount > 0 { transfer }`, and the like.
  abbrev pub when : Bool → M X (Unit {0}) → M X (Unit {0})
  when true m w = m w
  when false m w = returns tt w
