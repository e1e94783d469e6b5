-- ===== src/Executor.antt =====
-- The contract that calls job targets: contracts/executor/src/lib.rs. Its storage is the registry's
-- address; the time-to-live of the instance is not modelled.
use sorocron.Base.{ℕ, Bool, Option, none, some, List, ◌==◌, if◌then◌else◌}
use sorocron.Registry.Types.{Address, Symbol, Val}
use sorocron.Registry.Host.{CallResult, value, contract_error, invoke_error}

-- How a call of a contract ended; a panic carries the error code of the contract, if it had one.
pub data Invocation (X : Type 0) : Type 0 where
  done : Val → X → Invocation X
  panics : Option ℕ → Invocation X

-- `invoke_contract`: the invoking contract, the target, its function and arguments.
abbrev Invoke : Type 0 → Type 0
Invoke X = Address → Address → Symbol → List Val → X → Invocation X

-- The constructor stores the registry.
unfoldable pub constructor : Address → Address
constructor registry = registry

module _ {X : Type 0} where
  -- `me` is the executor's own address, `authorized` says who invoked it or signed.
  unfoldable pub execute :
      Invoke X
      → Address
      → (Address → Bool)
      → Address
      → Address
      → Symbol
      → List Val
      → X
      → Invocation X
  execute invoke me authorized registry target function args x =
      if authorized registry then invoke me target function args x else panics none

  -- What the registry gets from `try_execute`: the host undoes a call that panics.
  abbrev seen_by_caller : Invocation X → X → CallResult × X
  seen_by_caller (done v y) x = (value v, y)
  seen_by_caller (panics (some code)) x = (contract_error code, x)
  seen_by_caller (panics none) x = (invoke_error, x)

  -- `try_execute` of the registry: `registry_of` is what each executor has stored. The host lets no
  -- contract call itself back.
  unfoldable through_executor :
      Invoke X
      → (Address → Address)
      → Address
      → Address
      → Address
      → Symbol
      → List Val
      → X
      → CallResult × X
  unfolding execute
  through_executor invoke registry_of registry executor target function args x =
      if executor == registry
      then (invoke_error, x)
      else seen_by_caller
          (execute invoke executor (λ a. a == registry) (registry_of executor) target function args
            x)
          x
