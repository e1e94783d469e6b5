-- ===== src/Soroban.antt =====
-- A contract of the repository other than the registry against its host: what soroban-sdk and the
-- contracts it calls do, which are parameters, and the state that a call passes on.
pub mod Token
pub mod Router
pub mod History
use sorocron.Base.{ℕ, Bool, true, false, not, Option, none, some, List}
use sorocron.Base.Int.{ℤ}
use sorocron.Registry.Types.{Address, Symbol, Val}

-- `X` is the state of all other contracts. An action of another contract is `none` where it panics;
-- `try_invoke` gives whether the call returned and, if it did not, the state that the host restored.
pub record Host (X : Type 0) : Type 0 where
  pub timestamp : ℕ
  pub current_contract_address : Address
  pub authorized : Address → Bool
  -- The token's balance of an account, and what an owner lets a spender take.
  pub balance : Address → Address → X → ℤ
  pub allowance : Address → Address → Address → X → ℤ
  -- The token, the sender, the receiver and the amount.
  pub transfer : Address → Address → Address → ℤ → X → Option X
  -- The token, the spender, the sender, the receiver and the amount.
  pub transfer_from : Address → Address → Address → Address → ℤ → X → Option X
  pub try_invoke : Address → Symbol → List Val → X → Bool × X

-- The storage `S` of the contract beside the state of the others.
pub record World (S X : Type 0) : Type 0 where
  pub store : S
  pub outside : X

-- A returned value, a returned error `E`, or a panic. The host undoes a call that ends in either of
-- the last two.
pub data Outcome (E W A : Type 0) : Type 0 where
  returns : A → W → Outcome E W A
  fails : E → W → Outcome E W A
  traps : Outcome E W A

abbrev pub M : Type 0 → Type 0 → Type 0 → Type 0
M E W A = W → Outcome E W A

abbrev pub continue : {E W A B : Type 0} → Outcome E W A → (A → W → Outcome E W B) → Outcome E W B
continue (returns a w) f = f a w
continue (fails e w) f = fails e w
continue traps f = traps

infixl 5 ◌>>=◌ ◌>>◌
abbrev pub ◌>>=◌ : {E W A B : Type 0} → M E W A → (A → M E W B) → M E W B
◌>>=◌ m f w = continue (m w) f

abbrev pub ◌>>◌ : {E W A B : Type 0} → M E W A → M E W B → M E W B
m >> k = m >>= λ _. k

-- What a transaction leaves.
abbrev pub committed : {E W A : Type 0} → W → Outcome E W A → W
committed w (returns a v) = v
committed w (fails e v) = w
committed w traps = w

abbrev pub from_option : {E W A : Type 0} → Option A → W → Outcome E W A
from_option (some a) w = returns a w
from_option none w = traps

abbrev or_error : {E W A : Type 0} → Option A → E → W → Outcome E W A
or_error (some a) e w = returns a w
or_error none e w = fails e w

module _ {E W : Type 0} where
  abbrev pub pure : {A : Type 0} → A → M E W A
  pure a w = returns a w

  -- `unwrap`, `expect`, and arithmetic whose overflow panics.
  abbrev pub or_trap : {A : Type 0} → Option A → M E W A
  or_trap o w = from_option o w

  -- `ok_or(e)?`.
  abbrev pub ok_or : {A : Type 0} → Option A → E → M E W A
  ok_or o e w = or_error o e w

  abbrev pub fail_if : Bool → E → M E W (Unit {0})
  fail_if true e w = fails e w
  fail_if false e w = returns tt w

  -- `?` after a check that gives the error, if any.
  abbrev pub check : Option E → M E W (Unit {0})
  check none w = returns tt w
  check (some e) w = fails e w

  abbrev pub panic_if : Bool → M E W (Unit {0})
  panic_if true w = traps
  panic_if false w = returns tt w

  abbrev pub when : Bool → M E W (Unit {0}) → M E W (Unit {0})
  when true m w = m w
  when false m w = returns tt w

module _ {E S X : Type 0} where
  abbrev pub gets : {A : Type 0} → (S → A) → M E (World S X) A
  gets f w = returns (f w.store) w

  -- What another contract answers without a change.
  abbrev pub asks : {A : Type 0} → (X → A) → M E (World S X) A
  asks f w = returns (f w.outside) w

  abbrev pub modify : (S → S) → M E (World S X) (Unit {0})
  modify f w = returns tt (record w { store = f w.store })

  abbrev pub moved : Option X → World S X → Outcome E (World S X) (Unit {0})
  moved none w = traps
  moved (some x) w = returns tt (record w { outside = x })

  abbrev pub require_auth : Host X → Address → M E (World S X) (Unit {0})
  require_auth host a w = panic_if (not (host.authorized a)) w

  abbrev pub transfer : Host X → Address → Address → Address → ℤ → M E (World S X) (Unit {0})
  transfer host token from to amount w = moved (host.transfer token from to amount w.outside) w

  abbrev pub transfer_from :
      Host X → Address → Address → Address → Address → ℤ → M E (World S X) (Unit {0})
  transfer_from host token spender from to amount w =
      moved (host.transfer_from token spender from to amount w.outside) w

  abbrev pub try_invoke : Host X → Address → Symbol → List Val → M E (World S X) Bool
  try_invoke host target function args w =
      let (called, x) = host.try_invoke target function args w.outside in
      returns called (record w { outside = x })
