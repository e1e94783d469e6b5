-- ===== src/Registry/Solvency.antt =====
-- The money that the registry owes against the tokens it holds: the invariant that
-- contracts/registry/src/invariants.rs tests and docs/security.md calls "Fee accounting invariant".
pub mod Jobs
pub mod Runs
pub mod Payouts
pub mod Calls
pub mod Keepers
pub mod Validation
pub mod Creation
pub mod Quiet
pub mod Steps
use sorocron.Base.{
  ℕ, ◌+◌, ◌≤◌, ◌≡◌, refl, ap, sym, ◌∙◌, Bool, true, false, ◌&&◌, Option, none, some, List, arith,
  ◌==◌, if◌then◌else◌, Bool-cases, eq-of-==, inl, inr,
}
use sorocron.Base.Int.{ℤ, pos, pos_part, neg_part, ◌+ℤ◌, ◌-ℤ◌, ◌≤ℤ◌, ◌<ℤ◌, int_laws}
use sorocron.Base.Dict.{Dict, find, put, sum_by, sum_by-put, Each}
use sorocron.Registry.Types.{Address, Symbol, Val, JobSpec, JobState, Keeper}
use sorocron.Registry.Storage.{Storage, get_job_parts}
use sorocron.Registry.Host.{Env, World}
use sorocron.Registry.Execution.Misses.{stake_of}

abbrev pub gated : Bool → ℤ → ℤ
gated b a = if b then a else pos 0

-- What the registry relies on in its host and in other contracts. `balance_of token who` reads a
-- token's ledger. A token's transfer (SEP-41) moves the amount and changes no other balance. A called
-- target sees the executor as its invoker and a called resolver has only its own authority, so
-- neither lowers a balance of the registry. Nobody signs for the registry's own address.
pub record Custody {X : Type 0} (registry : Address) (balance_of : Address → Address → X → ℤ)
    (env : Env X) : Type 0 where
  pub here : env.current_contract_address ≡ registry
  pub unsigned : env.authorized registry ≡ false
  pub transfer_moves :
      (token from to : Address) (amount : ℤ) (x y : X)
      → env.transfer token from to amount x ≡ some y
      → (t who : Address)
      → balance_of t who y +ℤ gated (t == token && who == from) amount
        ≡ balance_of t who x +ℤ gated (t == token && who == to) amount
  pub target_keeps :
      (executor target : Address) (function : Symbol) (args : List Val) (x : X) (t : Address)
      → balance_of t registry x
        ≤ℤ balance_of t registry (env.try_execute executor target function args x).1
  pub resolver_keeps :
      (resolver : Address) (job_id : ℕ) (x : X) (t : Address)
      → balance_of t registry x ≤ℤ balance_of t registry (env.try_should_run resolver job_id x).1

abbrev pub balance_in : JobState → ℤ
balance_in state = state.balance

-- What is owed to jobs and to keepers.
abbrev pub jobs_total : Storage → ℤ
jobs_total s = sum_by balance_in s.states

abbrev pub stakes_total : Storage → ℤ
stakes_total s = sum_by stake_of s.keepers

module _ {X : Type 0} (registry : Address) (balance_of : Address → Address → X → ℤ) where
  -- Of every token the registry holds at least `jobs`, if it is the fee token, and `stakes`, if it is
  -- the stake token; both if it is both.
  abbrev pub Backed : Address → Address → ℤ → ℤ → X → Type 0
  Backed fee_token stake_token jobs stakes x =
      (t : Address)
      → gated (t == fee_token) jobs +ℤ gated (t == stake_token) stakes ≤ℤ balance_of t registry x

  -- The invariant: the debts are backed, no job owes a negative balance or pays no fee, no keeper
  -- has a negative stake, and the protocol's share is at most a tenth.
  pub record IsSolvent (w : World X) : Type 0 where
    pub backed :
        Backed w.store.config.fee_token w.store.config.stake_token
          (jobs_total w.store)
          (stakes_total w.store)
          w.outside
    pub balances : Each (λ (st : JobState). pos 0 ≤ℤ st.balance) w.store.states
    pub fees : Each (λ (spec : JobSpec). pos 0 <ℤ spec.fee_per_run) w.store.specs
    pub stakes : Each (λ (info : Keeper). pos 0 ≤ℤ info.stake) w.store.keepers
    pub share : w.store.config.protocol_fee_bps ≤ 1000

-- Arithmetic of the debts at one token, whichever of the two tokens it is.
gated_mono :
    (p q : Bool) (jobs stakes jobs' stakes' held held' : ℤ)
    → jobs' ≤ℤ jobs
    → stakes' ≤ℤ stakes
    → held ≤ℤ held'
    → gated p jobs +ℤ gated q stakes ≤ℤ held
    → gated p jobs' +ℤ gated q stakes' ≤ℤ held'
gated_mono true true jobs stakes jobs' stakes' held held' a b k h = omega int_laws
gated_mono true false jobs stakes jobs' stakes' held held' a b k h = omega int_laws
gated_mono false true jobs stakes jobs' stakes' held held' a b k h = omega int_laws
gated_mono false false jobs stakes jobs' stakes' held held' a b k h = omega int_laws

gated_in :
    (p q : Bool) (jobs stakes amount held held' : ℤ)
    → held' ≡ held +ℤ gated p amount
    → gated p jobs +ℤ gated q stakes ≤ℤ held
    → gated p (jobs +ℤ amount) +ℤ gated q stakes ≤ℤ held'
gated_in true true jobs stakes amount held held' e h = rw e (omega int_laws)
gated_in true false jobs stakes amount held held' e h = rw e (omega int_laws)
gated_in false true jobs stakes amount held held' e h = rw e (omega int_laws)
gated_in false false jobs stakes amount held held' e h = rw e (omega int_laws)

gated_out :
    (p q : Bool) (jobs stakes amount held held' : ℤ)
    → held ≤ℤ held' +ℤ gated p amount
    → gated p (jobs +ℤ amount) +ℤ gated q stakes ≤ℤ held
    → gated p jobs +ℤ gated q stakes ≤ℤ held'
gated_out true true jobs stakes amount held held' e h = omega int_laws
gated_out true false jobs stakes amount held held' e h = omega int_laws
gated_out false true jobs stakes amount held held' e h = omega int_laws
gated_out false false jobs stakes amount held held' e h = omega int_laws

gated_in_stakes :
    (p q : Bool) (jobs stakes amount held held' : ℤ)
    → held' ≡ held +ℤ gated q amount
    → gated p jobs +ℤ gated q stakes ≤ℤ held
    → gated p jobs +ℤ gated q (stakes +ℤ amount) ≤ℤ held'
gated_in_stakes true true jobs stakes amount held held' e h = rw e (omega int_laws)
gated_in_stakes true false jobs stakes amount held held' e h = rw e (omega int_laws)
gated_in_stakes false true jobs stakes amount held held' e h = rw e (omega int_laws)
gated_in_stakes false false jobs stakes amount held held' e h = rw e (omega int_laws)

gated_out_stakes :
    (p q : Bool) (jobs stakes amount held held' : ℤ)
    → held ≤ℤ held' +ℤ gated q amount
    → gated p jobs +ℤ gated q (stakes +ℤ amount) ≤ℤ held
    → gated p jobs +ℤ gated q stakes ≤ℤ held'
gated_out_stakes true true jobs stakes amount held held' e h = omega int_laws
gated_out_stakes true false jobs stakes amount held held' e h = omega int_laws
gated_out_stakes false true jobs stakes amount held held' e h = omega int_laws
gated_out_stakes false false jobs stakes amount held held' e h = omega int_laws

gated_received :
    (p : Bool) (amount held held' : ℤ)
    → held' +ℤ gated (p && false) amount ≡ held +ℤ gated (p && true) amount
    → held' ≡ held +ℤ gated p amount
gated_received true amount held held' e = omega (int_laws, ap pos_part e, ap neg_part e)
gated_received false amount held held' e = omega (int_laws, ap pos_part e, ap neg_part e)

gated_spent :
    (p r : Bool) (amount held held' : ℤ)
    → pos 0 ≤ℤ amount
    → held' +ℤ gated (p && true) amount ≡ held +ℤ gated (p && r) amount
    → held ≤ℤ held' +ℤ gated p amount
gated_spent true true amount held held' n e = omega (int_laws, ap pos_part e, ap neg_part e)
gated_spent true false amount held held' n e = omega (int_laws, ap pos_part e, ap neg_part e)
gated_spent false r amount held held' n e = omega (int_laws, ap pos_part e, ap neg_part e)

same_address : (a : Address) → (a == a) ≡ true
same_address a = ground arith

module _ {X : Type 0} {registry : Address} {balance_of : Address → Address → X → ℤ} {env : Env X}
    (c : Custody registry balance_of env) where
  -- A transfer from another account raises the registry's balance by the amount.
  received :
      (token from : Address) (amount : ℤ) (x y : X) (t : Address)
      → env.authorized from ≡ true
      → env.transfer token from registry amount x ≡ some y
      → balance_of t registry y ≡ balance_of t registry x +ℤ gated (t == token) amount
  received token from amount x y t signed e = elim (Bool-cases (registry == from)) [
    | inl own ↦
        let same : registry ≡ from = eq-of-== registry from own in
        cc (sym c.unsigned, ap env.authorized same, signed)
    | inr other ↦ gated_received (t == token) amount _ _ (
        rw (← other, ← same_address registry)
          (c.transfer_moves token from registry amount x y e t registry))
  ]

  -- A transfer to any account lowers it by at most the amount.
  spent :
      (token to : Address) (amount : ℤ) (x y : X) (t : Address)
      → pos 0 ≤ℤ amount
      → env.transfer token registry to amount x ≡ some y
      → balance_of t registry x ≤ℤ balance_of t registry y +ℤ gated (t == token) amount
  spent token to amount x y t nonneg e =
      gated_spent (t == token) (registry == to) amount _ _ nonneg
        (rw (← same_address registry) (c.transfer_moves token registry to amount x y e t registry))

module _ {X : Type 0} (registry : Address) (balance_of : Address → Address → X → ℤ)
    (fee_token stake_token : Address) where
  -- Owing less, or holding more, is backed too.
  pub Backed-mono :
      (jobs stakes jobs' stakes' : ℤ) (x y : X)
      → jobs' ≤ℤ jobs
      → stakes' ≤ℤ stakes
      → ((t : Address) → balance_of t registry x ≤ℤ balance_of t registry y)
      → Backed registry balance_of fee_token stake_token jobs stakes x
      → Backed registry balance_of fee_token stake_token jobs' stakes' y
  Backed-mono jobs stakes jobs' stakes' x y p q k b t =
      gated_mono (t == fee_token) (t == stake_token) jobs stakes jobs' stakes' _ _ p q (k t) (b t)

module _ {X : Type 0} {registry : Address} {balance_of : Address → Address → X → ℤ} {env : Env X}
    (c : Custody registry balance_of env) (fee_token stake_token : Address) where
  abbrev Backs : ℤ → ℤ → X → Type 0
  Backs = Backed registry balance_of fee_token stake_token

  -- Fee tokens that come in back more owed to jobs, stake tokens more owed to keepers.
  pub Backed-deposit :
      (from : Address) (jobs stakes amount : ℤ) (x y : X)
      → env.authorized from ≡ true
      → env.transfer fee_token from registry amount x ≡ some y
      → Backs jobs stakes x
      → Backs (jobs +ℤ amount) stakes y
  Backed-deposit from jobs stakes amount x y signed e b t =
      gated_in (t == fee_token) (t == stake_token) jobs stakes amount _ _
        (received c fee_token from amount x y t signed e) (b t)

  pub Backed-stake :
      (from : Address) (jobs stakes amount : ℤ) (x y : X)
      → env.authorized from ≡ true
      → env.transfer stake_token from registry amount x ≡ some y
      → Backs jobs stakes x
      → Backs jobs (stakes +ℤ amount) y
  Backed-stake from jobs stakes amount x y signed e b t =
      gated_in_stakes (t == fee_token) (t == stake_token) jobs stakes amount _ _
        (received c stake_token from amount x y t signed e) (b t)

  -- Tokens that go out leave the rest backed.
  pub Backed-pay :
      (to : Address) (jobs stakes amount : ℤ) (x y : X)
      → pos 0 ≤ℤ amount
      → env.transfer fee_token registry to amount x ≡ some y
      → Backs (jobs +ℤ amount) stakes x
      → Backs jobs stakes y
  Backed-pay to jobs stakes amount x y n e b t =
      gated_out (t == fee_token) (t == stake_token) jobs stakes amount _ _
        (spent c fee_token to amount x y t n e) (b t)

  pub Backed-release :
      (to : Address) (jobs stakes amount : ℤ) (x y : X)
      → pos 0 ≤ℤ amount
      → env.transfer stake_token registry to amount x ≡ some y
      → Backs jobs (stakes +ℤ amount) x
      → Backs jobs stakes y
  Backed-release to jobs stakes amount x y n e b t =
      gated_out_stakes (t == fee_token) (t == stake_token) jobs stakes amount _ _
        (spent c stake_token to amount x y t n e) (b t)

-- The invariant after a call, from the debts and the balances that the call has left.
pub IsSolvent-after :
    {X : Type 0} (registry : Address) (balance_of : Address → Address → X → ℤ) (w v : World X)
    (jobs stakes : ℤ) (y : X)
    → v.store.config ≡ w.store.config
    → v.outside ≡ y
    → jobs_total v.store ≡ jobs
    → stakes_total v.store ≡ stakes
    → Backed registry balance_of w.store.config.fee_token w.store.config.stake_token jobs stakes y
    → Each (λ (st : JobState). pos 0 ≤ℤ st.balance) v.store.states
    → Each (λ (spec : JobSpec). pos 0 <ℤ spec.fee_per_run) v.store.specs
    → Each (λ (info : Keeper). pos 0 ≤ℤ info.stake) v.store.keepers
    → w.store.config.protocol_fee_bps ≤ 1000
    → IsSolvent registry balance_of v
IsSolvent-after registry balance_of w v jobs stakes y ec eo ej es b balances fees held share =
    record {
      backed = λ t. rw (ec, eo, ej, es) (b t);
      balances = balances;
      fees = fees;
      stakes = held;
      share = rw ec share;
    }

-- A job's balance raised or lowered, in the total.
pub jobs_total-raise :
    (id : ℕ) (old new : JobState) (delta : ℤ) (d : Dict JobState)
    → find id d ≡ some old
    → new.balance ≡ old.balance +ℤ delta
    → sum_by balance_in (put id new d) ≡ sum_by balance_in d +ℤ delta
jobs_total-raise id old new delta d e f =
    let p = sum_by-put balance_in id new old d e in
    omega (int_laws, ap pos_part p, ap neg_part p, ap pos_part f, ap neg_part f)

pub jobs_total-lower :
    (id : ℕ) (old new : JobState) (delta : ℤ) (d : Dict JobState)
    → find id d ≡ some old
    → new.balance ≡ old.balance -ℤ delta
    → sum_by balance_in (put id new d) +ℤ delta ≡ sum_by balance_in d
jobs_total-lower id old new delta d e f =
    let p = sum_by-put balance_in id new old d e in
    omega (int_laws, ap pos_part p, ap neg_part p, ap pos_part f, ap neg_part f)

pub get_job_parts-find :
    (s : Storage) (id : ℕ) (spec : JobSpec) (state : JobState)
    → get_job_parts s id ≡ some (spec, state)
    → (find id s.states ≡ some state) × (find id s.specs ≡ some spec)
unfolding get_job_parts
get_job_parts-find s id spec state h = ground arith

pub jobs_total-same :
    (id : ℕ) (old new : JobState) (d : Dict JobState)
    → find id d ≡ some old
    → new.balance ≡ old.balance
    → sum_by balance_in (put id new d) ≡ sum_by balance_in d
jobs_total-same id old new d e f =
    let p = sum_by-put balance_in id new old d e in
    omega (int_laws, ap pos_part p, ap neg_part p, ap pos_part f, ap neg_part f)
