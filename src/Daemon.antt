-- ===== src/Daemon.antt =====
-- The keeper daemon, keeper-rs/src/registry.rs: the batches that it sends. The network is a parameter.
-- Its sums of stroops wrap at the ends of the i128: keeper-rs is a workspace of its own, whose release
-- profile leaves overflow-checks off.
pub mod Tick
pub mod Batches
pub mod Signing
pub mod Sizes
pub mod Accounts
mod Tests
use sorocron.Base.{
  ℕ, zero, suc, ◌+◌, ◌/◌, Bool, true, false, not, ◌&&◌, ◌||◌, Option, none, some, List, [], ◌∷◌,
  min, max, ltb, leb, ◌==◌, if◌then◌else◌,
}
use sorocron.Base.Int.{ℤ, pos, ◌+ℤ◌, ◌-ℤ◌, ◌*ℤ◌, ltb_ℤ, leb_ℤ}
use sorocron.Base.Word.{wrap_i128}
use sorocron.Base.Lists.{length, is_empty}
use sorocron.Registry.Types.{Address, Symbol}

-- The fields of the configuration that decide what is sent.
pub record Config : Type 0 where
  pub registry : Address
  pub inclusion_fee : ℕ
  pub dry_run : Bool
  pub min_profit : ℤ
  pub max_cost_per_job : ℤ

-- What an authorization is for: a call of a contract's function, or a deployment.
pub data Authorized : Type 0 where
  contract_fn : Address → Symbol → Authorized
  deployment : Authorized

-- An authorization that simulation recorded, with the calls inside it.
pub record Entry : Type 0 where
  pub root : Authorized
  pub sub_invocations : List Authorized

-- `execute_batch` as a function's name.
abbrev pub batch_function : Symbol
batch_function = 0

abbrev pub is_expected : Address → Symbol → Authorized → Bool
is_expected registry function (contract_fn a f) = a == registry && f == function
is_expected registry function deployment = false

-- `check_auth` without the words of its refusal.
unfoldable pub check_auth : List Entry → Address → Symbol → Bool
check_auth [] registry function = true
check_auth (e ∷ es) registry function =
    is_expected registry function e.root
    && (is_empty e.sub_invocations && check_auth es registry function)

abbrev pub take : ℕ → List ℕ → List ℕ
take zero xs = []
take (suc n) [] = []
take (suc n) (x ∷ xs) = x ∷ take n xs

abbrev pub drop : ℕ → List ℕ → List ℕ
drop zero xs = xs
drop (suc n) [] = []
drop (suc n) (x ∷ xs) = drop n xs

-- `chunks` of a size; each takes at least one, so the length of the list is fuel enough.
unfoldable pub chunks : ℕ → ℕ → List ℕ → List (List ℕ)
chunks zero size ids = []
chunks (suc fuel) size [] = []
chunks (suc fuel) size (x ∷ xs) = take size (x ∷ xs) ∷ chunks fuel size (drop size (x ∷ xs))

unfoldable pub batches : List ℕ → ℕ → List (List ℕ)
unfolding chunks
batches ids size = chunks (length ids) (min (max size 1) 20) ids

unfoldable pub halves : List ℕ → List ℕ × List ℕ
halves ids = let middle = (length ids + 1) / 2 in (take middle ids, drop middle ids)

-- The jobs whose flag of `ran_flags` is set; a flag that is missing is not.
unfoldable pub filter_ran : List ℕ → List Bool → List ℕ
filter_ran [] flags = []
filter_ran (id ∷ ids) [] = filter_ran ids []
filter_ran (id ∷ ids) (flag ∷ flags) =
    let rest = filter_ran ids flags in if flag then id ∷ rest else rest

-- `ran_flags` of a value that is no list has no flag set.
abbrev pub flags_of : Option (List Bool) → List Bool
flags_of none = []
flags_of (some flags) = flags

abbrev profitable : ℤ → ℤ → ℤ → Bool
profitable earned cost min_profit = leb_ℤ min_profit (wrap_i128 (earned -ℤ cost))

-- How `simulate` ends: no answer, a reason with or without a registry's error code, or the recorded
-- authorizations, the returned flags and the resource fee.
pub data Simulation : Type 0 where
  unreachable registry_refuses call_fails : Simulation
  simulated_call : List Entry → Option (List Bool) → ℕ → Simulation

-- The network `X` as the daemon calls it. `none` is an error; each call may find it changed.
pub record Rpc (X : Type 0) : Type 0 where
  pub job_count : X → Option ℕ × X
  pub is_due : ℕ → X → Option Bool × X
  pub simulate : List ℕ → X → Simulation × X
  pub current_fee : ℕ → X → Option ℤ × X
  -- Signs and sends the simulated call with its authorizations.
  pub send : List ℕ → List Entry → X → Bool × X

pub data BatchOutcome : Type 0 where
  executed : List ℕ → ℤ → BatchOutcome
  simulated : List ℕ → BatchOutcome
  skipped : BatchOutcome
  unprofitable : List ℕ → ℤ → ℤ → BatchOutcome
  job_problem : BatchOutcome
  -- The error of `Result`.
  broken : BatchOutcome

module _ {X : Type 0} (rpc : Rpc X) (config : Config) (fee_is_native : Bool) where
  unfoldable pub sum_fees : List ℕ → ℤ → X → Option ℤ × X
  sum_fees [] earned x = (some earned, x)
  sum_fees (id ∷ ids) earned x =
      let (fee, y) = rpc.current_fee id x in
      elim fee [ none ↦ (none, y) | some f ↦ sum_fees ids (wrap_i128 (earned +ℤ f)) y ]

  abbrev too_costly : ℤ → List ℕ → Bool
  too_costly cost ran =
      not fee_is_native
      && (ltb_ℤ (pos 0) config.max_cost_per_job
          && ltb_ℤ (wrap_i128 (config.max_cost_per_job *ℤ pos (length ran))) cost)

  abbrev pub refuses : List ℕ → ℤ → ℤ → Bool
  refuses ran earned cost =
      too_costly cost ran || (fee_is_native && not (profitable earned cost config.min_profit))

  abbrev pub sent : Bool × X → List ℕ → ℤ → BatchOutcome × X
  sent (true, y) ran earned = (executed ran earned, y)
  sent (false, y) ran earned = (broken, y)

  -- What follows the sum of the fees.
  abbrev pub decide : List ℕ → List Entry → List ℕ → ℤ → Option ℤ × X → BatchOutcome × X
  decide ids auth ran cost (none, y) = (broken, y)
  decide ids auth ran cost (some earned, y) =
      if refuses ran earned cost
      then (unprofitable ran earned cost, y)
      else if config.dry_run
      then (simulated ran, y)
      else sent (rpc.send ids auth y) ran earned

  -- What follows a simulation.
  abbrev pub consider : List ℕ → Simulation × X → BatchOutcome × X
  consider ids (unreachable, y) = (broken, y)
  consider ids (registry_refuses, y) = (skipped, y)
  consider ids (call_fails, y) = (job_problem, y)
  consider ids (simulated_call auth value resource_fee, y) =
      if not (check_auth auth config.registry batch_function)
      then (job_problem, y)
      else let ran = filter_ran ids (flags_of value) in
        if is_empty ran
        then (skipped, y)
        else decide ids auth ran (pos resource_fee +ℤ pos config.inclusion_fee)
            (sum_fees ran (pos 0) y)

  unfoldable pub execute_batch : List ℕ → X → BatchOutcome × X
  unfolding sum_fees filter_ran check_auth
  execute_batch ids x = consider ids (rpc.simulate ids x)
