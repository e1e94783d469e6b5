-- ===== src/Registry/Keepers.antt =====
-- Staking: contracts/registry/src/lib.rs, "Keepers", with `release_stake`.
pub mod Exits
use sorocron.Base.{
  ℕ, Bool, true, false, not, ◌||◌, Option, none, some, List, [], ◌∷◌, ltb, if◌then◌else◌, is_some,
  unwrap_or,
}
use sorocron.Base.Int.{ℤ, pos, ◌+ℤ◌, ltb_ℤ, leb_ℤ}
use sorocron.Base.Word.{checked_i128}
use sorocron.Base.Lists.{length, is_empty}
use sorocron.Base.Dict.{find}
use sorocron.Registry.Types.{Address, Config, Keeper, Error}
use sorocron.Registry.Event.{Event}
use sorocron.Registry.Schedule.{unbonding_release}
use sorocron.Registry.Storage.{
  Storage, set_keeper, remove_keeper, joins_rotation, add_active_keeper, remove_active_keeper,
}
use sorocron.Registry.Result.{Result, ok_or, is_ok}
use sorocron.Registry.Host.{
  Env, M, returns, fails, traps, ◌>>=◌, ◌>>◌, pure, attempt, gets, or_trap, fail_if, modify,
  publish, require_auth, transfer, when,
}
use sorocron.Registry.Checks.{ensure_not_paused, ensure_active_keeper}
use sorocron.Registry.Jobs.{max_batch}

abbrev pub max_active_keepers : ℕ
max_active_keepers = 64

abbrev pub new_keeper : Keeper
new_keeper = record {
  stake = pos 0;
  unbonding_at = none;
  executions = 0;
  total_lateness = 0;
  missed = 0;
  slashed = pos 0;
}

module _ {X : Type 0} (env : Env X) where
  -- Every assigned window restarts now.
  unfoldable pub reset_windows : M X (Unit {0})
  reset_windows = modify (λ s. record s { registry_resumed = env.timestamp })

  unfoldable pub stake : Address → ℤ → M X ℤ
  unfolding reset_windows
  stake keeper amount = do
    config ← gets (λ s. s.config)
    attempt (λ s. ensure_not_paused config)
    require_auth env keeper
    fail_if (leb_ℤ amount (pos 0)) Error.invalid_amount
    info ← gets (λ s. unwrap_or (find keeper s.keepers) new_keeper)
    fail_if (is_some info.unbonding_at) Error.keeper_unbonding
    let was_eligible = is_ok (ensure_active_keeper config info)
    transfer env config.stake_token keeper env.current_contract_address amount
    total ← or_trap (checked_i128 (info.stake +ℤ amount))
    modify (set_keeper keeper (record info { stake = total }))
    joined ← gets (λ s. joins_rotation s keeper max_active_keepers)
    modify (add_active_keeper keeper max_active_keepers)
    when (joined || not was_eligible) reset_windows
    publish (Event.keeper_staked keeper amount total)
    pure total

  unfoldable pub begin_unbonding : Address → M X ℕ
  unfolding reset_windows
  begin_unbonding keeper = do
    config ← gets (λ s. s.config)
    require_auth env keeper
    info ← attempt (λ s. ok_or (find keeper s.keepers) Error.keeper_not_found)
    fail_if (is_some info.unbonding_at) Error.keeper_unbonding
    let withdrawable_at =
        unbonding_release env.timestamp config.unbonding_period config.unbonding_epoch
    modify (set_keeper keeper (record info { unbonding_at = some withdrawable_at }))
    modify (remove_active_keeper keeper)
    reset_windows
    publish (Event.keeper_unbonding keeper withdrawable_at)
    pure withdrawable_at

  unfoldable pub release_stake : Config → Address → M X ℤ
  release_stake config keeper = do
    info ← attempt (λ s. ok_or (find keeper s.keepers) Error.keeper_not_found)
    withdrawable_at ← attempt (λ s. ok_or info.unbonding_at Error.unbonding_not_started)
    fail_if (ltb env.timestamp withdrawable_at) Error.unbonding_not_finished
    modify (remove_keeper keeper)
    when (ltb_ℤ (pos 0) info.stake)
        (transfer env config.stake_token env.current_contract_address keeper info.stake)
    publish (Event.keeper_withdrawn keeper info.stake)
    pure info.stake

  unfoldable pub withdraw_stake : Address → M X ℤ
  unfolding release_stake
  withdraw_stake keeper = do
    config ← gets (λ s. s.config)
    require_auth env keeper
    release_stake config keeper

  -- `release_stake(…).unwrap_or(0)`.
  unfoldable pub release_or_zero : Config → Address → M X ℤ
  unfolding release_stake
  release_or_zero config keeper w = elim (release_stake config keeper w) [
    | returns a w' ↦ returns a w'
    | fails e w' ↦ returns (pos 0) w'
    | traps ↦ traps
  ]

  unfoldable pub release_each : Config → List Address → M X (List ℤ)
  unfolding release_or_zero
  release_each config [] = pure []
  release_each config (k ∷ ks) = do
    amount ← release_or_zero config k
    rest ← release_each config ks
    pure (amount ∷ rest)

  unfoldable pub withdraw_stakes : List Address → M X (List ℤ)
  unfolding release_each
  withdraw_stakes keepers = do
    fail_if (is_empty keepers || ltb max_batch (length keepers)) Error.invalid_batch_size
    config ← gets (λ s. s.config)
    release_each config keepers
