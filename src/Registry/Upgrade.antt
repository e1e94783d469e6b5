-- ===== src/Registry/Upgrade.antt =====
-- Upgrades and the unbonding epoch, which bounds their delay: contracts/registry/src/lib.rs,
-- `set_unbonding_epoch` to `set_upgrade_delay`, with their helpers at the end of "Execution".
pub mod Delay
pub mod Frame
pub mod Runs
pub mod History
use sorocron.Base.{ℕ, max, Bool, true, false, not, Option, none, some, List, ltb, if◌then◌else◌}
use sorocron.Base.Word.{sat_add}
use sorocron.Registry.Types.{Config, Hash, PendingUpgrade, Error}
use sorocron.Registry.Event.{Event}
use sorocron.Registry.Storage.{Storage, set_config}
use sorocron.Registry.Result.{ok_or}
use sorocron.Registry.Host.{
  Env, World, M, returns, traps, ◌>>=◌, ◌>>◌, pure, attempt, gets, fail_if, modify, publish,
}
use sorocron.Registry.Admin.{admin_config}

abbrev pub max_unbonding_epoch : ℕ
max_unbonding_epoch = 2592000

abbrev pub version : ℕ
version = 5

unfoldable pub min_upgrade_delay : Config → ℕ
min_upgrade_delay config = sat_add config.unbonding_period config.unbonding_epoch

unfoldable pub upgrade_delay_for : Storage → Config → ℕ
unfolding min_upgrade_delay
upgrade_delay_for s config = max s.upgrade_delay (min_upgrade_delay config)

-- A pending upgrade moves later when its delay has grown, and never earlier.
unfoldable pub pushed_back : ℕ → PendingUpgrade → PendingUpgrade
pushed_back delay pending =
    let at = sat_add pending.proposed_at delay in
    if ltb pending.available_at at then record pending { available_at = at } else pending

unfoldable pub push_back_pending_upgrade : Config → Storage → Storage
unfolding upgrade_delay_for pushed_back
push_back_pending_upgrade config s = elim s.pending_upgrade [
  | none ↦ s
  | some pending ↦ record s {
    pending_upgrade = some (pushed_back (upgrade_delay_for s config) pending);
  }
]

module _ {X : Type 0} (env : Env X) where
  unfoldable pub set_unbonding_epoch : ℕ → M X (Unit {0})
  unfolding admin_config push_back_pending_upgrade
  set_unbonding_epoch unbonding_epoch = do
    config ← admin_config env
    fail_if (ltb max_unbonding_epoch unbonding_epoch) Error.invalid_setting
    let config' = record config { unbonding_epoch = unbonding_epoch }
    modify (set_config config')
    modify (push_back_pending_upgrade config')
    publish (Event.unbonding_epoch_set unbonding_epoch)

  unfoldable pub propose_upgrade : Hash → M X ℕ
  unfolding admin_config upgrade_delay_for
  propose_upgrade wasm_hash = do
    config ← admin_config env
    let now = env.timestamp
    available_at ← gets (λ s. sat_add now (upgrade_delay_for s config))
    modify (λ s. record s {
      pending_upgrade =
          some (record { wasm_hash = wasm_hash; proposed_at = now; available_at = available_at });
    })
    publish (Event.upgrade_proposed wasm_hash available_at)
    pure available_at

  -- `update_current_contract`, which panics on code that is not there.
  unfoldable pub update_current_contract : Hash → M X (Unit {0})
  update_current_contract wasm_hash w =
      if env.has_wasm wasm_hash then returns tt (record w { code = wasm_hash }) else traps

  unfoldable pub apply_upgrade : M X (Unit {0})
  unfolding admin_config update_current_contract
  apply_upgrade = do
    config ← admin_config env
    pending ← attempt (λ s. ok_or s.pending_upgrade Error.no_pending_upgrade)
    fail_if (ltb env.timestamp pending.available_at) Error.upgrade_not_ready
    modify (λ s. record s { pending_upgrade = none })
    update_current_contract pending.wasm_hash
    publish (Event.upgraded pending.wasm_hash version)

  unfoldable pub cancel_upgrade : M X (Unit {0})
  unfolding admin_config
  cancel_upgrade = do
    config ← admin_config env
    pending ← attempt (λ s. ok_or s.pending_upgrade Error.no_pending_upgrade)
    modify (λ s. record s { pending_upgrade = none })
    publish (Event.upgrade_cancelled pending.wasm_hash)

  unfoldable pub set_upgrade_delay : ℕ → M X (Unit {0})
  unfolding admin_config push_back_pending_upgrade
  set_upgrade_delay upgrade_delay = do
    config ← admin_config env
    fail_if (ltb upgrade_delay (min_upgrade_delay config)) Error.invalid_setting
    modify (λ s. record s { upgrade_delay = upgrade_delay })
    modify (push_back_pending_upgrade config)
    publish (Event.upgrade_delay_set upgrade_delay)
