-- ===== src/Registry/Admin.antt =====
-- Administration: contracts/registry/src/lib.rs, the constructor and "Admin" up to
-- `set_unbonding_epoch`. Upgrades are in Upgrade.
use sorocron.Base.{
  ℕ, Bool, false, not, ◌&&◌, ◌||◌, Option, none, some, [], ltb, if◌then◌else◌, is_some,
}
use sorocron.Base.Int.{ℤ, pos, ltb_ℤ}
use sorocron.Registry.Types.{Address, Config, Error}
use sorocron.Registry.Event.{Event}
use sorocron.Registry.Storage.{Storage, set_config, set_target_halted, set_target_resumed}
use sorocron.Registry.Result.{ok_or}
use sorocron.Registry.Host.{
  Env, M, ◌>>=◌, ◌>>◌, pure, attempt, gets, fail_if, modify, publish, require_auth, when,
}
use sorocron.Registry.Keepers.{reset_windows}

abbrev pub max_bps : ℕ
max_bps = 1000

abbrev pub max_grace_period : ℕ
max_grace_period = 86400

abbrev pub default_max_failures : ℕ
default_max_failures = 3

abbrev pub empty_storage : Config → Storage
empty_storage config = record {
  config = config;
  next_job_id = 0;
  pending_admin = none;
  upgrade_delay = 0;
  pending_upgrade = none;
  registry_resumed = 0;
  specs = [];
  states = [];
  pending_owners = [];
  owner_lists = [];
  keepers = [];
  recents = [];
  active_keepers = [];
  halted = [];
  touched = [];
  resumed = [];
}

-- The storage after deployment; `none` is the constructor's panic.
unfoldable pub constructor : Address → Address → Address → ℤ → ℕ → Option Storage
constructor admin fee_token stake_token min_stake unbonding_period =
    if ltb_ℤ min_stake (pos 0)
    then none
    else some (
        empty_storage (record {
          admin = admin;
          fee_token = fee_token;
          stake_token = stake_token;
          min_stake = min_stake;
          unbonding_period = unbonding_period;
          paused = false;
          executor = none;
          min_interval = 0;
          max_args = 0;
          protocol_fee_bps = 0;
          treasury = none;
          max_failures = default_max_failures;
          grace_period = 0;
          slash_bps = 0;
          unbonding_epoch = 0;
        }))

module _ {X : Type 0} (env : Env X) where
  -- The configuration, once its admin has authorized the call.
  unfoldable pub admin_config : M X Config
  admin_config = do config ← gets (λ s. s.config); require_auth env config.admin; pure config

  unfoldable pub set_executor : Address → M X (Unit {0})
  unfolding admin_config
  set_executor executor = do
    config ← admin_config
    fail_if (is_some config.executor) Error.executor_already_set
    modify (set_config (record config { executor = some executor }))
    publish (Event.executor_set executor)

  unfoldable pub propose_admin : Address → M X (Unit {0})
  unfolding admin_config
  propose_admin new_admin = do
    config ← admin_config
    modify (λ s. record s { pending_admin = some new_admin })
    publish (Event.admin_proposed config.admin new_admin)

  unfoldable pub accept_admin : M X (Unit {0})
  accept_admin = do
    config ← gets (λ s. s.config)
    pending ← attempt (λ s. ok_or s.pending_admin Error.no_pending_admin)
    require_auth env pending
    modify (λ s. record s { pending_admin = none })
    modify (set_config (record config { admin = pending }))
    publish (Event.admin_changed config.admin pending)

  unfoldable pub cancel_admin_proposal : M X (Unit {0})
  unfolding admin_config
  cancel_admin_proposal = do
    config ← admin_config
    pending ← attempt (λ s. ok_or s.pending_admin Error.no_pending_admin)
    modify (λ s. record s { pending_admin = none })
    publish (Event.admin_proposal_cancelled config.admin pending)

  unfoldable pub set_paused : Bool → M X (Unit {0})
  unfolding admin_config reset_windows
  set_paused paused = do
    config ← admin_config
    modify (set_config (record config { paused = paused }))
    when (not paused) (reset_windows env)
    publish (Event.paused_set paused)

  -- `set_target_halted`; the storage helper has that name.
  unfoldable pub halt_target : Address → Bool → M X (Unit {0})
  unfolding admin_config
  halt_target target halted = do
    config ← admin_config
    modify (set_target_halted target halted)
    when (not halted) (modify (set_target_resumed target env.timestamp))
    publish (Event.target_halt_set target halted)

  unfoldable pub set_min_stake : ℤ → M X (Unit {0})
  unfolding admin_config reset_windows
  set_min_stake min_stake = do
    config ← admin_config
    fail_if (ltb_ℤ min_stake (pos 0)) Error.invalid_amount
    modify (set_config (record config { min_stake = min_stake }))
    reset_windows env
    publish (Event.min_stake_set min_stake)

  unfoldable pub set_min_interval : ℕ → M X (Unit {0})
  unfolding admin_config
  set_min_interval min_interval = do
    config ← admin_config
    modify (set_config (record config { min_interval = min_interval }))
    publish (Event.min_interval_set min_interval)

  unfoldable pub set_max_args : ℕ → M X (Unit {0})
  unfolding admin_config
  set_max_args max_args = do
    config ← admin_config
    modify (set_config (record config { max_args = max_args }))
    publish (Event.max_args_set max_args)

  unfoldable pub set_protocol_fee : ℕ → Option Address → M X (Unit {0})
  unfolding admin_config
  set_protocol_fee protocol_fee_bps treasury = do
    config ← admin_config
    fail_if (ltb max_bps protocol_fee_bps || (ltb 0 protocol_fee_bps && not (is_some treasury)))
        Error.invalid_setting
    modify (set_config (record config { protocol_fee_bps = protocol_fee_bps; treasury = treasury }))
    publish (Event.protocol_fee_set protocol_fee_bps treasury)

  unfoldable pub set_max_failures : ℕ → M X (Unit {0})
  unfolding admin_config
  set_max_failures max_failures = do
    config ← admin_config
    modify (set_config (record config { max_failures = max_failures }))
    publish (Event.max_failures_set max_failures)

  unfoldable pub set_keeper_windows : ℕ → M X (Unit {0})
  unfolding admin_config reset_windows
  set_keeper_windows grace_period = do
    config ← admin_config
    fail_if (ltb max_grace_period grace_period) Error.invalid_setting
    modify (set_config (record config { grace_period = grace_period; slash_bps = 0 }))
    reset_windows env
    publish (Event.keeper_windows_set grace_period)
