-- ===== src/Registry/Tests/Sample.antt =====
-- A registry with one job and one keeper, and a host whose tokens are one ledger.
use sorocron.Base.{ℕ, true, false, ◌&&◌, ◌==◌, if◌then◌else◌, none, some, [], ◌∷◌}
use sorocron.Base.Int.{ℤ, pos, ◌+ℤ◌, ◌-ℤ◌}
use sorocron.Registry.Types.{
  Address, Config, Schedule, JobParams, JobSpec, JobState, Keeper, PendingUpgrade,
}
use sorocron.Registry.Storage.{Storage}
use sorocron.Registry.Admin.{empty_storage}
use sorocron.Registry.Host.{Env, World, Outcome, returns, fails, traps, value}
use sorocron.Registry.Solvency.{gated}

abbrev pub Ledger : Type 0
Ledger = Address → Address → ℤ

abbrev pub held : Address → Address → Ledger → ℤ
held token who x = x token who

abbrev pub move : Address → Address → Address → ℤ → Ledger → Ledger
move token from to amount x t who =
    (x t who +ℤ gated (t == token && who == to) amount) -ℤ gated (t == token && who == from) amount

abbrev pub registry : Address
registry = 9

abbrev pub host : ℕ → Env Ledger
host now = record {
  timestamp = now;
  current_contract_address = registry;
  authorized = λ a. if a == 9 then false else true;
  transfer = λ token from to amount x. some (move token from to amount x);
  try_execute = λ executor target function args x. (value 0, x);
  try_should_run = λ resolver job_id x. (some true, x);
  sha256 = λ bytes. bytes;
  value_to_xdr = λ v. v ∷ [];
  error_to_xdr = λ e. e ∷ [];
  has_wasm = λ hash. true;
}

abbrev pub config : Config
config = record {
  admin = 1;
  fee_token = 2;
  stake_token = 3;
  min_stake = pos 20;
  unbonding_period = 600;
  paused = false;
  executor = some 7;
  min_interval = 0;
  max_args = 0;
  protocol_fee_bps = 500;
  treasury = some 8;
  max_failures = 3;
  grace_period = 30;
  slash_bps = 0;
  unbonding_epoch = 100;
}

abbrev pub spec : JobSpec
spec = record {
  owner = 6;
  target = 5;
  function = 0;
  args = [];
  interval = 60;
  schedule = Schedule.interval;
  fee_per_run = pos 10;
  max_fee_per_run = pos 40;
  max_runs = 0;
  end_at = 0;
  resolver = none;
  keepers = none;
  after = none;
}

abbrev pub state : JobState
state = record {
  next_run = 1000;
  balance = pos 100;
  runs = 2;
  failures = 0;
  active = true;
  leader_runs = 0;
}

abbrev pub keeper : Keeper
keeper = record {
  stake = pos 50;
  unbonding_at = none;
  executions = 0;
  total_lateness = 0;
  missed = 0;
  slashed = pos 0;
}

abbrev pub upgrade : PendingUpgrade
upgrade = record { wasm_hash = 1 ∷ []; proposed_at = 1000; available_at = 1900 }

-- Keeper 4 may run job 0 of owner 6, keeper 10 is unbonding, and an upgrade is pending.
abbrev pub store : Storage
store = record (empty_storage config) {
  next_job_id = 1;
  specs = (0, spec) ∷ [];
  states = (0, state) ∷ [];
  keepers = (4, keeper) ∷ (10, record keeper { unbonding_at = some 900 }) ∷ [];
  active_keepers = 4 ∷ [];
  upgrade_delay = 800;
  pending_upgrade = some upgrade;
}

abbrev pub balances : Ledger
balances token who = if who == 9 then pos 200 else pos 1000

abbrev pub world : World Ledger
world = record { store = store; outside = balances; events = []; code = [] }

abbrev pub params : JobParams
params = record {
  target = 5;
  function = 0;
  args = [];
  interval = 60;
  schedule = Schedule.interval;
  start_at = 0;
  fee_per_run = pos 10;
  max_fee_per_run = pos 0;
  max_runs = 0;
  end_at = 0;
  resolver = none;
  keepers = none;
  after = none;
}

-- The world that an outcome leaves, and its value.
abbrev pub left_by : {A : Type 0} → Outcome Ledger A → World Ledger
left_by (returns a v) = v
left_by (fails e v) = v
left_by traps = world
