-- ===== src/Lib.antt =====
-- The contracts of sorocron, a scheduler of contract calls on Soroban, modelled with their
-- correctness: the registry, its executor, the guardian of time-to-live, and the example contracts, and
-- the daemon that keepers run.
--
-- The program: owners fund jobs, each a call of a target contract at an interval or on a calendar.
-- Keepers stake tokens and run the jobs that are due for a fee, through an executor contract that the
-- registry calls. A job may name a resolver, a contract that is asked before each run, a leader, a
-- job that must have run since, and an allowlist of keepers. An administrator sets limits, pauses
-- the registry, halts targets and proposes upgrades, which have a delay.
--
-- The files and the code they model, with paths from the repository's root:
--   Registry/Types, Registry/Event: contracts/registry/src/types.rs, errors.rs and events.rs.
--   Registry/Storage: contracts/registry/src/storage.rs. Each variant of `DataKey` is a field.
--   Registry/Schedule: contracts/registry/src/schedule.rs, with proofs in Fees, Grid, Calendar and
--   Average.
--   Registry/Result, Registry/Host: `Result` and `?`, and the state that a call passes on: the storage,
--   the state of all other contracts, the events and the installed code. A call returns a value,
--   returns an error or panics.
--   Registry/Checks, Jobs, Assignment, Execution, Keepers, Admin, Upgrade, Views: the functions of
--   contracts/registry/src/lib.rs, each under its own name, but for `halt_target`, which is its
--   `set_target_halted`. Proofs stand in their child modules.
--   Registry/Call: the public functions as transactions, and histories of them. A call that fails or
--   panics changes nothing: the host rolls it back.
--   Registry/Solvency: the invariant of contracts/registry/src/invariants.rs and docs/security.md,
--   operation by operation, and along histories of calls.
--   Registry/Upgrade/Delay, Frame, Runs, History: the delay of a pending upgrade.
--   Soroban: a contract other than the registry against its host, with the token that it holds (Token),
--   the Soroswap router (Router) and histories of calls in order of time (History).
--   Executor: contracts/executor/src/lib.rs, and the registry's call through it.
--   TtlGuardian: contracts/ttl-guardian/src/lib.rs.
--   Examples/Timelock, Vesting, Subscription, Dca, LimitOrder: contracts/examples/timelock, vesting,
--   subscription, dca and limit-order, each src/lib.rs. The timelock's `queue` is `enqueue` and its
--   `Call` is `QueuedCall`.
--   Examples/Composite, Governance: contracts/examples/composite-resolver and timelock-resolver.
--   Examples/Triggers: contracts/examples/price-resolver, nft-floor-trigger, rebalance-resolver and
--   oracle-trigger.
--   Examples/SelfExtending: contracts/examples/self-extending; its `put` is `store`.
--   Daemon: keeper-rs/src/registry.rs, what the keeper daemon signs and sends, and Daemon/Tick:
--   keeper-rs/src/main.rs, its polling pass. The network is the record Rpc, whose answers are free.
--   Registry/Tests, TtlGuardian/Tests, Daemon/Tests, Examples/Tests: the theorems at concrete inputs.
--   Base: numbers, integers, lists and the key-value storage.
--
-- How parts interact: Execution calls Checks, Assignment and Schedule and writes through Storage;
-- Jobs and Keepers move tokens through Host; Upgrade reads the unbonding settings of Admin. `run_job`
-- takes the keeper's record and the payout that the source mutates, and returns them.
--
-- The executor runs a job's target for the registry; the vault and the order swap through the router;
-- resolvers are what the registry's `resolver_allows` asks. A contract other than the registry is a
-- function of the world, its storage beside the state of all other contracts.
--
-- Numbers: a u32 or u64 is a native number and an i128 an integer of Base/Int. Saturating operations
-- stop at the type's end; where the source's arithmetic is checked or would panic on overflow, the
-- operation is an Option and the call traps. keeper-rs, which is built without overflow checks, wraps:
-- `wrap_i128`. Loops go over lists, and `collect_jobs`
-- counts down. Only the daemon's pass takes fuel, two rounds for each due job: a batch of n jobs needs
-- 2 * n - 1, since a round either settles the batch or splits it; and `chunks` takes the length of its
-- list.
--
-- Parameters: the host and other contracts are the record Env. The time, the signatures, sha256,
-- the XDR encodings, a token's transfer, the executor's call of a target and a resolver's answer are
-- its fields, which may change the state of the other contracts in any way. The record Custody holds
-- what solvency relies on. A called contract cannot call the registry back: the host forbids re-entry.
--
-- For the other contracts the record Host holds the time, the signatures and the tokens; TokenLaws,
-- HolderLaws, RouterLaws, Extension and Extending hold what is relied on.
--
-- Not modelled: the time-to-live of the registry's and the examples' storage entries, which every
-- access extends, but for the guardian and the self-extending contract, where it is the point; the
-- getters of one stored value, which are fields; contracts/examples/counter and flag-resolver, which
-- store one value; contracts/testkit and contracts/bench, which only test; contracts/interfaces, which
-- is generated; of keeper-rs the configuration, the encodings of keys and transactions, the metrics and
-- the log; keeper-bot, packages and app, which are clients.
pub mod Base
pub mod Registry
pub mod Soroban
pub mod Executor
pub mod TtlGuardian
pub mod Examples
pub mod Daemon
