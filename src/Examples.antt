-- ===== src/Examples.antt =====
-- The example contracts, contracts/examples: job targets and resolvers.
pub mod Timelock
pub mod Vesting
pub mod Subscription
pub mod Dca
pub mod LimitOrder
pub mod Composite
pub mod Governance
pub mod Triggers
pub mod SelfExtending
mod Tests
