-- ===== src/Registry.antt =====
-- The registry contract, contracts/registry/src.
pub mod Types
pub mod Schedule
pub mod Event
pub mod Storage
pub mod Result
pub mod Host
pub mod Checks
pub mod Jobs
pub mod Assignment
pub mod Execution
pub mod Keepers
pub mod Admin
pub mod Upgrade
pub mod Views
pub mod Call
pub mod Solvency
mod Tests
