-- ===== src/Registry/Tests.antt =====
-- Every theorem of the library that has hypotheses, applied at concrete inputs where they hold.
mod Sample
mod Schedules
mod Executions
mod Services
mod Debts
mod Upgrades
