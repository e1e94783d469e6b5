-- ===== src/Examples/Tests.antt =====
-- The example contracts at concrete inputs.
mod Sample
mod Funds
mod Swaps
mod Windows
