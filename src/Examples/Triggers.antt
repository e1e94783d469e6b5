-- ===== src/Examples/Triggers.antt =====
-- Resolvers that read a price or a pool: contracts/examples/price-resolver, nft-floor-trigger,
-- rebalance-resolver and oracle-trigger.
pub mod Price
pub mod NftFloor
pub mod Rebalance
pub mod Oracle
