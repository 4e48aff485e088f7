-- ===== src/Decision.antt =====
-- crates/pool-decision: the pure decision rules.
pub mod Ratio
pub mod Compute
pub mod Bundles
pub mod Source
pub mod Challenge
pub mod Algorithm
