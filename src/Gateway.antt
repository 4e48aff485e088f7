-- ===== src/Gateway.antt =====
-- crates/tig-gateway: the one process that writes to TIG.
pub mod Network
pub mod Readiness
pub mod WriteGate
pub mod Claim
