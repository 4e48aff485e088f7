-- ===== src/Domain.antt =====
-- crates/pool-domain: the types that the services share.
pub mod Trace
pub mod TieDraw
