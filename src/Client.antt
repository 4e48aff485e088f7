-- ===== src/Client.antt =====
-- crates/tig-client: what the pool asks of TIG, and how often.
pub mod Limits
pub mod Cache
pub mod Header
