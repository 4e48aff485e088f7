-- ===== src/Controller.antt =====
-- crates/pool-controller: the process that decides.
pub mod Draw
