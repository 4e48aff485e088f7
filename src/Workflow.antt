-- ===== src/Workflow.antt =====
-- crates/pool-workflow: the pieces of work and their deadlines.
pub mod Deadlines
pub mod Lease
pub mod Intent
pub mod Attempt
pub mod Payload
pub mod Reconcile
pub mod Siblings
pub mod Lifecycle
pub mod Restart
