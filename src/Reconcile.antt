-- ===== src/Reconcile.antt =====
-- The reconciliation of captures with a demo, crates/openfrag-pipeline/src/reconcile.rs.
pub mod Demo
pub mod Evidence
pub mod Decision
pub mod Persistence
pub mod Tally
pub mod Rejection
mod Tests
