-- ===== src/Capture.antt =====
-- The replay recorder, crates/openfrag-capture/src/lib.rs.
pub mod Launch
pub mod Supervisor
mod Tests
