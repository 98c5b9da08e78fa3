-- ===== src/Baseline.antt =====
-- A player's history, crates/openfrag-domain/src/baseline.rs.
pub mod Model
pub mod Sessions
pub mod Statistics
pub mod Cohort
pub mod Goals
mod Tests
