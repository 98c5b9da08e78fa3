-- ===== src/Highlight.antt =====
-- Highlight rules, crates/openfrag-domain/src/highlight.rs.
pub mod Candidate
pub mod Merge
pub mod Capture
pub mod Retention
mod Tests
