-- ===== src/Live.antt =====
-- The live coordinator, crates/openfrag-live/src/lib.rs.
pub mod Records
pub mod Coordinator
mod Tests
