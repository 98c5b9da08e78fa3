-- ===== src/Clips.antt =====
-- Clip review and export, crates/openfrag-clips/src/lib.rs.
pub mod Model
pub mod Review
pub mod Filename
pub mod Export
mod Tests
