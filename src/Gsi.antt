-- ===== src/Gsi.antt =====
-- The Game State Integration receiver, crates/openfrag-gsi/src/lib.rs.
pub mod Wire
pub mod Transition
pub mod Engine
mod Tests
