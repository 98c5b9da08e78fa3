-- ===== src/Capture/Supervisor.antt =====
-- The supervisor of the recorder process, crates/openfrag-capture/src/lib.rs.
pub mod State
pub mod Save
pub mod Poll
