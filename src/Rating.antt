-- ===== src/Rating.antt =====
-- The rating, crates/openfrag-domain/src/rating.rs and identity.rs.
pub mod Model
pub mod Components
pub mod Calculation
pub mod Bounds
pub mod Points
pub mod Outcome
pub mod Trend
pub mod Refinement
mod Tests
