-- ===== src/Exact.antt =====
-- Exact arithmetic, crates/openfrag-domain/src/exact.rs.
pub mod Gcd
pub mod Integers
pub mod Fraction
pub mod Rational
mod Tests
