-- ===== src/Matrix.antt =====
-- Matrices over GF(256): crates/shardvault-ec/src/matrix.rs.
pub mod Dense
pub mod Invert
pub mod Access
pub mod Rows
pub mod Augment
pub mod View
pub mod Pivot
pub mod Eliminate
pub mod Inverse
pub mod Product
pub mod Powers
pub mod Systematic
pub mod Unique
mod Tests
