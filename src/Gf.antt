-- ===== src/Gf.antt =====
-- GF(2^8) arithmetic: crates/shardvault-ec/src/gf.rs.
pub mod Tables
pub mod Checks
pub mod Field
pub mod Linear
pub mod Xor
pub mod Bytes
mod Tests
