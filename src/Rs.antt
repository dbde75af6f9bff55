-- ===== src/Rs.antt =====
-- Reed-Solomon codes: crates/shardvault-ec/src/rs.rs.
pub mod Coder
pub mod Rebuild
pub mod Rounds
pub mod Encode
pub mod Word
pub mod Survivors
pub mod Rebuilding
pub mod Recover
pub mod RoundTrip
mod Tests
