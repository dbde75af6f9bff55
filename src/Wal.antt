-- ===== src/Wal.antt =====
-- The write-ahead log: crates/shardvault-core/src/wal.rs.
pub mod Record
pub mod Encode
pub mod Reader
pub mod Decode
pub mod RoundTrip
pub mod Size
pub mod Log
pub mod Scan
pub mod Replay
pub mod Durable
pub mod Reopen
mod Tests
