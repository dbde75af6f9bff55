-- ===== src/Block.antt =====
-- The block layer: crates/shardvault-core/src/ffi.rs over csrc/block.c.
pub mod Layer
pub mod Crc
pub mod Codec
pub mod RoundTrip
mod Tests
