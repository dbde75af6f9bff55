-- ===== src/Node.antt =====
-- Replication: crates/shardvault-node/src/node.rs and the frames of protocol.rs beside it.
pub mod Frame
pub mod Leader
pub mod Compaction
pub mod Apply
pub mod Client
pub mod Dialer
pub mod Horizon
pub mod ReadPut
pub mod Follow
pub mod Quorum
pub mod Backfill
mod CompactTests
mod PutTests
mod FollowTests
mod Tests
