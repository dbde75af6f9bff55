-- ===== src/Segment.antt =====
-- The segment store: crates/shardvault-core/src/segment.rs.
pub mod State
pub mod Exec
pub mod Write
pub mod Publish
pub mod Apply
pub mod Recover
pub mod Read
pub mod View
pub mod Chunks
pub mod Compact
pub mod Moved
pub mod Repointed
pub mod Copied
pub mod CompactRun
pub mod CompactFiles
pub mod CompactSettled
pub mod Compacted
pub mod CompactMaps
pub mod CompactReady
pub mod CompactEnds
pub mod CompactFits
pub mod Layout
pub mod Leader
pub mod Follower
pub mod ChunksFit
pub mod Refused
pub mod Restart
pub mod ReadBack
pub mod ReadUpto
pub mod Ready
pub mod PutReady
pub mod Sample
mod CompactTests
mod Tests
