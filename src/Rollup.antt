-- ===== src/Rollup.antt =====
-- Per-prefix aggregates: crates/shardvault-core/src/rollup.rs.
pub mod Entry
pub mod Prefixes
pub mod Aggregate
pub mod Under
pub mod Distinct
pub mod Recount
pub mod Deltas
mod Tests
