-- ===== src/Rollup/Entry.antt =====
-- `AggDeltaEntry` of crates/shardvault-core/src/rollup.rs.
use shard_vault.Base.{ℕ, Text}

pub record AggDeltaEntry : Type 0 where
  pub prefix : Text
  pub object_count_delta : ℕ
  pub byte_count_delta : ℕ
