-- ===== src/Wal/Record.antt =====
-- crates/shardvault-core/src/wal.rs: the records of the write-ahead log, and what their Rust types
-- hold.
use shard_vault.Base.{ℕ, ◌<◌, ◌^◌, ◌≡◌, true, List, All, Text, is_utf8, IsByte}
use shard_vault.Rollup.Entry.{AggDeltaEntry}

pub record RemapEntry : Type 0 where
  pub key : Text
  pub lsn : ℕ
  pub offset : ℕ
  pub len : ℕ

pub data Record : Type 0 where
  -- key, len, stripe_id
  put : Text → ℕ → ℕ → Record
  -- lsn
  commit : ℕ → Record
  -- segment_id, next_segment_id
  segment_seal : ℕ → ℕ → Record
  agg_delta : List AggDeltaEntry → Record
  -- old_segment_id, new_segment_id
  segment_swap : ℕ → ℕ → Record
  -- new_segment_id, entries
  segment_remap : ℕ → List RemapEntry → Record

abbrev pub tag_put : ℕ
tag_put = 0

abbrev pub tag_commit : ℕ
tag_commit = 1

abbrev pub tag_seal : ℕ
tag_seal = 2

abbrev pub tag_agg : ℕ
tag_agg = 3

abbrev pub tag_swap : ℕ
tag_swap = 4

abbrev pub tag_remap : ℕ
tag_remap = 5

-- What the types `u32`, `u64` and `String` hold.
abbrev pub IsU32 : ℕ → Type 0
IsU32 n = n < 2 ^ 32

abbrev pub IsU64 : ℕ → Type 0
IsU64 n = n < 2 ^ 64

pub record IsText (s : Text) : Type 0 where
  pub bytes : All IsByte s
  pub valid : is_utf8 s ≡ true

abbrev pub IsDelta : AggDeltaEntry → Type 0
IsDelta d = IsText d.prefix × IsU64 d.object_count_delta × IsU64 d.byte_count_delta

abbrev pub IsEntry : RemapEntry → Type 0
IsEntry e = IsText e.key × IsU64 e.lsn × IsU64 e.offset × IsU32 e.len

abbrev pub IsRecord : Record → Type 0
IsRecord (put key len stripe_id) = IsText key × IsU32 len × IsU64 stripe_id
IsRecord (commit lsn) = IsU64 lsn
IsRecord (segment_seal id next) = IsU64 id × IsU64 next
IsRecord (agg_delta deltas) = All IsDelta deltas
IsRecord (segment_swap old new) = IsU64 old × IsU64 new
IsRecord (segment_remap new entries) = IsU64 new × All IsEntry entries
