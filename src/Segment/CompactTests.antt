-- ===== src/Segment/CompactTests.antt =====
-- The theorems on compaction at a store with a sealed segment, in which one of two values is dead.
use shard_vault.Base.{◌≡◌, ◌≢◌, refl, [], ◌∷◌, arith, lookup, insert, le_bytes, ok}
use shard_vault.Block.RoundTrip.{block_layer}
use shard_vault.Block.Codec.{encode, sv_block_encode}
use shard_vault.Wal.Encode.{encode_entries, encode_fields, encode_record}
use shard_vault.Wal.Log.{sync, append, append_at}
use shard_vault.Segment.State.{Inner, Store, snap_of}
use shard_vault.Segment.Exec.{wal_append}
use shard_vault.Segment.Write.{write_all_at, write_at, read_value}
use shard_vault.Segment.Publish.{commit_pending, commit_store, publish}
use shard_vault.Segment.Read.{get_value, value_at}
use shard_vault.Segment.Chunks.{take_chunk}
use shard_vault.Segment.Compact.{
  staged, rounds_ran_out, live_in, reclaim_in, choose, keep_in, insert_by_offset, sort_by_offset,
  copy_values, is_kept, drop_in, kept_of, add_segment, log_pending, log_remaps, log_stage,
  compact_segment, compact_stage, compact_commit,
}
use shard_vault.Segment.Compacted.{get_value-compact_commit, value_at-compact_commit}
use shard_vault.Segment.Sample.{overwritten, overwritten-Consistent, stage}
use shard_vault.Segment.CompactSettled.{Consistent}
use shard_vault.Segment.CompactReady.{compact_commit-Consistent}
use shard_vault.Segment.CompactFits.{Carries, compact_stage-Carries}
use shard_vault.Segment.CompactEnds.{compact_stage_ends}

abbrev after_stage : Inner
after_stage = (compact_stage block_layer 2 2 overwritten).1

compacted : compact_stage block_layer 2 2 overwritten ≡ (ok (staged stage), after_stage)
unfolding compact_stage compact_segment log_stage log_remaps log_pending add_segment kept_of drop_in
    is_kept copy_values sort_by_offset insert_by_offset keep_in choose reclaim_in live_in take_chunk
    read_value write_all_at write_at wal_append append append_at encode_record encode_fields
    encode_entries encode sv_block_encode lookup le_bytes insert
compacted = refl

abbrev store : Store
store = record { inner = overwritten; snap = snap_of overwritten }

abbrev committed_store : Store
committed_store = (commit_store block_layer 6 (record store { inner = after_stage })).1

committed :
    commit_store block_layer 6 (record store { inner = after_stage }) ≡ (ok tt, committed_store)
unfolding compact_stage compact_segment log_stage log_remaps log_pending add_segment kept_of drop_in
    is_kept copy_values sort_by_offset insert_by_offset keep_in choose reclaim_in live_in take_chunk
    read_value write_all_at write_at wal_append append append_at encode_record encode_fields
    encode_entries encode sv_block_encode lookup le_bytes insert commit_store commit_pending sync
    snap_of
committed = refl

get_value-compact_commit_example :
    get_value (97 ∷ []) (compact_commit stage committed_store).1
    ≡ get_value (97 ∷ []) (publish store)
get_value-compact_commit_example =
    get_value-compact_commit block_layer 2 2 store stage after_stage 6 committed_store
      overwritten-Consistent compacted committed (97 ∷ [])

value_at-compact_commit_example :
    value_at 3 (compact_commit stage committed_store).1 ≡ value_at 3 (publish store)
value_at-compact_commit_example =
    value_at-compact_commit block_layer 2 2 store stage after_stage 6 committed_store
      overwritten-Consistent compacted committed 3 (omega arith)

compact_stage-Carries_example : Carries stage.entries stage.records
compact_stage-Carries_example =
    compact_stage-Carries block_layer 2 2 overwritten after_stage stage compacted

compact_stage_ends_example :
    compact_stage block_layer 2 2 overwritten ≢ (ok rounds_ran_out, after_stage)
compact_stage_ends_example =
    compact_stage_ends block_layer 2 2 overwritten after_stage (omega arith) (omega arith)
      (omega arith, (omega arith, tt))

compact_commit-Consistent_example : Consistent (compact_commit stage committed_store).1.inner
compact_commit-Consistent_example =
    compact_commit-Consistent block_layer 2 2 store stage after_stage 6 committed_store
      overwritten-Consistent (omega arith) compacted committed
