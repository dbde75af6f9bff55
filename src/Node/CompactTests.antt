-- ===== src/Node/CompactTests.antt =====
-- The leader's theorem on compaction at the store of the sample, with two followers.
use shard_vault.Base.{ℕ, ◌≡◌, refl, true, [], ◌∷◌, arith, lookup, insert, le_bytes, ok}
use shard_vault.Block.RoundTrip.{block_layer}
use shard_vault.Block.Codec.{encode, sv_block_encode}
use shard_vault.Wal.Encode.{encode_entries, encode_fields, encode_record}
use shard_vault.Wal.Record.{put}
use shard_vault.Wal.Log.{Entries, sync, append, append_at, last_lsn}
use shard_vault.Segment.State.{snap_of}
use shard_vault.Segment.Exec.{wal_append}
use shard_vault.Segment.Write.{write_all_at, write_at, read_value}
use shard_vault.Segment.Publish.{commit_pending, commit_store, publish, sync_wal}
use shard_vault.Segment.Chunks.{take_chunk}
use shard_vault.Segment.Compact.{
  live_in, reclaim_in, choose, keep_in, insert_by_offset, sort_by_offset, copy_values, is_kept,
  drop_in, kept_of, add_segment, log_pending, log_remaps, log_stage, compact_segment, compact_stage,
  compact_commit,
}
use shard_vault.Segment.Sample.{overwritten, overwritten-Consistent, stage}
use shard_vault.Node.Leader.{FollowerLink, Leader, backfill_frames}
use shard_vault.Node.Compaction.{
  least_through, horizon_of, waiting, send_compaction, finish_compaction, process_compact_stage,
  process_compact_commit,
}
use shard_vault.Node.Horizon.{backfill_frames-process_compact}

abbrev link : ℕ → ℕ → FollowerLink
link id through = record {
  id = id;
  match_index = 4;
  committed_through = through;
  alive = true;
  queue = [];
}

abbrev leader : Leader
leader = record {
  store = record { inner = overwritten; snap = snap_of overwritten };
  commit_index = 4;
  followers = link 1 4 ∷ link 2 2 ∷ [];
  quorum = 2;
}

abbrev staged_leader : Leader
staged_leader = (process_compact_stage block_layer 2 leader).1

abbrev compacted_leader : Leader
compacted_leader = (process_compact_commit block_layer 6 stage staged_leader).1

first_step : process_compact_stage block_layer 2 leader ≡ (ok (waiting 6 stage), staged_leader)
unfolding process_compact_stage horizon_of least_through send_compaction last_lsn compact_stage
    compact_segment log_stage log_remaps log_pending add_segment kept_of drop_in is_kept copy_values
    sort_by_offset insert_by_offset keep_in choose reclaim_in live_in take_chunk read_value
    write_all_at write_at wal_append append append_at encode_record encode_fields encode_entries
    encode sv_block_encode lookup le_bytes insert
first_step = refl

second_step : process_compact_commit block_layer 6 stage staged_leader ≡ (ok 1, compacted_leader)
unfolding process_compact_stage horizon_of least_through send_compaction last_lsn compact_stage
    compact_segment log_stage log_remaps log_pending add_segment kept_of drop_in is_kept copy_values
    sort_by_offset insert_by_offset keep_in choose reclaim_in live_in take_chunk read_value
    write_all_at write_at wal_append append append_at encode_record encode_fields encode_entries
    encode sv_block_encode lookup le_bytes insert process_compact_commit finish_compaction
    commit_store commit_pending sync sync_wal compact_commit snap_of
second_step = refl

abbrev asked : Entries
asked = (3, put (97 ∷ []) 2 3) ∷ []

backfill_frames-process_compact_example :
    backfill_frames compacted_leader.store 3 4 asked
    ≡ backfill_frames (publish leader.store) 3 4 asked
backfill_frames-process_compact_example =
    backfill_frames-process_compact block_layer 2 leader staged_leader staged_leader
      compacted_leader 6 1 stage (link 1 4 ∷ []) (link 2 2) [] 3 4 asked overwritten-Consistent
      first_step refl second_step refl (omega arith)
