-- ===== src/Node/FollowTests.antt =====
-- A follower with a fresh store that receives the batch of a put.
use shard_vault.Base.{◌≡◌, ◌≤◌, refl, some, [], ◌∷◌, All, arith, lookup, insert, le_bytes, ok}
use shard_vault.Block.RoundTrip.{block_layer}
use shard_vault.Block.Codec.{encode, sv_block_encode}
use shard_vault.Rollup.Prefixes.{begin_part, split_slash, parts_of, prefix_loop, prefixes_of}
use shard_vault.Rollup.Aggregate.{record_put, deltas_for}
use shard_vault.Wal.Encode.{encode_deltas, encode_fields, encode_record}
use shard_vault.Wal.Record.{put, agg_delta}
use shard_vault.Wal.Log.{Entries, sync, append, append_at}
use shard_vault.Segment.State.{Inner, Store, snap_of}
use shard_vault.Segment.Exec.{wal_append, wal_append_at}
use shard_vault.Segment.Write.{
  stage_put, stage_fitting, seal_when, log_put, log_deltas, write_value, write_all_at, write_at,
  open_segment, place_value,
}
use shard_vault.Segment.Apply.{apply_match, apply_record}
use shard_vault.Segment.Publish.{
  finalize_pending_swap, remove_committed_retired_segments, remove_retired, sync_all,
}
use shard_vault.Segment.Layout.{layout_of}
use shard_vault.Segment.Sample.{fresh}
use shard_vault.Node.Frame.{sync_ack}
use shard_vault.Node.Leader.{batch_frames}
use shard_vault.Node.Apply.{apply_append, apply_frame, apply_frames}
use shard_vault.Node.Follow.{apply_frames-stage_put}

abbrev put_records : Entries
put_records =
    (1, put (97 ∷ []) 2 1)
    ∷ (2, agg_delta (record { prefix = []; object_count_delta = 1; byte_count_delta = 2 } ∷ []))
    ∷ []

abbrev after_put : Inner
after_put = (stage_put block_layer (97 ∷ []) (5 ∷ 6 ∷ []) fresh).1

staged : stage_put block_layer (97 ∷ []) (5 ∷ 6 ∷ []) fresh ≡ (ok (1, put_records), after_put)
unfolding stage_put stage_fitting seal_when log_put log_deltas write_value write_all_at write_at
    open_segment place_value wal_append append append_at deltas_for record_put prefixes_of
    split_slash begin_part parts_of prefix_loop encode_record encode_fields encode_deltas encode
    sv_block_encode lookup le_bytes insert
staged = refl

abbrev follower : Store
follower = record { inner = fresh; snap = snap_of fresh }

abbrev followed_store : Store
followed_store =
    (apply_frames block_layer (batch_frames put_records (some (5 ∷ 6 ∷ [])) 2) follower).1

followed :
    apply_frames block_layer (batch_frames put_records (some (5 ∷ 6 ∷ [])) 2) follower
    ≡ (sync_ack 2 ∷ [], followed_store)
unfolding apply_frames apply_frame apply_append batch_frames apply_record apply_match write_value
    write_all_at write_at open_segment place_value wal_append_at append_at encode_record
    encode_fields encode_deltas encode sv_block_encode lookup insert le_bytes sync_all sync
    finalize_pending_swap remove_committed_retired_segments remove_retired
followed = refl

apply_frames-stage_put_example :
    (layout_of followed_store.inner ≡ layout_of after_put) × All (λ e. e.0 ≤ 2) put_records
apply_frames-stage_put_example =
    apply_frames-stage_put block_layer (97 ∷ []) (5 ∷ 6 ∷ []) fresh 1 put_records after_put 2
      follower followed_store 2 staged refl refl (omega arith, (omega arith, tt)) followed
