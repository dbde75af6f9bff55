-- ===== src/Node/PutTests.antt =====
-- A put at the leader of a fresh store whose follower is down, and the read behind it.
use shard_vault.Base.{
  ◌≡◌, refl, some, [], ◌∷◌, arith, lookup, insert, le_bytes, ok, StoreError, Text,
}
use shard_vault.Block.RoundTrip.{block_layer}
use shard_vault.Block.Codec.{encode, sv_block_encode}
use shard_vault.Rollup.Prefixes.{begin_part, split_slash, parts_of, prefix_loop, prefixes_of}
use shard_vault.Rollup.Aggregate.{record_put, deltas_for}
use shard_vault.Wal.Encode.{encode_deltas, encode_fields, encode_record}
use shard_vault.Wal.Log.{sync, append, append_at, last_lsn}
use shard_vault.Segment.State.{snap_of}
use shard_vault.Segment.Exec.{wal_append}
use shard_vault.Segment.Write.{
  stage_put, stage_fitting, seal_when, log_put, log_deltas, write_value, write_all_at, write_at,
  open_segment, place_value,
}
use shard_vault.Segment.Publish.{commit_pending, commit_store, sync_wal}
use shard_vault.Segment.Sample.{fresh}
use shard_vault.Node.Frame.{get_req, get_ok}
use shard_vault.Node.Leader.{Leader, process_put_stage, process_put_commit}
use shard_vault.Node.Client.{sent, serve}
use shard_vault.Node.ReadPut.{serve-process_put}

abbrev alone : Leader
alone = record {
  store = record { inner = fresh; snap = snap_of fresh };
  commit_index = 0;
  followers = [];
  quorum = 1;
}

abbrev staged_leader : Leader
staged_leader = (process_put_stage block_layer (97 ∷ []) (5 ∷ 6 ∷ []) alone).1

abbrev committed_leader : Leader
committed_leader = (process_put_commit block_layer 2 staged_leader).1

first_step : process_put_stage block_layer (97 ∷ []) (5 ∷ 6 ∷ []) alone ≡ (ok 2, staged_leader)
unfolding process_put_stage last_lsn stage_put stage_fitting seal_when log_put log_deltas
    write_value write_all_at write_at open_segment place_value wal_append append append_at
    deltas_for record_put prefixes_of split_slash begin_part parts_of prefix_loop encode_record
    encode_fields encode_deltas encode sv_block_encode lookup le_bytes insert
first_step = refl

second_step : process_put_commit block_layer 2 staged_leader ≡ (ok tt, committed_leader)
unfolding process_put_stage last_lsn stage_put stage_fitting seal_when log_put log_deltas
    write_value write_all_at write_at open_segment place_value wal_append append append_at
    deltas_for record_put prefixes_of split_slash begin_part parts_of prefix_loop encode_record
    encode_fields encode_deltas encode sv_block_encode lookup le_bytes insert process_put_commit
    commit_store commit_pending sync sync_wal
second_step = refl

abbrev no_message : StoreError → Text
no_message e = []

serve-process_put_example :
    serve block_layer no_message [] 0 0 (get_req 7 (97 ∷ [])) committed_leader
    ≡ sent (get_ok 7 (some (5 ∷ 6 ∷ []))) committed_leader
serve-process_put_example =
    serve-process_put block_layer no_message [] (97 ∷ []) (5 ∷ 6 ∷ []) alone staged_leader
      staged_leader committed_leader 2 7 0 0 (omega arith) first_step refl second_step
