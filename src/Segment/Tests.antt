-- ===== src/Segment/Tests.antt =====
-- The store's theorems at a fresh store over the block layer of the source.
use shard_vault.Base.{
  ◌≡◌, refl, [], ◌∷◌, ◌++◌, none, some, arith, lookup, insert, false, le_bytes, ok, err,
}
use shard_vault.Block.RoundTrip.{block_layer}
use shard_vault.Rollup.Prefixes.{begin_part, split_slash, parts_of, prefix_loop, prefixes_of}
use shard_vault.Rollup.Aggregate.{record_put, deltas_for}
use shard_vault.Block.Codec.{encode, sv_block_encode}
use shard_vault.Wal.Encode.{encode_deltas, encode_fields, encode_record}
use shard_vault.Wal.Record.{Record, put, commit, segment_seal, agg_delta}
use shard_vault.Wal.Log.{sync, Entries, append, append_at}
use shard_vault.Segment.State.{Inner, Store, snap_of}
use shard_vault.Segment.Exec.{wal_append, wal_append_at}
use shard_vault.Segment.Write.{
  stage_put, stage_fitting, seal_when, log_put, log_deltas, write_value, write_all_at, write_at,
  open_segment, place_value,
}
use shard_vault.Segment.Apply.{apply_match, apply_record}
use shard_vault.Segment.Layout.{layout_of}
use shard_vault.Segment.Recover.{
  recover_match, recover_step, recover_loop, recover_swaps, check_present, truncate_all, open_all,
  recover_files, recover,
}
use shard_vault.Segment.Publish.{commit_pending, commit_store}
use shard_vault.Segment.Read.{get_value}
use shard_vault.Segment.ReadBack.{get_value-stage_put}
use shard_vault.Segment.Leader.{Stages, stage_put-Stages}
use shard_vault.Segment.Follower.{Applies, nothing, then_one, stage_put-Applies}
use shard_vault.Segment.Sample.{fresh}
use shard_vault.Segment.Ready.{Ready}
use shard_vault.Segment.PutReady.{stage_put-Ready}

abbrev after_put : Inner
after_put = (stage_put block_layer (97 ∷ []) (5 ∷ 6 ∷ []) fresh).1

abbrev put_records : Entries
put_records =
    (1, put (97 ∷ []) 2 1)
    ∷ (2, agg_delta (record { prefix = []; object_count_delta = 1; byte_count_delta = 2 } ∷ []))
    ∷ []

staged : stage_put block_layer (97 ∷ []) (5 ∷ 6 ∷ []) fresh ≡ (ok (1, put_records), after_put)
unfolding stage_put stage_fitting seal_when log_put log_deltas write_value write_all_at write_at
    open_segment place_value wal_append append append_at deltas_for record_put prefixes_of
    split_slash begin_part parts_of prefix_loop encode_record encode_fields encode_deltas encode
    sv_block_encode lookup le_bytes insert
staged = refl

stage_put-Stages_example : Stages block_layer fresh put_records after_put
stage_put-Stages_example =
    stage_put-Stages block_layer (97 ∷ []) (5 ∷ 6 ∷ []) fresh 1 put_records after_put staged

abbrev applied_put : Inner
applied_put = (apply_record block_layer 1 (put (97 ∷ []) 2 1) (some (5 ∷ 6 ∷ [])) fresh).1

abbrev deltas_record : Record
deltas_record =
    agg_delta (record { prefix = []; object_count_delta = 1; byte_count_delta = 2 } ∷ [])

abbrev applied_deltas : Inner
applied_deltas = (apply_record block_layer 2 deltas_record none applied_put).1

followed : Applies block_layer fresh put_records applied_deltas
unfolding apply_record apply_match write_value write_all_at write_at open_segment place_value
    wal_append_at append_at encode_record encode_fields encode_deltas encode sv_block_encode lookup
    insert le_bytes
followed =
    then_one 2 deltas_record none (then_one 1 (put (97 ∷ []) 2 1) (some (5 ∷ 6 ∷ [])) nothing refl)
      refl

stage_put-Applies_example : layout_of applied_deltas ≡ layout_of after_put
stage_put-Applies_example =
    stage_put-Applies block_layer (97 ∷ []) (5 ∷ 6 ∷ []) fresh 1 put_records after_put fresh
      applied_deltas staged refl followed

-- Before a restart: the file of the second segment has two bytes.
abbrev start : Inner
start = record fresh { contents = (2, 5 ∷ 6 ∷ []) ∷ []; named = 2 ∷ [] }

abbrev sealed_records : Entries
sealed_records = (1, segment_seal 1 2) ∷ (2, commit 1) ∷ []

-- A store that was opened on a log with a seal, and that stages a put.
abbrev reopened : Inner
reopened = record fresh {
  wal = record { file = []; buf = []; next_lsn = 3; dirty = false };
  active_id = 2;
  sealed = 1 ∷ [];
  committed_lsn = 1;
  last_commit_block = 2;
  next_free_id = 3;
}

abbrev recovered : Entries → Inner
recovered records = elim (recover records start) [ ok s ↦ s | err e ↦ start ]

abbrev reopened_put : Inner
reopened_put = (stage_put block_layer (97 ∷ []) (5 ∷ 6 ∷ []) reopened).1

abbrev later_records : Entries
later_records =
    (3, put (97 ∷ []) 2 3)
    ∷ (4, agg_delta (record { prefix = []; object_count_delta = 1; byte_count_delta = 2 } ∷ []))
    ∷ []

later_recovered :
    recover (sealed_records ++ later_records) start
    ≡ ok (recovered (sealed_records ++ later_records))
unfolding recover recover_loop recover_step recover_match recover_swaps recover_files check_present
    truncate_all open_all open_segment record_put prefixes_of split_slash begin_part parts_of
    prefix_loop lookup insert
later_recovered = refl

abbrev fresh_store : Store
fresh_store = record { inner = fresh; snap = snap_of fresh }

abbrev committed_store : Store
committed_store = (commit_store block_layer 2 (record fresh_store { inner = after_put })).1

committed_put :
    commit_store block_layer 2 (record fresh_store { inner = after_put }) ≡ (ok tt, committed_store)
unfolding stage_put stage_fitting seal_when log_put log_deltas write_value write_all_at write_at
    open_segment place_value wal_append append append_at deltas_for record_put prefixes_of
    split_slash begin_part parts_of prefix_loop encode_record encode_fields encode_deltas encode
    sv_block_encode lookup le_bytes insert commit_store commit_pending sync
committed_put = refl

get_value-stage_put_example : get_value (97 ∷ []) committed_store ≡ ok (some (5 ∷ 6 ∷ []))
get_value-stage_put_example =
    get_value-stage_put block_layer (97 ∷ []) (5 ∷ 6 ∷ []) fresh_store 1 put_records after_put 2
      committed_store staged committed_put

fresh-Ready : Ready fresh
fresh-Ready = record {
  maps = record { one_place = tt; one_put = tt; placed = tt; given = tt; held = omega arith };
  logged = tt;
  active = omega arith;
}

stage_put-Ready_example : Ready after_put
stage_put-Ready_example =
    stage_put-Ready block_layer (97 ∷ []) (5 ∷ 6 ∷ []) fresh 1 put_records after_put (omega arith)
      (omega arith) (omega arith) fresh-Ready staged
