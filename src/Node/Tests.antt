-- ===== src/Node/Tests.antt =====
-- The node's theorems at a leader with a put in its log and two followers.
use shard_vault.Base.{
  ℕ, ◌≡◌, refl, true, false, none, some, List, [], ◌∷◌, ◌++◌, filter, ltb, arith, is_utf8, lookup,
  ok,
}
use shard_vault.Block.RoundTrip.{block_layer}
use shard_vault.Rollup.Aggregate.{empty_rollup}
use shard_vault.Wal.Record.{Record, IsRecord, put, commit}
use shard_vault.Wal.Log.{Wal, Entries, append_at, sync, scan}
use shard_vault.Wal.Scan.{nil}
use shard_vault.Wal.Replay.{Above}
use shard_vault.Wal.Durable.{Holds, append_at-Holds, sync-Holds}
use shard_vault.Wal.Reopen.{scan_whole}
use shard_vault.Segment.State.{Inner, Store, snap_of}
use shard_vault.Segment.Write.{read_value}
use shard_vault.Segment.Read.{read_at, value_at}
use shard_vault.Node.Frame.{Frame, append, sync_ack, sync_barrier}
use shard_vault.Node.Leader.{
  FollowerLink, Leader, acked_by, quorum_reached, backfill_frames, handle_backfill,
}
use shard_vault.Node.Dialer.{link_frame, link_down}
use shard_vault.Node.Backfill.{
  Rising, carried, in_backfill, handle_backfill-Rising, handle_backfill-carried,
}
use shard_vault.Node.Quorum.{received, disconnected, here, later, quorum_reached-Reaches}

abbrev put_record : Record
put_record = put (97 ∷ []) 2 1

put_record-IsRecord : IsRecord put_record
unfolding is_utf8
put_record-IsRecord = (record { bytes = (omega arith, tt); valid = refl }, omega arith, omega arith)

abbrev empty_wal : Wal
empty_wal = record { file = []; buf = []; next_lsn = 1; dirty = false }

one_put :
    (w : Wal) × (append_at block_layer put_record 1 empty_wal ≡ ok w)
    × Holds block_layer [] ((1, put_record) ∷ []) w
one_put =
    append_at-Holds block_layer 1 put_record (record { file = nil; buf = nil; clean = λ _. refl })
      put_record-IsRecord (omega arith) (omega arith)

two_records :
    (w : Wal) × (append_at block_layer (commit 1) 2 one_put.0 ≡ ok w)
    × Holds block_layer [] ((1, put_record) ∷ (2, commit 1) ∷ []) w
two_records =
    append_at-Holds block_layer 2 (commit 1) one_put.2 (omega arith) (omega arith) (omega arith)

abbrev log : Entries
log = (1, put_record) ∷ (2, commit 1) ∷ []

scanned : scan block_layer (sync two_records.0).file ≡ log
scanned = scan_whole block_layer (sync-Holds block_layer two_records.2).file

abbrev leader_inner : Inner
leader_inner = record {
  segment_max_bytes = 1000;
  wal = sync two_records.0;
  contents = (1, 5 ∷ 6 ∷ []) ∷ [];
  named = 1 ∷ [];
  segments = 1 ∷ [];
  index = (97 ∷ [], record { seg = 1; offset = 0; len = 2; lsn = 1 }) ∷ [];
  put_locations = (1, record { key = 97 ∷ []; seg = 1; offset = 0; len = 2 }) ∷ [];
  rollup = empty_rollup;
  active_id = 1;
  active_offset = 2;
  pending = false;
  committed_lsn = 1;
  last_commit_block = 2;
  applied_upto = 2;
  dirty_segments = [];
  sealed = [];
  next_free_id = 2;
  pending_swap = none;
  retired_segments = [];
}

abbrev leader_store : Store
leader_store = record { inner = leader_inner; snap = snap_of leader_inner }

-- A live frame behind the commit index, and one that the backfill covers.
abbrev live : List Frame
live = sync_barrier 2 ∷ append 3 put_record none ∷ []

log-Above : Above 0 (scan block_layer leader_store.inner.wal.file)
log-Above = rw scanned (omega arith, (omega arith, tt))

handle_backfill-Rising_example : Rising 0 (handle_backfill block_layer 1 leader_store 2 live)
handle_backfill-Rising_example =
    handle_backfill-Rising block_layer 1 leader_store 2 live log-Above
      (omega arith, (omega arith, tt))

abbrev frames : List Frame
frames = append 1 put_record (some (5 ∷ 6 ∷ [])) ∷ append 2 (commit 1) none ∷ []

backfilled :
    backfill_frames leader_store 1 2 (scan block_layer leader_store.inner.wal.file) ≡ ok frames
unfolding backfill_frames value_at read_at read_value lookup snap_of
backfilled = rw scanned refl

handle_backfill-carried_example :
    carried (handle_backfill block_layer 1 leader_store 2 live)
    ≡ filter (in_backfill 1 2) (scan block_layer leader_store.inner.wal.file)
      ++ filter (λ e. ltb 2 e.0) (carried live)
handle_backfill-carried_example =
    handle_backfill-carried block_layer 1 leader_store 2 live frames backfilled

abbrev follower : ℕ → ℕ → FollowerLink
follower id acknowledged = record {
  id = id;
  match_index = acknowledged;
  committed_through = 0;
  alive = true;
  queue = [];
}

-- Of three nodes, one follower has acknowledged the put; the other does so before the first is gone.
abbrev leader : Leader
leader = record {
  store = leader_store;
  commit_index = 2;
  followers = follower 1 2 ∷ follower 2 0 ∷ [];
  quorum = 2;
}

leader-quorum_reached : quorum_reached 2 leader ≡ true
unfolding quorum_reached acked_by
leader-quorum_reached = refl

quorum_reached-Reaches_example :
    quorum_reached 2 (link_down 1 (link_frame block_layer 2 (sync_ack 2) leader)) ≡ true
quorum_reached-Reaches_example =
    quorum_reached-Reaches block_layer 2 leader leader-quorum_reached
      (later (later here (received 2 (sync_ack 2))) (disconnected 1))
