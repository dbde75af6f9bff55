-- ===== src/Node/Leader.antt =====
-- `Leader` of crates/shardvault-node/src/node.rs. A put is two steps, since other threads run while
-- `await_quorum` waits; what a loop over the followers does to each of them is one step.
use shard_vault.Base.{
  ℕ, ◌+◌, ◌-◌, ◌/◌, max, Bool, false, ◌||◌, Option, none, some, List, [], ◌∷◌, ◌++◌, map, filter,
  leb, ltb, if◌then◌else◌, ◌==◌, Text, Result, ok, err, ◌>>=◌,
}
use shard_vault.Block.Layer.{BlockLayer}
use shard_vault.Wal.Record.{Record, put, commit}
use shard_vault.Wal.Log.{Entries, scan, last_lsn}
use shard_vault.Segment.State.{Inner, Store}
use shard_vault.Segment.Write.{stage_put}
use shard_vault.Segment.Publish.{sync_wal, commit_store}
use shard_vault.Segment.Read.{value_at}
use shard_vault.Node.Frame.{Frame, append, sync_barrier}

-- Without `addr`, which is only dialed.
pub record FollowerLink : Type 0 where
  pub id : ℕ
  pub match_index : ℕ
  pub committed_through : ℕ
  pub alive : Bool
  pub queue : List Frame

-- Without `failed`, which only stops dialing, and `wake`, which only wakes the waiting thread.
pub record Leader : Type 0 where
  pub store : Store
  pub commit_index : ℕ
  pub followers : List FollowerLink
  pub quorum : ℕ

-- `cfg.peers.len().div_ceil(2)`
abbrev pub div_ceil : ℕ → ℕ → ℕ
div_ceil n d = (n + (d - 1)) / d

-- A link for each of the peers from `i` on, but for the node itself.
unfoldable pub new_links : List Text → ℕ → ℕ → List FollowerLink
new_links [] i me = []
new_links (addr ∷ peers) i me =
    let rest = new_links peers (i + 1) me in
    if i == me
    then rest
    else record { id = i; match_index = 0; committed_through = 0; alive = false; queue = [] } ∷ rest

abbrev count : List Text → ℕ
count [] = 0
count (p ∷ ps) = 1 + count ps

unfoldable pub new_leader : List Text → ℕ → Store → Leader
unfolding new_links
new_leader peers me store = record {
  store = store;
  commit_index = store.inner.wal.next_lsn - 1;
  followers = new_links peers 0 me;
  quorum = div_ceil (count peers) 2;
}

-- The value goes with a `Put` alone.
abbrev pub data_of : Record → Option (List ℕ) → Option (List ℕ)
data_of (put key len stripe_id) value = value
data_of _ value = none

unfoldable pub batch_frames : Entries → Option (List ℕ) → ℕ → List Frame
batch_frames [] value end = sync_barrier end ∷ []
batch_frames ((lsn, rec) ∷ records) value end =
    append lsn rec (data_of rec value) ∷ batch_frames records value end

abbrev pub enqueue : List Frame → FollowerLink → FollowerLink
enqueue frames f = record f { queue = f.queue ++ frames }

-- The frames join the queue of every follower.
unfoldable pub send_batch : Entries → Option (List ℕ) → ℕ → List FollowerLink → List FollowerLink
unfolding batch_frames
send_batch records value end fs = map (enqueue (batch_frames records value end)) fs

-- The followers that acknowledged an LSN.
unfoldable pub acked_by : ℕ → List FollowerLink → ℕ
acked_by end [] = 0
acked_by end (f ∷ fs) = (if leb end f.match_index then 1 else 0) + acked_by end fs

-- The test of `await_quorum` that lets a put go on. The leader counts itself.
unfoldable pub quorum_reached : ℕ → Leader → Bool
quorum_reached end l = leb l.quorum (1 + acked_by end l.followers)

-- `Frame::SyncAck` in `dialer_loop`, at the follower that sent it.
unfoldable pub record_ack : ℕ → ℕ → ℕ → List FollowerLink → List FollowerLink
record_ack id lsn ci [] = []
record_ack id lsn ci (f ∷ fs) =
    let rest = record_ack id lsn ci fs in
    if f.id == id
    then record f {
      match_index = max f.match_index lsn;
      committed_through = if leb ci lsn then ci else f.committed_through;
    }
      ∷ rest
    else f ∷ rest

-- The data of a backfilled record is read from the store.
abbrev pub backfill_data : ℕ → Record → Store → Result (Option (List ℕ))
backfill_data lsn (put key len stripe_id) store = do value ← value_at lsn store; ok (some value)
backfill_data lsn _ store = ok none

unfoldable pub backfill_frames : Store → ℕ → ℕ → Entries → Result (List Frame)
backfill_frames store from ci [] = ok []
backfill_frames store from ci ((lsn, rec) ∷ records) =
    let rest = backfill_frames store from ci records in
    if ltb lsn from || ltb ci lsn
    then rest
    else (backfill_data lsn rec store >>= λ value.
        rest >>= λ frames. ok (append lsn rec value ∷ frames))

-- The live frames that stay in the queue behind a backfill.
abbrev pub is_retained : ℕ → Frame → Bool
is_retained ci (append lsn rec value) = ltb ci lsn
is_retained ci (sync_barrier lsn) = ltb ci lsn
is_retained ci _ = false

-- What `process_put` does with the outcome of `stage_put`, and with that of `commit`.
abbrev pub send_staged : Result (ℕ × Entries) → Inner → List ℕ → Leader → Result ℕ × Leader
send_staged (err e) s value l = (err e, record l { store = record l.store { inner = s } })
send_staged (ok (id, records)) s value l =
    let end = last_lsn records in
    (
      ok end,
      record l {
        store = record l.store { inner = sync_wal s };
        followers = send_batch records (some value) end l.followers;
      },
    )

abbrev pub send_committed : Result (Unit {0}) → Store → ℕ → Leader → Result (Unit {0}) × Leader
send_committed (err e) store end l = (err e, record l { store = store })
send_committed (ok done) store end l =
    let block = store.inner.wal.next_lsn - 1 in
    (
      ok tt,
      record l {
        store = store;
        commit_index = block;
        followers = send_batch ((block, commit end) ∷ []) none block l.followers;
      },
    )

-- Where a value cannot be read, the queue stays as it is.
abbrev pub backfill_queue : Result (List Frame) → ℕ → List Frame → List Frame
backfill_queue (err e) ci queue = queue
backfill_queue (ok frames) ci queue =
    (frames ++ sync_barrier ci ∷ []) ++ filter (is_retained ci) queue

module _ (layer : BlockLayer) where
  -- The queue after a backfill.
  unfoldable pub handle_backfill : ℕ → Store → ℕ → List Frame → List Frame
  handle_backfill from store ci queue =
      backfill_queue (backfill_frames store from ci (scan layer store.inner.wal.file)) ci queue

  -- `process_put` up to the wait: the records are staged, synced and sent. The result is `batch_end`.
  unfoldable pub process_put_stage : Text → List ℕ → Leader → Result ℕ × Leader
  process_put_stage key value l =
      let (r, s) = stage_put layer key value l.store.inner in send_staged r s value l

  -- `process_put` behind the wait: the commit, the commit index, and the commit's record.
  unfoldable pub process_put_commit : ℕ → Leader → Result (Unit {0}) × Leader
  process_put_commit end l =
      let (r, store) = commit_store layer end l.store in send_committed r store end l
