-- ===== src/Node/Apply.antt =====
-- `apply_loop` of crates/shardvault-node/src/node.rs: what a follower does with the frames of a
-- connection, and what it answers.
use shard_vault.Base.{ℕ, ◌+◌, Option, List, [], ◌∷◌, leb, if◌then◌else◌, Result, ok, err}
use shard_vault.Block.Layer.{BlockLayer}
use shard_vault.Wal.Record.{Record}
use shard_vault.Segment.State.{Inner, Store}
use shard_vault.Segment.Apply.{apply_record}
use shard_vault.Segment.Publish.{sync_all}
use shard_vault.Node.Frame.{Frame, append, sync_barrier, sync_ack, need_from}

-- What the loop goes on with: the store, the frame that is sent, and whether the connection goes on.
pub data Turn : Type 0 where
  go_on : Store → Turn
  answer : Frame → Store → Turn
  stop : Store → Turn

-- The first frame of a connection.
unfoldable pub hello_answer : Store → Frame
hello_answer st = need_from (st.inner.last_commit_block + 1)

abbrev pub applied : Result (Unit {0}) → Inner → Store → Turn
applied (err e) s st = stop (record st { inner = s })
applied (ok done) s st = go_on (record st { inner = s })

abbrev pub synced : Result (Unit {0}) × Store → Turn
synced (err e, st) = stop st
synced (ok done, st) = answer (sync_ack st.inner.applied_upto) st

module _ (layer : BlockLayer) where
  -- The records that a `Commit` covers are passed over.
  unfoldable pub apply_append : ℕ → Record → Option (List ℕ) → Store → Turn
  apply_append lsn rec value st =
      if leb lsn st.inner.last_commit_block
      then go_on st
      else (let (r, s) = apply_record layer lsn rec value st.inner in applied r s st)

  unfoldable pub apply_frame : Frame → Store → Turn
  unfolding apply_append
  apply_frame (append lsn rec value) st = apply_append lsn rec value st
  apply_frame (sync_barrier lsn) st = synced (sync_all st)
  apply_frame _ st = go_on st

  -- The frames of a connection in their order: what is answered, and the store in the end.
  unfoldable pub apply_frames : List Frame → Store → List Frame × Store
  unfolding apply_frame
  apply_frames [] st = ([], st)
  apply_frames (f ∷ fs) st = elim (apply_frame f st) [
    | stop after ↦ ([], after)
    | go_on after ↦ apply_frames fs after
    | answer frame after ↦ let (frames, last) = apply_frames fs after in (frame ∷ frames, last)
  ]
