-- ===== src/Node/Compaction.antt =====
-- `process_compact` of crates/shardvault-node/src/node.rs, in two steps around `await_quorum`.
use shard_vault.Base.{ℕ, ◌-◌, min, none, List, [], ◌∷◌, Result, ok, err}
use shard_vault.Block.Layer.{BlockLayer}
use shard_vault.Wal.Record.{commit}
use shard_vault.Wal.Log.{last_lsn}
use shard_vault.Segment.State.{Inner, Store}
use shard_vault.Segment.Publish.{sync_wal, commit_store}
use shard_vault.Segment.Compact.{
  CompactStage, Compaction, nothing, rounds_ran_out, staged, compact_stage, compact_commit,
}
use shard_vault.Node.Leader.{FollowerLink, Leader, send_batch}

-- The least `committed_through` of a link and those behind it.
unfoldable pub least_through : ℕ → List FollowerLink → ℕ
least_through n [] = n
least_through n (f ∷ fs) = least_through (min n f.committed_through) fs

abbrev pub horizon_from : ℕ → List FollowerLink → ℕ
horizon_from commit_index [] = commit_index
horizon_from commit_index (f ∷ fs) = least_through f.committed_through fs

-- No follower may need a value at an LSN up to the horizon.
unfoldable pub horizon_of : Leader → ℕ
unfolding least_through
horizon_of l = horizon_from l.commit_index l.followers

-- What the first step leaves to do: nothing, since no segment has bytes to reclaim, or to wait for a
-- quorum at `batch_end`. The rounds of the loop of `compact_stage` may run out.
pub data CompactStart : Type 0 where
  idle : CompactStart
  out_of_rounds : CompactStart
  waiting : ℕ → CompactStage → CompactStart

unfoldable pub send_compaction : Result Compaction → Inner → Leader → Result CompactStart × Leader
send_compaction (err e) s l = (err e, record l { store = record l.store { inner = s } })
send_compaction (ok nothing) s l = (ok idle, record l { store = record l.store { inner = s } })
send_compaction (ok rounds_ran_out) s l =
    (ok out_of_rounds, record l { store = record l.store { inner = s } })
send_compaction (ok (staged stage)) s l =
    let end = last_lsn stage.records in
    (
      ok (waiting end stage),
      record l {
        store = record l.store { inner = sync_wal s };
        followers = send_batch stage.records none end l.followers;
      },
    )

unfoldable pub finish_compaction :
    Result (Unit {0}) → Store → ℕ → CompactStage → Leader → Result ℕ × Leader
finish_compaction (err e) store end stage l = (err e, record l { store = store })
finish_compaction (ok done) store end stage l =
    let block = store.inner.wal.next_lsn - 1 in
    let (freed, after) = compact_commit stage store in
    (
      ok freed,
      record l {
        store = after;
        commit_index = block;
        followers = send_batch ((block, commit end) ∷ []) none block l.followers;
      },
    )

module _ (layer : BlockLayer) where
  unfoldable pub process_compact_stage : ℕ → Leader → Result CompactStart × Leader
  unfolding horizon_of send_compaction
  process_compact_stage fuel l =
      let (r, s) = compact_stage layer fuel (horizon_of l) l.store.inner in send_compaction r s l

  unfoldable pub process_compact_commit : ℕ → CompactStage → Leader → Result ℕ × Leader
  unfolding finish_compaction
  process_compact_commit end stage l =
      let (r, store) = commit_store layer end l.store in finish_compaction r store end stage l
