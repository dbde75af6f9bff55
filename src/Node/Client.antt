-- ===== src/Node/Client.antt =====
-- `handle_client` of crates/shardvault-node/src/node.rs: what the leader answers to a request. A put
-- and a compaction are two steps around the wait for a quorum.
use shard_vault.Base.{
  ℕ, Option, none, List, [], ◌∷◌, map, false, if◌then◌else◌, ◌==◌, Text, add64, Result, ok, err,
  StoreError,
}
use shard_vault.Block.Layer.{BlockLayer}
use shard_vault.Segment.Read.{get_upto, capacity}
use shard_vault.Segment.View.{keys_with_prefix}
use shard_vault.Segment.Compact.{CompactStage}
use shard_vault.Node.Frame.{
  Frame, put_req, put_ok, put_err, get_req, get_ok, status_req, status_ok, probe_fsync,
  probe_fsync_resp, compact, compact_done, list_req, list_ok, capacity_req, capacity_ok,
  simulate_failure, simulate_failure_done,
}
use shard_vault.Node.Leader.{FollowerLink, Leader, process_put_stage, process_put_commit}
use shard_vault.Node.Compaction.{
  CompactStart, idle, out_of_rounds, waiting, process_compact_stage, process_compact_commit,
}

-- What the thread of a client does with a frame: a frame is sent, a put or a compaction waits for a
-- quorum at `batch_end`, or nothing is done.
pub data Served : Type 0 where
  sent : Frame → Leader → Served
  put_waits : ℕ → ℕ → Leader → Served
  compaction_waits : ℕ → CompactStage → Leader → Served
  rounds_gone : Leader → Served
  passed_over : Leader → Served

-- A read that fails is answered like a key that is missing.
abbrev pub get_answer : ℕ → Result (Option (List ℕ)) → Frame
get_answer id (ok v) = get_ok id v
get_answer id (err e) = get_ok id none

abbrev pub compaction_answer : Result ℕ → Frame
compaction_answer (ok freed) = compact_done freed
compaction_answer (err e) = compact_done 0

unfoldable pub compaction_served : Result CompactStart × Leader → Served
compaction_served (err e, l) = sent (compact_done 0) l
compaction_served (ok idle, l) = sent (compact_done 0) l
compaction_served (ok out_of_rounds, l) = rounds_gone l
compaction_served (ok (waiting end stage), l) = compaction_waits end stage l

-- The count and the bytes of the keys that are listed, added up.
unfoldable pub brute_of : ℕ × ℕ → List (Text × ℕ) → ℕ × ℕ
brute_of acc [] = acc
brute_of (c, b) ((key, len) ∷ rest) = brute_of (add64 c 1, add64 b len) rest

-- The links to a failed node are down.
unfoldable pub fail_link : ℕ → List FollowerLink → List FollowerLink
fail_link id [] = []
fail_link id (f ∷ fs) =
    let rest = fail_link id fs in if f.id == id then record f { alive = false } ∷ rest else f ∷ rest

-- The messages are those that `thiserror` derives for the errors, and `lost` is the text of
-- `await_quorum`.
module _ (layer : BlockLayer) (message : StoreError → Text) (lost : Text) where
  abbrev pub put_answer : ℕ → Result (Unit {0}) → Frame
  put_answer id (ok done) = put_ok id
  put_answer id (err e) = put_err id (message e)

  abbrev pub put_served : ℕ → Result ℕ × Leader → Served
  put_served id (err e, l) = sent (put_err id (message e)) l
  put_served id (ok end, l) = put_waits id end l

  -- `probes` is the count of fsyncs that the build for fault injection keeps, and `fuel` bounds the
  -- rounds of `compact_stage`.
  unfoldable pub serve : ℕ → ℕ → Frame → Leader → Served
  unfolding compaction_served brute_of fail_link
  serve fuel probes (put_req id key value) l = put_served id (process_put_stage layer key value l)
  serve fuel probes (get_req id key) l =
      sent (get_answer id (get_upto key l.commit_index l.store)) l
  serve fuel probes status_req l =
      sent
        (status_ok l.commit_index (map (λ (f : FollowerLink). (f.id, f.match_index)) l.followers)) l
  serve fuel probes probe_fsync l = sent (probe_fsync_resp probes) l
  serve fuel probes compact l = compaction_served (process_compact_stage layer fuel l)
  serve fuel probes (list_req id prefix) l = sent (list_ok id (keys_with_prefix prefix l.store)) l
  serve fuel probes (capacity_req id prefix) l =
      let agg = capacity prefix l.store in
      sent
        (capacity_ok id (agg.object_count, agg.byte_count)
          (brute_of (0, 0) (keys_with_prefix prefix l.store)))
        l
  serve fuel probes (simulate_failure node) l =
      sent simulate_failure_done (record l { followers = fail_link node l.followers })
  serve fuel probes _ l = passed_over l

  -- What is answered once the quorum has been waited for, and where it is lost.
  unfoldable pub serve_put : ℕ → ℕ → Leader → Frame × Leader
  serve_put id end l = let (r, after) = process_put_commit layer end l in (put_answer id r, after)

  unfoldable pub put_lost : ℕ → Frame
  put_lost id = put_err id lost

  unfoldable pub serve_compaction : ℕ → CompactStage → Leader → Frame × Leader
  serve_compaction end stage l =
      let (r, after) = process_compact_commit layer end stage l in (compaction_answer r, after)
