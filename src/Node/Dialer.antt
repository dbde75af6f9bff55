-- ===== src/Node/Dialer.antt =====
-- `dialer_loop`, `writer_loop` and the wait of `await_quorum` of crates/shardvault-node/src/node.rs:
-- what the thread of a follower does to its link, and when a wait gives up.
use shard_vault.Base.{
  ℕ, ◌+◌, Bool, true, false, ◌&&◌, Option, none, some, List, [], ◌∷◌, ltb, if◌then◌else◌, ◌==◌,
}
use shard_vault.Block.Layer.{BlockLayer}
use shard_vault.Node.Frame.{Frame, sync_ack, need_from}
use shard_vault.Node.Leader.{FollowerLink, Leader, quorum_reached, record_ack, handle_backfill}

unfoldable pub on_link : ℕ → (FollowerLink → FollowerLink) → List FollowerLink → List FollowerLink
on_link id change [] = []
on_link id change (f ∷ fs) =
    let rest = on_link id change fs in if f.id == id then change f ∷ rest else f ∷ rest

unfoldable pub alive_count : List FollowerLink → ℕ
alive_count [] = 0
alive_count (f ∷ fs) = (if f.alive then 1 else 0) + alive_count fs

-- What a round of `await_quorum` finds: `late` says whether the deadline has passed.
pub data Wait : Type 0 where
  reached quorum_lost again : Wait

unfoldable pub await_round : ℕ → Bool → Leader → Wait
unfolding alive_count
await_round end late l =
    if quorum_reached end l
    then reached
    else if ltb (1 + alive_count l.followers) l.quorum && late
    then quorum_lost
    else again

-- `writer_loop` takes the first frame of the queue.
abbrev pub pop_front : List Frame → Option (Frame × List Frame)
pop_front [] = none
pop_front (frame ∷ queue) = some (frame, queue)

-- The queue after that.
abbrev pub behind_front : Option (Frame × List Frame) → List Frame
behind_front none = []
behind_front (some (frame, queue)) = queue

unfoldable pub write_frame : ℕ → Leader → Leader
unfolding on_link
write_frame id l = record l {
  followers = on_link id (λ f. record f { queue = behind_front (pop_front f.queue) }) l.followers;
}

module _ (layer : BlockLayer) where
  unfoldable pub backfill_link : ℕ → ℕ → Leader → Leader
  unfolding on_link
  backfill_link id from l = record l {
    followers =
        on_link id
          (λ f. record f { queue = handle_backfill layer from l.store l.commit_index f.queue })
          l.followers;
  }

  -- The answer to `Hello`: without a `NeedFrom` the follower is dialed again.
  unfoldable pub link_up : ℕ → Frame → Leader → Option Leader
  unfolding backfill_link on_link
  link_up id (need_from from) l =
      let filled = backfill_link id from l in
      some
        (record filled { followers = on_link id (λ f. record f { alive = true }) filled.followers })
  link_up id _ l = none

  -- A frame that the follower sends later.
  unfoldable pub link_frame : ℕ → Frame → Leader → Leader
  unfolding backfill_link
  link_frame id (sync_ack lsn) l = record l {
    followers = record_ack id lsn l.commit_index l.followers;
  }
  link_frame id (need_from from) l = backfill_link id from l
  link_frame id _ l = l

unfoldable pub link_down : ℕ → Leader → Leader
unfolding on_link
link_down id l = record l { followers = on_link id (λ f. record f { alive = false }) l.followers }
