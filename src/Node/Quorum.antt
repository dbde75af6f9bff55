-- ===== src/Node/Quorum.antt =====
-- What a quorum acknowledged stays acknowledged.
use shard_vault.Base.{
  ℕ, ◌+◌, ◌≤◌, ◌≡◌, refl, ap, ◌∙◌, Bool-cases, inl, inr, some, true, false, List, [], ◌∷◌, map, leb,
  if◌then◌else◌, ◌==◌, Text, Result, ok, err, arith,
}
use mathlib.Core.Option.{some_inj, none-ne-some}
use shard_vault.Block.Layer.{BlockLayer}
use shard_vault.Wal.Log.{Entries}
use shard_vault.Segment.State.{Inner, Store}
use shard_vault.Segment.Write.{stage_put}
use shard_vault.Segment.Publish.{commit_store}
use shard_vault.Segment.Compact
use shard_vault.Segment.Compact.{CompactStage, Compaction, nothing, rounds_ran_out, compact_stage}
use shard_vault.Node.Compaction.{
  horizon_of, send_compaction, finish_compaction, process_compact_stage, process_compact_commit,
}
use shard_vault.Node.Frame.{Frame, sync_ack, need_from}
use shard_vault.Node.Client.{fail_link}
use shard_vault.Node.Dialer.{
  on_link, pop_front, behind_front, backfill_link, write_frame, link_up, link_frame, link_down,
}
use shard_vault.Node.Leader.{
  FollowerLink, Leader, enqueue, send_batch, send_staged, send_committed, handle_backfill, acked_by,
  quorum_reached, record_ack, process_put_stage, process_put_commit,
}

acked_by-record_ack :
    (end id lsn ci : ℕ) (fs : List FollowerLink)
    → acked_by end fs ≤ acked_by end (record_ack id lsn ci fs)
unfolding acked_by record_ack
acked_by-record_ack end id lsn ci [] = omega arith
acked_by-record_ack end id lsn ci (f ∷ fs) =
    let rest = acked_by-record_ack end id lsn ci fs in ground arith

acked_by-map :
    (end : ℕ) (frames : List Frame) (fs : List FollowerLink)
    → acked_by end (map (enqueue frames) fs) ≡ acked_by end fs
unfolding acked_by
acked_by-map end frames [] = refl
acked_by-map end frames (f ∷ fs) =
    ap (λ n. (if leb end f.match_index then 1 else 0) + n) (acked_by-map end frames fs)

-- A change of one link that keeps its `match_index` keeps the count.
acked_by-on_link :
    (end id : ℕ) (change : FollowerLink → FollowerLink)
    → ((f : FollowerLink) → (change f).match_index ≡ f.match_index)
    → (fs : List FollowerLink) → acked_by end (on_link id change fs) ≡ acked_by end fs
unfolding acked_by on_link
acked_by-on_link end id change kept [] = refl
acked_by-on_link end id change kept (f ∷ fs) =
    let rest = acked_by-on_link end id change kept fs in
    elim (Bool-cases (f.id == id)) [
      | inl this ↦ rw (this, kept f, rest) refl
      | inr other ↦ rw (other, rest) refl
    ]

acked_by-fail_link :
    (end id : ℕ) (fs : List FollowerLink) → acked_by end (fail_link id fs) ≡ acked_by end fs
unfolding acked_by fail_link
acked_by-fail_link end id [] = refl
acked_by-fail_link end id (f ∷ fs) = let rest = acked_by-fail_link end id fs in ground arith

-- A put's steps leave the quorum and the acknowledgements as they are.
acked_by-send_staged :
    (end : ℕ) (r : Result (ℕ × Entries)) (s : Inner) (value : List ℕ) (l : Leader)
    → (acked_by end (send_staged r s value l).1.followers ≡ acked_by end l.followers)
      × ((send_staged r s value l).1.quorum ≡ l.quorum)
unfolding send_batch
acked_by-send_staged end (err e) s value l = (refl, refl)
acked_by-send_staged end (ok (id, records)) s value l = (acked_by-map end _ l.followers, refl)

acked_by-send_committed :
    (end : ℕ) (r : Result (Unit {0})) (store : Store) (block : ℕ) (l : Leader)
    → (acked_by end (send_committed r store block l).1.followers ≡ acked_by end l.followers)
      × ((send_committed r store block l).1.quorum ≡ l.quorum)
unfolding send_batch
acked_by-send_committed end (err e) store block l = (refl, refl)
acked_by-send_committed end (ok done) store block l = (acked_by-map end _ l.followers, refl)

-- A compaction's steps leave them too.
acked_by-send_compaction :
    (end : ℕ) (r : Result Compaction) (s : Inner) (l : Leader)
    → (acked_by end (send_compaction r s l).1.followers ≡ acked_by end l.followers)
      × ((send_compaction r s l).1.quorum ≡ l.quorum)
unfolding send_compaction send_batch
acked_by-send_compaction end (err e) s l = (refl, refl)
acked_by-send_compaction end (ok nothing) s l = (refl, refl)
acked_by-send_compaction end (ok rounds_ran_out) s l = (refl, refl)
acked_by-send_compaction end (ok (Compact.staged stage)) s l =
    (acked_by-map end _ l.followers, refl)

acked_by-finish_compaction :
    (end : ℕ) (r : Result (Unit {0})) (store : Store) (block : ℕ) (stage : CompactStage)
    (l : Leader)
    → (acked_by end (finish_compaction r store block stage l).1.followers
        ≡ acked_by end l.followers)
      × ((finish_compaction r store block stage l).1.quorum ≡ l.quorum)
unfolding finish_compaction send_batch
acked_by-finish_compaction end (err e) store block stage l = (refl, refl)
acked_by-finish_compaction end (ok done) store block stage l =
    (acked_by-map end _ l.followers, refl)

-- A quorum that is counted stays one where no count falls and the quorum's size is the same.
quorum_reached_mono :
    (end : ℕ) (l m : Leader)
    → acked_by end l.followers ≤ acked_by end m.followers
    → m.quorum ≡ l.quorum
    → quorum_reached end l ≡ true
    → quorum_reached end m ≡ true
unfolding quorum_reached
quorum_reached_mono end l m more same h = ground arith

module _ (layer : BlockLayer) where
  acked_by-backfill_link :
      (end id from : ℕ) (l : Leader)
      → acked_by end (backfill_link layer id from l).followers ≡ acked_by end l.followers
  unfolding backfill_link
  acked_by-backfill_link end id from l =
      acked_by-on_link end id
        (λ f. record f { queue = handle_backfill layer from l.store l.commit_index f.queue })
        (λ f. refl) l.followers

  quorum-backfill_link :
      (id from : ℕ) (l : Leader) → (backfill_link layer id from l).quorum ≡ l.quorum
  unfolding backfill_link
  quorum-backfill_link id from l = refl

  -- A follower's frame lets no count fall, and its connection keeps every count.
  link_frame_acked :
      (end id : ℕ) (frame : Frame) (l : Leader)
      → (acked_by end l.followers ≤ acked_by end (link_frame layer id frame l).followers)
        × ((link_frame layer id frame l).quorum ≡ l.quorum)
  unfolding link_frame
  link_frame_acked end id (sync_ack lsn) l =
      (acked_by-record_ack end id lsn l.commit_index l.followers, refl)
  link_frame_acked end id (need_from from) l =
      let same = acked_by-backfill_link end id from l in
      (omega (arith, same), quorum-backfill_link id from l)
  link_frame_acked end id _ l = (omega arith, refl)

  link_up_acked :
      (end id : ℕ) (frame : Frame) (l : Leader) {m : Leader}
      → link_up layer id frame l ≡ some m
      → (acked_by end m.followers ≡ acked_by end l.followers) × (m.quorum ≡ l.quorum)
  unfolding link_up
  link_up_acked end id (need_from from) l h =
      let is = some_inj.0 h in
      let raised =
        acked_by-on_link end id (λ f. record f { alive = true }) (λ f. refl)
          (backfill_link layer id from l).followers in
      (
        rw⁻¹ is (raised ∙ acked_by-backfill_link end id from l),
        rw⁻¹ is (quorum-backfill_link id from l),
      )
  link_up_acked end id _ l h = absurd (none-ne-some _ h)

  -- What the threads of the leader do: a follower's link comes up, receives a frame, sends one, goes
  -- down or is failed by a client, and a put or a compaction takes one of its two steps, of which the
  -- second waits for a quorum.
  pub data Step (l : Leader) : Leader → Type 0 where
    connected : (id : ℕ) (frame : Frame) {m : Leader} → link_up layer id frame l ≡ some m → Step l m
    received : (id : ℕ) (frame : Frame) → Step l (link_frame layer id frame l)
    written : (id : ℕ) → Step l (write_frame id l)
    disconnected : (id : ℕ) → Step l (link_down id l)
    failed : (id : ℕ) → Step l (record l { followers = fail_link id l.followers })
    staged : (key : Text) (value : List ℕ) → Step l (process_put_stage layer key value l).1
    committed : (end : ℕ) → quorum_reached end l ≡ true → Step l (process_put_commit layer end l).1
    compact_staged : (fuel : ℕ) → Step l (process_compact_stage layer fuel l).1
    compact_committed :
        (end : ℕ) (stage : CompactStage)
        → quorum_reached end l ≡ true
        → Step l (process_compact_commit layer end stage l).1

  pub data Reaches (l : Leader) : Leader → Type 0 where
    here : Reaches l l
    later : {m n : Leader} → Reaches l m → Step m n → Reaches l n

  quorum_reached-Step :
      (end : ℕ) {l m : Leader}
      → Step l m
      → quorum_reached end l ≡ true
      → quorum_reached end m ≡ true
  unfolding quorum_reached process_put_stage process_put_commit process_compact_stage
      process_compact_commit link_down write_frame
  quorum_reached-Step end {l} {m} (connected id frame up) h =
      let (same, quorum) = link_up_acked end id frame l up in rw (same, quorum) h
  quorum_reached-Step end {l} (received id frame) h =
      let (more, quorum) = link_frame_acked end id frame l in
      quorum_reached_mono end l (link_frame layer id frame l) more quorum h
  quorum_reached-Step end {l} (written id) h =
      rw
        (acked_by-on_link end id (λ f. record f { queue = behind_front (pop_front f.queue) })
          (λ f. refl) l.followers)
        h
  quorum_reached-Step end {l} (disconnected id) h =
      rw (acked_by-on_link end id (λ f. record f { alive = false }) (λ f. refl) l.followers) h
  quorum_reached-Step end {l} (failed id) h = rw (acked_by-fail_link end id l.followers) h
  quorum_reached-Step end {l} (staged key value) h =
      let (same, quorum) =
        acked_by-send_staged end (stage_put layer key value l.store.inner).0
          (stage_put layer key value l.store.inner).1 value l in
      rw (same, quorum) h
  quorum_reached-Step end {l} (committed block q) h =
      let (same, quorum) =
        acked_by-send_committed end (commit_store layer block l.store).0
          (commit_store layer block l.store).1 block l in
      rw (same, quorum) h
  quorum_reached-Step end {l} (compact_staged fuel) h =
      let run = compact_stage layer fuel (horizon_of l) l.store.inner in
      let (same, quorum) = acked_by-send_compaction end run.0 run.1 l in rw (same, quorum) h
  quorum_reached-Step end {l} (compact_committed block stage q) h =
      let run = commit_store layer block l.store in
      let (same, quorum) = acked_by-finish_compaction end run.0 run.1 block stage l in
      rw (same, quorum) h

  -- Once a quorum, the leader counted, has acknowledged the fsync of the log up to an LSN, it has
  -- done so in every state that the leader reaches.
  pub quorum_reached-Reaches :
      (end : ℕ) (l : Leader) {m : Leader}
      → quorum_reached end l ≡ true
      → Reaches l m
      → quorum_reached end m ≡ true
  quorum_reached-Reaches end l h here = h
  quorum_reached-Reaches end l h (later reached step) =
      quorum_reached-Step end step (quorum_reached-Reaches end l h reached)
