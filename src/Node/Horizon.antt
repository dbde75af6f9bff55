-- ===== src/Node/Horizon.antt =====
-- A compaction leaves what a backfill of any follower may ask for.
use shard_vault.Base.{
  ℕ, ◌≡◌, ◌≤◌, ◌<◌, refl, sym, ap, ◌∙◌, min, Bool-cases, inl, inr, some, List, [], ◌∷◌, ◌++◌, ltb,
  ◌||◌, Result, ok, err, ◌>>=◌, arith,
}
use shard_vault.Block.Layer.{BlockLayer}
use shard_vault.Wal.Record.{
  Record, put, commit, segment_seal, agg_delta, segment_swap, segment_remap,
}
use shard_vault.Wal.Log.{Entries}
use shard_vault.Segment.State.{Inner, Store}
use shard_vault.Segment.Publish.{sync_wal, commit_store, publish}
use shard_vault.Segment.Read.{value_at}
use shard_vault.Segment.Compact.{
  CompactStage, Compaction, nothing, rounds_ran_out, staged, compact_stage, compact_commit,
}
use shard_vault.Segment.CompactRun.{SameMaps}
use shard_vault.Segment.CompactSettled.{Consistent}
use shard_vault.Segment.Compacted.{value_at_kept}
use shard_vault.Node.Leader.{FollowerLink, Leader, backfill_data, backfill_frames}
use shard_vault.Node.Compaction.{
  least_through, horizon_of, waiting, send_compaction, finish_compaction, process_compact_stage,
  process_compact_commit,
}

least_through_le : (n : ℕ) (fs : List FollowerLink) → least_through n fs ≤ n
unfolding least_through
least_through_le n [] = omega arith
least_through_le n (f ∷ fs) =
    let rest = least_through_le (min n f.committed_through) fs in omega arith

least_through_le_link :
    (n : ℕ) (before : List FollowerLink) (f : FollowerLink) (after : List FollowerLink)
    → least_through n (before ++ f ∷ after) ≤ f.committed_through
unfolding least_through
least_through_le_link n [] f after =
    let rest = least_through_le (min n f.committed_through) after in omega arith
least_through_le_link n (g ∷ before) f after =
    least_through_le_link (min n g.committed_through) before f after

-- The horizon is at most what any follower has committed.
horizon_of_le :
    (l : Leader) (before : List FollowerLink) (f : FollowerLink) (after : List FollowerLink)
    → l.followers ≡ before ++ f ∷ after
    → horizon_of l ≤ f.committed_through
unfolding horizon_of
horizon_of_le l [] f after links = rw links (least_through_le f.committed_through after)
horizon_of_le l (g ∷ before) f after links =
    rw links (least_through_le_link g.committed_through before f after)

backfill_data-same :
    (s t : Store) (lsn : ℕ) (rec : Record)
    → value_at lsn t ≡ value_at lsn s
    → backfill_data lsn rec t ≡ backfill_data lsn rec s
backfill_data-same s t lsn (put key len stripe_id) e = ap (λ r. r >>= λ value. ok (some value)) e
backfill_data-same s t lsn (commit n) e = refl
backfill_data-same s t lsn (segment_seal a b) e = refl
backfill_data-same s t lsn (agg_delta ds) e = refl
backfill_data-same s t lsn (segment_swap a b) e = refl
backfill_data-same s t lsn (segment_remap a es) e = refl

-- Backfills of stores that read the same values from an LSN on are the same.
backfill_frames-same :
    (s t : Store) (from ci : ℕ) (es : Entries)
    → ((lsn : ℕ) → from ≤ lsn → value_at lsn t ≡ value_at lsn s)
    → backfill_frames t from ci es ≡ backfill_frames s from ci es
unfolding backfill_frames
backfill_frames-same s t from ci [] same = refl
backfill_frames-same s t from ci ((lsn, rec) ∷ es) same =
    let rest = backfill_frames-same s t from ci es same in
    elim (Bool-cases (ltb lsn from || ltb ci lsn)) [
      | inl outside ↦ rw outside rest
      | inr inside ↦
          let carried : backfill_data lsn rec t ≡ backfill_data lsn rec s =
            backfill_data-same s t lsn rec (same lsn (ground arith)) in
          rw (inside, carried, rest) refl
    ]

send_compaction-waiting :
    (r : Result Compaction) (s : Inner) (l : Leader) {end : ℕ} {stage : CompactStage} {l1 : Leader}
    → send_compaction r s l ≡ (ok (waiting end stage), l1)
    → (r ≡ ok (staged stage)) × (l1.store ≡ record l.store { inner = sync_wal s })
unfolding send_compaction
send_compaction-waiting (err e) s l h = absurd (cc)
send_compaction-waiting (ok nothing) s l h = absurd (cc)
send_compaction-waiting (ok rounds_ran_out) s l h = absurd (cc)
send_compaction-waiting (ok (staged stage)) s l h = (cc, cc)

finish_compaction-ok :
    (r : Result (Unit {0})) (store : Store) (end : ℕ) (stage : CompactStage) (l : Leader)
    {freed : ℕ} {l2 : Leader}
    → finish_compaction r store end stage l ≡ (ok freed, l2)
    → (r ≡ ok tt) × (l2.store ≡ (compact_commit stage store).1)
unfolding finish_compaction
finish_compaction-ok (err e) store end stage l h = absurd (cc)
finish_compaction-ok (ok done) store end stage l h =
    (refl, sym (ap (λ (q : Result ℕ × Leader). q.1.store) h))

sync_wal-SameMaps : (s : Inner) → SameMaps s (sync_wal s) × ((sync_wal s).pending ≡ s.pending)
unfolding sync_wal
sync_wal-SameMaps s = (
  record {
    index = refl;
    put_locations = refl;
    segments = refl;
    contents = refl;
    next_free_id = refl;
  },
  refl,
)

module _ (layer : BlockLayer) where
  -- Where the maps of the leader's store agree, and the store is as the first step of a compaction
  -- left it when the second is taken: what a backfill from an LSN above the `committed_through` of
  -- any of the followers carries is the same on the store behind the compaction and on the state
  -- before it.
  pub backfill_frames-process_compact :
      (fuel : ℕ) (l l1 l1' l2 : Leader) (end freed : ℕ) (stage : CompactStage)
      (before : List FollowerLink) (f : FollowerLink) (after : List FollowerLink) (from ci : ℕ)
      (es : Entries)
      → Consistent l.store.inner
      → process_compact_stage layer fuel l ≡ (ok (waiting end stage), l1)
      → l1'.store ≡ l1.store
      → process_compact_commit layer end stage l1' ≡ (ok freed, l2)
      → l.followers ≡ before ++ f ∷ after
      → f.committed_through < from
      → backfill_frames l2.store from ci es ≡ backfill_frames (publish l.store) from ci es
  unfolding process_compact_stage process_compact_commit
  backfill_frames-process_compact fuel l l1 l1' l2 end freed stage before f after from ci es c first
        waited second links above =
      let run = compact_stage layer fuel (horizon_of l) l.store.inner in
      let (ran, start) = send_compaction-waiting run.0 run.1 l first in
      let commit_run = commit_store layer end l1'.store in
      let (done, finish) = finish_compaction-ok commit_run.0 commit_run.1 end stage l1' second in
      let store_is : l1'.store ≡ record l.store { inner = sync_wal run.1 } = waited ∙ start in
      let committed : commit_store layer end (record l.store { inner = sync_wal run.1 })
          ≡ (ok tt, commit_run.1) =
        sym (ap (commit_store layer end) store_is) ∙ ap (λ r. (r, commit_run.1)) done in
      let below = horizon_of_le l before f after links in
      backfill_frames-same (publish l.store) l2.store from ci es (λ lsn up.
        ap (value_at lsn) finish
        ∙ value_at_kept layer fuel (horizon_of l) l.store stage run.1 (sync_wal run.1) end
            commit_run.1 lsn c (ap (λ r. (r, run.1)) ran) (sync_wal-SameMaps run.1) committed
            (omega arith))
