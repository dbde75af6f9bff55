-- ===== src/Segment/Compacted.antt =====
-- What `compact_stage` and `compact_commit` keep of the values of the store.
use shard_vault.Base.{
  ℕ, ◌≡◌, ◌<◌, refl, ap, ◌∙◌, none, some, List, [], if◌then◌else◌, Text, lookup, Text-Key, ℕ-Key,
  arith, ok,
}
use shard_vault.Block.Layer.{BlockLayer}
use shard_vault.Segment.State.{Inner, Store, contains, add_id, drop_id}
use shard_vault.Segment.Write.{content_of}
use shard_vault.Segment.Publish.{commit_store, publish, repoint}
use shard_vault.Segment.Read.{get_value, value_at}
use shard_vault.Segment.ReadBack.{SameData, commit_store-SameData, commit_store-put_locations}
use shard_vault.Segment.Compact.{
  CompactStage, staged, compact_stage, compact_commit, settle, kept_of, live_in, keep_in, drop_in,
}
use shard_vault.Segment.Moved.{last_at, keep_in-Kept, sort_by_offset-All}
use shard_vault.Segment.Repointed.{
  repoint-put_locations, repoint-index_none, repoint-index_some, repoint-SameFiles, put_after,
  loc_after,
}
use shard_vault.Segment.Copied.{copy_values-CopyDone, total_of-keep_in, total_of-sort_by_offset}
use shard_vault.Segment.CompactFiles.{lookup-remove_all}
use shard_vault.Segment.CompactSettled.{
  put_found, Consistent, Settled, get_value-Settled, value_at-Settled,
}
use shard_vault.Segment.CompactRun.{SameMaps, SameMaps-refl, StageOf, compact_stage-StageOf}

module _ (layer : BlockLayer) where
  pub settle-Settled :
      (old horizon : ℕ) (s s' u : Inner) (stage : CompactStage) (bytes : List ℕ)
      → Consistent s
      → StageOf old horizon s s' stage bytes
      → SameData s' u
      → u.put_locations ≡ s'.put_locations
      → Settled old horizon bytes stage.entries s (settle stage u)
  unfolding settle kept_of
  settle-Settled old horizon s s' u stage bytes c g (index, segments, contents) puts =
      let new = s.next_free_id in
      let t = repoint stage.new_id stage.entries u in
      let (same_segments, same_contents) = repoint-SameFiles stage.new_id stage.entries u in
      let index_is : u.index ≡ s.index = index ∙ g.index in
      let puts_is : u.put_locations ≡ s.put_locations = puts ∙ g.put_locations in
      let keep = kept_of old horizon s in
      let kept = sort_by_offset-All _ _ (
        keep_in-Kept old (live_in old s.index) horizon s.put_locations
          (put_found s.put_locations c.one_put)) in
      let small = total_of-keep_in old (live_in old s.index) horizon s.put_locations in
      let sorted =
        total_of-sort_by_offset (keep_in old (live_in old s.index) horizon s.put_locations) in
      let held = c.held in
      let done =
        copy_values-CopyDone _ (content_of old s.contents) keep 0 [] kept refl (omega arith)
          g.copied in
      record {
        files = record {
          handle = g.handle;
          segments =
              ap (λ n. add_id n (drop_id stage.old_id t.segments)) g.new_id
              ∙ ap (λ o. add_id new (drop_id o t.segments)) g.old_id
              ∙ ap (λ xs. add_id new (drop_id old xs)) (same_segments ∙ segments ∙ g.segments);
          contents = same_contents ∙ contents ∙ g.contents;
        };
        entries_from = done.copied;
        kept = done.same_lsns;
        index_none = λ key missing.
            repoint-index_none stage.new_id key stage.entries u
              (ap (lookup key) index_is ∙ missing);
        index_some = λ key loc found keyed.
            repoint-index_some stage.new_id key stage.entries u loc
              (ap (lookup key) index_is ∙ found) keyed
            ∙ ap (λ n. some (loc_after n (last_at loc.lsn stage.entries) loc)) g.new_id;
        put_locations = λ lsn.
            let moved = last_at lsn stage.entries in
            lookup-remove_all lsn stage.dropped t.put_locations
            ∙ ap (λ ds. if contains lsn ds then none else lookup lsn t.put_locations) g.dropped
            ∙ ap
                (λ found. if contains lsn (drop_in old keep s.put_locations).0 then none else found)
                (repoint-put_locations stage.new_id lsn stage.entries u
                  ∙ ap (λ n. put_after n moved (lookup lsn u.put_locations)) g.new_id
                  ∙ ap (λ m. put_after new moved (lookup lsn m)) puts_is);
      }

  -- The store's state `v` may be any with the maps that `compact_stage` left, so that the WAL is
  -- synced in between.
  pub compact_commit-Settled :
      (fuel horizon : ℕ) (st : Store) (stage : CompactStage) (s' v : Inner) (lsn : ℕ) (st' : Store)
      → Consistent st.inner
      → compact_stage layer fuel horizon st.inner ≡ (ok (staged stage), s')
      → SameMaps s' v × (v.pending ≡ s'.pending)
      → commit_store layer lsn (record st { inner = v }) ≡ (ok tt, st')
      → (old : ℕ) × (bytes : List ℕ) × Settled old horizon bytes stage.entries st.inner
          (settle stage st'.inner)
  compact_commit-Settled fuel horizon st stage s' v lsn st' c run (maps, pending) committed =
      let (old, bytes, g) = compact_stage-StageOf layer fuel horizon st.inner run in
      let waits = pending ∙ g.pending in
      let (same, snap) =
        commit_store-SameData layer lsn (record st { inner = v }) waits committed in
      let puts = commit_store-put_locations layer lsn (record st { inner = v }) waits committed in
      let (index, segments, contents) = same in
      (
        old,
        bytes,
        settle-Settled old horizon st.inner s' st'.inner stage bytes c g
            (index ∙ maps.index, segments ∙ maps.segments, contents ∙ maps.contents)
            (puts ∙ maps.put_locations),
      )

  pub get_value_kept :
      (fuel horizon : ℕ) (st : Store) (stage : CompactStage) (s' v : Inner) (lsn : ℕ) (st' : Store)
      (key : Text)
      → Consistent st.inner
      → compact_stage layer fuel horizon st.inner ≡ (ok (staged stage), s')
      → SameMaps s' v × (v.pending ≡ s'.pending)
      → commit_store layer lsn (record st { inner = v }) ≡ (ok tt, st')
      → get_value key (compact_commit stage st').1 ≡ get_value key (publish st)
  unfolding compact_commit publish
  get_value_kept fuel horizon st stage s' v lsn st' key c run same committed =
      let (old, bytes, d) =
        compact_commit-Settled fuel horizon st stage s' v lsn st' c run same committed in
      get_value-Settled old horizon bytes stage.entries st.inner (settle stage st'.inner) c d key

  pub value_at_kept :
      (fuel horizon : ℕ) (st : Store) (stage : CompactStage) (s' v : Inner) (lsn : ℕ) (st' : Store)
      (put_lsn : ℕ)
      → Consistent st.inner
      → compact_stage layer fuel horizon st.inner ≡ (ok (staged stage), s')
      → SameMaps s' v × (v.pending ≡ s'.pending)
      → commit_store layer lsn (record st { inner = v }) ≡ (ok tt, st')
      → horizon < put_lsn
      → value_at put_lsn (compact_commit stage st').1 ≡ value_at put_lsn (publish st)
  unfolding compact_commit publish
  value_at_kept fuel horizon st stage s' v lsn st' put_lsn c run same committed above =
      let (old, bytes, d) =
        compact_commit-Settled fuel horizon st stage s' v lsn st' c run same committed in
      value_at-Settled old horizon bytes stage.entries st.inner (settle stage st'.inner) c d put_lsn
        above

  module _ (fuel horizon : ℕ) (st : Store) (stage : CompactStage) (s' : Inner) (lsn : ℕ)
      (st' : Store) (c : Consistent st.inner)
      (run : compact_stage layer fuel horizon st.inner ≡ (ok (staged stage), s'))
      (committed : commit_store layer lsn (record st { inner = s' }) ≡ (ok tt, st')) where
    -- In a store whose maps agree: after a compaction that returned a stage, a commit that returned
    -- and the end of the compaction, `get` of every key answers what it would have answered on the
    -- state before the compaction.
    pub get_value-compact_commit :
        (key : Text) → get_value key (compact_commit stage st').1 ≡ get_value key (publish st)
    get_value-compact_commit key =
        get_value_kept fuel horizon st stage s' s' lsn st' key c run (SameMaps-refl s', refl)
          committed

    -- In a store whose maps agree: after a compaction that returned a stage, a commit that returned
    -- and the end of the compaction, the value of every LSN above the horizon reads as it would
    -- have on the state before the compaction.
    pub value_at-compact_commit :
        (put_lsn : ℕ)
        → horizon < put_lsn
        → value_at put_lsn (compact_commit stage st').1 ≡ value_at put_lsn (publish st)
    value_at-compact_commit put_lsn above =
        value_at_kept fuel horizon st stage s' s' lsn st' put_lsn c run (SameMaps-refl s', refl)
          committed above
