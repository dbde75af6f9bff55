-- ===== src/Segment/CompactReady.antt =====
-- A compaction keeps the maps of a store in agreement.
use shard_vault.Base.{
  ℕ, ◌+◌, ◌≡◌, ◌<◌, ◌≤◌, ◌^◌, refl, sym, ap, ◌∙◌, Option, Option-cases, Bool-cases, inl, inr, none,
  some, List, All, All-imp, Text, IsMap, All-lookup, lookup, lookup-All, Text-Key, ℕ-Key, ok, arith,
}
use shard_vault.Block.Layer.{BlockLayer}
use shard_vault.Wal.Record.{RemapEntry}
use shard_vault.Segment.State.{Inner, Loc, PutLoc, Store, contains}
use shard_vault.Segment.Publish.{commit_store, publish, repoint}
use shard_vault.Segment.ReadBack.{
  commit_store-SameData, commit_store-put_locations, commit_store-next_free_id,
}
use shard_vault.Segment.Compact.{
  CompactStage, staged, compact_stage, compact_commit, settle, drop_in, kept_of,
}
use shard_vault.Segment.Moved.{last_at, last_at-All, contains-live_in, moved_put, moved_loc}
use shard_vault.Segment.Repointed.{put_after, loc_after, Keyed}
use shard_vault.Segment.Copied.{held_bytes}
use shard_vault.Segment.CompactRun.{StageOf, compact_stage-StageOf}
use shard_vault.Segment.CompactSettled.{Consistent, Settled, not_dropped, keyed}
use shard_vault.Segment.Compacted.{settle-Settled}
use shard_vault.Segment.CompactMaps.{
  remove_all-IsMap, repoint-IsMap_puts, repoint-IsMap_index, held_bytes-remove_all, SameLen,
  repoint-held_bytes, repoint-next_free_id,
}

module _ (old horizon : ℕ) (bytes : List ℕ) (entries : List RemapEntry) (s t : Inner)
    (c : Consistent s) (d : Settled old horizon bytes entries s t) where
  -- The put location behind a compaction of what a key points to.
  live_put :
      (key : Text) (loc : Loc)
      → lookup key s.index ≡ some loc
      → lookup loc.lsn t.put_locations
        ≡ put_after s.next_free_id
            (last_at loc.lsn entries)
            (some (record { key = key; seg = loc.seg; offset = loc.offset; len = loc.len }))
  live_put key loc found =
      let put = lookup-All _ key s.index c.placed found in
      let here : PutLoc = record { key = key; seg = loc.seg; offset = loc.offset; len = loc.len } in
      let spared =
        not_dropped old horizon bytes entries s t c d loc.lsn here put
          (λ seg. let live = contains-live_in old key s.index found seg in ground arith) in
      d.put_locations loc.lsn ∙ rw (spared, put) refl

  placed_at :
      (key : Text) (loc : Loc)
      → lookup key t.index ≡ some loc
      → lookup loc.lsn t.put_locations
        ≡ some (record { key = key; seg = loc.seg; offset = loc.offset; len = loc.len })
  placed_at key loc found = elim (Option-cases (lookup key s.index)) [
    | inl missing ↦ absurd (cc (d.index_none key missing, found))
    | inr (at, before) ↦
        let all = keyed old horizon bytes entries s t c d key at before in
        let after = d.index_some key at before all in
        let both : some loc ≡ some (loc_after s.next_free_id (last_at at.lsn entries) at) =
          sym found ∙ after in
        let one : loc ≡ loc_after s.next_free_id (last_at at.lsn entries) at = cc in
        let put = live_put key at before in
        let move = λ (m : Option RemapEntry). loc_after s.next_free_id m at in
        let entry = λ (m : Option RemapEntry).
          put_after s.next_free_id m
            (some (record { key = key; seg = at.seg; offset = at.offset; len = at.len })) in
        elim (Option-cases (last_at at.lsn entries)) [
          | inl last ↦ let stay : loc ≡ at = one ∙ ap move last in rw stay (put ∙ ap entry last)
          | inr (e, last) ↦
              let (of_key, lsn) = last_at-All (Keyed at.lsn key) at.lsn entries all last in
              let moved : loc ≡ moved_loc s.next_free_id e = one ∙ ap move last in
              rw moved (
                ap (λ n. lookup n t.put_locations) lsn
                ∙ put
                ∙ ap entry last
                ∙ ap
                    (λ k.
                      some
                        (record { key = k; seg = s.next_free_id; offset = e.offset; len = e.len }))
                    (of_key lsn))
        ]
  ]

  given_at :
      (lsn : ℕ) (loc : PutLoc)
      → lookup lsn t.put_locations ≡ some loc
      → loc.seg < s.next_free_id + 1
  given_at lsn loc found =
      let dropped = (drop_in old (kept_of old horizon s) s.put_locations).0 in
      elim (Bool-cases (contains lsn dropped)) [
        | inl gone ↦
            let nothing : lookup lsn t.put_locations ≡ none = d.put_locations lsn ∙ rw gone refl in
            absurd (cc)
        | inr spared ↦ elim (Option-cases (last_at lsn entries)) [
          | inr (e, last) ↦
              let both : some loc ≡ some (moved_put s.next_free_id e) =
                sym found ∙ d.put_locations lsn ∙ rw (spared, last) refl in
              let one : loc ≡ moved_put s.next_free_id e = cc in
              let seg : loc.seg ≡ s.next_free_id = ap (λ (l : PutLoc). l.seg) one in omega arith
          | inl last ↦
              let before : lookup lsn s.put_locations ≡ some loc =
                sym (d.put_locations lsn ∙ rw (spared, last) refl) ∙ found in
              let below = lookup-All _ lsn s.put_locations c.given before in omega arith
        ]
      ]

  Settled-Consistent :
      IsMap t.index
      → IsMap t.put_locations
      → t.next_free_id ≡ s.next_free_id + 1
      → held_bytes t.put_locations ≤ held_bytes s.put_locations
      → Consistent t
  Settled-Consistent index puts ids less =
      let held = c.held in
      record {
        one_place = index;
        one_put = puts;
        placed = All-lookup _ t.index index placed_at;
        given =
            All-lookup _ t.put_locations puts
              (λ lsn loc found. let below = given_at lsn loc found in omega arith);
        held = omega arith;
      }

module _ (layer : BlockLayer) where
  settle-Consistent :
      (old horizon : ℕ) (s s' u : Inner) (stage : CompactStage) (bytes : List ℕ)
      → Consistent s
      → StageOf old horizon s s' stage bytes
      → Settled old horizon bytes stage.entries s (settle stage u)
      → (u.index ≡ s.index)
        × (u.put_locations ≡ s.put_locations)
        × (u.next_free_id ≡ s.next_free_id + 1)
      → Consistent (settle stage u)
  unfolding settle
  settle-Consistent old horizon s s' u stage bytes c g d (index, puts, ids) =
      let t = repoint stage.new_id stage.entries u in
      let one_place : IsMap u.index = rw index c.one_place in
      let one_put : IsMap u.put_locations = rw puts c.one_put in
      let lens : All (SameLen u.put_locations) stage.entries =
        All-imp _ _ (λ e (from, at, read). (_, ap (lookup e.lsn) puts ∙ at, refl)) stage.entries
          d.entries_from in
      let same = repoint-held_bytes stage.new_id stage.entries u lens in
      let fewer = held_bytes-remove_all stage.dropped t.put_locations in
      let before : held_bytes u.put_locations ≡ held_bytes s.put_locations = ap held_bytes puts in
      Settled-Consistent old horizon bytes stage.entries s (settle stage u) c d
        (repoint-IsMap_index stage.new_id stage.entries u one_place)
        (remove_all-IsMap stage.dropped t.put_locations
          (repoint-IsMap_puts stage.new_id stage.entries u one_put))
        (repoint-next_free_id stage.new_id stage.entries u ∙ ids) (omega arith)

  -- In a store whose maps agree and whose next segment id is below 2 ^ 64 - 1: after a compaction that
  -- returned a stage, a commit that returned and the end of the compaction, the maps agree.
  pub compact_commit-Consistent :
      (fuel horizon : ℕ) (st : Store) (stage : CompactStage) (s' : Inner) (lsn : ℕ) (st' : Store)
      → Consistent st.inner
      → st.inner.next_free_id + 1 < 2 ^ 64
      → compact_stage layer fuel horizon st.inner ≡ (ok (staged stage), s')
      → commit_store layer lsn (record st { inner = s' }) ≡ (ok tt, st')
      → Consistent (compact_commit stage st').1.inner
  unfolding compact_commit publish
  compact_commit-Consistent fuel horizon st stage s' lsn st' c small run committed =
      let (old, bytes, g) = compact_stage-StageOf layer fuel horizon st.inner run in
      let mid : Store = record st { inner = s' } in
      let (same, snap) = commit_store-SameData layer lsn mid g.pending committed in
      let puts = commit_store-put_locations layer lsn mid g.pending committed in
      let ids = commit_store-next_free_id layer lsn mid g.pending committed in
      let (index, segments, contents) = same in
      let d = settle-Settled layer old horizon st.inner s' st'.inner stage bytes c g same puts in
      let given = g.next_free_id in
      settle-Consistent old horizon st.inner s' st'.inner stage bytes c g d
        (index ∙ g.index, puts ∙ g.put_locations, omega arith)
