-- ===== src/Segment/Read.antt =====
-- The reads of `Store` and `StoreView` of crates/shardvault-core/src/segment.rs. Each loads the
-- snapshot; a handle reads what its file holds at the time.
use shard_vault.Base.{
  ℕ, Bool, true, false, Option, none, some, List, [], ◌∷◌, leb, ltb, filter, map, if◌then◌else◌,
  ◌&&◌, Text, text_eq, Map, lookup, Text-Key, ℕ-Key, Result, ok, err, corrupt, segment_not_open,
  no_put_at,
}
use shard_vault.Rollup.Aggregate.{Aggregate, get}
use shard_vault.Rollup.Prefixes.{parts_of}
use shard_vault.Segment.State.{Store, Snap, Loc, contains}
use shard_vault.Segment.Write.{content_of, read_value}

-- The handle's file, read at a place.
unfoldable pub read_at : ℕ → ℕ → ℕ → Map ℕ (List ℕ) → Snap → Result (List ℕ)
read_at seg offset len contents snap =
    if contains seg snap.files
    then read_value (content_of seg contents) offset len
    else err (corrupt segment_not_open)

-- `.map(Some)`
abbrev pub found : Result (List ℕ) → Result (Option (List ℕ))
found (ok v) = ok (some v)
found (err e) = err e

unfoldable pub get_value : Text → Store → Result (Option (List ℕ))
unfolding read_at
get_value key st = elim (lookup key st.snap.index) [
  | none ↦ ok none
  | some loc ↦ found (read_at loc.seg loc.offset loc.len st.inner.contents st.snap)
]

unfoldable pub get_upto : Text → ℕ → Store → Result (Option (List ℕ))
unfolding read_at
get_upto key committed st = elim (lookup key st.snap.index) [
  | none ↦ ok none
  | some loc ↦
      if ltb committed loc.lsn
      then ok none
      else found (read_at loc.seg loc.offset loc.len st.inner.contents st.snap)
]

unfoldable pub value_at : ℕ → Store → Result (List ℕ)
unfolding read_at
value_at lsn st = elim (lookup lsn st.snap.put_locations) [
  | none ↦ err (corrupt (no_put_at lsn))
  | some loc ↦ read_at loc.seg loc.offset loc.len st.inner.contents st.snap
]

unfoldable pub capacity : Text → Store → Aggregate
capacity prefix st = get prefix st.snap.rollup

-- `segs.len() < ksegs.len() && segs.iter().zip(ksegs.iter()).all(|(a, b)| a == b)`
unfoldable pub proper_prefix : List Text → List Text → Bool
proper_prefix [] [] = false
proper_prefix [] (k ∷ ks) = true
proper_prefix (s ∷ ss) [] = false
proper_prefix (s ∷ ss) (k ∷ ks) = text_eq s k && proper_prefix ss ks

-- The entries that `keys_with_prefix` lists, before it sorts them.
unfoldable pub committed_under : List Text → ℕ → Map Text Loc → List (Text × ℕ)
unfolding proper_prefix
committed_under segs committed [] = []
committed_under segs committed ((key, loc) ∷ rest) =
    let more = committed_under segs committed rest in
    if leb loc.lsn committed && proper_prefix segs (parts_of key)
    then (key, loc.len) ∷ more
    else more

unfoldable pub committed_keys : Store → List (Text × ℕ)
committed_keys st =
    map (λ e. (e.0, e.1.len)) (filter (λ e. leb e.1.lsn st.snap.committed) st.snap.index)
