-- ===== src/Segment/View.antt =====
-- `StoreView`, the accessors of `Store` and the sorted listing of
-- crates/shardvault-core/src/segment.rs. A view shares the snapshot of its store, so that it reads
-- what the store publishes later.
use shard_vault.Base.{
  ℕ, Bool, true, false, Option, none, some, List, [], ◌∷◌, leb, ltb, map, if◌then◌else◌, ◌==◌, Text,
  Map, lookup, Text-Key, Result, ok,
}
use shard_vault.Block.Layer.{BlockLayer}
use shard_vault.Rollup.Aggregate.{Aggregate, get}
use shard_vault.Rollup.Prefixes.{parts_of}
use shard_vault.Wal.Log.{Entries, scan}
use shard_vault.Segment.State.{Store, Snap}
use shard_vault.Segment.Read.{found, read_at, committed_under}

-- The order of strings: byte by byte, a prefix before the longer one.
unfoldable pub text_before : Text → Text → Bool
text_before xs [] = false
text_before [] (y ∷ ys) = true
text_before (x ∷ xs) (y ∷ ys) = let rest = text_before xs ys in if x == y then rest else ltb x y

-- The order of the pairs that `keys.sort()` compares: `a` is not behind `b`.
unfoldable pub key_leb : Text × ℕ → Text × ℕ → Bool
unfolding text_before
key_leb a b =
    if text_before a.0 b.0 then true else if text_before b.0 a.0 then false else leb a.1 b.1

unfoldable pub insert_key : Text × ℕ → List (Text × ℕ) → List (Text × ℕ)
unfolding key_leb
insert_key k [] = k ∷ []
insert_key k (j ∷ js) = let rest = insert_key k js in if key_leb k j then k ∷ j ∷ js else j ∷ rest

-- `keys.sort()`
unfoldable pub sort_keys : List (Text × ℕ) → List (Text × ℕ)
unfolding insert_key
sort_keys [] = []
sort_keys (k ∷ ks) = insert_key k (sort_keys ks)

unfoldable pub keys_with_prefix : Text → Store → List (Text × ℕ)
unfolding sort_keys
keys_with_prefix prefix st =
    sort_keys (committed_under (parts_of prefix) st.snap.committed st.snap.index)

unfoldable pub keys : Store → List Text
keys st = map (λ e. e.0) st.snap.index

unfoldable pub next_lsn : Store → ℕ
next_lsn st = st.inner.wal.next_lsn

unfoldable pub last_commit_block : Store → ℕ
last_commit_block st = st.inner.last_commit_block

unfoldable pub applied_upto : Store → ℕ
applied_upto st = st.inner.applied_upto

unfoldable pub committed_lsn : Store → ℕ
committed_lsn st = st.snap.committed

-- The file of the WAL; what the WAL holds in its buffer is not scanned.
unfoldable pub scan_wal : BlockLayer → Store → Entries
scan_wal layer st = scan layer st.inner.wal.file

-- A view: the snapshot that its store published last, and the files that handles read.
pub record StoreView : Type 0 where
  pub snap : Snap
  pub contents : Map ℕ (List ℕ)

unfoldable pub read_view : Store → StoreView
read_view st = record { snap = st.snap; contents = st.inner.contents }

unfoldable pub view_get : Text → StoreView → Result (Option (List ℕ))
unfolding read_at
view_get key v = elim (lookup key v.snap.index) [
  | none ↦ ok none
  | some loc ↦ found (read_at loc.seg loc.offset loc.len v.contents v.snap)
]

unfoldable pub view_get_upto : Text → ℕ → StoreView → Result (Option (List ℕ))
unfolding read_at
view_get_upto key committed v = elim (lookup key v.snap.index) [
  | none ↦ ok none
  | some loc ↦
      if ltb committed loc.lsn
      then ok none
      else found (read_at loc.seg loc.offset loc.len v.contents v.snap)
]

unfoldable pub view_capacity : Text → StoreView → Aggregate
view_capacity prefix v = get prefix v.snap.rollup

unfoldable pub view_keys_with_prefix : Text → StoreView → List (Text × ℕ)
unfolding sort_keys
view_keys_with_prefix prefix v =
    sort_keys (committed_under (parts_of prefix) v.snap.committed v.snap.index)
