-- ===== src/Segment/CompactMaps.antt =====
-- The maps of a store through the loops of `compact_commit`.
use shard_vault.Base.{
  ℕ, ◌≡◌, ◌≤◌, refl, sym, ap, ◌∙◌, Bool-cases, Option-cases, inl, inr, none, some, List, [], ◌∷◌,
  All, All-imp, ◌==◌, ==_iff, if◌then◌else◌, Text, Map, IsMap, insert-IsMap, remove-IsMap, lookup,
  insert, remove, lookup-insert, Text-Key, ℕ-Key, arith,
}
use shard_vault.Wal.Record.{RemapEntry}
use shard_vault.Segment.State.{Inner, Loc, PutLoc}
use shard_vault.Segment.Publish.{repoint}
use shard_vault.Segment.Compact.{remove_all}
use shard_vault.Segment.Moved.{moved_loc, moved_put}
use shard_vault.Segment.Copied.{held_bytes}

pub remove_all-IsMap :
    (dropped : List ℕ) (m : Map ℕ PutLoc) → IsMap m → IsMap (remove_all dropped m)
unfolding remove_all
remove_all-IsMap [] m h = h
remove_all-IsMap (x ∷ xs) m h = remove_all-IsMap xs (remove x m) (remove-IsMap x m h)

pub repoint-IsMap_puts :
    (new : ℕ) (es : List RemapEntry) (s : Inner)
    → IsMap s.put_locations
    → IsMap (repoint new es s).put_locations
unfolding repoint
repoint-IsMap_puts new [] s h = h
repoint-IsMap_puts new (e ∷ es) s h =
    repoint-IsMap_puts new es _ (insert-IsMap e.lsn (moved_put new e) s.put_locations h)

index_step-IsMap :
    (new : ℕ) (e : RemapEntry) (index : Map Text Loc)
    → IsMap index
    → IsMap (elim (lookup e.key index) [
      | none ↦ index
      | some loc ↦ if loc.lsn == e.lsn then insert e.key (moved_loc new e) index else index
    ])
index_step-IsMap new e index h = elim (Option-cases (lookup e.key index)) [
  | inl missing ↦ rw missing h
  | inr (loc, found) ↦ elim (Bool-cases (loc.lsn == e.lsn)) [
    | inl same ↦ rw (found, same) (insert-IsMap e.key (moved_loc new e) index h)
    | inr other ↦ rw (found, other) h
  ]
]

pub repoint-IsMap_index :
    (new : ℕ) (es : List RemapEntry) (s : Inner) → IsMap s.index → IsMap (repoint new es s).index
unfolding repoint
repoint-IsMap_index new [] s h = h
repoint-IsMap_index new (e ∷ es) s h =
    repoint-IsMap_index new es _ (index_step-IsMap new e s.index h)

held_bytes-remove : (lsn : ℕ) (m : Map ℕ PutLoc) → held_bytes (remove lsn m) ≤ held_bytes m
unfolding remove
held_bytes-remove lsn [] = omega arith
held_bytes-remove lsn ((j, w) ∷ m) = let rest = held_bytes-remove lsn m in ground arith

pub held_bytes-remove_all :
    (dropped : List ℕ) (m : Map ℕ PutLoc) → held_bytes (remove_all dropped m) ≤ held_bytes m
unfolding remove_all
held_bytes-remove_all [] m = omega arith
held_bytes-remove_all (x ∷ xs) m =
    let rest = held_bytes-remove_all xs (remove x m) in
    let first = held_bytes-remove x m in omega arith

-- A put location of the same length takes the place of another.
held_bytes-insert_same :
    (lsn : ℕ) (new old : PutLoc) (m : Map ℕ PutLoc)
    → lookup lsn m ≡ some old
    → old.len ≡ new.len
    → held_bytes (insert lsn new m) ≡ held_bytes m
unfolding insert lookup
held_bytes-insert_same lsn new old [] h same = absurd (cc)
held_bytes-insert_same lsn new old ((j, w) ∷ m) h same = elim (Bool-cases (j == lsn)) [
  | inl here ↦
      let both : some w ≡ some old = rw here at h in
      let one : w ≡ old = cc in
      let len : w.len ≡ old.len = ap (λ (l : PutLoc). l.len) one in rw here (omega arith)
  | inr there ↦
      let rest = held_bytes-insert_same lsn new old m (rw there at h) same in rw there (omega arith)
]

-- The put location of the entry's LSN has the entry's length.
abbrev pub SameLen : Map ℕ PutLoc → RemapEntry → Type 0
SameLen puts e = (loc : PutLoc) × (lookup e.lsn puts ≡ some loc) × (loc.len ≡ e.len)

SameLen-insert :
    (new : ℕ) (e : RemapEntry) (puts : Map ℕ PutLoc)
    → SameLen puts e
    → (f : RemapEntry) → SameLen puts f
    → SameLen (insert e.lsn (moved_put new e) puts) f
SameLen-insert new e puts (at, found, len) f (loc, there, same) =
    elim (Bool-cases (e.lsn == f.lsn)) [
      | inl equal ↦
          let to : e.lsn ≡ f.lsn = (==_iff e.lsn f.lsn).0 equal in
          let both : some at ≡ some loc = sym found ∙ ap (λ n. lookup n puts) to ∙ there in
          let one : at ≡ loc = cc in
          let size : at.len ≡ loc.len = ap (λ (l : PutLoc). l.len) one in
          (
            moved_put new e,
            rw (lookup-insert e.lsn f.lsn (moved_put new e) puts, equal) refl,
            omega arith,
          )
      | inr other ↦ (loc, rw (lookup-insert e.lsn f.lsn (moved_put new e) puts, other) there, same)
    ]

pub repoint-held_bytes :
    (new : ℕ) (es : List RemapEntry) (s : Inner)
    → All (SameLen s.put_locations) es
    → held_bytes (repoint new es s).put_locations ≡ held_bytes s.put_locations
unfolding repoint
repoint-held_bytes new [] s hs = refl
repoint-held_bytes new (e ∷ es) s ((loc, found, len), hs) =
    let puts = s.put_locations in
    repoint-held_bytes new es _ (All-imp _ _ (SameLen-insert new e puts (loc, found, len)) es hs)
    ∙ held_bytes-insert_same e.lsn (moved_put new e) loc puts found len

pub repoint-next_free_id :
    (new : ℕ) (es : List RemapEntry) (s : Inner) → (repoint new es s).next_free_id ≡ s.next_free_id
unfolding repoint
repoint-next_free_id new [] s = refl
repoint-next_free_id new (e ∷ es) s = repoint-next_free_id new es _
