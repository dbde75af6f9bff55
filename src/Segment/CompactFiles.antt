-- ===== src/Segment/CompactFiles.antt =====
-- The files of a store after a compaction, and what reads find in them.
use shard_vault.Base.{
  ℕ, ◌≡◌, ◌≢◌, refl, ap, ◌∙◌, true, false, none, List, [], ◌∷◌, ◌==◌, if◌then◌else◌, Map, lookup,
  insert, remove, lookup-insert, lookup-remove, Text-Key, ℕ-Key, arith, Result,
}
use shard_vault.Segment.State.{Inner, PutLoc, snap_of, contains, add_id, drop_id}
use shard_vault.Segment.Write.{read_value, content_of}
use shard_vault.Segment.Read.{read_at}
use shard_vault.Segment.ReadBack.{content_of-insert}
use shard_vault.Segment.Compact.{remove_all}

contains-drop_id :
    (id old : ℕ) (xs : List ℕ) → id ≢ old → contains id (drop_id old xs) ≡ contains id xs
contains-drop_id id old [] apart = refl
contains-drop_id id old (x ∷ xs) apart = ground (arith, contains-drop_id id old xs)

contains-add_id_same : (id : ℕ) (xs : List ℕ) → contains id (add_id id xs) ≡ true
contains-add_id_same id xs = ground arith

contains-add_id :
    (id new : ℕ) (xs : List ℕ) → id ≢ new → contains id (add_id new xs) ≡ contains id xs
contains-add_id id new xs apart = ground arith

content_of-insert_other :
    (id new : ℕ) (bytes : List ℕ) (m : Map ℕ (List ℕ))
    → id ≢ new
    → content_of id (insert new bytes m) ≡ content_of id m
content_of-insert_other id new bytes m apart =
    let other : (new == id) ≡ false = ground arith in
    rw (content_of, lookup-insert new id bytes m, other) refl

pub lookup-remove_all :
    (lsn : ℕ) (dropped : List ℕ) (m : Map ℕ PutLoc)
    → lookup lsn (remove_all dropped m) ≡ (if contains lsn dropped then none else lookup lsn m)
unfolding remove_all
lookup-remove_all lsn [] m = refl
lookup-remove_all lsn (x ∷ xs) m =
    let later = lookup-remove_all lsn xs (remove x m) in
    let first = lookup-remove x lsn m in ground arith

-- The files after a compaction, and the copied values in the new one.
pub record Files (old : ℕ) (bytes : List ℕ) (s t : Inner) : Type 0 where
  pub handle : contains old s.segments ≡ true
  pub segments : t.segments ≡ add_id s.next_free_id (drop_id old s.segments)
  pub contents : t.contents ≡ insert s.next_free_id bytes s.contents

abbrev pub read_in : ℕ → ℕ → ℕ → Inner → Result (List ℕ)
read_in seg offset len s = read_at seg offset len s.contents (snap_of s)

pub read_in_other :
    (old seg offset len : ℕ) {bytes : List ℕ} {s t : Inner}
    → Files old bytes s t
    → seg ≢ old
    → seg ≢ s.next_free_id
    → read_in seg offset len t ≡ read_in seg offset len s
unfolding read_at snap_of
read_in_other old seg offset len {bytes} {s} {t} files apart given =
    let handles : contains seg t.segments ≡ contains seg s.segments =
      ap (contains seg) files.segments
      ∙ contains-add_id seg s.next_free_id (drop_id old s.segments) given
      ∙ contains-drop_id seg old s.segments apart in
    let content : content_of seg t.contents ≡ content_of seg s.contents =
      ap (content_of seg) files.contents
      ∙ content_of-insert_other seg s.next_free_id bytes s.contents given in
    rw (handles, content) refl

pub read_in_new :
    (old from offset len : ℕ) {bytes : List ℕ} {s t : Inner}
    → Files old bytes s t
    → read_value bytes offset len ≡ read_value (content_of old s.contents) from len
    → read_in s.next_free_id offset len t ≡ read_in old from len s
unfolding read_at snap_of
read_in_new old from offset len {bytes} {s} {t} files same =
    let handle : contains s.next_free_id t.segments ≡ true =
      ap (contains s.next_free_id) files.segments
      ∙ contains-add_id_same s.next_free_id (drop_id old s.segments) in
    let content : content_of s.next_free_id t.contents ≡ bytes =
      ap (content_of s.next_free_id) files.contents
      ∙ content_of-insert s.next_free_id bytes s.contents in
    rw (handle, content, files.handle) same
