-- ===== src/Segment/Copied.antt =====
-- What the copy loop of `compact_stage` writes.
use shard_vault.Base.{
  ℕ, suc, ◌+◌, ◌≡◌, ◌<◌, ◌≤◌, ◌^◌, refl, sym, ap, ◌∙◌, ◌||◌, inl, inr, List, [], ◌∷◌, ◌++◌,
  append_assoc, append-nil, length, length-append, take, drop, take-append_length,
  drop-append_length, length-take_le, All, ◌==◌, Map, Text-Key, ℕ-Key, arith, add64, Result, ok,
  err, Result-cases, ok-injective,
}
use shard_vault.Wal.Record.{RemapEntry}
use shard_vault.Segment.State.{PutLoc}
use shard_vault.Segment.Compact.{
  push_entry, copy_values, is_kept, keep_in, insert_by_offset, sort_by_offset,
}
use shard_vault.Segment.Write.{write_at, write_all_at, read_value}
use shard_vault.Segment.ReadBack.{read_value_whole, drop-nil}

abbrev pub total_of : List RemapEntry → ℕ
total_of [] = 0
total_of (e ∷ es) = e.len + total_of es

write_at-end : (bs file : List ℕ) → write_at (length file) bs file ≡ file ++ bs
unfolding write_at
write_at-end bs [] = ap (λ r. bs ++ r) (drop-nil (length bs)) ∙ append-nil bs
write_at-end bs (x ∷ xs) = ap (◌∷◌ x) (write_at-end bs xs)

write_all_at-end : (bs file : List ℕ) → write_all_at (length file) bs file ≡ file ++ bs
unfolding write_all_at
write_all_at-end [] file = sym (append-nil file)
write_all_at-end (b ∷ bs) file = write_at-end (b ∷ bs) file

read_value-append :
    (file value tail : List ℕ)
    → read_value (file ++ (value ++ tail)) (length file) (length value) ≡ ok value
read_value-append file value tail = read_value_whole (file ++ (value ++ tail)) (length file) value (
    ap (take (length value)) (drop-append_length file (value ++ tail))
    ∙ take-append_length value tail)

length-read_value :
    (file : List ℕ) (offset len : ℕ) {value : List ℕ}
    → read_value file offset len ≡ ok value
    → length value ≡ len
unfolding read_value
length-read_value file offset len h =
    let bound = length-take_le len (drop offset file) in ground arith

push_entry-eq-ok :
    (e : RemapEntry) (r : Result (List RemapEntry × List ℕ)) {entries : List RemapEntry}
    {bytes : List ℕ}
    → push_entry e r ≡ ok (entries, bytes)
    → (later : List RemapEntry) × (r ≡ ok (later, bytes)) × (entries ≡ e ∷ later)
push_entry-eq-ok e (err x) h = absurd (cc)
push_entry-eq-ok e (ok (es, bs)) {entries} {bytes} h =
    let same : (e ∷ es, bs) ≡ (entries, bytes) = ok-injective h in
    (
      es,
      ap (λ (p : List RemapEntry × List ℕ). ok (es, p.1)) same,
      sym (ap (λ (p : List RemapEntry × List ℕ). p.0) same),
    )

module _ {ℓ} (P : RemapEntry → Type ℓ) (source : List ℕ) where
  -- The entry comes from one of which `P` holds, with the bytes of that one's place.
  abbrev pub Copied : List ℕ → RemapEntry → Type ℓ
  Copied bytes e =
      (from : ℕ) × P (record e { offset = from })
      × (read_value bytes e.offset e.len ≡ read_value source from e.len)

  pub record CopyDone (es : List RemapEntry) (file : List ℕ) (entries : List RemapEntry)
      (bytes : List ℕ) : Type ℓ where
    pub tail : List ℕ
    pub grown : bytes ≡ file ++ tail
    pub copied : All (Copied bytes) entries
    pub same_length : length entries ≡ length es
    pub same_lsns : (lsn : ℕ) → is_kept lsn entries ≡ is_kept lsn es

  copy_step :
      (e : RemapEntry) (es : List RemapEntry) (file value : List ℕ) {entries : List RemapEntry}
      {bytes : List ℕ}
      → P e
      → read_value source e.offset e.len ≡ ok value
      → CopyDone es (file ++ value) entries bytes
      → CopyDone (e ∷ es) file (record e { offset = length file } ∷ entries) bytes
  unfolding is_kept
  copy_step e es file value {bytes = bytes} p read rest =
      let grown : bytes ≡ file ++ (value ++ rest.tail) =
        rest.grown ∙ append_assoc file value rest.tail in
      let len = length-read_value source e.offset e.len read in
      let back : read_value bytes (length file) e.len ≡ ok value =
        rw (grown, ← len) (read_value-append file value rest.tail) in
      record {
        tail = value ++ rest.tail;
        grown = grown;
        copied = ((e.offset, p, back ∙ sym read), rest.copied);
        same_length = ap suc rest.same_length;
        same_lsns = λ lsn. ap (λ b. (e.lsn == lsn) || b) (rest.same_lsns lsn);
      }

  copy_values_step :
      (e : RemapEntry) (es : List RemapEntry) (offset : ℕ) (file : List ℕ)
      {entries : List RemapEntry} {bytes : List ℕ}
      → copy_values source (e ∷ es) offset file ≡ ok (entries, bytes)
      → (value : List ℕ) × (later : List RemapEntry) × (read_value source e.offset e.len ≡ ok value)
        × (copy_values source es (add64 offset e.len) (write_all_at offset value file)
            ≡ ok (later, bytes))
        × (entries ≡ record e { offset = offset } ∷ later)
  unfolding copy_values
  copy_values_step e es offset file h = elim (Result-cases (read_value source e.offset e.len)) [
    | inr (x, failed) ↦ absurd (cc (rw (copy_values, failed) at h))
    | inl (value, read) ↦
        let (later, rest, same) = push_entry-eq-ok _ _ (rw (copy_values, read) at h) in
        (value, later, read, rest, same)
  ]

  pub copy_values-CopyDone :
      (es : List RemapEntry) (offset : ℕ) (file : List ℕ) {entries : List RemapEntry}
      {bytes : List ℕ}
      → All P es
      → offset ≡ length file
      → offset + total_of es < 2 ^ 64
      → copy_values source es offset file ≡ ok (entries, bytes)
      → CopyDone es file entries bytes
  unfolding copy_values is_kept
  copy_values-CopyDone [] offset file ps at fits h =
      let same = ok-injective h in
      let none_left = ap (λ (p : List RemapEntry × List ℕ). p.0) same in
      let file_left = ap (λ (p : List RemapEntry × List ℕ). p.1) same in
      rw (← none_left, ← file_left)
        (record {
          tail = [];
          grown = sym (append-nil file);
          copied = tt;
          same_length = refl;
          same_lsns = λ lsn. refl;
        })
  copy_values-CopyDone (e ∷ es) offset file {entries} {bytes} (p, ps) at fits h =
      let (value, later, read, rest, same) = copy_values_step e es offset file h in
      let len = length-read_value source e.offset e.len read in
      let next : add64 offset e.len ≡ length (file ++ value) =
        omega (arith, length-append file value) in
      let bound : add64 offset e.len + total_of es < 2 ^ 64 = omega arith in
      let written : write_all_at offset value file ≡ file ++ value =
        ap (λ n. write_all_at n value file) at ∙ write_all_at-end value file in
      let done =
        copy_values-CopyDone es (add64 offset e.len) (file ++ value) ps next bound
          (rw written at rest) in
      let all : entries ≡ record e { offset = length file } ∷ later =
        same ∙ ap (λ n. record e { offset = n } ∷ later) at in
      rw all (copy_step e es file value p read done)

total_of-insert_by_offset :
    (e : RemapEntry) (es : List RemapEntry) → total_of (insert_by_offset e es) ≡ e.len + total_of es
unfolding insert_by_offset
total_of-insert_by_offset e [] = refl
total_of-insert_by_offset e (f ∷ fs) = ground (arith, total_of-insert_by_offset e fs)

pub total_of-sort_by_offset : (es : List RemapEntry) → total_of (sort_by_offset es) ≡ total_of es
unfolding sort_by_offset
total_of-sort_by_offset [] = refl
total_of-sort_by_offset (e ∷ es) =
    total_of-insert_by_offset e (sort_by_offset es)
    ∙ ap (λ n. e.len + n) (total_of-sort_by_offset es)

-- How many bytes the values of the put locations have.
abbrev pub held_bytes : Map ℕ PutLoc → ℕ
held_bytes [] = 0
held_bytes ((lsn, loc) ∷ rest) = loc.len + held_bytes rest

pub total_of-keep_in :
    (old : ℕ) (live : List ℕ) (horizon : ℕ) (puts : Map ℕ PutLoc)
    → total_of (keep_in old live horizon puts) ≤ held_bytes puts
unfolding keep_in
total_of-keep_in old live horizon [] = omega arith
total_of-keep_in old live horizon ((lsn, loc) ∷ rest) =
    let more = total_of-keep_in old live horizon rest in ground arith

length-insert_by_offset :
    (e : RemapEntry) (es : List RemapEntry) → length (insert_by_offset e es) ≡ suc (length es)
unfolding insert_by_offset
length-insert_by_offset e [] = refl
length-insert_by_offset e (f ∷ fs) = ground (arith, length-insert_by_offset e fs)

pub length-sort_by_offset : (es : List RemapEntry) → length (sort_by_offset es) ≡ length es
unfolding sort_by_offset
length-sort_by_offset [] = refl
length-sort_by_offset (e ∷ es) =
    length-insert_by_offset e (sort_by_offset es) ∙ ap suc (length-sort_by_offset es)

pub length-keep_in :
    (old : ℕ) (live : List ℕ) (horizon : ℕ) (puts : Map ℕ PutLoc)
    → length (keep_in old live horizon puts) ≤ length puts
unfolding keep_in
length-keep_in old live horizon [] = omega arith
length-keep_in old live horizon ((lsn, loc) ∷ rest) =
    let more = length-keep_in old live horizon rest in ground arith
