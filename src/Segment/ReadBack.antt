-- ===== src/Segment/ReadBack.antt =====
-- What `stage_put` wrote is what `get` reads after the commit.
use shard_vault.Base.{
  ℕ, zero, suc, ◌+◌, ◌≡◌, ◌-◌, ◌^◌, refl, sym, ap, ◌∙◌, Bool, true, Bool-cases, inl, inr, some,
  List, [], ◌∷◌, ◌++◌, length, take, drop, take-append_length, ltb, ◌==◌, ==_iff, ◌&&◌, add64, Text,
  text_eq, text_eq_iff, Map, lookup, insert, lookup-insert, Text-Key, ℕ-Key, Result, ok, arith,
}
use shard_vault.Block.Layer.{BlockLayer}
use shard_vault.Wal.Record.{Record, put}
use shard_vault.Wal.Log.{Entries}
use shard_vault.Segment.State.{Inner, Loc, Snap, Store, snap_of, contains}
use shard_vault.Segment.Exec.{wal_append, >>=-eq-ok}
use shard_vault.Segment.Write.{
  write_at, write_all_at, read_value, content_of, open_segment, write_value, seal_active_record,
  seal_when, place_value, log_put, log_deltas, stage_fitting, stage_put,
}
use shard_vault.Segment.Publish.{commit_pending, commit_store}
use shard_vault.Segment.Read.{found, read_at, get_value}

pub drop-nil : (n : ℕ) → drop {A = ℕ} n [] ≡ []
drop-nil zero = refl
drop-nil (suc n) = refl

drop-write_at :
    (offset : ℕ) (bs xs : List ℕ)
    → drop offset (write_at offset bs xs) ≡ bs ++ drop (offset + length bs) xs
unfolding write_at
drop-write_at zero bs xs = ap (λ n. bs ++ drop n xs) (omega arith)
drop-write_at (suc offset) bs [] =
    drop-write_at offset bs []
    ∙ ap (λ r. bs ++ r) (drop-nil (offset + length bs) ∙ sym (drop-nil (suc offset + length bs)))
drop-write_at (suc offset) bs (x ∷ xs) =
    let e : suc (offset + length bs) ≡ suc offset + length bs = omega arith in
    drop-write_at offset bs xs ∙ ap (λ n. bs ++ drop n (x ∷ xs)) e

pub read_value_whole :
    (file : List ℕ) (offset : ℕ) (value : List ℕ)
    → take (length value) (drop offset file) ≡ value
    → read_value file offset (length value) ≡ ok value
unfolding read_value
read_value_whole file offset value e = rw e (ground arith)

read_value-write_all_at :
    (offset : ℕ) (value xs : List ℕ)
    → read_value (write_all_at offset value xs) offset (length value) ≡ ok value
unfolding write_all_at
read_value-write_all_at offset [] xs = read_value_whole xs offset [] refl
read_value-write_all_at offset (b ∷ bs) xs =
    read_value_whole (write_at offset (b ∷ bs) xs) offset (b ∷ bs) (
      ap (take (length (b ∷ bs))) (drop-write_at offset (b ∷ bs) xs)
      ∙ take-append_length (b ∷ bs) (drop (offset + length (b ∷ bs)) xs))

pub content_of-insert :
    (id : ℕ) (bytes : List ℕ) (m : Map ℕ (List ℕ)) → content_of id (insert id bytes m) ≡ bytes
content_of-insert id bytes m =
    let same : (id == id) ≡ true = (==_iff id id).1 refl in
    rw (content_of, lookup-insert id id bytes m, same) refl

-- The bytes of a place are those of the value.
pub record Written (seg offset len : ℕ) (value : List ℕ) (s : Inner) : Type 0 where
  pub handle : contains seg s.segments ≡ true
  pub bytes : read_value (content_of seg s.contents) offset len ≡ ok value

write_value-Written :
    (value : List ℕ) (s : Inner) {s' : Inner}
    → write_value value s ≡ (ok tt, s')
    → Written s'.active_id s'.active_offset (length value) value s'
unfolding write_value
write_value-Written value s {s'} h = elim (Bool-cases (contains s.active_id s.segments)) [
  | inl held ↦
      let e = ap (λ (p : Result (Unit {0}) × Inner). p.1) (rw held at h) in
      rw (← e) (record {
        handle = held;
        bytes =
            rw (content_of-insert s.active_id _ s.contents)
              (read_value-write_all_at s.active_offset value _);
      })
  | inr shut ↦ absurd (cc (rw shut at h))
]

-- The key's place, and the value in it.
pub record Readable (key : Text) (value : List ℕ) (s : Inner) : Type 0 where
  pub loc : Loc
  pub placed : lookup key s.index ≡ some loc
  pub written : Written loc.seg loc.offset loc.len value s

-- What a read needs is as it was.
abbrev pub SameData : Inner → Inner → Type 0
SameData s t = (t.index ≡ s.index) × (t.segments ≡ s.segments) × (t.contents ≡ s.contents)

pub Readable-SameData :
    {key : Text} {value : List ℕ} (s t : Inner)
    → SameData s t
    → Readable key value s
    → Readable key value t
Readable-SameData s t (index, segments, contents) r = record {
  loc = r.loc;
  placed = ap (lookup _) index ∙ r.placed;
  written = record {
    handle = ap (contains r.loc.seg) segments ∙ r.written.handle;
    bytes =
        ap (λ c. read_value (content_of r.loc.seg c) r.loc.offset r.loc.len) contents
        ∙ r.written.bytes;
  };
}

module _ (layer : BlockLayer) where
  wal_append-SameData :
      (rec : Record) (s : Inner) {lsn : ℕ} {s' : Inner}
      → wal_append layer rec s ≡ (ok lsn, s')
      → SameData s s' × (s'.active_id ≡ s.active_id) × (s'.active_offset ≡ s.active_offset)
  unfolding wal_append
  wal_append-SameData rec s h = ground arith

  Written-SameData :
      (seg seg' offset offset' len : ℕ) (value : List ℕ) (s t : Inner)
      → SameData s t
      → seg' ≡ seg
      → offset' ≡ offset
      → Written seg offset len value s
      → Written seg' offset' len value t
  Written-SameData seg seg' offset offset' len value s t (index, segments, contents) e o w =
      record {
        handle = rw e (ap (contains seg) segments ∙ w.handle);
        bytes = rw (e, o) (ap (λ c. read_value (content_of seg c) offset len) contents ∙ w.bytes);
      }

  log_put-Written :
      (key : Text) (value : List ℕ) (s : Inner) {lsn : ℕ} {s' : Inner}
      → log_put layer key value s ≡ (ok lsn, s')
      → Written s'.active_id s'.active_offset (length value) value s'
  unfolding log_put
  log_put-Written key value s {s' = s'} h =
      let (x, u, wrote, rest) = >>=-eq-ok (write_value value) _ (open_segment s.active_id s) h in
      let (same, id, offset) = wal_append-SameData (put key (length value) u.wal.next_lsn) u rest in
      Written-SameData u.active_id s'.active_id u.active_offset s'.active_offset (length value)
        value u s' same id offset (write_value-Written value (open_segment s.active_id s) wrote)

  seal_when-SameData :
      (b : Bool) (recs : Entries) (s : Inner) {after : Entries} {s' : Inner}
      → seal_when layer b recs s ≡ (ok after, s')
      → SameData s s'
  unfolding seal_when seal_active_record wal_append
  seal_when-SameData b recs s h = ground arith

  log_deltas-Readable :
      (key : Text) (value : List ℕ) (put_lsn : ℕ) (s : Inner) {p : ℕ × Record} {s' : Inner}
      → log_deltas layer key (length value) put_lsn s ≡ (ok p, s')
      → Written s.active_id s.active_offset (length value) value s
      → Readable key value s'
  unfolding log_deltas wal_append place_value
  log_deltas-Readable key value put_lsn s {p} {s'} h w =
      let loc : Loc = record {
        seg = s.active_id;
        offset = s.active_offset;
        len = length value;
        lsn = put_lsn;
      } in
      let index : s'.index ≡ insert key loc s.index = ground arith in
      let segments : s'.segments ≡ s.segments = ground arith in
      let contents : s'.contents ≡ s.contents = ground arith in
      let same : text_eq key key ≡ true = (text_eq_iff key key).1 refl in
      record {
        loc = loc;
        placed = ap (lookup key) index ∙ rw (lookup-insert key key loc s.index, same) refl;
        written = record {
          handle = ap (contains s.active_id) segments ∙ w.handle;
          bytes =
              ap (λ c. read_value (content_of s.active_id c) s.active_offset (length value))
                contents
              ∙ w.bytes;
        };
      }

  log_deltas-pending :
      (key : Text) (len put_lsn : ℕ) (s : Inner) {p : ℕ × Record} {s' : Inner}
      → log_deltas layer key len put_lsn s ≡ (ok p, s')
      → s'.pending ≡ true
  unfolding log_deltas wal_append place_value
  log_deltas-pending key len put_lsn s h = ground arith

  seal_when-pending :
      (b : Bool) (recs : Entries) (s : Inner) {after : Entries} {s' : Inner}
      → s.pending ≡ true
      → seal_when layer b recs s ≡ (ok after, s')
      → s'.pending ≡ true
  unfolding seal_when seal_active_record wal_append
  seal_when-pending b recs s p h = ground arith

  stage_fitting-Readable :
      (key : Text) (value : List ℕ) (s : Inner) {id : ℕ} {recs : Entries} {s' : Inner}
      → stage_fitting layer key value s ≡ (ok (id, recs), s')
      → Readable key value s' × (s'.pending ≡ true)
  unfolding stage_fitting
  stage_fitting-Readable key value s {s' = s'} h =
      let full =
        ltb 0 s.active_offset && ltb s.segment_max_bytes (add64 s.active_offset (length value)) in
      let (before, u, sealed, h1) = >>=-eq-ok (seal_when layer full []) _ s h in
      let (put_lsn, v, logged, h2) = >>=-eq-ok (log_put layer key value) _ u h1 in
      let (p, t, deltas, h3) = >>=-eq-ok (log_deltas layer key (length value) put_lsn) _ v h2 in
      let (after, w, closed, h4) = >>=-eq-ok (seal_when layer _ _) _ t h3 in
      let stay : w ≡ s' = ap (λ (q : Result (ℕ × Entries) × Inner). q.1) h4 in
      let readable =
        log_deltas-Readable key value put_lsn v deltas (log_put-Written key value u logged) in
      rw (← stay) (
        Readable-SameData t w (seal_when-SameData _ _ t closed) readable,
        seal_when-pending _ _ t (log_deltas-pending key (length value) put_lsn v deltas) closed,
      )

  pub stage_put-Readable :
      (key : Text) (value : List ℕ) (s : Inner) {id : ℕ} {recs : Entries} {s' : Inner}
      → stage_put layer key value s ≡ (ok (id, recs), s')
      → Readable key value s' × (s'.pending ≡ true)
  unfolding stage_put
  stage_put-Readable key value s h = elim (Bool-cases (ltb (2 ^ 32 - 1) (length value))) [
    | inl long ↦ absurd (cc (rw (long) at h))
    | inr fits ↦ stage_fitting-Readable key value s (rw (fits) at h)
  ]

  pub commit_store-SameData :
      (lsn : ℕ) (st : Store) {st' : Store}
      → st.inner.pending ≡ true
      → commit_store layer lsn st ≡ (ok tt, st')
      → SameData st.inner st'.inner × (st'.snap ≡ snap_of st'.inner)
  unfolding commit_store commit_pending wal_append
  commit_store-SameData lsn st pending h = ground arith

  pub commit_store-put_locations :
      (lsn : ℕ) (st : Store) {st' : Store}
      → st.inner.pending ≡ true
      → commit_store layer lsn st ≡ (ok tt, st')
      → st'.inner.put_locations ≡ st.inner.put_locations
  unfolding commit_store commit_pending wal_append
  commit_store-put_locations lsn st pending h = ground arith

  pub commit_store-next_free_id :
      (lsn : ℕ) (st : Store) {st' : Store}
      → st.inner.pending ≡ true
      → commit_store layer lsn st ≡ (ok tt, st')
      → st'.inner.next_free_id ≡ st.inner.next_free_id
  unfolding commit_store commit_pending wal_append
  commit_store-next_free_id lsn st pending h = ground arith

  pub read_at-Written :
      (seg offset len : ℕ) (value : List ℕ) (s : Inner) (sn : Snap)
      → contains seg sn.files ≡ true
      → Written seg offset len value s
      → read_at seg offset len s.contents sn ≡ ok value
  unfolding read_at
  read_at-Written seg offset len value s sn h w = rw h w.bytes

  get_value-Readable :
      (key : Text) (value : List ℕ) (st : Store)
      → st.snap ≡ snap_of st.inner
      → Readable key value st.inner
      → get_value key st ≡ ok (some value)
  unfolding get_value snap_of
  get_value-Readable key value st snap r =
      let placed : lookup key st.snap.index ≡ some r.loc =
        ap (λ (sn : Snap). lookup key sn.index) snap ∙ r.placed in
      let files = ap (λ (sn : Snap). contains r.loc.seg sn.files) snap ∙ r.written.handle in
      let read =
        read_at-Written r.loc.seg r.loc.offset r.loc.len value st.inner st.snap files r.written in
      rw (get_value, placed) (ap found read)

  -- After a put that `stage_put` accepted and a commit that returned, `get` of the key reads the value
  -- that was put.
  pub get_value-stage_put :
      (key : Text) (value : List ℕ) (st : Store) (id : ℕ) (recs : Entries) (s' : Inner) (lsn : ℕ)
      (st' : Store)
      → stage_put layer key value st.inner ≡ (ok (id, recs), s')
      → commit_store layer lsn (record st { inner = s' }) ≡ (ok tt, st')
      → get_value key st' ≡ ok (some value)
  get_value-stage_put key value st id recs s' lsn st' staged committed =
      let (readable, pending) = stage_put-Readable key value st.inner staged in
      let (same, snap) = commit_store-SameData lsn (record st { inner = s' }) pending committed in
      get_value-Readable key value st' snap (Readable-SameData s' st'.inner same readable)
