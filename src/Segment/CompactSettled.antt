-- ===== src/Segment/CompactSettled.antt =====
-- What a store reads after a compaction has been settled.
use shard_vault.Base.{
  ℕ, ◌≡◌, ◌≢◌, ◌<◌, ◌^◌, refl, sym, ap, ◌∙◌, true, false, ◌||◌, Bool-cases, Option-cases, inl, inr,
  none, some, List, All, All-imp, ltb, if◌then◌else◌, Text, lookup, lookup-All, IsMap, All-lookup,
  Map, Text-Key, ℕ-Key, arith, ok, err, corrupt, no_put_at,
}
use shard_vault.Wal.Record.{RemapEntry}
use shard_vault.Segment.State.{Inner, Loc, PutLoc, Store, snap_of, contains}
use shard_vault.Segment.Write.{content_of}
use shard_vault.Segment.Read.{read_at, get_value, value_at}
use shard_vault.Segment.Read
use shard_vault.Segment.Compact.{is_kept, kept_of, live_in, keep_in, drop_in}
use shard_vault.Segment.Moved.{
  last_at, last_at-All, last_at-is_kept, Kept, drop_in-Dropped, contains-All, contains-live_in,
  is_kept-keep_in, is_kept-sort_by_offset,
}
use shard_vault.Segment.Repointed.{put_after, loc_after, Keyed}
use shard_vault.Segment.Copied.{Copied, held_bytes}
use shard_vault.Segment.CompactFiles.{Files, read_in, read_in_other, read_in_new}

-- The maps of a store agree: a put location for the put of every key, in a segment whose id was
-- given, and all of them of less than 2 ^ 64 bytes.
pub record Consistent (s : Inner) : Type 0 where
  pub one_place : IsMap s.index
  pub one_put : IsMap s.put_locations
  pub placed :
      All
        (λ p.
          lookup p.1.lsn s.put_locations
          ≡ some (record { key = p.0; seg = p.1.seg; offset = p.1.offset; len = p.1.len }))
        s.index
  pub given : All (λ p. p.1.seg < s.next_free_id) s.put_locations
  pub held : held_bytes s.put_locations < 2 ^ 64

pub put_found : (m : Map ℕ PutLoc) → IsMap m → All (λ p. lookup p.0 m ≡ some p.1) m
put_found m h = All-lookup _ m h (λ k v found. found)

-- What a compaction has done when `compact_commit` has settled its stage.
pub record Settled (old horizon : ℕ) (bytes : List ℕ) (entries : List RemapEntry) (s t : Inner)
    : Type 0 where
  pub files : Files old bytes s t
  pub entries_from :
      All (Copied (Kept old s.put_locations) (content_of old s.contents) bytes) entries
  pub kept : (lsn : ℕ) → is_kept lsn entries ≡ is_kept lsn (kept_of old horizon s)
  pub index_none : (key : Text) → lookup key s.index ≡ none → lookup key t.index ≡ none
  pub index_some :
      (key : Text) (loc : Loc)
      → lookup key s.index ≡ some loc
      → All (Keyed loc.lsn key) entries
      → lookup key t.index ≡ some (loc_after s.next_free_id (last_at loc.lsn entries) loc)
  pub put_locations :
      (lsn : ℕ)
      → lookup lsn t.put_locations ≡ (
          if contains lsn (drop_in old (kept_of old horizon s) s.put_locations).0
          then none
          else put_after s.next_free_id (last_at lsn entries) (lookup lsn s.put_locations))

abbrev pub published : Inner → Store
published s = record { inner = s; snap = snap_of s }

get_value-none :
    (key : Text) (s : Inner) → lookup key s.index ≡ none → get_value key (published s) ≡ ok none
unfolding get_value snap_of
get_value-none key s h = rw (get_value, h) refl

get_value-some :
    (key : Text) (s : Inner) (loc : Loc)
    → lookup key s.index ≡ some loc
    → get_value key (published s) ≡ Read.found (read_in loc.seg loc.offset loc.len s)
unfolding get_value snap_of
get_value-some key s loc h = rw (get_value, h) refl

value_at-none :
    (lsn : ℕ) (s : Inner)
    → lookup lsn s.put_locations ≡ none
    → value_at lsn (published s) ≡ err (corrupt (no_put_at lsn))
unfolding value_at snap_of
value_at-none lsn s h = rw (value_at, h) refl

value_at-some :
    (lsn : ℕ) (s : Inner) (loc : PutLoc)
    → lookup lsn s.put_locations ≡ some loc
    → value_at lsn (published s) ≡ read_in loc.seg loc.offset loc.len s
unfolding value_at snap_of
value_at-some lsn s loc h = rw (value_at, h) refl

module _ (old horizon : ℕ) (bytes : List ℕ) (entries : List RemapEntry) (s t : Inner)
    (c : Consistent s) (d : Settled old horizon bytes entries s t) where
  -- Where an entry has the LSN, the bytes of the value are at its place.
  moved_read :
      (lsn : ℕ) (loc : PutLoc) (e : RemapEntry)
      → lookup lsn s.put_locations ≡ some loc
      → last_at lsn entries ≡ some e
      → read_in s.next_free_id e.offset e.len t ≡ read_in loc.seg loc.offset loc.len s
  moved_read lsn loc e found last =
      let (copied, same) = last_at-All _ lsn entries d.entries_from last in
      let (from, at, bytes_same) = copied in
      let to : some loc ≡ some (record { key = e.key; seg = old; offset = from; len = e.len }) =
        sym found ∙ ap (λ n. lookup n s.put_locations) (sym same) ∙ at in
      let place : loc ≡ record { key = e.key; seg = old; offset = from; len = e.len } = cc in
      read_in_new old from e.offset e.len d.files bytes_same
      ∙ sym (ap (λ (l : PutLoc). read_in l.seg l.offset l.len s) place)

  -- Where none has, the value is where it was.
  left_read :
      (lsn : ℕ) (loc : PutLoc)
      → lookup lsn s.put_locations ≡ some loc
      → (loc.seg ≡ old → is_kept lsn entries ≡ true)
      → last_at lsn entries ≡ none
      → read_in loc.seg loc.offset loc.len t ≡ read_in loc.seg loc.offset loc.len s
  left_read lsn loc found kept last =
      let missing = last_at-is_kept lsn entries last in
      let below = lookup-All _ lsn s.put_locations c.given found in
      let given : loc.seg ≢ s.next_free_id = λ e. omega arith in
      let apart : loc.seg ≢ old = λ e. let here = kept e in cc in
      read_in_other old loc.seg loc.offset loc.len d.files apart given

  -- What the horizon or a key protects is kept.
  protected :
      (lsn : ℕ) (loc : PutLoc)
      → lookup lsn s.put_locations ≡ some loc
      → loc.seg ≡ old
      → (contains lsn (live_in old s.index) || ltb horizon lsn) ≡ true
      → is_kept lsn (kept_of old horizon s) ≡ true
  unfolding kept_of
  protected lsn loc found seg wanted =
      is_kept-sort_by_offset lsn (keep_in old (live_in old s.index) horizon s.put_locations)
      ∙ is_kept-keep_in old (live_in old s.index) horizon lsn s.put_locations found seg wanted

  pub keyed :
      (key : Text) (loc : Loc) → lookup key s.index ≡ some loc → All (Keyed loc.lsn key) entries
  keyed key loc placed =
      let put = lookup-All _ key s.index c.placed placed in
      All-imp _ (Keyed loc.lsn key)
        (λ e (from, at, same) lsn.
          let both = sym (ap (λ n. lookup n s.put_locations) lsn) ∙ at in cc)
        entries d.entries_from

  pub get_value-Settled : (key : Text) → get_value key (published t) ≡ get_value key (published s)
  get_value-Settled key = elim (Option-cases (lookup key s.index)) [
    | inl missing ↦
        get_value-none key t (d.index_none key missing) ∙ sym (get_value-none key s missing)
    | inr (loc, found) ↦
        let put = lookup-All _ key s.index c.placed found in
        let here : PutLoc = record {
          key = key;
          seg = loc.seg;
          offset = loc.offset;
          len = loc.len;
        } in
        let after = d.index_some key loc found (keyed key loc found) in
        let before = get_value-some key s loc found in
        elim (Option-cases (last_at loc.lsn entries)) [
          | inr (e, last) ↦
              get_value-some key t _ (after ∙ ap (λ m. some (loc_after s.next_free_id m loc)) last)
              ∙ ap Read.found (moved_read loc.lsn here e put last)
              ∙ sym before
          | inl last ↦
              let kept : loc.seg ≡ old → is_kept loc.lsn entries ≡ true = λ seg.
                let live = contains-live_in old key s.index found seg in
                d.kept loc.lsn ∙ protected loc.lsn here put seg (ground arith) in
              get_value-some key t _ (after ∙ ap (λ m. some (loc_after s.next_free_id m loc)) last)
              ∙ ap Read.found (left_read loc.lsn here put kept last)
              ∙ sym before
        ]
  ]

  pub not_dropped :
      (lsn : ℕ) (loc : PutLoc)
      → lookup lsn s.put_locations ≡ some loc
      → (loc.seg ≡ old → (contains lsn (live_in old s.index) || ltb horizon lsn) ≡ true)
      → contains lsn (drop_in old (kept_of old horizon s) s.put_locations).0 ≡ false
  not_dropped lsn loc found wanted =
      let keep = kept_of old horizon s in
      let dropped = (drop_in old keep s.put_locations).0 in
      elim (Bool-cases (contains lsn dropped)) [
        | inr spared ↦ spared
        | inl listed ↦
            let all =
              drop_in-Dropped old keep s.put_locations (put_found s.put_locations c.one_put) in
            let (at, there, seg, unkept) = contains-All _ lsn dropped all listed in
            let both : some at ≡ some loc = sym there ∙ found in
            let one : at ≡ loc = cc in
            let here : loc.seg ≡ old = ap (λ (l : PutLoc). l.seg) (sym one) ∙ seg in
            let kept = protected lsn loc found here (wanted here) in absurd (cc)
      ]

  pub value_at-Settled :
      (lsn : ℕ) → horizon < lsn → value_at lsn (published t) ≡ value_at lsn (published s)
  value_at-Settled lsn above = elim (Option-cases (lookup lsn s.put_locations)) [
    | inl missing ↦
        let nowhere : last_at lsn entries ≡ none = elim (Option-cases (last_at lsn entries)) [
          | inl last ↦ last
          | inr (e, last) ↦
              let ((from, at, bytes_same), same) = last_at-All _ lsn entries d.entries_from last in
              absurd (cc (ap (λ n. lookup n s.put_locations) same, at, missing))
        ] in
        let after : lookup lsn t.put_locations ≡ none =
          d.put_locations lsn ∙ rw (nowhere, missing) (ground arith) in
        value_at-none lsn t after ∙ sym (value_at-none lsn s missing)
    | inr (loc, found) ↦
        let spared = not_dropped lsn loc found (λ seg. ground arith) in
        let after : lookup lsn t.put_locations
            ≡ put_after s.next_free_id (last_at lsn entries) (some loc) =
          d.put_locations lsn ∙ rw (spared, found) refl in
        let before = value_at-some lsn s loc found in
        elim (Option-cases (last_at lsn entries)) [
          | inr (e, last) ↦
              value_at-some lsn t _ (after ∙ ap (λ m. put_after s.next_free_id m (some loc)) last)
              ∙ moved_read lsn loc e found last
              ∙ sym before
          | inl last ↦
              let kept : loc.seg ≡ old → is_kept lsn entries ≡ true =
                λ seg. d.kept lsn ∙ protected lsn loc found seg (ground arith) in
              value_at-some lsn t _ (after ∙ ap (λ m. put_after s.next_free_id m (some loc)) last)
              ∙ left_read lsn loc found kept last
              ∙ sym before
        ]
  ]
