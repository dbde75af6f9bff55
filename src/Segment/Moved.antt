-- ===== src/Segment/Moved.antt =====
-- The values that `compact_stage` keeps, and where `repoint` leads for them.
use shard_vault.Base.{
  ℕ, ◌≡◌, refl, ap, ◌∙◌, Bool, true, false, ◌&&◌, ◌||◌, not, Bool-cases, Option-cases, inl, inr,
  Option, none, some, List, [], ◌∷◌, All, leb, ltb, ◌==◌, ==_iff, if◌then◌else◌, Text, text_eq, Map,
  lookup, Text-Key, ℕ-Key, arith,
}
use shard_vault.Wal.Record.{RemapEntry}
use shard_vault.Segment.State.{Loc, PutLoc, contains}
use shard_vault.Segment.Compact.{
  live_in, keep_in, insert_by_offset, sort_by_offset, is_kept, drop_in,
}

-- The last entry of an LSN.
unfoldable pub last_at : ℕ → List RemapEntry → Option RemapEntry
last_at lsn [] = none
last_at lsn (e ∷ es) = elim (last_at lsn es) [
  | some f ↦ some f
  | none ↦ if e.lsn == lsn then some e else none
]

abbrev pub moved_loc : ℕ → RemapEntry → Loc
moved_loc new e = record { seg = new; offset = e.offset; len = e.len; lsn = e.lsn }

abbrev pub moved_put : ℕ → RemapEntry → PutLoc
moved_put new e = record { key = e.key; seg = new; offset = e.offset; len = e.len }

pub last_at-is_kept :
    (lsn : ℕ) (es : List RemapEntry) → last_at lsn es ≡ none → is_kept lsn es ≡ false
unfolding last_at is_kept
last_at-is_kept lsn [] h = refl
last_at-is_kept lsn (e ∷ es) h = ground (arith, last_at-is_kept lsn es)

module _ {ℓ} (P : RemapEntry → Type ℓ) where
  pub last_at-All :
      (lsn : ℕ) (es : List RemapEntry) {e : RemapEntry}
      → All P es
      → last_at lsn es ≡ some e
      → P e × (e.lsn ≡ lsn)
  unfolding last_at
  last_at-All lsn [] hs h = absurd (cc)
  last_at-All lsn (f ∷ fs) {e} (p, ps) h = elim (Option-cases (last_at lsn fs)) [
    | inr (g, found) ↦
        let here : g ≡ e = grind arith in last_at-All lsn fs ps (found ∙ ap some here)
    | inl missing ↦
        let here : f ≡ e = ground arith in
        let same : f.lsn ≡ lsn = ground arith in rw (← here) (p, same)
  ]

  insert_by_offset-All :
      (e : RemapEntry) (es : List RemapEntry) → P e → All P es → All P (insert_by_offset e es)
  unfolding insert_by_offset
  insert_by_offset-All e [] p hs = (p, hs)
  insert_by_offset-All e (f ∷ fs) p (q, qs) = elim (Bool-cases (leb e.offset f.offset)) [
    | inl before ↦ rw before (p, (q, qs))
    | inr behind ↦ rw behind (q, insert_by_offset-All e fs p qs)
  ]

  pub sort_by_offset-All : (es : List RemapEntry) → All P es → All P (sort_by_offset es)
  unfolding sort_by_offset
  sort_by_offset-All [] hs = tt
  sort_by_offset-All (e ∷ es) (p, ps) =
      insert_by_offset-All e (sort_by_offset es) p (sort_by_offset-All es ps)

is_kept-insert_by_offset :
    (lsn : ℕ) (e : RemapEntry) (es : List RemapEntry)
    → is_kept lsn (insert_by_offset e es) ≡ ((e.lsn == lsn) || is_kept lsn es)
unfolding is_kept insert_by_offset
is_kept-insert_by_offset lsn e [] = refl
is_kept-insert_by_offset lsn e (f ∷ fs) = ground (arith, is_kept-insert_by_offset lsn e fs)

pub is_kept-sort_by_offset :
    (lsn : ℕ) (es : List RemapEntry) → is_kept lsn (sort_by_offset es) ≡ is_kept lsn es
unfolding is_kept sort_by_offset
is_kept-sort_by_offset lsn [] = refl
is_kept-sort_by_offset lsn (e ∷ es) =
    is_kept-insert_by_offset lsn e (sort_by_offset es)
    ∙ ap (λ b. (e.lsn == lsn) || b) (is_kept-sort_by_offset lsn es)

contains-rest :
    (lsn : ℕ) (xs : List ℕ) (b : Bool) (x : ℕ)
    → contains lsn xs ≡ true
    → contains lsn (if b then x ∷ xs else xs) ≡ true
contains-rest lsn xs b x h = ground arith

pub contains-live_in :
    (seg : ℕ) (key : Text) (index : Map Text Loc) {loc : Loc}
    → lookup key index ≡ some loc
    → loc.seg ≡ seg
    → contains loc.lsn (live_in seg index) ≡ true
unfolding lookup live_in
contains-live_in seg key [] h same = absurd (cc)
contains-live_in seg key ((other, at) ∷ rest) {loc} h same = elim (Bool-cases (text_eq other key)) [
  | inl here ↦ let found : at ≡ loc = grind arith in rw (← same, found) (ground arith)
  | inr there ↦
      contains-rest loc.lsn (live_in seg rest) (at.seg == seg) at.lsn
        (contains-live_in seg key rest (rw there at h) same)
]

is_kept-rest :
    (lsn : ℕ) (es : List RemapEntry) (b : Bool) (e : RemapEntry)
    → is_kept lsn es ≡ true
    → is_kept lsn (if b then e ∷ es else es) ≡ true
unfolding is_kept
is_kept-rest lsn es b e h = ground arith

pub is_kept-keep_in :
    (old : ℕ) (live : List ℕ) (horizon lsn : ℕ) (puts : Map ℕ PutLoc) {loc : PutLoc}
    → lookup lsn puts ≡ some loc
    → loc.seg ≡ old
    → (contains lsn live || ltb horizon lsn) ≡ true
    → is_kept lsn (keep_in old live horizon puts) ≡ true
unfolding lookup keep_in is_kept
is_kept-keep_in old live horizon lsn [] h same wanted = absurd (cc)
is_kept-keep_in old live horizon lsn ((other, at) ∷ rest) {loc} h same wanted =
    elim (Bool-cases (other == lsn)) [
      | inl here ↦
          let found : at ≡ loc = grind arith in
          let seg : at.seg ≡ old = ap (λ (l : PutLoc). l.seg) found ∙ same in
          let to : other ≡ lsn = (==_iff other lsn).0 here in rw (to, seg, wanted) (ground arith)
      | inr there ↦
          is_kept-rest lsn (keep_in old live horizon rest) _ _
            (is_kept-keep_in old live horizon lsn rest (rw there at h) same wanted)
    ]

-- An entry that `keep_in` takes stands where `put_locations` has its LSN.
abbrev pub Kept : ℕ → Map ℕ PutLoc → RemapEntry → Type 0
Kept old puts e =
    lookup e.lsn puts ≡ some (record { key = e.key; seg = old; offset = e.offset; len = e.len })

keep_in_from :
    (old : ℕ) (live : List ℕ) (horizon : ℕ) (puts m : Map ℕ PutLoc)
    → All (λ p. lookup p.0 puts ≡ some p.1) m
    → All (Kept old puts) (keep_in old live horizon m)
unfolding keep_in
keep_in_from old live horizon puts [] hs = tt
keep_in_from old live horizon puts ((lsn, loc) ∷ rest) (h, hs) =
    let more = keep_in_from old live horizon puts rest hs in
    elim (Bool-cases ((loc.seg == old) && (contains lsn live || ltb horizon lsn))) [
      | inl taken ↦ let seg : old ≡ loc.seg = ground arith in rw (taken, seg) (h, more)
      | inr left ↦ rw left more
    ]

pub keep_in-Kept :
    (old : ℕ) (live : List ℕ) (horizon : ℕ) (puts : Map ℕ PutLoc)
    → All (λ p. lookup p.0 puts ≡ some p.1) puts
    → All (Kept old puts) (keep_in old live horizon puts)
keep_in-Kept old live horizon puts hs = keep_in_from old live horizon puts puts hs

-- What `drop_in` lists is in the old segment and not kept.
abbrev pub Dropped : ℕ → List RemapEntry → Map ℕ PutLoc → ℕ → Type 0
Dropped old keep puts lsn =
    (loc : PutLoc) × (lookup lsn puts ≡ some loc) × (loc.seg ≡ old) × (is_kept lsn keep ≡ false)

drop_in_from :
    (old : ℕ) (keep : List RemapEntry) (puts m : Map ℕ PutLoc)
    → All (λ p. lookup p.0 puts ≡ some p.1) m
    → All (Dropped old keep puts) (drop_in old keep m).0
unfolding drop_in
drop_in_from old keep puts [] hs = tt
drop_in_from old keep puts ((lsn, loc) ∷ rest) (h, hs) =
    let more = drop_in_from old keep puts rest hs in
    elim (Bool-cases ((loc.seg == old) && not (is_kept lsn keep))) [
      | inl dropped ↦
          let seg : loc.seg ≡ old = ground arith in
          let unkept : is_kept lsn keep ≡ false = ground arith in
          rw dropped ((loc, h, seg, unkept), more)
      | inr left ↦ rw left more
    ]

pub drop_in-Dropped :
    (old : ℕ) (keep : List RemapEntry) (puts : Map ℕ PutLoc)
    → All (λ p. lookup p.0 puts ≡ some p.1) puts
    → All (Dropped old keep puts) (drop_in old keep puts).0
drop_in-Dropped old keep puts hs = drop_in_from old keep puts puts hs

pub contains-All {ℓ} :
    (P : ℕ → Type ℓ) (n : ℕ) (xs : List ℕ) → All P xs → contains n xs ≡ true → P n
contains-All P n [] hs h = absurd (cc)
contains-All P n (x ∷ xs) (p, ps) h = elim (Bool-cases (x == n)) [
  | inl here ↦ let to : x ≡ n = (==_iff x n).0 here in rw (← to) p
  | inr there ↦ contains-All P n xs ps (rw there at h)
]
