-- ===== src/Segment/Repointed.antt =====
-- Where `repoint` leads, and what `copy_values` writes.
use shard_vault.Base.{
  ℕ, ◌≡◌, refl, sym, ap, ◌∙◌, true, false, Bool-cases, Option-cases, inl, inr, Option, none, some,
  List, [], ◌∷◌, All, ◌==◌, ==_iff, if◌then◌else◌, Text, text_eq, text_eq_iff, Map, lookup, insert,
  lookup-insert, Text-Key, ℕ-Key, arith,
}
use shard_vault.Wal.Record.{RemapEntry}
use shard_vault.Segment.State.{Inner, Loc, PutLoc}
use shard_vault.Segment.Publish.{repoint}
use shard_vault.Segment.Moved.{last_at, moved_loc, moved_put}

abbrev pub put_after : ℕ → Option RemapEntry → Option PutLoc → Option PutLoc
put_after new none before = before
put_after new (some e) before = some (moved_put new e)

abbrev pub loc_after : ℕ → Option RemapEntry → Loc → Loc
loc_after new none loc = loc
loc_after new (some e) loc = moved_loc new e

pub repoint-put_locations :
    (new lsn : ℕ) (es : List RemapEntry) (s : Inner)
    → lookup lsn (repoint new es s).put_locations
      ≡ put_after new (last_at lsn es) (lookup lsn s.put_locations)
unfolding repoint last_at
repoint-put_locations new lsn [] s = refl
repoint-put_locations new lsn (e ∷ es) s =
    let later = repoint-put_locations new lsn es (record s {
      index = elim (lookup e.key s.index) [
        | none ↦ s.index
        | some loc ↦ if loc.lsn == e.lsn then insert e.key (moved_loc new e) s.index else s.index
      ];
      put_locations = insert e.lsn (moved_put new e) s.put_locations;
    }) in
    later ∙ rw (lookup-insert e.lsn lsn (moved_put new e) s.put_locations) (ground arith)

-- What `repoint` leaves alone.
abbrev pub SameFiles : Inner → Inner → Type 0
SameFiles s t = (t.segments ≡ s.segments) × (t.contents ≡ s.contents)

pub repoint-SameFiles :
    (new : ℕ) (es : List RemapEntry) (s : Inner) → SameFiles s (repoint new es s)
unfolding repoint
repoint-SameFiles new [] s = (refl, refl)
repoint-SameFiles new (e ∷ es) s = repoint-SameFiles new es _

abbrev index_step : ℕ → RemapEntry → Map Text Loc → Map Text Loc
index_step new e index = elim (lookup e.key index) [
  | none ↦ index
  | some loc ↦ if loc.lsn == e.lsn then insert e.key (moved_loc new e) index else index
]

index_step-none :
    (new : ℕ) (e : RemapEntry) (index : Map Text Loc) (key : Text)
    → lookup key index ≡ none
    → lookup key (index_step new e index) ≡ none
index_step-none new e index key h = elim (Option-cases (lookup e.key index)) [
  | inl missing ↦ rw (index_step, missing) h
  | inr (loc, found) ↦ elim (Bool-cases (loc.lsn == e.lsn)) [
    | inr other ↦ rw (index_step, found, other) h
    | inl same ↦
        let apart : text_eq e.key key ≡ false = elim (Bool-cases (text_eq e.key key)) [
          | inr differ ↦ differ
          | inl equal ↦
              let to : e.key ≡ key = (text_eq_iff e.key key).0 equal in
              absurd (cc (ap (λ k. lookup k index) to, h, found))
        ] in
        rw (index_step, found, same, lookup-insert e.key key (moved_loc new e) index, apart) h
  ]
]

pub repoint-index_none :
    (new : ℕ) (key : Text) (es : List RemapEntry) (s : Inner)
    → lookup key s.index ≡ none
    → lookup key (repoint new es s).index ≡ none
unfolding repoint
repoint-index_none new key [] s h = h
repoint-index_none new key (e ∷ es) s h =
    repoint-index_none new key es _ (index_step-none new e s.index key h)

-- The entries of an LSN are of its key.
abbrev pub Keyed : ℕ → Text → RemapEntry → Type 0
Keyed lsn key e = e.lsn ≡ lsn → e.key ≡ key

abbrev step_loc : ℕ → RemapEntry → Loc → Loc
step_loc new e loc = if e.lsn == loc.lsn then moved_loc new e else loc

index_step-some :
    (new : ℕ) (e : RemapEntry) (index : Map Text Loc) (key : Text) (loc : Loc)
    → lookup key index ≡ some loc
    → Keyed loc.lsn key e
    → lookup key (index_step new e index) ≡ some (step_loc new e loc)
index_step-some new e index key loc h keyed = elim (Bool-cases (e.lsn == loc.lsn)) [
  | inl same ↦
      let lsn : e.lsn ≡ loc.lsn = (==_iff e.lsn loc.lsn).0 same in
      let to : e.key ≡ key = keyed lsn in
      let found : lookup e.key index ≡ some loc = ap (λ k. lookup k index) to ∙ h in
      let back : (loc.lsn == e.lsn) ≡ true = (==_iff loc.lsn e.lsn).1 (sym lsn) in
      let here : text_eq e.key key ≡ true = (text_eq_iff e.key key).1 to in
      rw (index_step, found, back, same, lookup-insert e.key key (moved_loc new e) index, here) refl
  | inr other ↦ elim (Option-cases (lookup e.key index)) [
    | inl missing ↦ rw (index_step, missing, other) h
    | inr (at, found) ↦ elim (Bool-cases (at.lsn == e.lsn)) [
      | inr differ ↦ rw (index_step, found, differ, other) h
      | inl equal ↦
          let apart : text_eq e.key key ≡ false = elim (Bool-cases (text_eq e.key key)) [
            | inr differ ↦ differ
            | inl same ↦
                let to : e.key ≡ key = (text_eq_iff e.key key).0 same in
                let one : at ≡ loc = grind (arith, ap (λ k. lookup k index) to, h, found) in
                let lsn : e.lsn ≡ loc.lsn =
                  sym ((==_iff at.lsn e.lsn).0 equal) ∙ ap (λ (l : Loc). l.lsn) one in
                absurd (ground (arith, (==_iff e.lsn loc.lsn).1 lsn))
          ] in
          rw
            (
              index_step,
              found,
              equal,
              other,
              lookup-insert e.key key (moved_loc new e) index,
              apart,
            )
            h
    ]
  ]
]

step_loc-lsn : (new : ℕ) (e : RemapEntry) (loc : Loc) → (step_loc new e loc).lsn ≡ loc.lsn
step_loc-lsn new e loc = elim (Bool-cases (e.lsn == loc.lsn)) [
  | inl same ↦ rw same ((==_iff e.lsn loc.lsn).0 same)
  | inr other ↦ rw other refl
]

loc_after-step :
    (new : ℕ) (e : RemapEntry) (es : List RemapEntry) (loc : Loc)
    → loc_after new (last_at loc.lsn es) (step_loc new e loc)
      ≡ loc_after new (last_at loc.lsn (e ∷ es)) loc
unfolding last_at
loc_after-step new e es loc = elim (Option-cases (last_at loc.lsn es)) [
  | inr (f, found) ↦ rw found refl
  | inl missing ↦ elim (Bool-cases (e.lsn == loc.lsn)) [
    | inl same ↦ rw (missing, same) refl
    | inr other ↦ rw (missing, other) refl
  ]
]

pub repoint-index_some :
    (new : ℕ) (key : Text) (es : List RemapEntry) (s : Inner) (loc : Loc)
    → lookup key s.index ≡ some loc
    → All (Keyed loc.lsn key) es
    → lookup key (repoint new es s).index ≡ some (loc_after new (last_at loc.lsn es) loc)
unfolding repoint last_at
repoint-index_some new key [] s loc h keyed = h
repoint-index_some new key (e ∷ es) s loc h (keyed, rest) =
    let lsn = step_loc-lsn new e loc in
    let after : All (Keyed (step_loc new e loc).lsn key) es = rw lsn rest in
    let later =
      repoint-index_some new key es _ (step_loc new e loc)
        (index_step-some new e s.index key loc h keyed) after in
    later
    ∙ ap (λ n. some (loc_after new (last_at n es) (step_loc new e loc))) lsn
    ∙ ap some (loc_after-step new e es loc)
