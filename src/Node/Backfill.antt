-- ===== src/Node/Backfill.antt =====
-- The queue of a follower after a backfill: in the order of the LSNs, and without a gap or a double.
use shard_vault.Base.{
  ℕ, suc, ◌≤◌, ◌≡◌, refl, sym, ap, ◌∙◌, max, Bool, true, false, Bool-cases, inl, inr, ◌⊎◌, ◌||◌,
  Option, List, [], ◌∷◌, ◌++◌, append_assoc, append-nil, All, filter, ltb, if◌then◌else◌, Result,
  ok, err, ok-injective, >>=-eq-ok, arith,
}
use shard_vault.Block.Layer.{BlockLayer}
use shard_vault.Wal.Record.{Record}
use shard_vault.Wal.Log.{Entries, scan}
use shard_vault.Wal.Replay.{Above}
use shard_vault.Segment.State.{Store}
use shard_vault.Node.Frame.{Frame, append, sync_barrier}
use shard_vault.Node.Leader.{
  backfill_data, backfill_frames, backfill_queue, is_retained, handle_backfill,
}

-- The LSN of a frame of a follower's queue, and 0 for the others.
abbrev pub frame_lsn : Frame → ℕ
frame_lsn (append lsn rec value) = lsn
frame_lsn (sync_barrier lsn) = lsn
frame_lsn _ = 0

-- The LSNs are at least `n`, and none is less than one before it.
abbrev pub Rising : ℕ → List Frame → Type 0
Rising n [] = Unit {0}
Rising n (f ∷ fs) = (n ≤ frame_lsn f) × Rising (frame_lsn f) fs

-- The records that the frames carry.
abbrev pub carried : List Frame → Entries
carried [] = []
carried (append lsn rec value ∷ fs) = (lsn, rec) ∷ carried fs
carried (_ ∷ fs) = carried fs

-- The test of `handle_backfill`'s loop.
abbrev pub in_backfill : ℕ → ℕ → ℕ × Record → Bool
in_backfill from ci (lsn, rec) = if ltb lsn from || ltb ci lsn then false else true

is_retained-lsn : (ci : ℕ) (f : Frame) → is_retained ci f ≡ ltb ci (frame_lsn f)
is_retained-lsn ci (append lsn rec value) = refl
is_retained-lsn ci (sync_barrier lsn) = refl
is_retained-lsn ci _ = ground arith

Rising-le : {m n : ℕ} (q : List Frame) → m ≤ n → Rising n q → Rising m q
Rising-le [] le h = tt
Rising-le (f ∷ q) le (h, rest) = (omega arith, rest)

Rising-retained :
    (ci n : ℕ) (q : List Frame) → Rising n q → Rising (max n ci) (filter (is_retained ci) q)
Rising-retained ci n [] h = tt
Rising-retained ci n (f ∷ q) (h, rest) =
    let later = Rising-retained ci (frame_lsn f) q rest in
    elim (Bool-cases (ltb ci (frame_lsn f))) [
      | inl above ↦ rw (is_retained-lsn ci f, above) (ground arith, Rising-le _ (omega arith) later)
      | inr below ↦ rw (is_retained-lsn ci f, below) (Rising-le _ (ground arith) later)
    ]

-- A record of the log is left out, or gives the first frame.
backfill_frames-cons :
    (store : Store) (from ci lsn : ℕ) (rec : Record) (es : Entries) {fs : List Frame}
    → backfill_frames store from ci ((lsn, rec) ∷ es) ≡ ok fs
    → ((in_backfill from ci (lsn, rec) ≡ false) × (backfill_frames store from ci es ≡ ok fs))
      ⊎ ((value : Option (List ℕ)) × (rest : List Frame) × (in_backfill from ci (lsn, rec) ≡ true)
          × (lsn ≤ ci)
          × (backfill_frames store from ci es ≡ ok rest)
          × (fs ≡ append lsn rec value ∷ rest))
unfolding backfill_frames
backfill_frames-cons store from ci lsn rec es h = elim (Bool-cases (ltb lsn from || ltb ci lsn)) [
  | inl out ↦ inl (rw out refl, rw out at h)
  | inr within ↦
      let (value, e, h1) = >>=-eq-ok (backfill_data lsn rec store) _ (rw within at h) in
      let (rest, er, h2) = >>=-eq-ok (backfill_frames store from ci es) _ h1 in
      inr (value, rest, rw within refl, ground arith, er, sym (ok-injective h2))
]

backfill_frames-Rising :
    (store : Store) (from ci n : ℕ) (es : Entries) {fs : List Frame}
    → Above n es
    → backfill_frames store from ci es ≡ ok fs
    → Rising n fs × All (λ f. frame_lsn f ≤ ci) fs
unfolding backfill_frames
backfill_frames-Rising store from ci n [] {fs} above h =
    let none_left : [] ≡ fs = ok-injective h in rw (← none_left) (tt, tt)
backfill_frames-Rising store from ci n ((lsn, rec) ∷ es) (le, above) h =
    elim (backfill_frames-cons store from ci lsn rec es h) [
      | inl (out, e) ↦
          let (rising, low) = backfill_frames-Rising store from ci (suc lsn) es above e in
          (Rising-le _ (omega arith) rising, low)
      | inr (value, rest, within, small, e, same) ↦
          let (rising, low) = backfill_frames-Rising store from ci (suc lsn) es above e in
          rw same ((le, Rising-le _ (omega arith) rising), (small, low))
    ]

backfill_frames-carried :
    (store : Store) (from ci : ℕ) (es : Entries) {fs : List Frame}
    → backfill_frames store from ci es ≡ ok fs
    → carried fs ≡ filter (in_backfill from ci) es
unfolding backfill_frames
backfill_frames-carried store from ci [] {fs} h =
    let none_left : [] ≡ fs = ok-injective h in rw (← none_left) refl
backfill_frames-carried store from ci ((lsn, rec) ∷ es) h =
    elim (backfill_frames-cons store from ci lsn rec es h) [
      | inl (out, e) ↦ rw out (backfill_frames-carried store from ci es e)
      | inr (value, rest, within, small, e, same) ↦
          rw (same, within) (ap (λ r. (lsn, rec) ∷ r) (backfill_frames-carried store from ci es e))
    ]

Rising-append :
    (n ci : ℕ) (fs gs : List Frame)
    → n ≤ ci
    → Rising n fs
    → All (λ f. frame_lsn f ≤ ci) fs
    → Rising ci gs
    → Rising n (fs ++ gs)
Rising-append n ci [] gs le h low later = Rising-le gs le later
Rising-append n ci (f ∷ fs) gs le (h, rest) (small, low) later =
    (h, Rising-append (frame_lsn f) ci fs gs small rest low later)

Rising-backfill_queue :
    (store : Store) (from ci : ℕ) (es : Entries) (r : Result (List Frame)) (q : List Frame)
    → backfill_frames store from ci es ≡ r
    → Above 0 es
    → Rising 0 q
    → Rising 0 (backfill_queue r ci q)
Rising-backfill_queue store from ci es (err e) q h above rising = rising
Rising-backfill_queue store from ci es (ok frames) q h above rising =
    let (first, low) = backfill_frames-Rising store from ci 0 es above h in
    let behind = Rising-retained ci 0 q rising in
    rw append_assoc (
      Rising-append 0 ci frames _ (omega arith) first low
        (omega arith, Rising-le _ (omega arith) behind))

carried-append : (fs gs : List Frame) → carried (fs ++ gs) ≡ carried fs ++ carried gs
carried-append [] gs = refl
carried-append (append lsn rec value ∷ fs) gs = ap (λ r. (lsn, rec) ∷ r) (carried-append fs gs)
carried-append (_ ∷ fs) gs = carried-append fs gs

carried-retained :
    (ci : ℕ) (q : List Frame)
    → carried (filter (is_retained ci) q) ≡ filter (λ e. ltb ci e.0) (carried q)
carried-retained ci [] = refl
carried-retained ci (append lsn rec value ∷ q) = elim (Bool-cases (ltb ci lsn)) [
  | inl above ↦ rw above (ap (λ r. (lsn, rec) ∷ r) (carried-retained ci q))
  | inr below ↦ rw below (carried-retained ci q)
]
carried-retained ci (sync_barrier lsn ∷ q) = elim (Bool-cases (ltb ci lsn)) [
  | inl above ↦ rw above (carried-retained ci q)
  | inr below ↦ rw below (carried-retained ci q)
]
carried-retained ci (_ ∷ q) = carried-retained ci q

module _ (layer : BlockLayer) where
  -- If the LSNs of the log rise and those of the queue do not fall, the LSNs of the queue do not fall
  -- after a backfill.
  pub handle_backfill-Rising :
      (from : ℕ) (store : Store) (ci : ℕ) (q : List Frame)
      → Above 0 (scan layer store.inner.wal.file)
      → Rising 0 q
      → Rising 0 (handle_backfill layer from store ci q)
  unfolding handle_backfill
  handle_backfill-Rising from store ci q above rising =
      let es = scan layer store.inner.wal.file in
      Rising-backfill_queue store from ci es (backfill_frames store from ci es) q refl above rising

  -- Where every value can be read, the queue carries after a backfill the records of the log from the
  -- LSN that was asked for to the commit index, each once and in order, and then those that it
  -- carried above the commit index.
  pub handle_backfill-carried :
      (from : ℕ) (store : Store) (ci : ℕ) (q frames : List Frame)
      → backfill_frames store from ci (scan layer store.inner.wal.file) ≡ ok frames
      → carried (handle_backfill layer from store ci q)
        ≡ filter (in_backfill from ci) (scan layer store.inner.wal.file)
          ++ filter (λ e. ltb ci e.0) (carried q)
  unfolding handle_backfill
  handle_backfill-carried from store ci q frames h =
      let behind = carried-retained ci q in
      let first = backfill_frames-carried store from ci (scan layer store.inner.wal.file) h in
      rw h (
        carried-append (frames ++ sync_barrier ci ∷ []) (filter (is_retained ci) q)
        ∙ rw (carried-append frames (sync_barrier ci ∷ []), behind, first, append-nil) refl)
