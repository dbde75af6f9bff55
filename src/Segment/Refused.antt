-- ===== src/Segment/Refused.antt =====
-- When `recover` of crates/shardvault-core/src/segment.rs refuses the files of the segments: only for
-- a length that the log gave one of them.
use shard_vault.Base.{
  ℕ, zero, suc, ◌≤◌, ◌<◌, ◌≡◌, refl, sym, ap, ◌⊎◌, inl, inr, true, false, not, ◌&&◌, ltb, ◌==◌,
  Bool-cases, Option-cases, List, [], ◌∷◌, length, take, All, Map, lookup, insert, lookup-insert,
  lookup-All, ℕ-Key, err, StoreError, corrupt, segment_missing, segment_too_short, arith,
}
use mathlib.Core.Path.{subst}
use shard_vault.Wal.Record.{
  Record, put, commit, segment_seal, agg_delta, segment_swap, segment_remap,
}
use shard_vault.Wal.Log.{Entries}
use shard_vault.Segment.State.{contains}
use shard_vault.Segment.Write.{content_of}
use shard_vault.Segment.Recover.{
  Recovery, recover_step, recover_loop, check_present, target_of, truncate_all, or_insert,
}
use shard_vault.Segment.Layout.{Layout, layout_of, lay_all, recover_step-lay_step}

-- The active offset behind some number of records of a log.
abbrev pub IsOffset : Entries → Layout → ℕ → Type 0
IsOffset log l n = (k : ℕ) × (n ≡ (lay_all (take k log) l).active_offset)

-- Why `recover` refuses the files: one that the log gave a byte has no name, or a file is shorter
-- than a length that the log gave it.
abbrev pub IsRefused : (ℕ → Type 0) → List ℕ → Map ℕ (List ℕ) → StoreError → Type 0
IsRefused P named contents e =
    ((id : ℕ) × (n : ℕ) × P n
      × (0 < n)
      × (contains id named ≡ false)
      × (e ≡ corrupt (segment_missing id)))
    ⊎ ((id : ℕ) × (n : ℕ) × P n
        × (length (content_of id contents) < n)
        × (e ≡ corrupt (segment_too_short id)))

All-insert :
    (P : ℕ → Type 0) (id n : ℕ) (m : Map ℕ ℕ)
    → P n
    → All (λ p. P p.1) m
    → All (λ p. P p.1) (insert id n m)
unfolding insert
All-insert P id n [] h hs = (h, tt)
All-insert P id n ((i, k) ∷ m) h (hk, hs) = elim (Bool-cases (i == id)) [
  | inl same ↦ rw same (h, hs)
  | inr other ↦ rw other (hk, All-insert P id n m h hs)
]

pub All-or_insert :
    (P : ℕ → Type 0) (id n : ℕ) (m : Map ℕ ℕ)
    → P n
    → All (λ p. P p.1) m
    → All (λ p. P p.1) (or_insert id n m)
All-or_insert P id n m h hs = elim (Option-cases (lookup id m)) [
  | inl free ↦ rw (or_insert, free) (All-insert P id n m h hs)
  | inr (k, held) ↦ rw (or_insert, held) hs
]

-- One record gives only the active offset before or behind it as a length.
recover_step-All :
    (P : ℕ → Type 0) (e : ℕ × Record) (r : Recovery)
    → P r.inner.active_offset
    → P (recover_step e r).inner.active_offset
    → All (λ p. P p.1) r.committed
    → All (λ p. P p.1) (recover_step e r).committed
unfolding recover_step
recover_step-All P (lsn, put key len stripe_id) r before after hs =
    All-insert P r.inner.active_id _ r.committed after hs
recover_step-All P (lsn, segment_seal id next) r before after hs =
    All-insert P id r.inner.active_offset r.committed before hs
recover_step-All P (lsn, commit c) r before after hs = hs
recover_step-All P (lsn, agg_delta deltas) r before after hs = hs
recover_step-All P (lsn, segment_swap old new) r before after hs = hs
recover_step-All P (lsn, segment_remap new entries) r before after hs = hs

-- Every committed length is the active offset behind some of the records.
pub recover_loop-All :
    (P : ℕ → Type 0) (es : Entries) (r : Recovery)
    → ((k : ℕ) → P (lay_all (take k es) (layout_of r.inner)).active_offset)
    → All (λ p. P p.1) r.committed
    → All (λ p. P p.1) (recover_loop es r).committed
unfolding recover_loop
recover_loop-All P [] r each hs = hs
recover_loop-All P (e ∷ es) r each hs =
    let step = recover_step-lay_step e.0 e.1 r in
    let later : (k : ℕ)
        → P (lay_all (take k es) (layout_of (recover_step e r).inner)).active_offset =
      λ k. subst (λ l. P (lay_all (take k es) l).active_offset) (sym step) (each (suc k)) in
    recover_loop-All P es (recover_step e r) later (recover_step-All P e r (each 0) (later 0) hs)

target_of-All :
    (P : ℕ → Type 0) (id : ℕ) (m : Map ℕ ℕ)
    → All (λ p. P p.1) m
    → 0 < target_of id m
    → P (target_of id m)
target_of-All P id m hs h = elim (Option-cases (lookup id m)) [
  | inl missing ↦
      let none_left : target_of id m ≡ 0 = rw (target_of, missing) refl in absurd (omega arith)
  | inr (n, held) ↦
      let is : target_of id m ≡ n = rw (target_of, held) refl in
      rw is (lookup-All (λ p. P p.1) id m hs held)
]

pub check_present-IsRefused :
    (P : ℕ → Type 0) (committed : Map ℕ ℕ) (named : List ℕ) (contents : Map ℕ (List ℕ))
    (e : StoreError)
    → All (λ p. P p.1) committed
    → check_present committed named ≡ err e
    → IsRefused P named contents e
unfolding check_present
check_present-IsRefused P [] named contents e hs h = absurd (cc)
check_present-IsRefused P ((id, target) ∷ rest) named contents e (here, hs) h =
    elim (Bool-cases (ltb 0 target && not (contains id named))) [
      | inl gone ↦ inl (id, target, here, ground arith, ground arith, cc (rw gone at h))
      | inr there ↦ check_present-IsRefused P rest named contents e hs (rw there at h)
    ]

ltb-lt : (m n : ℕ) → ltb m n ≡ true → m < n
ltb-lt m n h = ground arith

ltb-ge : (m n : ℕ) → ltb m n ≡ false → n ≤ m
ltb-ge m n h = ground arith

length-take_eq {ℓ} : {A : Type ℓ} (n : ℕ) (xs : List A) → n ≤ length xs → length (take n xs) ≡ n
length-take_eq zero xs h = refl
length-take_eq (suc n) [] h = absurd (omega arith)
length-take_eq (suc n) (x ∷ xs) h = let rest = length-take_eq n xs (omega arith) in omega arith

-- The files as they are cut: a file that is too short was so before.
abbrev pub AsShort : Map ℕ ℕ → Map ℕ (List ℕ) → Map ℕ (List ℕ) → Type 0
AsShort committed contents cut =
    (id : ℕ)
    → length (content_of id cut) < target_of id committed
    → length (content_of id contents) < target_of id committed

AsShort-insert :
    (committed : Map ℕ ℕ) (contents cut : Map ℕ (List ℕ)) (id : ℕ)
    → target_of id committed ≤ length (content_of id cut)
    → AsShort committed contents cut
    → AsShort committed contents (insert id (take (target_of id committed) (content_of id cut)) cut)
AsShort-insert committed contents cut id enough h j short =
    let new = take (target_of id committed) (content_of id cut) in
    let at = lookup-insert id j new cut in
    elim (Bool-cases (id == j)) [
      | inl same ↦
          let is : id ≡ j = ground arith in
          let held : content_of j (insert id new cut) ≡ new = rw (content_of, at, same) refl in
          let size = length-take_eq (target_of id committed) (content_of id cut) enough in
          let target : target_of id committed ≡ target_of j committed =
            ap (λ i. target_of i committed) is in
          let count = ap (λ (xs : List ℕ). length xs) held in absurd (omega arith)
      | inr other ↦
          let held : content_of j (insert id new cut) ≡ content_of j cut =
            rw (content_of, at, other) refl in
          h j (subst (λ xs. length xs < target_of j committed) held short)
    ]

pub truncate_all-IsRefused :
    (P : ℕ → Type 0) (ids named : List ℕ) (committed : Map ℕ ℕ) (contents cut : Map ℕ (List ℕ))
    (e : StoreError)
    → All (λ p. P p.1) committed
    → AsShort committed contents cut
    → truncate_all ids committed cut ≡ err e
    → IsRefused P named contents e
unfolding truncate_all
truncate_all-IsRefused P [] named committed contents cut e hs as_short h = absurd (cc)
truncate_all-IsRefused P (id ∷ rest) named committed contents cut e hs as_short h =
    elim (Bool-cases (ltb (length (content_of id cut)) (target_of id committed))) [
      | inl short ↦
          let less : length (content_of id cut) < target_of id committed = ltb-lt _ _ short in
          inr (
            id,
            target_of id committed,
            target_of-All P id committed hs (omega arith),
            as_short id less,
            cc (rw short at h),
          )
      | inr long ↦
          let enough = ltb-ge _ _ long in
          truncate_all-IsRefused P rest named committed contents _ e hs
            (AsShort-insert committed contents cut id enough as_short) (rw long at h)
    ]

pub AsShort-refl :
    (committed : Map ℕ ℕ) (contents : Map ℕ (List ℕ)) → AsShort committed contents contents
AsShort-refl committed contents id h = h
