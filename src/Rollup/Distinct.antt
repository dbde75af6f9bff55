-- ===== src/Rollup/Distinct.antt =====
-- The prefixes of a key are all different.
use shard_vault.Base.{
  ℕ, ◌≤◌, ◌<◌, ◌≡◌, refl, ap, Bool, true, false, List, [], ◌∷◌, ◌++◌, All, Text, text_eq,
  text_eq_iff, filter, length, length-append, if◌then◌else◌, Bool-cases, inl, inr, arith, ◌||◌,
}
use shard_vault.Rollup.Prefixes.{is_empty, split_slash, parts_of, prefix_loop, prefixes_of, member}

-- No text stands twice in the list.
abbrev pub Distinct : List Text → Type 0
Distinct [] = Unit
Distinct (q ∷ qs) = (member q qs ≡ false) × Distinct qs

-- Each text is longer than the one before, and the first is longer than `n`.
abbrev Longer : ℕ → List Text → Type 0
Longer n [] = Unit
Longer n (q ∷ qs) = (n < length q) × Longer (length q) qs

short-not-member :
    (p : Text) (n : ℕ) (qs : List Text) → length p ≤ n → Longer n qs → member p qs ≡ false
short-not-member p n [] h l = refl
short-not-member p n (q ∷ qs) h (lt, l) = elim (Bool-cases (text_eq q p)) [
  | inl same ↦
      let len_eq : length q ≡ length p = ap (λ (t : Text). length t) ((text_eq_iff q p).0 same) in
      absurd (omega arith)
  | inr other ↦ rw (other, ◌||◌) (short-not-member p (length q) qs (omega arith) l)
]

Longer-Distinct : (n : ℕ) (qs : List Text) → Longer n qs → Distinct qs
Longer-Distinct n [] l = tt
Longer-Distinct n (q ∷ qs) (lt, l) =
    (short-not-member q (length q) qs (omega arith) l, Longer-Distinct (length q) qs l)

non_empty : (s : Text) → (if is_empty s then false else true) ≡ true → 0 < length s
non_empty [] h = absurd (cc)
non_empty (c ∷ s) h = omega arith

filter-non_empty :
    (ss : List Text) → All (λ s. 0 < length s) (filter (λ s. if is_empty s then false else true) ss)
filter-non_empty [] = tt
filter-non_empty ([] ∷ ss) = filter-non_empty ss
filter-non_empty ((c ∷ s) ∷ ss) = (omega arith, filter-non_empty ss)

prefix_loop-Longer :
    (first : Bool) (prefix : Text) (parts : List Text)
    → All (λ s. 0 < length s) parts
    → Longer (length prefix) (prefix_loop first prefix parts)
unfolding prefix_loop
prefix_loop-Longer first prefix [] h = tt
prefix_loop-Longer first prefix (part ∷ []) h = tt
prefix_loop-Longer true prefix (part ∷ (next ∷ rest)) (hp, h) =
    (rw length-append (omega arith), prefix_loop-Longer false (prefix ++ part) (next ∷ rest) h)
prefix_loop-Longer false prefix (part ∷ (next ∷ rest)) (hp, h) = (
  rw (length-append, length-append) (omega arith),
  prefix_loop-Longer false ((prefix ++ (b'/' ∷ [])) ++ part) (next ∷ rest) h,
)

-- `prefixes_of` lists no prefix of a key twice.
pub prefixes_of-Distinct : (key : Text) → Distinct (prefixes_of key)
unfolding prefixes_of
prefixes_of-Distinct key =
    let longer = prefix_loop-Longer true [] (parts_of key) (filter-non_empty (split_slash key)) in
    (short-not-member [] 0 _ (omega arith) longer, Longer-Distinct 0 _ longer)
