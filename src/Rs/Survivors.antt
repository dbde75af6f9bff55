-- ===== src/Rs/Survivors.antt =====
-- The survivors and the missing shards of `reconstruct`.
use shard_vault.Base.{
  ℕ, zero, suc, ◌+◌, ◌<◌, ◌≤◌, ◌≡◌, refl, ap, ◌∙◌, Bool, true, List, [], ◌∷◌, length, get_or, take,
  ◌==◌, ==_iff, Bool-cases, inl, inr, arith,
}
use shard_vault.Matrix.Powers.{IsChoice}
use shard_vault.Rs.Rebuild.{indices}

-- The elements pass the test, lie in the range and ascend.
pub record IsIndices (test : ℕ → Bool) (from to : ℕ) (xs : List ℕ) : Type 0 where
  pub passed : (i : ℕ) → i < length xs → test (get_or xs i 0) ≡ true
  pub above : (i : ℕ) → i < length xs → from ≤ get_or xs i 0
  pub below : (i : ℕ) → i < length xs → get_or xs i 0 < to
  pub ascending : (i j : ℕ) → i < j → j < length xs → get_or xs i 0 < get_or xs j 0

cons-IsIndices :
    (test : ℕ → Bool) (from to : ℕ) (xs : List ℕ)
    → test from ≡ true
    → from < to
    → IsIndices test (suc from) to xs
    → IsIndices test from to (from ∷ xs)
cons-IsIndices test from to xs passed h rest = record {
  passed = at_passed;
  above = at_above;
  below = at_below;
  ascending = ascend;
}
  where
    at_passed : (i : ℕ) → i < length (from ∷ xs) → test (get_or (from ∷ xs) i 0) ≡ true
    at_passed zero p = passed
    at_passed (suc i) p = rest.passed i (omega arith)

    at_above : (i : ℕ) → i < length (from ∷ xs) → from ≤ get_or (from ∷ xs) i 0
    at_above zero p = omega arith
    at_above (suc i) p = let above = rest.above i (omega arith) in omega arith

    at_below : (i : ℕ) → i < length (from ∷ xs) → get_or (from ∷ xs) i 0 < to
    at_below zero p = h
    at_below (suc i) p = rest.below i (omega arith)

    ascend :
        (i j : ℕ) → i < j → j < length (from ∷ xs) → get_or (from ∷ xs) i 0 < get_or (from ∷ xs) j 0
    ascend i zero p q = absurd (omega arith)
    ascend zero (suc j) p q = let above = rest.above j (omega arith) in omega arith
    ascend (suc i) (suc j) p q = rest.ascending i j (omega arith) (omega arith)

pub indices-IsIndices :
    (test : ℕ → Bool) (left from : ℕ) → IsIndices test from (from + left) (indices test left from)
unfolding indices
indices-IsIndices test zero from = record {
  passed = λ i p. absurd (omega arith);
  above = λ i p. absurd (omega arith);
  below = λ i p. absurd (omega arith);
  ascending = λ i j p q. absurd (omega arith);
}
indices-IsIndices test (suc left) from =
    let rest = indices-IsIndices test left (suc from) in
    let e : suc from + left ≡ from + suc left = omega arith in
    let rest' : IsIndices test (suc from) (from + suc left) (indices test left (suc from)) =
      rw⁻¹ e rest in
    elim (Bool-cases (test from)) [
      | inl passed ↦ rw passed (
          cons-IsIndices test from (from + suc left) (indices test left (suc from)) passed
            (omega arith) rest')
      | inr failed ↦ rw failed (record {
        passed = rest'.passed;
        above = λ i p. let above = rest'.above i p in omega arith;
        below = rest'.below;
        ascending = rest'.ascending;
      })
    ]

-- No index that passes is left out.
pub indices_complete :
    (test : ℕ → Bool) (left from j : ℕ)
    → from ≤ j
    → j < from + left
    → test j ≡ true
    → (i : ℕ) × (i < length (indices test left from)) × (get_or (indices test left from) i 0 ≡ j)
unfolding indices
indices_complete test zero from j lo hi passed = absurd (omega arith)
indices_complete test (suc left) from j lo hi passed = elim (Bool-cases (from == j)) [
  | inl at ↦
      let e : from ≡ j = (==_iff from j).0 at in
      let first : test from ≡ true = ap test e ∙ passed in rw first (0, omega arith, e)
  | inr off ↦
      let (i, p, e) = indices_complete test left (suc from) j (ground arith) (omega arith) passed in
      elim (Bool-cases (test from)) [
        | inl first ↦ rw first (suc i, omega arith, e)
        | inr later ↦ rw later (i, p, e)
      ]
]

length-take : (k : ℕ) (xs : List ℕ) → k ≤ length xs → length (take k xs) ≡ k
length-take zero xs h = refl
length-take (suc k) [] h = omega arith
length-take (suc k) (x ∷ xs) h = ap suc (length-take k xs (omega arith))

get_or-take : (k i : ℕ) (xs : List ℕ) → i < k → get_or (take k xs) i 0 ≡ get_or xs i 0
get_or-take zero i xs h = absurd (omega arith)
get_or-take (suc k) i [] h = refl
get_or-take (suc k) zero (x ∷ xs) h = refl
get_or-take (suc k) (suc i) (x ∷ xs) h = get_or-take k i xs (omega arith)

-- The first `k` survivors are rows to choose.
pub take-IsChoice :
    (test : ℕ → Bool) (n k : ℕ)
    → k ≤ length (indices test n 0)
    → (length (take k (indices test n 0)) ≡ k)
      × IsChoice n k (λ r. get_or (take k (indices test n 0)) r 0)
      × ((r : ℕ) → r < k → test (get_or (take k (indices test n 0)) r 0) ≡ true)
take-IsChoice test n k h =
    let xs = indices test n 0 in
    let is = indices-IsIndices test n 0 in
    (
      length-take k xs h,
      record {
        within = λ i p. rw (get_or-take k i xs p) (let b = is.below i (omega arith) in omega arith);
        apart = λ i j p q e.
            let less = is.ascending i j p (omega arith) in
            let ei = get_or-take k i xs (omega arith) in
            let ej = get_or-take k j xs q in omega arith;
      },
      λ r p. rw (get_or-take k r xs p) (is.passed r (omega arith)),
    )
