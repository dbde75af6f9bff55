-- ===== src/Algebra/Inverse.antt =====
-- A square matrix beside the identity, and what row changes have made of the pair: an inverse from
-- both sides where the left half has become the identity, and a vector that the matrix kills where a
-- column has no pivot.
use shard_vault.Base.{
  ℕ, ◌+◌, ◌-◌, ◌≤◌, ◌<◌, ◌≡◌, refl, sym, ap, ◌∙◌, ◌==◌, ◌⊎◌, inl, inr, Bool-cases, ltb, true, false,
  if◌then◌else◌, arith,
}
use shard_vault.Algebra.Field.{Field, ◌⊕◌, ◌⊗◌, zero-add, zero-mul, one-mul, eq_of-add}
use shard_vault.Algebra.Sum.{sum, sum_congr, sum_zero, sum-add, sum_single, sum_split}
use shard_vault.Algebra.Kernel.{dot, SameKernel}

lt_eq_gt : (a b : ℕ) → (a < b) ⊎ ((a ≡ b) ⊎ (b < a))
lt_eq_gt a b = elim (Bool-cases (ltb a b)) [
  | inl lower ↦ inl (ground arith)
  | inr rest ↦ elim (Bool-cases (a == b)) [
    | inl same ↦ inr (inl (ground arith))
    | inr off ↦ inr (inr (ground arith))
  ]
]

module _ {F : Type 0} ⦃f : Field F⦄ where
  -- The identity's entries.
  abbrev pub delta : ℕ → ℕ → F
  delta i j = if i == j then f.one else f.zero

  pub sum-delta : (n r : ℕ) (x : ℕ → F) → r < n → sum n (λ c. delta r c ⊗ x c) ≡ x r
  sum-delta n r x h =
      sum_single n r h
        (λ i p ne. let apart : (r == i) ≡ false = ground (arith, ne) in rw apart (zero-mul (x i)))
      ∙ (let here : (r == r) ≡ true = ground arith in rw here (one-mul (x r)))

  -- Two vectors, one behind the other.
  abbrev pub glue : ℕ → (ℕ → F) → (ℕ → F) → ℕ → F
  glue n x y c = if ltb c n then x c else y (c - n)

  dot-glue :
      (n : ℕ) (u x y : ℕ → F)
      → dot (n + n) u (glue n x y) ≡ sum n (λ c. u c ⊗ x c) ⊕ sum n (λ j. u (n + j) ⊗ y j)
  unfolding dot
  dot-glue n u x y =
      sum_split n n (λ c. u c ⊗ glue n x y c)
      ∙ ap (λ s. s ⊕ sum n (λ j. u (n + j) ⊗ glue n x y (n + j))) low
      ∙ ap (f.add (sum n (λ c. u c ⊗ x c))) high
    where
      low : sum n (λ c. u c ⊗ glue n x y c) ≡ sum n (λ c. u c ⊗ x c)
      low = sum_congr n (λ c p. let e : ltb c n ≡ true = ground arith in rw e refl)

      high : sum n (λ j. u (n + j) ⊗ glue n x y (n + j)) ≡ sum n (λ j. u (n + j) ⊗ y j)
      high = sum_congr n (λ j p.
          let e : ltb (n + j) n ≡ false = ground arith in
          let k : n + j - n ≡ j = omega arith in rw (e, k) refl)

  -- The product of a matrix and a vector.
  abbrev pub apply : ℕ → (ℕ → ℕ → F) → (ℕ → F) → ℕ → F
  apply n m x r = sum n (λ c. m r c ⊗ x c)

  -- The pair of a matrix and the identity.
  pub record IsBeside (n : ℕ) (m : ℕ → ℕ → F) (a : ℕ → ℕ → F) : Type 0 where
    pub left : (r c : ℕ) → r < n → c < n → a r c ≡ m r c
    pub right : (r j : ℕ) → r < n → j < n → a r (n + j) ≡ delta r j

  -- The first `k` columns are those of the identity.
  abbrev pub IsReduced : ℕ → ℕ → (ℕ → ℕ → F) → Type 0
  IsReduced n k a = (r c : ℕ) → r < n → c < k → a r c ≡ delta r c

  beside_row :
      (n : ℕ) (m a : ℕ → ℕ → F) (x y : ℕ → F) (r : ℕ)
      → IsBeside n m a
      → r < n
      → dot (n + n) (a r) (glue n x y) ≡ apply n m x r ⊕ y r
  beside_row n m a x y r b h =
      dot-glue n (a r) x y
      ∙ ap (λ s. s ⊕ sum n (λ j. a r (n + j) ⊗ y j))
          (sum_congr n (λ c p. ap (λ s. s ⊗ x c) (b.left r c h p)))
      ∙ ap (f.add (apply n m x r))
          (sum_congr n (λ j p. ap (λ s. s ⊗ y j) (b.right r j h p)) ∙ sum-delta n r y h)

  reduced_row :
      (n : ℕ) (a : ℕ → ℕ → F) (x y : ℕ → F) (r : ℕ)
      → IsReduced n n a
      → r < n
      → dot (n + n) (a r) (glue n x y) ≡ x r ⊕ apply n (λ r j. a r (n + j)) y r
  reduced_row n a x y r b h =
      dot-glue n (a r) x y
      ∙ ap (λ s. s ⊕ sum n (λ j. a r (n + j) ⊗ y j))
          (sum_congr n (λ c p. ap (λ s. s ⊗ x c) (b r c h p)) ∙ sum-delta n r x h)

  -- What stands beside the identity at the end is an inverse of the matrix from both sides.
  pub reduced-inverse :
      (n : ℕ) (m a b : ℕ → ℕ → F) (x : ℕ → F) (r : ℕ)
      → IsBeside n m a
      → IsReduced n n b
      → SameKernel n (n + n) a b
      → r < n
      → (apply n (λ r j. b r (n + j)) (apply n m x) r ≡ x r)
        × (apply n m (apply n (λ r j. b r (n + j)) x) r ≡ x r)
  reduced-inverse n m a b x r beside reduced same h =
      let inv = λ (r j : ℕ). b r (n + j) in
      let y = apply n m x in
      let z = apply n inv x in
      let killed =
        (same (glue n x y)).0 (λ s p. beside_row n m a x y s beside p ∙ f.add_self (y s)) in
      let killed' =
        (same (glue n z x)).1 (λ s p. reduced_row n b z x s reduced p ∙ f.add_self (z s)) in
      (
        sym (
            eq_of-add (x r) (apply n inv y r) (sym (reduced_row n b x y r reduced h) ∙ killed r h)),
        eq_of-add (apply n m z r) (x r) (sym (beside_row n m a z x r beside h) ∙ killed' r h),
      )

  -- The vector that a matrix kills whose column `k` has no pivot.
  abbrev pub null_vector : ℕ → (ℕ → ℕ → F) → ℕ → F
  null_vector k b c = if ltb c k then b c k else if c == k then f.one else f.zero

  pub delta_ne : (r c : ℕ) → (r ≡ c → ⊥) → delta r c ≡ f.zero
  delta_ne r c ne = let apart : (r == c) ≡ false = ground (arith, ne) in rw apart refl

  pub delta_self : (r : ℕ) → delta r r ≡ f.one
  delta_self r = let here : (r == r) ≡ true = ground arith in rw here refl

  -- The vector's entries: before the column, at it, and behind it.
  null_below : (k c : ℕ) (b : ℕ → ℕ → F) → c < k → null_vector k b c ≡ b c k
  null_below k c b h = let e : ltb c k ≡ true = ground arith in rw e refl

  null_at : (k : ℕ) (b : ℕ → ℕ → F) → null_vector k b k ≡ f.one
  null_at k b =
      let e : ltb k k ≡ false = ground arith in
      let here : (k == k) ≡ true = ground arith in rw (e, here) refl

  null_above : (k c : ℕ) (b : ℕ → ℕ → F) → k < c → null_vector k b c ≡ f.zero
  null_above k c b h =
      let e : ltb c k ≡ false = ground arith in
      let off : (c == k) ≡ false = ground arith in rw (e, off) refl

  module _ (n k : ℕ) (b : ℕ → ℕ → F) (hk : k < n) (reduced : IsReduced n k b) where
    -- A row above the column: its unit and its entry in the column cancel.
    upper_term :
        (r c : ℕ)
        → r < k
        → c < n
        → b r c ⊗ null_vector k b c ≡ delta r c ⊗ b r k ⊕ delta k c ⊗ b r k
    upper_term r c hr hc = elim (lt_eq_gt c k) [
      | inl below ↦
          rw
            (
              null_below k c b below,
              reduced r c (omega arith) below,
              delta_ne k c (λ e. omega arith),
            )
            (moved (Bool-cases (r == c))
              ∙ sym (
                  ap (f.add (delta r c ⊗ b r k)) (zero-mul (b r k))
                  ∙ f.add-zero (delta r c ⊗ b r k)))
      | inr (inl at) ↦
          rw (at, null_at k b, delta_self k, delta_ne r k (λ e. omega arith))
            (f.mul-one (b r k) ∙ sym (rw (zero-mul (b r k), one-mul (b r k)) (zero-add (b r k))))
      | inr (inr above) ↦
          rw
            (
              null_above k c b above,
              delta_ne k c (λ e. omega arith),
              delta_ne r c (λ e. omega arith),
            )
            (f.mul-zero (b r c) ∙ sym (rw (zero-mul (b r k)) (f.add-zero f.zero)))
    ]
      where
        moved : ((r == c) ≡ true) ⊎ ((r == c) ≡ false) → delta r c ⊗ b c k ≡ delta r c ⊗ b r k
        moved (inl here) = let e : c ≡ r = ground arith in ap (λ s. delta r c ⊗ b s k) e
        moved (inr off) = rw off (zero-mul (b c k) ∙ sym (zero-mul (b r k)))

    -- A row from the column on: nothing stands up to the column.
    lower_term : (r c : ℕ) → r < n → k ≤ r → b r k ≡ f.zero → b r c ⊗ null_vector k b c ≡ f.zero
    lower_term r c h hr none_left = elim (lt_eq_gt c k) [
      | inl below ↦ rw (reduced r c h below, delta_ne r c (λ e. omega arith)) (zero-mul _)
      | inr (inl at) ↦ rw (at, none_left) (zero-mul _)
      | inr (inr above) ↦ rw (null_above k c b above) (f.mul-zero (b r c))
    ]

    null_row :
        (r : ℕ)
        → r < n
        → ((s : ℕ) → s < n → k ≤ s → b s k ≡ f.zero)
        → sum n (λ c. b r c ⊗ null_vector k b c) ≡ f.zero
    null_row r h none_left = elim (Bool-cases (ltb r k)) [
      | inl upper ↦
          sum_congr n (λ c p. upper_term r c (ground arith) p)
          ∙ sum-add n (λ c. delta r c ⊗ b r k) (λ c. delta k c ⊗ b r k)
          ∙ rw (sum-delta n r (λ c. b r k) h, sum-delta n k (λ c. b r k) hk) (f.add_self (b r k))
      | inr lower ↦
          let from : k ≤ r = ground arith in
          sum_zero n (λ c p. lower_term r c h from (none_left r h from))
    ]

  -- Where a column has no pivot, the matrix kills a vector that is not zero.
  pub no_pivot-Kills :
      (n k : ℕ) (m a b : ℕ → ℕ → F)
      → k < n
      → IsBeside n m a
      → IsReduced n k b
      → SameKernel n (n + n) a b
      → ((s : ℕ) → s < n → k ≤ s → b s k ≡ f.zero)
      → (x : ℕ → F) × (x k ≡ f.one) × ((r : ℕ) → r < n → apply n m x r ≡ f.zero)
  no_pivot-Kills n k m a b hk beside reduced same none_left = (
    null_vector k b,
    ground arith,
    λ r h.
        let zeros = λ (c : ℕ). f.zero in
        let killed = (same (glue n (null_vector k b) zeros)).1 (λ s p.
          dot-glue n (b s) (null_vector k b) zeros
          ∙ ap (λ t. t ⊕ sum n (λ j. b s (n + j) ⊗ f.zero))
              (null_row n k b hk reduced s p none_left)
          ∙ zero-add _
          ∙ sum_zero n (λ j q. f.mul-zero (b s (n + j)))) in
        sym (f.add-zero (apply n m (null_vector k b) r))
        ∙ sym (beside_row n m a (null_vector k b) zeros r beside h)
        ∙ killed r h,
  )
