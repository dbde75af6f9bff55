-- ===== src/Algebra/Sum.antt =====
-- Finite sums.
use shard_vault.Base.{
  ℕ, zero, suc, ◌+◌, ◌<◌, ◌≡◌, refl, sym, ap, ◌∙◌, ◌==◌, ==_iff, inl, inr, Bool-cases, arith,
}
use shard_vault.Algebra.Field.{Field, ◌⊕◌, ◌⊗◌, zero-add, add_four, add-mul, zero-mul}

module _ {F : Type 0} ⦃f : Field F⦄ where
  unfoldable pub sum : ℕ → (ℕ → F) → F
  sum zero g = f.zero
  sum (suc n) g = sum n g ⊕ g n

  pub sum_congr : (n : ℕ) {g h : ℕ → F} → ((i : ℕ) → i < n → g i ≡ h i) → sum n g ≡ sum n h
  unfolding sum
  sum_congr zero e = refl
  sum_congr (suc n) {g} {h} e =
      ap (λ s. s ⊕ g n) (sum_congr n (λ i p. e i (omega arith)))
      ∙ ap (f.add (sum n h)) (e n (omega arith))

  pub sum_zero : (n : ℕ) {g : ℕ → F} → ((i : ℕ) → i < n → g i ≡ f.zero) → sum n g ≡ f.zero
  unfolding sum
  sum_zero zero e = refl
  sum_zero (suc n) {g} e =
      ap (λ s. s ⊕ g n) (sum_zero n (λ i p. e i (omega arith))) ∙ zero-add (g n) ∙ e n (omega arith)

  pub sum-add : (n : ℕ) (g h : ℕ → F) → sum n (λ i. g i ⊕ h i) ≡ sum n g ⊕ sum n h
  unfolding sum
  sum-add zero g h = sym (f.add-zero f.zero)
  sum-add (suc n) g h =
      ap (λ s. s ⊕ (g n ⊕ h n)) (sum-add n g h) ∙ add_four (sum n g) (sum n h) (g n) (h n)

  pub mul-sum : (n : ℕ) (a : F) (g : ℕ → F) → a ⊗ sum n g ≡ sum n (λ i. a ⊗ g i)
  unfolding sum
  mul-sum zero a g = f.mul-zero a
  mul-sum (suc n) a g = f.mul-add a (sum n g) (g n) ∙ ap (λ s. s ⊕ a ⊗ g n) (mul-sum n a g)

  pub sum-mul : (n : ℕ) (g : ℕ → F) (a : F) → sum n g ⊗ a ≡ sum n (λ i. g i ⊗ a)
  unfolding sum
  sum-mul zero g a = zero-mul a
  sum-mul (suc n) g a = add-mul (sum n g) (g n) a ∙ ap (λ s. s ⊕ g n ⊗ a) (sum-mul n g a)

  pub sum_comm :
      (m n : ℕ) (g : ℕ → ℕ → F) → sum m (λ i. sum n (λ j. g i j)) ≡ sum n (λ j. sum m (λ i. g i j))
  unfolding sum
  sum_comm zero n g = sym (sum_zero n (λ i p. refl))
  sum_comm (suc m) n g =
      ap (λ s. s ⊕ sum n (λ j. g m j)) (sum_comm m n g)
      ∙ sym (sum-add n (λ j. sum m (λ i. g i j)) (λ j. g m j))

  -- Only the term at `j` counts.
  pub sum_single :
      (n j : ℕ) {g : ℕ → F} → j < n → ((i : ℕ) → i < n → (i ≡ j → ⊥) → g i ≡ f.zero) → sum n g ≡ g j
  unfolding sum
  sum_single zero j h e = absurd (omega arith)
  sum_single (suc n) j {g} h e = elim (Bool-cases (n == j)) [
    | inl last ↦
        let same : n ≡ j = (==_iff n j).0 last in
        ap (λ s. s ⊕ g n) (sum_zero n (λ i p. e i (omega arith) (λ q. omega arith)))
        ∙ zero-add (g n)
        ∙ ap g same
    | inr earlier ↦
        let other : n ≡ j → ⊥ = λ q. ground arith in
        ap (λ s. s ⊕ g n) (sum_single n j (ground arith) (λ i p. e i (omega arith)))
        ∙ ap (f.add (g j)) (e n (omega arith) other)
        ∙ f.add-zero (g j)
  ]

  pub sum_split : (m n : ℕ) (g : ℕ → F) → sum (m + n) g ≡ sum m g ⊕ sum n (λ i. g (m + i))
  unfolding sum
  sum_split m zero g =
      let e : m + 0 ≡ m = omega arith in ap (λ k. sum k g) e ∙ sym (f.add-zero (sum m g))
  sum_split m (suc n) g =
      let e : m + suc n ≡ suc (m + n) = omega arith in
      ap (λ k. sum k g) e
      ∙ ap (λ s. s ⊕ g (m + n)) (sum_split m n g)
      ∙ f.add_assoc (sum m g) (sum n (λ i. g (m + i))) (g (m + n))
