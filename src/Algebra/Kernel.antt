-- ===== src/Algebra/Kernel.antt =====
-- The vectors that every row of a matrix kills, and what changes of the rows do to them: nothing.
use shard_vault.Base.{
  ℕ, ◌<◌, ◌≡◌, sym, ap, ◌∙◌, ◌==◌, inl, inr, Bool-cases, true, false, if◌then◌else◌, arith,
}
use shard_vault.Algebra.Field.{Field, ◌⊕◌, ◌⊗◌, zero-add, add-mul, mul_cancel}
use shard_vault.Algebra.Sum.{sum, sum_congr, sum-add, mul-sum}

-- Where a row comes from when two rows change places.
abbrev pub swapped : ℕ → ℕ → ℕ → ℕ
swapped p q r = if r == p then q else if r == q then p else r

swapped_twice : (p q r : ℕ) → swapped p q (swapped p q r) ≡ r
swapped_twice p q r = ground arith

swapped-lt : (n p q r : ℕ) → p < n → q < n → r < n → swapped p q r < n
swapped-lt n p q r hp hq hr = ground arith

module _ {F : Type 0} ⦃f : Field F⦄ where
  unfoldable pub dot : ℕ → (ℕ → F) → (ℕ → F) → F
  dot w u x = sum w (λ c. u c ⊗ x c)

  pub dot_congr :
      (w : ℕ) {u v : ℕ → F} (x : ℕ → F) → ((c : ℕ) → c < w → u c ≡ v c) → dot w u x ≡ dot w v x
  unfolding dot
  dot_congr w x e = sum_congr w (λ c p. ap (λ a. a ⊗ x c) (e c p))

  dot_scale : (w : ℕ) (a : F) (u x : ℕ → F) → dot w (λ c. a ⊗ u c) x ≡ a ⊗ dot w u x
  unfolding dot
  dot_scale w a u x =
      sum_congr w (λ c p. f.mul_assoc a (u c) (x c)) ∙ sym (mul-sum w a (λ c. u c ⊗ x c))

  dot-add : (w : ℕ) (u v x : ℕ → F) → dot w (λ c. u c ⊕ v c) x ≡ dot w u x ⊕ dot w v x
  unfolding dot
  dot-add w u v x =
      sum_congr w (λ c p. add-mul (u c) (v c) (x c)) ∙ sum-add w (λ c. u c ⊗ x c) (λ c. v c ⊗ x c)

  -- Every one of the first `n` rows gives zero.
  abbrev pub Kills : ℕ → ℕ → (ℕ → ℕ → F) → (ℕ → F) → Type 0
  Kills n w a x = (r : ℕ) → r < n → dot w (a r) x ≡ f.zero

  abbrev pub SameKernel : ℕ → ℕ → (ℕ → ℕ → F) → (ℕ → ℕ → F) → Type 0
  SameKernel n w a b =
      (x : ℕ → F) → (Kills n w a x → Kills n w b x) × (Kills n w b x → Kills n w a x)

  pub SameKernel-refl : (n w : ℕ) (a : ℕ → ℕ → F) → SameKernel n w a a
  SameKernel-refl n w a x = (λ k. k, λ k. k)

  pub SameKernel-trans :
      (n w : ℕ) (a b c : ℕ → ℕ → F) → SameKernel n w a b → SameKernel n w b c → SameKernel n w a c
  SameKernel-trans n w a b c h k x = (λ p. (k x).0 ((h x).0 p), λ p. (h x).1 ((k x).1 p))

  -- Two rows change places.
  pub SameKernel-swap :
      (n w p q : ℕ) (a b : ℕ → ℕ → F)
      → p < n
      → q < n
      → ((r c : ℕ) → r < n → c < w → b r c ≡ a (swapped p q r) c)
      → SameKernel n w a b
  SameKernel-swap n w p q a b hp hq e x = (
    λ k r h. dot_congr w x (λ c hc. e r c h hc) ∙ k (swapped p q r) (swapped-lt n p q r hp hq h),
    λ k r h.
        ap (λ s. dot w (a s) x) (sym (swapped_twice p q r))
        ∙ sym (dot_congr w x (λ c hc. e (swapped p q r) c (swapped-lt n p q r hp hq h) hc))
        ∙ k (swapped p q r) (swapped-lt n p q r hp hq h),
  )

  -- A row is multiplied by a number that is not zero.
  pub SameKernel-scale :
      (n w q : ℕ) (v : F) (a b : ℕ → ℕ → F)
      → (v ≡ f.zero → ⊥)
      → ((r c : ℕ) → r < n → c < w → b r c ≡ (if r == q then v ⊗ a r c else a r c))
      → SameKernel n w a b
  SameKernel-scale n w q v a b hv e x = (
    λ k r h. elim (Bool-cases (r == q)) [
      | inl at ↦ scaled r h at ∙ ap (f.mul v) (k r h) ∙ f.mul-zero v
      | inr off ↦ kept r h off ∙ k r h
    ],
    λ k r h. elim (Bool-cases (r == q)) [
      | inl at ↦ mul_cancel v (dot w (a r) x) hv (sym (scaled r h at) ∙ k r h)
      | inr off ↦ sym (kept r h off) ∙ k r h
    ],
  )
    where
      scaled : (r : ℕ) → r < n → (r == q) ≡ true → dot w (b r) x ≡ v ⊗ dot w (a r) x
      scaled r h at = dot_congr w x (λ c hc. e r c h hc ∙ rw at) ∙ dot_scale w v (a r) x

      kept : (r : ℕ) → r < n → (r == q) ≡ false → dot w (b r) x ≡ dot w (a r) x
      kept r h off = dot_congr w x (λ c hc. e r c h hc ∙ rw off)

  -- A multiple of a row is added to another.
  pub SameKernel-add :
      (n w q t : ℕ) (v : F) (a b : ℕ → ℕ → F)
      → q < n
      → ((t == q) ≡ false)
      → ((r c : ℕ) → r < n → c < w → b r c ≡ (if r == t then a r c ⊕ v ⊗ a q c else a r c))
      → SameKernel n w a b
  SameKernel-add n w q t v a b hq apart e x = (
    λ k r h. elim (Bool-cases (r == t)) [
      | inl at ↦ added r h at ∙ rw (k r h, k q hq) (zero-add (v ⊗ f.zero) ∙ f.mul-zero v)
      | inr off ↦ kept r h off ∙ k r h
    ],
    λ k r h. elim (Bool-cases (r == t)) [
      | inl at ↦
          let nothing = ap (f.mul v) (sym (kept q hq (ground arith)) ∙ k q hq) ∙ f.mul-zero v in
          sym (f.add-zero (dot w (a r) x))
          ∙ ap (f.add (dot w (a r) x)) (sym nothing)
          ∙ sym (added r h at)
          ∙ k r h
      | inr off ↦ sym (kept r h off) ∙ k r h
    ],
  )
    where
      added : (r : ℕ) → r < n → (r == t) ≡ true → dot w (b r) x ≡ dot w (a r) x ⊕ v ⊗ dot w (a q) x
      added r h at =
          dot_congr w x (λ c hc. e r c h hc ∙ rw at)
          ∙ dot-add w (a r) (λ c. v ⊗ a q c) x
          ∙ ap (f.add (dot w (a r) x)) (dot_scale w v (a q) x)

      kept : (r : ℕ) → r < n → (r == t) ≡ false → dot w (b r) x ≡ dot w (a r) x
      kept r h off = dot_congr w x (λ c hc. e r c h hc ∙ rw off)
