-- ===== src/Algebra/Roots.antt =====
-- A polynomial with as many roots as coefficients is zero: the rows of a Vandermonde matrix over
-- distinct points kill no other vector.
use shard_vault.Base.{ℕ, zero, suc, ◌<◌, ◌≡◌, refl, sym, ap, ◌∙◌, arith}
use shard_vault.Algebra.Field.{
  Field, ◌⊕◌, ◌⊗◌, zero-add, one-mul, add-mul, add_four, mul_cancel, eq_of-add,
}
use shard_vault.Algebra.Sum.{sum, sum_congr, mul-sum}

module _ {F : Type 0} ⦃f : Field F⦄ where
  unfoldable pub power : F → ℕ → F
  power a zero = f.one
  power a (suc c) = power a c ⊗ a

  -- The value of the polynomial with the first `k` coefficients of `y`.
  eval : ℕ → (ℕ → F) → F → F
  eval zero y a = f.zero
  eval (suc k) y a = y 0 ⊕ a ⊗ eval k (λ c. y (suc c)) a

  sum_first : (n : ℕ) (g : ℕ → F) → sum (suc n) g ≡ g 0 ⊕ sum n (λ c. g (suc c))
  unfolding sum
  sum_first zero g = f.add_comm f.zero (g 0)
  sum_first (suc n) g =
      ap (λ s. s ⊕ g (suc n)) (sum_first n g)
      ∙ f.add_assoc (g 0) (sum n (λ c. g (suc c))) (g (suc n))

  eval-sum : (k : ℕ) (y : ℕ → F) (a : F) → eval k y a ≡ sum k (λ c. power a c ⊗ y c)
  unfolding eval sum power
  eval-sum zero y a = refl
  eval-sum (suc k) y a =
      ap (λ s. y 0 ⊕ a ⊗ s) (eval-sum k (λ c. y (suc c)) a)
      ∙ ap (f.add (y 0)) (
          mul-sum k a (λ c. power a c ⊗ y (suc c))
          ∙ sum_congr k (λ c p.
            sym (f.mul_assoc a (power a c) (y (suc c)))
            ∙ ap (λ s. s ⊗ y (suc c)) (f.mul_comm a (power a c))))
      ∙ ap (λ s. s ⊕ sum k (λ c. power a (suc c) ⊗ y (suc c))) (sym (one-mul (y 0)))
      ∙ sym (sum_first k (λ c. power a c ⊗ y c))

  -- The quotient by a linear factor.
  quotient : ℕ → F → (ℕ → F) → ℕ → F
  unfolding eval
  quotient zero r y c = f.zero
  quotient (suc k) r y zero = eval (suc k) y r
  quotient (suc k) r y (suc c) = quotient k r (λ i. y (suc i)) c

  -- A number that stands on both sides cancels.
  add_around : (a b c : F) → a ⊕ b ⊕ (c ⊕ a) ≡ c ⊕ b
  add_around a b c =
      ap (f.add (a ⊕ b)) (f.add_comm c a)
      ∙ add_four a b a c
      ∙ ap (λ s. s ⊕ (b ⊕ c)) (f.add_self a)
      ∙ zero-add (b ⊕ c)
      ∙ f.add_comm b c

  divide_step :
      (x r z p p' q : F)
      → x ⊗ p ⊕ r ⊗ p' ≡ (x ⊕ r) ⊗ q
      → x ⊗ (z ⊕ x ⊗ p) ⊕ r ⊗ (z ⊕ r ⊗ p') ≡ (x ⊕ r) ⊗ (z ⊕ r ⊗ p' ⊕ x ⊗ q)
  divide_step x r z p p' q h =
      let a = z ⊕ r ⊗ p' in
      let b = z ⊕ x ⊗ p in
      let same : b ⊕ a ≡ x ⊗ p ⊕ r ⊗ p' =
        add_four z (x ⊗ p) z (r ⊗ p')
        ∙ ap (λ s. s ⊕ (x ⊗ p ⊕ r ⊗ p')) (f.add_self z)
        ∙ zero-add _ in
      let behind : (x ⊕ r) ⊗ (x ⊗ q) ≡ x ⊗ b ⊕ x ⊗ a =
        sym (f.mul_assoc (x ⊕ r) x q)
        ∙ ap (λ s. s ⊗ q) (f.mul_comm (x ⊕ r) x)
        ∙ f.mul_assoc x (x ⊕ r) q
        ∙ ap (f.mul x) (sym h ∙ sym same)
        ∙ f.mul-add x b a in
      sym (
        f.mul-add (x ⊕ r) a (x ⊗ q)
        ∙ ap (λ s. s ⊕ (x ⊕ r) ⊗ (x ⊗ q)) (add-mul x r a)
        ∙ ap (f.add (x ⊗ a ⊕ r ⊗ a)) behind
        ∙ add_around (x ⊗ a) (r ⊗ a) (x ⊗ b))

  divide :
      (k : ℕ) (y : ℕ → F) (x r : F)
      → x ⊗ eval k y x ⊕ r ⊗ eval k y r ≡ (x ⊕ r) ⊗ eval k (quotient k r y) x
  unfolding eval quotient
  divide zero y x r = rw (f.mul-zero x, f.mul-zero r, f.mul-zero (x ⊕ r)) (f.add-zero f.zero)
  divide (suc k) y x r =
      divide_step x r (y 0) (eval k (λ c. y (suc c)) x) (eval k (λ c. y (suc c)) r) _
        (divide k (λ c. y (suc c)) x r)

  eval_zero : (k : ℕ) (y : ℕ → F) (a : F) → ((c : ℕ) → c < k → y c ≡ f.zero) → eval k y a ≡ f.zero
  unfolding eval
  eval_zero zero y a h = refl
  eval_zero (suc k) y a h =
      rw (h 0 (omega arith), eval_zero k (λ c. y (suc c)) a (λ c p. h (suc c) (omega arith)))
        (zero-add (a ⊗ f.zero) ∙ f.mul-zero a)

  -- The first coefficient is zero where the value is and the other coefficients are.
  first_zero :
      (k : ℕ) (y : ℕ → F) (a : F)
      → eval (suc k) y a ≡ f.zero
      → ((c : ℕ) → c < k → y (suc c) ≡ f.zero)
      → (c : ℕ) → c < suc k
      → y c ≡ f.zero
  unfolding eval
  first_zero k y a h rest zero p =
      sym (f.add-zero (y 0))
      ∙ ap (f.add (y 0)) (sym (ap (f.mul a) (eval_zero k (λ c. y (suc c)) a rest) ∙ f.mul-zero a))
      ∙ h
  first_zero k y a h rest (suc c) p = rest c (omega arith)

  quotient_zero :
      (k : ℕ) (r : F) (y : ℕ → F)
      → ((c : ℕ) → c < k → quotient k r y c ≡ f.zero)
      → (c : ℕ) → c < k
      → y c ≡ f.zero
  unfolding quotient
  quotient_zero zero r y h c p = absurd (omega arith)
  quotient_zero (suc k) r y h c p =
      first_zero k y r (h 0 (omega arith))
        (quotient_zero k r (λ c. y (suc c)) (λ c p. h (suc c) (omega arith))) c p

  eval_roots :
      (k : ℕ) (y point : ℕ → F)
      → ((i j : ℕ) → i < j → j < k → point i ≡ point j → ⊥)
      → ((i : ℕ) → i < k → eval k y (point i) ≡ f.zero)
      → (c : ℕ) → c < k
      → y c ≡ f.zero
  unfolding eval
  eval_roots zero y point apart roots c p = absurd (omega arith)
  eval_roots (suc k) y point apart roots c p =
      let r = point k in
      let y' = λ (c : ℕ). y (suc c) in
      let rest = quotient_zero k r y' (
        eval_roots k (quotient k r y') point (λ i j p q. apart i j p (omega arith))
          (λ i p.
            mul_cancel (point i ⊕ r) _ (λ e. apart i k p (omega arith) (eq_of-add (point i) r e))
              (sym (divide k y' (point i) r)
                ∙ ap (λ s. s ⊕ r ⊗ eval k y' r)
                    (sym (eq_of-add (y 0) (point i ⊗ eval k y' (point i)) (roots i (omega arith))))
                ∙ ap (f.add (y 0)) (sym (eq_of-add (y 0) (r ⊗ eval k y' r) (roots k (omega arith))))
                ∙ f.add_self (y 0)))) in
      first_zero k y r (roots k (omega arith)) rest c p

  -- The vectors that a Vandermonde matrix over distinct points kills are zero.
  pub power_roots :
      (k : ℕ) (y point : ℕ → F)
      → ((i j : ℕ) → i < j → j < k → point i ≡ point j → ⊥)
      → ((i : ℕ) → i < k → sum k (λ c. power (point i) c ⊗ y c) ≡ f.zero)
      → (c : ℕ) → c < k
      → y c ≡ f.zero
  power_roots k y point apart roots =
      eval_roots k y point apart (λ i p. eval-sum k y (point i) ∙ roots i p)
