-- ===== src/Matrix/Inverse.antt =====
-- What `Matrix::invert` returns.
use shard_vault.Base.{
  ℕ, ◌+◌, ◌<◌, ◌≡◌, refl, sym, ap, ◌∙◌, true, Bool-cases, ◌⊎◌, inl, inr, Option, none, some, ◌==◌,
  if◌then◌else◌, arith,
}
use mathlib.Core.Path.{subst}
use shard_vault.Gf.Bytes.{Byte, zero_byte, one_byte, byte_field}
use shard_vault.Algebra.Sum.{sum_congr}
use shard_vault.Algebra.Kernel.{SameKernel-refl}
use shard_vault.Algebra.Inverse.{IsBeside, apply, reduced-inverse, no_pivot-Kills}
use shard_vault.Matrix.Dense.{Matrix}
use shard_vault.Matrix.Invert.{augment, reduce, right_half, invert}
use shard_vault.Matrix.Access.{IsMatrix}
use shard_vault.Matrix.Augment.{augment_lem, right_half_lem}
use shard_vault.Matrix.View.{view, to_byte, to_byte-zero, to_byte-one}
use shard_vault.Matrix.Eliminate.{Progress, Outcome, reduce-Outcome}

-- A matrix that undoes another, whichever is applied first.
pub record Inverts (n : ℕ) (m v : Matrix) : Type 0 where
  pub valid : IsMatrix n n v
  pub left : (x : ℕ → Byte) (r : ℕ) → r < n → apply n (view v) (apply n (view m) x) r ≡ x r
  pub right : (x : ℕ → Byte) (r : ℕ) → r < n → apply n (view m) (apply n (view v) x) r ≡ x r

-- A vector that is not zero and that the matrix makes zero.
abbrev pub IsSingular : ℕ → Matrix → Type 0
IsSingular n m =
    (k : ℕ) × (x : ℕ → Byte) × (k < n)
    × (x k ≡ one_byte)
    × ((r : ℕ) → r < n → apply n (view m) x r ≡ zero_byte)

augment-IsBeside : {n : ℕ} (m : Matrix) → IsMatrix n n m → IsBeside n (view m) (view (augment n m))
unfolding view
augment-IsBeside {n} m valid =
    let (v, l, r) = augment_lem m valid in
    record {
      left = λ s c hs hc. ap to_byte (l s c hs hc);
      right = λ s j hs hj. ap to_byte (r s j hs hj) ∙ (elim (Bool-cases (s == j)) [
        | inl at ↦ rw at to_byte-one
        | inr off ↦ rw off to_byte-zero
      ]);
    }

augment-Progress :
    {n : ℕ} (m : Matrix) → IsMatrix n n m → Progress n (view (augment n m)) 0 (augment n m)
augment-Progress {n} m valid = record {
  valid = (augment_lem m valid).0;
  reduced = λ r c hr hc. absurd (omega arith);
  same = SameKernel-refl n (n + n) (view (augment n m));
}

right_half-view :
    {n : ℕ} (t : Matrix)
    → IsMatrix n (n + n) t
    → (r c : ℕ) → r < n
    → c < n
    → view (right_half n t) r c ≡ view t r (n + c)
unfolding view
right_half-view t valid r c hr hc = ap to_byte ((right_half_lem t valid).1 r c hr hc)

-- The matrices' products with a vector agree where the entries do.
pub apply_congr :
    {n : ℕ} (a b : ℕ → ℕ → Byte) (x y : ℕ → Byte) (r : ℕ)
    → ((c : ℕ) → c < n → a r c ≡ b r c)
    → ((c : ℕ) → c < n → x c ≡ y c)
    → apply n a x r ≡ apply n b y r
apply_congr {n} a b x y r e f =
    sum_congr n
      (λ c p. ap (λ s. byte_field.mul s (x c)) (e c p) ∙ ap (byte_field.mul (b r c)) (f c p))

reduced-Inverts :
    {n : ℕ} (m t : Matrix)
    → IsMatrix n n m
    → Progress n (view (augment n m)) n t
    → Inverts n m (right_half n t)
reduced-Inverts {n} m t valid done =
    let inverse = λ (x : ℕ → Byte) (r : ℕ) (h : r < n).
      reduced-inverse n (view m) (view (augment n m)) (view t) x r (augment-IsBeside m valid)
        done.reduced done.same h in
    let half = right_half-view t done.valid in
    record {
      valid = (right_half_lem t done.valid).0;
      left = λ x r h.
          apply_congr (view (right_half n t)) (λ s j. view t s (n + j)) (apply n (view m) x) _ r
            (λ c p. half r c h p) (λ c p. refl)
          ∙ (inverse x r h).0;
      right = λ x r h.
          apply_congr (view m) (view m) (apply n (view (right_half n t)) x) _ r (λ c p. refl)
            (λ c p.
              apply_congr (view (right_half n t)) (λ s j. view t s (n + j)) x x c
                (λ d q. half c d p q) (λ d q. refl))
          ∙ (inverse x r h).1;
    }

-- What `invert` makes of the elimination's result.
abbrev finish : ℕ → Option Matrix → Option Matrix
finish n found = elim found [ none ↦ none | some reduced ↦ some (right_half n reduced) ]

if_square :
    (a b n : ℕ) (result : ℕ → Option Matrix)
    → a ≡ n
    → b ≡ n
    → (if a == b then result a else none) ≡ result n
if_square a b n result e f = let same : (n == n) ≡ true = ground arith in rw (e, f, same) refl

invert-finish :
    {n : ℕ} (m : Matrix) → IsMatrix n n m → invert m ≡ finish n (reduce n 0 n (augment n m))
unfolding invert
invert-finish {n} m valid =
    if_square m.rows m.cols n (λ k. finish k (reduce k 0 k (augment k m))) valid.height valid.width

-- The answers of `invert` on a square matrix.
abbrev pub Answer : ℕ → Matrix → Option Matrix → Type 0
Answer n m result =
    ((v : Matrix) × (result ≡ some v) × Inverts n m v) ⊎ ((result ≡ none) × IsSingular n m)

finish-Answer :
    {n : ℕ} (m : Matrix) (found : Option Matrix)
    → IsMatrix n n m
    → Outcome n (view (augment n m)) found
    → Answer n m (finish n found)
finish-Answer {n} m found valid (inl (t, e, done)) =
    inl (right_half n t, rw e refl, reduced-Inverts m t valid done)
finish-Answer {n} m found valid (inr (k, t, e, hk, done, missing)) =
    let (x, one, kills) =
      no_pivot-Kills n k (view m) (view (augment n m)) (view t) hk (augment-IsBeside m valid)
        done.reduced done.same missing in
    inr (rw e refl, (k, x, hk, one, kills))

pub invert-Answer : {n : ℕ} (m : Matrix) → IsMatrix n n m → Answer n m (invert m)
invert-Answer {n} m valid =
    let start = augment n m in
    subst (Answer n m) (sym (invert-finish m valid)) (
      finish-Answer m (reduce n 0 n start) valid
        (reduce-Outcome n 0 n (view start) start (omega arith) (augment-Progress m valid)))

-- A matrix that makes nothing but the zero vector zero has an inverse.
pub invert-total :
    {n : ℕ} (m : Matrix)
    → IsMatrix n n m
    → ((x : ℕ → Byte)
        → ((r : ℕ) → r < n → apply n (view m) x r ≡ zero_byte)
        → (c : ℕ) → c < n
        → x c ≡ zero_byte)
    → (v : Matrix) × (invert m ≡ some v) × Inverts n m v
invert-total m valid trivial = elim (invert-Answer m valid) [
  | inl answer ↦ answer
  | inr (e, (k, x, hk, one, kills)) ↦
      absurd (byte_field.one-ne-zero (sym one ∙ trivial x kills k hk))
]
