-- ===== src/Matrix/Systematic.antt =====
-- The encoding matrix of `Matrix::vandermonde_systematic`: its upper rows are the identity, and every
-- `k` of its rows can be inverted.
use shard_vault.Base.{ℕ, ◌+◌, ◌≤◌, ◌<◌, ◌≡◌, refl, sym, ap, ◌∙◌, true, some, leb, arith}
use shard_vault.Gf.Bytes.{Byte, zero_byte, byte_field}
use shard_vault.Algebra.Field.{Field, ◌⊗◌}
use shard_vault.Algebra.Sum.{sum_congr, sum_zero, sum_comm, mul-sum, sum-mul}
use shard_vault.Algebra.Inverse.{delta, apply}
use shard_vault.Matrix.Dense.{Matrix, entry, select_rows}
use shard_vault.Matrix.Invert.{invert, vandermonde, vandermonde_systematic}
use shard_vault.Matrix.Access.{IsMatrix, entry-IsByte}
use shard_vault.Matrix.Rows.{filled}
use shard_vault.Matrix.View.{view, to_byte}
use shard_vault.Matrix.Inverse.{Inverts, invert-total, apply_congr}
use shard_vault.Matrix.Product.{mul_matrix_lem, column}
use shard_vault.Matrix.Powers.{IsChoice, vandermonde_lem, vandermonde_kernel}

module _ {F : Type 0} ⦃f : Field F⦄ where
  -- A product of matrices is applied one after the other.
  pub apply-apply :
      (k : ℕ) (a b : ℕ → ℕ → F) (x : ℕ → F) (r : ℕ)
      → apply k (λ s c. apply k a (λ j. b j c) s) x r ≡ apply k a (apply k b x) r
  apply-apply k a b x r =
      sum_congr k (λ c p.
        sum-mul k (λ j. a r j ⊗ b j c) (x c)
        ∙ sum_congr k (λ j q. f.mul_assoc (a r j) (b j c) (x c)))
      ∙ sum_comm k k (λ c j. a r j ⊗ (b j c ⊗ x c))
      ∙ sum_congr k (λ j q. sym (mul-sum k (a r j) (λ c. b j c ⊗ x c)))

pub select_rows_lem :
    {n k : ℕ} (rows : ℕ → ℕ) (m : Matrix)
    → IsMatrix n k m
    → IsMatrix k k (select_rows k rows m)
      × ((r c : ℕ) → r < k → c < k → view (select_rows k rows m) r c ≡ view m (rows r) c)
unfolding select_rows view
select_rows_lem {n} {k} rows m valid =
    let (v, e) =
      filled k k (λ r c. entry m (rows r) c) (λ r c p q. entry-IsByte m (rows r) c valid) in
    (v, λ r c p q. ap to_byte (e r c p q))

-- The first rows.
first_rows : (n k : ℕ) → k ≤ n → IsChoice n k (λ i. i)
first_rows n k h = record { within = λ i p. omega arith; apart = λ i j p q e. omega arith }

-- What the matrix is for.
pub record IsEncoder (n k : ℕ) (m : Matrix) : Type 0 where
  pub valid : IsMatrix n k m
  pub upper : (r c : ℕ) → r < k → c < k → view m r c ≡ delta r c
  pub chosen :
      (rows : ℕ → ℕ) (x : ℕ → Byte)
      → IsChoice n k rows
      → ((i : ℕ) → i < k → apply k (view m) x (rows i) ≡ zero_byte)
      → (c : ℕ) → c < k
      → x c ≡ zero_byte

pub apply-zero :
    (k : ℕ) (a : ℕ → ℕ → Byte) (x : ℕ → Byte) (r : ℕ)
    → ((c : ℕ) → c < k → x c ≡ zero_byte)
    → apply k a x r ≡ zero_byte
apply-zero k a x r e =
    sum_zero k (λ c p. ap (byte_field.mul (a r c)) (e c p) ∙ byte_field.mul-zero (a r c))

-- The Vandermonde matrix times the inverse of its upper rows.
encoder :
    (n k : ℕ) (u e : Matrix)
    → n ≤ 255
    → k ≤ n
    → Inverts k (select_rows k (λ i. i) (vandermonde n k)) u
    → IsMatrix n k e
    → ((r c : ℕ)
        → r < n
        → c < k
        → view e r c ≡ apply k (view (vandermonde n k)) (λ j. view u j c) r)
    → IsEncoder n k e
encoder n k u e hn hk inverse valid entries =
    let v = vandermonde n k in
    let top = select_rows k (λ i. i) v in
    let rows = select_rows_lem (λ i. i) v (vandermonde_lem n k hn).0 in
    record {
      valid = valid;
      upper = λ r c hr hc.
          entries r c (omega arith) hc
          ∙ apply_congr (view v) (view top) (λ j. view u j c) (apply k (view u) (λ d. delta d c)) r
              (λ j p. sym (rows.1 r j hr p)) (λ j p. sym (column (view u) j c hc))
          ∙ inverse.right (λ d. delta d c) r hr;
      chosen = λ rows x choice kills.
          let y = apply k (view u) x in
          let killed = λ (i : ℕ) (p : i < k).
            sym (apply-apply k (view v) (view u) x (rows i))
            ∙ sym (
                apply_congr (view e) (λ s c. apply k (view v) (λ j. view u j c) s) x x (rows i)
                  (λ c q. entries (rows i) c (choice.within i p) q) (λ c q. refl))
            ∙ kills i p in
          let none_left = vandermonde_kernel n k rows y hn choice killed in
          λ c p. sym (inverse.right x c p) ∙ apply-zero k (view top) y c none_left;
    }

-- The matrix is built, and it encodes.
pub systematic_lem :
    (k m : ℕ)
    → k + m ≤ 255
    → (e : Matrix) × (vandermonde_systematic k m ≡ some e) × IsEncoder (k + m) k e
unfolding vandermonde_systematic select_rows
systematic_lem k m h =
    let n = k + m in
    let v = vandermonde n k in
    let valid = (vandermonde_lem n k h).0 in
    let rows = select_rows_lem (λ i. i) v valid in
    let (u, is, inverse) = invert-total (select_rows k (λ i. i) v) rows.0 (λ x kills.
      vandermonde_kernel n k (λ i. i) x h (first_rows n k (omega arith))
        (λ i p.
          apply_congr (view v) (view (select_rows k (λ i. i) v)) x x i (λ c q. sym (rows.1 i c p q))
            (λ c q. refl)
          ∙ kills i p)) in
    let (e, made, shape, entries) = mul_matrix_lem v u valid inverse.valid in
    let small : leb n 255 ≡ true = ground arith in
    (e, rw (small, is) made, encoder n k u e h (omega arith) inverse shape entries)

-- Every choice of `k` rows can be inverted.
pub chosen-invert :
    {n k : ℕ} (e : Matrix) (rows : ℕ → ℕ)
    → IsEncoder n k e
    → IsChoice n k rows
    → (u : Matrix) × (invert (select_rows k rows e) ≡ some u) × Inverts k (select_rows k rows e) u
chosen-invert {n} {k} e rows encodes choice =
    let (valid, entries) = select_rows_lem rows e encodes.valid in
    invert-total (select_rows k rows e) valid (λ x kills. encodes.chosen rows x choice (λ i p.
      sym (
        apply_congr (view (select_rows k rows e)) (λ s c. view e (rows i) c) x x i
          (λ c q. entries i c p q) (λ c q. refl))
      ∙ kills i p))
