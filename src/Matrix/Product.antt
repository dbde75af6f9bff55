-- ===== src/Matrix/Product.antt =====
-- `Matrix::mul` and `Matrix::identity`: products entry by entry, and the inverse as a product.
use shard_vault.Base.{
  ℕ, zero, suc, ◌+◌, ◌*◌, ◌/◌, ◌%◌, ◌<◌, ◌≡◌, refl, sym, ap, ◌∙◌, true, ◌&&◌, Bool-cases, inl, inr,
  none, some, get_or, get_or_ext, ◌==◌, ltb, if◌then◌else◌, for_range, for_range_inv, IsByte, arith,
}
use native.Mathlib.Nat.{div-lt_iff_lt-mul, div-add-mod'}
use mathlib.Core.Path.{subst}
use mathlib.Core.Option.{none-ne-some, some_inj}
use shard_vault.Gf.Tables.{add, mul}
use shard_vault.Gf.Field.{mul-IsByte}
use shard_vault.Gf.Linear.{add-IsByte}
use shard_vault.Gf.Bytes.{Byte, byte_field}
use shard_vault.Algebra.Field.{Field, ◌⊕◌, ◌⊗◌}
use shard_vault.Algebra.Sum.{sum, sum_congr}
use shard_vault.Algebra.Inverse.{delta, sum-delta, apply}
use shard_vault.Matrix.Dense.{
  Matrix, zeros, entry, set_entry, identity, fill, accumulate, mul_matrix,
}
use shard_vault.Matrix.Invert.{invert}
use shard_vault.Matrix.Access.{
  IsMatrix, entry-IsByte, set_entry-IsMatrix, entry-set_entry, zeros-IsMatrix, entry-zeros,
}
use shard_vault.Matrix.Rows.{filled}
use shard_vault.Matrix.View.{
  view, to_byte, to_byte-num, to_byte-zero, to_byte-one, to_byte-add, to_byte-mul,
}
use shard_vault.Matrix.Inverse.{invert-Answer, apply_congr}

pub accumulate-IsByte :
    (n : ℕ) (l r : ℕ → ℕ)
    → ((k : ℕ) → k < n → IsByte (l k))
    → ((k : ℕ) → k < n → IsByte (r k))
    → IsByte (accumulate n l r)
unfolding accumulate
accumulate-IsByte n l r hl hr =
    for_range_inv (λ i acc. IsByte acc) n (λ k acc. add acc (mul (l k) (r k))) 0 (omega arith)
      (λ k acc p h. add-IsByte acc (mul (l k) (r k)) h (mul-IsByte (l k) (r k) (hl k p) (hr k p)))

pub accumulate_congr :
    (n : ℕ) (l r s : ℕ → ℕ) → ((k : ℕ) → k < n → r k ≡ s k) → accumulate n l r ≡ accumulate n l s
unfolding accumulate for_range
accumulate_congr zero l r s e = refl
accumulate_congr (suc n) l r s e =
    ap (λ t. add t (mul (l n) (r n))) (accumulate_congr n l r s (λ k p. e k (omega arith)))
    ∙ ap (λ t. add (accumulate n l s) (mul (l n) t)) (e n (omega arith))

-- The loop's sum is the field's.
pub accumulate-sum :
    (n : ℕ) (l r : ℕ → ℕ)
    → ((k : ℕ) → k < n → IsByte (l k))
    → ((k : ℕ) → k < n → IsByte (r k))
    → to_byte (accumulate n l r) ≡ sum n (λ k. to_byte (l k) ⊗ to_byte (r k))
unfolding accumulate sum
accumulate-sum n l r hl hr =
    (for_range_inv
      (λ i acc. IsByte acc × (to_byte acc ≡ sum i (λ k. to_byte (l k) ⊗ to_byte (r k)))) n
      (λ k acc. add acc (mul (l k) (r k))) 0 (omega arith, to_byte-zero)
      (λ k acc p (h, e).
        let hm = mul-IsByte (l k) (r k) (hl k p) (hr k p) in
        (
          add-IsByte acc (mul (l k) (r k)) h hm,
          to_byte-add acc (mul (l k) (r k)) h hm
              ∙ ap (λ s. s ⊕ to_byte (mul (l k) (r k))) e
              ∙ ap (byte_field.add (sum k (λ k. to_byte (l k) ⊗ to_byte (r k))))
                  (to_byte-mul (l k) (r k) (hl k p) (hr k p)),
        ))).1

-- Every place is that of a row and a column.
place_of : (h w i : ℕ) → i < h * w → (i / w < h) × (i % w < w) × (i / w * w + i % w ≡ i)
place_of h zero i p = absurd (omega arith)
place_of h (suc w) i p =
    ((div-lt_iff_lt-mul (omega arith)).1 p, omega arith, div-add-mod' i (suc w))

-- Matrices with the same entries are the same.
pub Matrix_ext :
    {h w : ℕ} (a b : Matrix)
    → IsMatrix h w a
    → IsMatrix h w b
    → ((r c : ℕ) → r < h → c < w → entry a r c ≡ entry b r c)
    → a ≡ b
unfolding entry
Matrix_ext {h} {w} a b va vb e =
    let same : a.entries ≡ b.entries =
      get_or_ext a.entries b.entries 0 (va.size ∙ sym vb.size) (λ i p.
        let (hr, hc, place) = place_of h w i (rw⁻¹ va.size p) in
        ap (λ j. get_or a.entries j 0) (sym (rw va.width place))
        ∙ e (i / w) (i % w) hr hc
        ∙ ap (λ j. get_or b.entries j 0) (rw vb.width place)) in
    ap (λ r. record { rows = r; cols = a.cols; entries = a.entries }) (va.height ∙ sym vb.height)
    ∙ ap (λ c. record { rows = b.rows; cols = c; entries = a.entries }) (va.width ∙ sym vb.width)
    ∙ ap (λ es. record { rows = b.rows; cols = b.cols; entries = es }) same

product_shape :
    (ar ac br bc h n w : ℕ) (value : ℕ → ℕ → ℕ → ℕ)
    → ar ≡ h
    → ac ≡ n
    → br ≡ n
    → bc ≡ w
    → (if ac == br then some (fill ar bc (value ac) (zeros ar bc)) else none)
      ≡ some (fill h w (value n) (zeros h w))
product_shape ar ac br bc h n w value e f g i =
    let same : (n == n) ≡ true = ground arith in rw (e, f, g, i, same) refl

pub mul_matrix_lem :
    {h n w : ℕ} (a b : Matrix)
    → IsMatrix h n a
    → IsMatrix n w b
    → (p : Matrix) × (mul_matrix a b ≡ some p)
      × IsMatrix h w p
      × ((r c : ℕ) → r < h → c < w → view p r c ≡ apply n (view a) (λ k. view b k c) r)
unfolding mul_matrix view
mul_matrix_lem {h} {n} {w} a b va vb =
    let value = λ (n : ℕ) (r c : ℕ). accumulate n (λ k. entry a r k) (λ k. entry b k c) in
    let bytes = λ (r c : ℕ).
      accumulate-IsByte n (λ k. entry a r k) (λ k. entry b k c) (λ k p. entry-IsByte a r k va)
        (λ k p. entry-IsByte b k c vb) in
    let (vp, e) = filled h w (value n) (λ r c p q. bytes r c) in
    (
      fill h w (value n) (zeros h w),
      product_shape a.rows a.cols b.rows b.cols h n w value va.height va.width vb.height vb.width,
      vp,
      λ r c p q.
          ap to_byte (e r c p q)
          ∙ accumulate-sum n (λ k. entry a r k) (λ k. entry b k c) (λ k p. entry-IsByte a r k va)
              (λ k p. entry-IsByte b k c vb),
    )

pub identity_lem :
    (n : ℕ)
    → IsMatrix n n (identity n)
      × ((r c : ℕ) → r < n → c < n → entry (identity n) r c ≡ (if r == c then 1 else 0))
unfolding identity
identity_lem n =
    let (v, e) =
      for_range_inv
        (λ i t.
          IsMatrix n n t
          × ((s c : ℕ) → c < n → entry t s c ≡ (if ltb s i && (s == c) then 1 else 0)))
        n (λ i m. set_entry i i 1 m) (zeros n n)
        (zeros-IsMatrix n n, λ s c p. entry-zeros n n s c ∙ ground arith)
        (λ i t hi (tv, te). (
          set_entry-IsMatrix t i i 1 (omega arith) tv,
          λ s c p. entry-set_entry t i i 1 s c tv hi hi p ∙ rw (te s c p) (ground arith),
        )) in
    (v, λ r c p q. e r c q ∙ ground arith)

-- Entries are the same where their bytes are.
pub view-entry :
    {h w : ℕ} (a b : Matrix) (r c : ℕ)
    → IsMatrix h w a
    → IsMatrix h w b
    → view a r c ≡ view b r c
    → entry a r c ≡ entry b r c
unfolding view
view-entry a b r c va vb e =
    sym (to_byte-num (entry a r c) (entry-IsByte a r c va))
    ∙ ap (λ (x : Byte). x.0) e
    ∙ to_byte-num (entry b r c) (entry-IsByte b r c vb)

pub view-identity : (n r c : ℕ) → r < n → c < n → view (identity n) r c ≡ delta r c
unfolding view
view-identity n r c p q =
    ap to_byte ((identity_lem n).1 r c p q)
    ∙ (elim (Bool-cases (r == c)) [ inl at ↦ rw at to_byte-one | inr off ↦ rw off to_byte-zero ])

-- A product is the identity where the columns are.
product-identity :
    {n : ℕ} (a b : Matrix)
    → IsMatrix n n a
    → IsMatrix n n b
    → ((r c : ℕ) → r < n → c < n → apply n (view a) (λ k. view b k c) r ≡ delta r c)
    → mul_matrix a b ≡ some (identity n)
product-identity {n} a b va vb e =
    let (p, is, vp, entries) = mul_matrix_lem a b va vb in
    is
    ∙ ap some (
        Matrix_ext p (identity n) vp (identity_lem n).0 (λ r c hr hc.
          view-entry p (identity n) r c vp (identity_lem n).0
            (entries r c hr hc ∙ e r c hr hc ∙ sym (view-identity n r c hr hc))))

module _ {F : Type 0} ⦃f : Field F⦄ where
  delta_sym : (i j : ℕ) → delta {F = F} i j ≡ delta j i
  delta_sym i j = let e : (i == j) ≡ (j == i) = ground arith in rw e refl

  sum-delta_right : (n c : ℕ) (x : ℕ → F) → c < n → sum n (λ k. x k ⊗ delta k c) ≡ x c
  sum-delta_right n c x h =
      sum_congr n (λ k p. f.mul_comm (x k) (delta k c) ∙ ap (λ d. d ⊗ x k) (delta_sym k c))
      ∙ sum-delta n c x h

-- A column is the product with a unit vector.
pub column : {n : ℕ} (a : ℕ → ℕ → Byte) (r c : ℕ) → c < n → apply n a (λ k. delta k c) r ≡ a r c
column {n} a r c h = sum-delta_right n c (a r) h

-- Two matrices of which one undoes the other.
undone :
    {n : ℕ} (a b : Matrix)
    → IsMatrix n n a
    → IsMatrix n n b
    → ((x : ℕ → Byte) (r : ℕ) → r < n → apply n (view a) (apply n (view b) x) r ≡ x r)
    → mul_matrix a b ≡ some (identity n)
undone {n} a b va vb undo = product-identity a b va vb (λ r c hr hc.
    apply_congr (view a) (view a) (λ k. view b k c) _ r (λ k p. refl)
      (λ k p. sym (column (view b) k c hc))
    ∙ undo (λ k. delta k c) r hr)

-- Where `invert` returns a matrix for an `n` by `n` matrix of bytes, the product of the two is the
-- identity, whichever comes first.
pub mul_matrix-invert :
    {n : ℕ} (m v : Matrix)
    → IsMatrix n n m
    → invert m ≡ some v
    → (mul_matrix m v ≡ some (identity n)) × (mul_matrix v m ≡ some (identity n))
mul_matrix-invert {n} m v valid e = elim (invert-Answer m valid) [
  | inl (u, f, done) ↦
      let same : u ≡ v = some_inj.0 (sym f ∙ e) in
      subst (λ t. (mul_matrix m t ≡ some (identity n)) × (mul_matrix t m ≡ some (identity n))) same
        (undone m u valid done.valid done.right, undone u m done.valid valid done.left)
  | inr (f, rest) ↦ absurd (none-ne-some v (sym f ∙ e))
]
