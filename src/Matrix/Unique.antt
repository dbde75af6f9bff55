-- ===== src/Matrix/Unique.antt =====
-- `Matrix::invert` finds the inverse, if there is one.
use shard_vault.Base.{ℕ, ◌<◌, ◌≡◌, refl, sym, ap, ◌∙◌, some}
use mathlib.Core.Option.{some_inj}
use shard_vault.Gf.Bytes.{Byte, byte_field}
use shard_vault.Algebra.Inverse.{delta, sum-delta, apply}
use shard_vault.Matrix.Dense.{Matrix, identity, mul_matrix}
use shard_vault.Matrix.Invert.{invert}
use shard_vault.Matrix.Access.{IsMatrix}
use shard_vault.Matrix.View.{view}
use shard_vault.Matrix.Inverse.{invert-total, apply_congr}
use shard_vault.Matrix.Product.{Matrix_ext, mul_matrix_lem, view-entry, view-identity, column}
use shard_vault.Matrix.Systematic.{apply-apply, apply-zero}

-- A product that is the identity undoes its right factor.
product-undoes :
    {n : ℕ} (l m : Matrix) (x : ℕ → Byte) (r : ℕ)
    → IsMatrix n n l
    → IsMatrix n n m
    → mul_matrix l m ≡ some (identity n)
    → r < n
    → apply n (view l) (apply n (view m) x) r ≡ x r
product-undoes {n} l m x r vl vm e h =
    let (p, is, vp, entries) = mul_matrix_lem l m vl vm in
    let same : p ≡ identity n = some_inj.0 (sym is ∙ e) in
    sym (apply-apply n (view l) (view m) x r)
    ∙ apply_congr (λ s c. apply n (view l) (λ j. view m j c) s) delta x x r
        (λ c q. sym (entries r c h q) ∙ ap (λ t. view t r c) same ∙ view-identity n r c h q)
        (λ c q. refl)
    ∙ sum-delta n r x h

-- Where the product of two `n` by `n` matrices of bytes is the identity, `invert` returns the first for
-- the second.
pub invert-left_inverse :
    (n : ℕ) (l m : Matrix)
    → IsMatrix n n l
    → IsMatrix n n m
    → mul_matrix l m ≡ some (identity n)
    → invert m ≡ some l
invert-left_inverse n l m vl vm e =
    let (v, is, inverse) = invert-total m vm (λ x kills c h.
      sym (product-undoes l m x c vl vm e h)
      ∙ apply-zero n (view l) (apply n (view m) x) c kills) in
    is
    ∙ ap some (
        Matrix_ext v l inverse.valid vl (λ r c hr hc. view-entry v l r c inverse.valid vl (
          sym (column (view v) r c hc)
          ∙ sym (product-undoes l m (apply n (view v) (λ k. delta k c)) r vl vm e hr)
          ∙ apply_congr (view l) (view l) (apply n (view m) (apply n (view v) (λ k. delta k c)))
              (λ k. delta k c) r (λ d q. refl) (λ d q. inverse.right (λ k. delta k c) d q)
          ∙ column (view l) r c hc)))
