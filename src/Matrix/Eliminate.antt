-- ===== src/Matrix/Eliminate.antt =====
-- The elimination of `Matrix::invert`: what it keeps, and what it has made of the matrix when it ends
-- or finds no pivot.
use shard_vault.Base.{
  ℕ, zero, suc, ◌+◌, ◌-◌, ◌*◌, ◌≤◌, ◌<◌, ◌≡◌, refl, sym, ap, ◌∙◌, true, false, ◌&&◌, not,
  Bool-cases, ◌⊎◌, inl, inr, Option, none, some, ◌==◌, ==_iff, ltb, if◌then◌else◌, IsByte, arith,
}
use mathlib.Core.Path.{subst}
use shard_vault.Gf.Tables.{inv}
use shard_vault.Gf.Field.{mul-inv, mul_comm}
use shard_vault.Gf.Bytes.{Byte, zero_byte, one_byte, inv-IsByte, byte_field}
use shard_vault.Algebra.Field.{Field, ◌⊕◌, ◌⊗◌}
use shard_vault.Algebra.Kernel.{
  swapped, SameKernel, SameKernel-trans, SameKernel-swap, SameKernel-scale,
}
use shard_vault.Algebra.Inverse.{delta, delta_ne, delta_self, IsReduced}
use shard_vault.Matrix.Dense.{Matrix, entry}
use shard_vault.Matrix.Invert.{find_pivot, swap_rows, scale_row, clear_column, eliminate, reduce}
use shard_vault.Matrix.Access.{IsMatrix, entry-IsByte}
use shard_vault.Matrix.View.{
  view, to_byte, to_byte-num, to_byte-mul, to_byte-zero, to_byte-one, if_row_same, inv_num_ne,
  view-swap, view-scale,
}
use shard_vault.Matrix.Pivot.{find_pivot-some, find_pivot-none, clear_column_lem}

-- The columns before `k` are done, by row changes only.
pub record Progress (n : ℕ) (a : ℕ → ℕ → Byte) (k : ℕ) (t : Matrix) : Type 0 where
  pub valid : IsMatrix n (n + n) t
  pub reduced : IsReduced n k (view t)
  pub same : SameKernel n (n + n) a (view t)

delta-swapped : (p q r c : ℕ) → c < q → q ≤ p → delta (swapped p q r) c ≡ delta {F = Byte} r c
delta-swapped p q r c hq hp = let e : (swapped p q r == c) ≡ (r == c) = ground arith in rw e refl

swapped_at : (p q : ℕ) → swapped p q q ≡ p
swapped_at p q = ground arith

-- The pivot's row is moved up.
swap-Progress :
    (n : ℕ) (a : ℕ → ℕ → Byte) (k pivot : ℕ) (t : Matrix)
    → k ≤ pivot
    → pivot < n
    → Progress n a k t
    → Progress n a k (swap_rows (n + n) pivot k t)
      × (view (swap_rows (n + n) pivot k t) k k ≡ view t pivot k)
swap-Progress n a k pivot t hk hp done =
    let (v, e) = view-swap pivot k t done.valid hp (omega arith) in
    let u = swap_rows (n + n) pivot k t in
    (
      record {
        valid = v;
        reduced = λ r c hr hc.
            e r c (omega arith)
            ∙ done.reduced (swapped pivot k r) c (ground arith) hc
            ∙ delta-swapped pivot k r c hc hk;
        same = SameKernel-trans n (n + n) a (view t) (view u) done.same (
            SameKernel-swap n (n + n) pivot k (view t) (view u) hp (omega arith)
              (λ r c hr hc. e r c hc));
      },
      e k k (omega arith) ∙ ap (λ r. view t r k) (swapped_at pivot k),
    )

inv-entry : (x : ℕ) → IsByte x → (x ≡ 0 → ⊥) → to_byte (inv x) ⊗ to_byte x ≡ one_byte
inv-entry x hx ne =
    sym (to_byte-mul (inv x) x (inv-IsByte x hx) hx)
    ∙ ap to_byte (mul_comm (inv x) x ∙ (mul-inv x (ground (arith, ne)) hx).0)
    ∙ to_byte-one

-- The pivot becomes one.
scale-Progress :
    (n : ℕ) (a : ℕ → ℕ → Byte) (k : ℕ) (t : Matrix)
    → k < n
    → (view t k k ≡ zero_byte → ⊥)
    → Progress n a k t
    → Progress n a k (scale_row (n + n) k t) × (view (scale_row (n + n) k t) k k ≡ one_byte)
unfolding view
scale-Progress n a k t hk nonzero done =
    let (v, e) = view-scale k t done.valid hk in
    let u = scale_row (n + n) k t in
    let f = to_byte (inv (entry t k k)) in
    let ne : entry t k k ≡ 0 → ⊥ = λ z. nonzero (ap to_byte z ∙ to_byte-zero) in
    (
      record {
        valid = v;
        reduced = λ r c hr hc.
            e r c (omega arith)
            ∙ sym (
                if_row_same r k (view t r c) (f ⊗ view t r c) (λ at.
                  let z = done.reduced r c hr hc ∙ delta_ne r c (λ e. omega arith) in
                  z ∙ sym (ap (byte_field.mul f) z ∙ byte_field.mul-zero f)))
            ∙ done.reduced r c hr hc;
        same = SameKernel-trans n (n + n) a (view t) (view u) done.same (
            SameKernel-scale n (n + n) k f (view t) (view u)
              (inv_num_ne (entry t k k) (entry-IsByte t k k done.valid) ne)
              (λ r c hr hc. e r c hc));
      },
      e k k (omega arith)
          ∙ (let here : (k == k) ≡ true = ground arith in
              rw here (inv-entry (entry t k k) (entry-IsByte t k k done.valid) ne)),
    )

module _ {F : Type 0} ⦃f : Field F⦄ where
  -- An entry of a cleared column, or of one before it.
  cleared :
      (n k r c : ℕ) (g : ℕ → ℕ → F)
      → r < n
      → k < n
      → c < suc k
      → g k k ≡ f.one
      → IsReduced n k g
      → (if ltb r n && not (r == k) then g r c ⊕ g r k ⊗ g k c else g r c) ≡ delta r c
  cleared n k r c g hr hk hc one reduced = elim (Bool-cases (r == k)) [
    | inl at ↦
        let off : ltb r n && not (r == k) ≡ false = ground arith in
        let e : r ≡ k = (==_iff r k).0 at in
        rw off (elim (Bool-cases (c == k)) [
          | inl last ↦ rw (e, (==_iff c k).0 last) (one ∙ sym (delta_self k))
          | inr before ↦ reduced r c hr (ground arith)
        ])
    | inr away ↦
        let on : ltb r n && not (r == k) ≡ true = ground arith in
        rw on (elim (Bool-cases (c == k)) [
          | inl last ↦
              let e : c ≡ k = (==_iff c k).0 last in
              rw (e, one, f.mul-one (g r k), f.add_self (g r k))
                (sym (delta_ne r k (λ z. ground arith)))
          | inr before ↦
              let hb : c < k = ground arith in
              rw (reduced r c hr hb, reduced k c hk hb, delta_ne k c (λ z. omega arith))
                (ap (f.add (delta r c)) (f.mul-zero (g r k)) ∙ f.add-zero (delta r c))
        ])
  ]

-- The column is cleared.
clear-Progress :
    (n : ℕ) (a : ℕ → ℕ → Byte) (k : ℕ) (t : Matrix)
    → k < n
    → view t k k ≡ one_byte
    → Progress n a k t
    → Progress n a (suc k) (clear_column n (n + n) k t)
clear-Progress n a k t hk one done =
    let (v, same, e) = clear_column_lem k t done.valid hk (omega arith) in
    let u = clear_column n (n + n) k t in
    record {
      valid = v;
      reduced =
          λ r c hr hc. e r c (omega arith) ∙ cleared n k r c (view t) hr hk hc one done.reduced;
      same = SameKernel-trans n (n + n) a (view t) (view u) done.same same;
    }

pub eliminate-Progress :
    (n : ℕ) (a : ℕ → ℕ → Byte) (k pivot : ℕ) (t : Matrix)
    → k ≤ pivot
    → pivot < n
    → (view t pivot k ≡ zero_byte → ⊥)
    → Progress n a k t
    → Progress n a (suc k) (eliminate n k pivot t)
unfolding eliminate
eliminate-Progress n a k pivot t hk hp ne done =
    let two : 2 * n ≡ n + n = omega arith in
    let u = swap_rows (n + n) pivot k t in
    let (du, e) = swap-Progress n a k pivot t hk hp done in
    let (dv, one) = scale-Progress n a k u (omega arith) (λ z. ne (sym e ∙ z)) du in
    rw two (clear-Progress n a k (scale_row (n + n) k u) (omega arith) one dv)

-- The elimination came to the end, or to a column without a pivot.
abbrev pub Outcome : ℕ → (ℕ → ℕ → Byte) → Option Matrix → Type 0
Outcome n a result =
    ((t : Matrix) × (result ≡ some t) × Progress n a n t)
    ⊎ ((k : ℕ) × (t : Matrix) × (result ≡ none)
        × (k < n)
        × Progress n a k t
        × ((s : ℕ) → s < n → k ≤ s → view t s k ≡ zero_byte))

pub reduce-Outcome :
    (left k n : ℕ) (a : ℕ → ℕ → Byte) (t : Matrix)
    → left + k ≡ n
    → Progress n a k t
    → Outcome n a (reduce left k n t)
unfolding reduce view
reduce-Outcome zero k n a t h done =
    let e : k ≡ n = omega arith in inl (t, refl, subst (λ x. Progress n a x t) e done)
reduce-Outcome (suc left) k n a t h done =
    go (find_pivot (n - k) k k t) refl
      (λ pivot next. reduce-Outcome left (suc k) n a (eliminate n k pivot t) (omega arith) next)
  where
    go :
        (found : Option ℕ)
        → find_pivot (n - k) k k t ≡ found
        → ((pivot : ℕ)
            → Progress n a (suc k) (eliminate n k pivot t)
            → Outcome n a (reduce left (suc k) n (eliminate n k pivot t)))
        → Outcome n a (reduce (suc left) k n t)
    go none e rest =
        let missing = find_pivot-none (n - k) k k t e in
        rw (reduce, e)
          (inr (
            k,
            t,
            refl,
            omega arith,
            done,
            λ s hs hk. ap to_byte (missing s hk (omega arith)) ∙ to_byte-zero,
          ))
    go (some pivot) e rest =
        let (lo, hi, ne) = find_pivot-some (n - k) k k pivot t e in
        let hv = entry-IsByte t pivot k done.valid in
        let next =
          eliminate-Progress n a k pivot t lo (omega arith)
            (λ z. ne (sym (to_byte-num (entry t pivot k) hv) ∙ ap (λ (b : Byte). b.0) z)) done in
        rw (reduce, e) (rest pivot next)
