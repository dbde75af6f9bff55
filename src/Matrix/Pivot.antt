-- ===== src/Matrix/Pivot.antt =====
-- The search of a pivot, and the clearing of a column, of matrix.rs.
use shard_vault.Base.{
  ℕ, zero, suc, ◌+◌, ◌≤◌, ◌<◌, ◌≡◌, refl, sym, ap, ◌∙◌, true, false, ◌&&◌, not, Bool-cases, inl,
  inr, none, some, ◌==◌, ==_iff, ltb, if◌then◌else◌, for_range_inv, arith,
}
use mathlib.Core.Option.{none-ne-some, some-ne-none, some_inj}
use shard_vault.Gf.Bytes.{byte_field}
use shard_vault.Algebra.Field.{◌⊕◌, ◌⊗◌}
use shard_vault.Algebra.Kernel.{SameKernel, SameKernel-refl, SameKernel-trans, SameKernel-add}
use shard_vault.Matrix.Dense.{Matrix, entry}
use shard_vault.Matrix.Invert.{find_pivot, clear_row, clear_column}
use shard_vault.Matrix.Access.{IsMatrix}
use shard_vault.Matrix.View.{view, view-clear, if_row}

-- What the search finds.
pub find_pivot-some :
    (left r col p : ℕ) (m : Matrix)
    → find_pivot left r col m ≡ some p
    → (r ≤ p) × (p < r + left) × (entry m p col ≡ 0 → ⊥)
unfolding find_pivot
find_pivot-some zero r col p m e = absurd (none-ne-some p e)
find_pivot-some (suc left) r col p m e = elim (Bool-cases (entry m r col == 0)) [
  | inl nothing ↦
      let (lo, hi, ne) = find_pivot-some left (suc r) col p m (sym (rw nothing refl) ∙ e) in
      (omega arith, omega arith, ne)
  | inr here ↦
      let e : r ≡ p = some_inj.0 (sym (rw here refl) ∙ e) in
      (omega arith, omega arith, λ z. ground arith)
]

pub find_pivot-none :
    (left r col : ℕ) (m : Matrix)
    → find_pivot left r col m ≡ none
    → (s : ℕ) → r ≤ s
    → s < r + left
    → entry m s col ≡ 0
unfolding find_pivot
find_pivot-none zero r col m e s lo hi = absurd (omega arith)
find_pivot-none (suc left) r col m e s lo hi = elim (Bool-cases (entry m r col == 0)) [
  | inl nothing ↦ elim (Bool-cases (s == r)) [
    | inl at ↦ ground arith
    | inr off ↦
        find_pivot-none left (suc r) col m (sym (rw nothing refl) ∙ e) s (ground arith)
          (omega arith)
  ]
  | inr here ↦ absurd (some-ne-none r (sym (rw here refl) ∙ e))
]

-- The rows before `i`, but the pivot's, are cleared.
abbrev pub Clearing : ℕ → ℕ → ℕ → Matrix → ℕ → Matrix → Type 0
Clearing n w col m i t =
    IsMatrix n w t
    × SameKernel n w (view m) (view t)
    × ((s c : ℕ)
        → c < w
        → view t s c ≡ (
            if ltb s i && not (s == col)
            then view m s c ⊕ view m s col ⊗ view m col c
            else view m s c))

-- The round of the pivot's row changes nothing.
skip_step :
    {A : Type 0} (s i col : ℕ) (new old : A)
    → ((i == col) ≡ true)
    → (if ltb s i && not (s == col) then new else old)
      ≡ (if ltb s (suc i) && not (s == col) then new else old)
skip_step s i col new old at =
    let e : ltb s (suc i) && not (s == col) ≡ ltb s i && not (s == col) = ground arith in rw e refl

clear_step :
    {A : Type 0} (s i col : ℕ) (new old : ℕ → A)
    → ((i == col) ≡ false)
    → (if s == i then new i else if ltb s i && not (s == col) then new s else old s)
      ≡ (if ltb s (suc i) && not (s == col) then new s else old s)
clear_step s i col new old off = elim (Bool-cases (s == i)) [
  | inl at ↦
      let e : ltb s (suc i) && not (s == col) ≡ true = ground arith in
      rw (at, e) (ap new (sym ((==_iff s i).0 at)))
  | inr away ↦
      let e : ltb s (suc i) && not (s == col) ≡ ltb s i && not (s == col) = ground arith in
      rw (away, e) refl
]

clear_round :
    {n w : ℕ} (col : ℕ) (m : Matrix) (i : ℕ) (t : Matrix)
    → col < n
    → col < w
    → i < n
    → ((i == col) ≡ false)
    → Clearing n w col m i t
    → Clearing n w col m (suc i) (clear_row w col i t)
clear_round {n} {w} col m i t hn hw hi off (tv, tk, te) =
    let (uv, ue) = view-clear col i t tv hi off in
    let step =
      SameKernel-add n w col i (view t i col) (view t) (view (clear_row w col i t)) hn off
        (λ r c hr hc. ue r c hc) in
    let later : ltb i i && not (i == col) ≡ false = ground arith in
    let kept : ltb col i && not (col == col) ≡ false = ground arith in
    let same : (c : ℕ) → c < w → view t i c ≡ view m i c = λ c p. te i c p ∙ rw later refl in
    let pivot_row : (c : ℕ) → c < w → view t col c ≡ view m col c =
      λ c p. te col c p ∙ rw kept refl in
    (
      uv,
      SameKernel-trans n w (view m) (view t) (view (clear_row w col i t)) tk step,
      λ s c p.
          ue s c p
          ∙ if_row s i _ (view t s c) (view m i c ⊕ view m i col ⊗ view m col c) (λ at.
            ap (λ r. view t r c ⊕ view t i col ⊗ view t col c) at
            ∙ rw (same c p, same col hw, pivot_row c p) refl)
          ∙ rw (te s c p) (
              clear_step s i col (λ r. view m r c ⊕ view m r col ⊗ view m col c) (λ r. view m r c)
                off),
    )

skipped : (w col i : ℕ) (t : Matrix) → ((i == col) ≡ true) → clear_row w col i t ≡ t
unfolding clear_row
skipped w col i t at = rw at refl

pub clear_column_lem :
    {n w : ℕ} (col : ℕ) (m : Matrix)
    → IsMatrix n w m
    → col < n
    → col < w
    → Clearing n w col m n (clear_column n w col m)
unfolding clear_column
clear_column_lem {n} {w} col m valid hn hw =
    for_range_inv (Clearing n w col m) n (λ r t. clear_row w col r t) m
      (valid, SameKernel-refl n w (view m), λ s c p. ground arith)
      (λ i t hi done. elim (Bool-cases (i == col)) [
        | inl at ↦
            let (tv, tk, te) = done in
            rw (skipped w col i t at) (tv, tk, λ s c p. te s c p ∙ skip_step s i col _ _ at)
        | inr off ↦ clear_round col m i t hn hw hi off done
      ])
