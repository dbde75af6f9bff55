-- ===== src/Matrix/Augment.antt =====
-- The start and the end of `Matrix::invert`: the matrix beside the identity, and the half it returns.
use shard_vault.Base.{
  ℕ, suc, ◌+◌, ◌*◌, ◌<◌, ◌≡◌, sym, ap, ◌∙◌, true, false, ◌&&◌, Bool-cases, inl, inr, ◌==◌, ==_iff,
  ltb, if◌then◌else◌, for_range_inv, arith,
}
use shard_vault.Matrix.Dense.{Matrix, zeros, entry, set_entry, fill_row}
use shard_vault.Matrix.Invert.{augment, right_half}
use shard_vault.Matrix.Access.{
  IsMatrix, entry-IsByte, set_entry-IsMatrix, entry-set_entry, zeros-IsMatrix, entry-zeros,
}
use shard_vault.Matrix.Rows.{fill_row_lem, filled, and-false}

-- The rows before `i` are in place.
abbrev Augmenting : ℕ → Matrix → ℕ → Matrix → Type 0
Augmenting n m i t =
    IsMatrix n (n + n) t
    × ((s c : ℕ) → s < i → c < n → entry t s c ≡ entry m s c)
    × ((s j : ℕ) → s < n → j < n → entry t s (n + j) ≡ (if ltb s i && (s == j) then 1 else 0))

unit_step :
    (s i j n other : ℕ)
    → (if (s == i) && (n + j == n + i)
        then 1
        else if (s == i) && ltb (n + j) n
        then other
        else if ltb s i && (s == j)
        then 1
        else 0)
      ≡ (if ltb s (suc i) && (s == j) then 1 else 0)
unit_step s i j n other =
    let e : ltb (n + j) n ≡ false = ground arith in rw (e, and-false (s == i)) (ground arith)

left_step :
    (s i c n old here : ℕ) (m : Matrix)
    → c < n
    → s < suc i
    → (s < i → old ≡ entry m s c)
    → (if (s == i) && (c == n + i) then 1 else if (s == i) && ltb c n then entry m i c else old)
      ≡ entry m s c
left_step s i c n old here m hc hs e =
    let apart : (c == n + i) ≡ false = ground arith in
    let inside : ltb c n ≡ true = ground arith in
    rw (apart, inside, and-false (s == i))
      (elim (Bool-cases (s == i)) [
        | inl at ↦ rw at (ap (λ r. entry m r c) (sym ((==_iff s i).0 at)))
        | inr off ↦ rw off (e (ground arith))
      ])

augment_round :
    {n : ℕ} (m : Matrix) (i : ℕ) (t : Matrix)
    → IsMatrix n n m
    → i < n
    → Augmenting n m i t
    → Augmenting n m (suc i) (set_entry i (n + i) 1 (fill_row n i (entry m i) t))
augment_round {n} m i t valid hi (tv, tl, tr) =
    let (uv, ue) =
      fill_row_lem n i (entry m i) t tv hi (omega arith) (λ c p. entry-IsByte m i c valid) in
    let u = fill_row n i (entry m i) t in
    (
      set_entry-IsMatrix u i (n + i) 1 (omega arith) uv,
      λ s c hs hc.
          entry-set_entry u i (n + i) 1 s c uv hi (omega arith) (omega arith)
          ∙ rw (ue s c (omega arith))
              (left_step s i c n (entry t s c) 0 m hc hs (λ p. tl s c p hc)),
      λ s j hs hj.
          entry-set_entry u i (n + i) 1 s (n + j) uv hi (omega arith) (omega arith)
          ∙ rw (ue s (n + j) (omega arith), tr s j hs hj) (unit_step s i j n (entry m i (n + j))),
    )

-- The matrix with the identity on its right.
pub augment_lem :
    {n : ℕ} (m : Matrix)
    → IsMatrix n n m
    → IsMatrix n (n + n) (augment n m)
      × ((s c : ℕ) → s < n → c < n → entry (augment n m) s c ≡ entry m s c)
      × ((s j : ℕ) → s < n → j < n → entry (augment n m) s (n + j) ≡ (if s == j then 1 else 0))
unfolding augment
augment_lem {n} m valid =
    let two : 2 * n ≡ n + n = omega arith in
    let (v, l, r) =
      for_range_inv (Augmenting n m) n (λ i t. set_entry i (n + i) 1 (fill_row n i (entry m i) t))
        (zeros n (2 * n))
        (
          rw two (zeros-IsMatrix n (n + n)),
          λ s c hs hc. absurd (omega arith),
          λ s j hs hj. entry-zeros n (2 * n) s (n + j) ∙ ground arith,
        )
        (λ i t hi p. augment_round m i t valid hi p) in
    (v, l, λ s j hs hj. r s j hs hj ∙ ground arith)

-- The half that is returned.
pub right_half_lem :
    {n : ℕ} (m : Matrix)
    → IsMatrix n (n + n) m
    → IsMatrix n n (right_half n m)
      × ((r c : ℕ) → r < n → c < n → entry (right_half n m) r c ≡ entry m r (n + c))
unfolding right_half
right_half_lem {n} m valid =
    filled n n (λ r c. entry m r (n + c)) (λ r c p q. entry-IsByte m r (n + c) valid)
