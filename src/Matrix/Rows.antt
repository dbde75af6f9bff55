-- ===== src/Matrix/Rows.antt =====
-- What the loops of matrix.rs over rows and columns leave in a matrix.
use shard_vault.Base.{
  ℕ, suc, ◌≤◌, ◌<◌, ◌≡◌, refl, sym, ap, ◌∙◌, Bool, true, false, ◌&&◌, Bool-cases, inl, inr, ◌==◌,
  ==_iff, ltb, if◌then◌else◌, for_range_inv, IsByte, arith,
}
use shard_vault.Matrix.Dense.{Matrix, zeros, entry, set_entry, fill_row, fill}
use shard_vault.Matrix.Invert.{change_row, swap_rows}
use shard_vault.Matrix.Access.{
  IsMatrix, RowDone, row_loop_lem, entry-IsByte, set_entry-IsMatrix, entry-set_entry,
  zeros-IsMatrix,
}
use shard_vault.Algebra.Kernel.{swapped}

pub fill_row_lem :
    {h w : ℕ} (n r : ℕ) (value : ℕ → ℕ) (m : Matrix)
    → IsMatrix h w m
    → r < h
    → n ≤ w
    → ((c : ℕ) → c < n → IsByte (value c))
    → RowDone h w r value m n (fill_row n r value m)
unfolding fill_row
fill_row_lem n r value m valid hr hn bytes =
    row_loop_lem n r m valid hr hn value (λ c t. value c) bytes (λ c t p e. refl)

pub change_row_lem :
    {h w : ℕ} (r q : ℕ) (value : ℕ → ℕ → ℕ) (m : Matrix)
    → IsMatrix h w m
    → r < h
    → ((x y : ℕ) → IsByte x → IsByte y → IsByte (value x y))
    → RowDone h w r (λ c. value (entry m r c) (entry m q c)) m w (change_row w r q value m)
unfolding change_row
change_row_lem {h} {w} r q value m valid hr bytes =
    row_loop_lem w r m valid hr (omega arith) (λ c. value (entry m r c) (entry m q c))
      (λ c t. value (entry t r c) (entry t q c))
      (λ c p. bytes _ _ (entry-IsByte m r c valid) (entry-IsByte m q c valid))
      (λ c t p e. rw (e r, e q) refl)

-- One more row is written.
row_step :
    (inside : Bool) (value : ℕ → ℕ) (old s i : ℕ)
    → (if (s == i) && inside then value i else (if ltb s i && inside then value s else old))
      ≡ (if ltb s (suc i) && inside then value s else old)
row_step false value old s i = ground arith
row_step true value old s i = elim (Bool-cases (s == i)) [
  | inl at ↦ let e : s ≡ i = (==_iff s i).0 at in rw e (ground arith)
  | inr off ↦ ground arith
]

-- The rows before `i` hold the values in the first `n` columns.
abbrev pub RowsDone : ℕ → ℕ → ℕ → (ℕ → ℕ → ℕ) → Matrix → ℕ → Matrix → Type 0
RowsDone h w n value m i t =
    IsMatrix h w t
    × ((s c : ℕ) → c < w → entry t s c ≡ (if ltb s i && ltb c n then value s c else entry m s c))

pub fill_lem :
    {h w : ℕ} (k n : ℕ) (value : ℕ → ℕ → ℕ) (m : Matrix)
    → IsMatrix h w m
    → k ≤ h
    → n ≤ w
    → ((r c : ℕ) → r < k → c < n → IsByte (value r c))
    → RowsDone h w n value m k (fill k n value m)
unfolding fill
fill_lem {h} {w} k n value m valid hk hn bytes =
    for_range_inv (RowsDone h w n value m) k (λ r t. fill_row n r (value r) t) m
      (valid, λ s c p. ground arith)
      (λ i t hi (tv, te).
        let (uv, ue) = fill_row_lem n i (value i) t tv (omega arith) hn (λ c p. bytes i c hi p) in
        (
          uv,
          λ s c p. ue s c p ∙ rw (te s c p) (row_step (ltb c n) (λ r. value r c) (entry m s c) s i),
        ))

-- A whole matrix filled.
pub filled :
    (h w : ℕ) (value : ℕ → ℕ → ℕ)
    → ((r c : ℕ) → r < h → c < w → IsByte (value r c))
    → IsMatrix h w (fill h w value (zeros h w))
      × ((r c : ℕ) → r < h → c < w → entry (fill h w value (zeros h w)) r c ≡ value r c)
filled h w value bytes =
    let (v, e) =
      fill_lem h w value (zeros h w) (zeros-IsMatrix h w) (omega arith) (omega arith) bytes in
    (v, λ r c p q. e r c q ∙ ground arith)

-- The columns before `i` of the two rows have changed places.
abbrev pub Swapping : ℕ → ℕ → ℕ → ℕ → Matrix → ℕ → Matrix → Type 0
Swapping h w p q m i t =
    IsMatrix h w t
    × ((s c : ℕ)
        → c < w
        → entry t s c ≡ (if ltb c i then entry m (swapped p q s) c else entry m s c))

swapped_self : (p s : ℕ) → swapped p p s ≡ s
swapped_self p s = elim (Bool-cases (s == p)) [
  | inl at ↦ rw at (sym ((==_iff s p).0 at))
  | inr off ↦ rw off refl
]

pub and-true : (b : Bool) → b && true ≡ b
and-true false = refl
and-true true = refl

pub and-false : (b : Bool) → b && false ≡ false
and-false false = refl
and-false true = refl

-- What a round writes, at the place of the column.
swap_here :
    (g : ℕ → ℕ) (p q s : ℕ)
    → ((p == q) ≡ false)
    → (if s == q then g p else if s == p then g q else g s) ≡ g (swapped p q s)
swap_here g p q s apart = elim (Bool-cases (s == p)) [
  | inl at ↦ let off : (s == q) ≡ false = ground arith in rw (at, off) refl
  | inr off ↦ elim (Bool-cases (s == q)) [
    | inl at ↦ rw (at, off) refl
    | inr away ↦ rw (off, away) refl
  ]
]

swap_step :
    (g : ℕ → ℕ → ℕ) (p q s c i : ℕ)
    → ((p == q) ≡ false)
    → (if (s == q) && (c == i)
        then g p i
        else if (s == p) && (c == i)
        then g q i
        else if ltb c i
        then g (swapped p q s) c
        else g s c)
      ≡ (if ltb c (suc i) then g (swapped p q s) c else g s c)
swap_step g p q s c i apart = elim (Bool-cases (c == i)) [
  | inl at ↦
      let e : c ≡ i = (==_iff c i).0 at in
      let last : ltb i (suc i) ≡ true = ground arith in
      let now : ltb i i ≡ false = ground arith in
      let here : (i == i) ≡ true = ground arith in
      rw (e, here, last, now, and-true (s == q), and-true (s == p))
        (swap_here (λ r. g r i) p q s apart)
  | inr off ↦
      let e : ltb c (suc i) ≡ ltb c i = ground arith in
      rw (off, e, and-false (s == q), and-false (s == p)) refl
]

unswapped : (g : ℕ → ℕ → ℕ) (p q s i : ℕ) → (if ltb i i then g (swapped p q s) i else g s i) ≡ g s i
unswapped g p q s i = let now : ltb i i ≡ false = ground arith in rw now refl

pub swap_rows_lem :
    {h w : ℕ} (pivot col : ℕ) (m : Matrix)
    → IsMatrix h w m
    → pivot < h
    → col < h
    → Swapping h w pivot col m w (swap_rows w pivot col m)
unfolding swap_rows
swap_rows_lem {h} {w} pivot col m valid hp hq = elim (Bool-cases (pivot == col)) [
  | inl same ↦
      let e : pivot ≡ col = (==_iff pivot col).0 same in
      rw same (
        valid,
        λ s c p.
            let inside : ltb c w ≡ true = ground arith in
            rw (inside, e) (ap (λ r. entry m r c) (sym (swapped_self col s))),
      )
  | inr off ↦ rw off (
      for_range_inv (Swapping h w pivot col m) w _ m (valid, λ s c p. ground arith)
        (λ i t hi (tv, te).
          let u = set_entry pivot i (entry t col i) t in
          let uv = set_entry-IsMatrix t pivot i (entry t col i) (entry-IsByte t col i tv) tv in
          (
            set_entry-IsMatrix u col i (entry t pivot i) (entry-IsByte t pivot i tv) uv,
            λ s c p.
                entry-set_entry u col i (entry t pivot i) s c uv hq hi p
                ∙ rw (entry-set_entry t pivot i (entry t col i) s c tv hp hi p) (
                    rw
                      (
                        te s c p,
                        te pivot i hi ∙ unswapped (entry m) pivot col pivot i,
                        te col i hi ∙ unswapped (entry m) pivot col col i,
                      )
                      (swap_step (entry m) pivot col s c i off)),
          )))
]
