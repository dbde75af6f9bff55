-- ===== src/Matrix/Invert.antt =====
-- `Matrix::invert` and `Matrix::vandermonde_systematic` of crates/shardvault-ec/src/matrix.rs.
use shard_vault.Base.{
  ℕ, zero, suc, ◌+◌, ◌-◌, ◌*◌, ◌%◌, Option, none, some, ◌==◌, leb, if◌then◌else◌, for_range,
}
use shard_vault.Gf.Tables.{add, mul, inv}
use shard_vault.Matrix.Dense.{Matrix, zeros, entry, set_entry, fill_row, fill, mul_matrix}

-- The matrix with the identity on its right.
unfoldable pub augment : ℕ → Matrix → Matrix
augment n m =
    for_range n (λ r t. set_entry r (n + r) 1 (fill_row n r (entry m r) t)) (zeros n (2 * n))

-- The first row from `r` on with an entry in the column; `left` rows are left.
unfoldable pub find_pivot : ℕ → ℕ → ℕ → Matrix → Option ℕ
find_pivot zero r col m = none
find_pivot (suc left) r col m =
    let later = find_pivot left (suc r) col m in if entry m r col == 0 then later else some r

unfoldable pub swap_rows : ℕ → ℕ → ℕ → Matrix → Matrix
swap_rows w pivot col m =
    if pivot == col
    then m
    else for_range w
        (λ c t.
          let tmp = entry t pivot c in set_entry col c tmp (set_entry pivot c (entry t col c) t))
        m

-- A loop that changes the entries of a row by those of another.
unfoldable pub change_row : ℕ → ℕ → ℕ → (ℕ → ℕ → ℕ) → Matrix → Matrix
change_row w r q value m =
    for_range w (λ c t. set_entry r c (value (entry t r c) (entry t q c)) t) m

unfoldable pub scale_row : ℕ → ℕ → Matrix → Matrix
scale_row w col m =
    let pv_inv = inv (entry m col col) in change_row w col col (λ x y. mul x pv_inv) m

unfoldable pub clear_row : ℕ → ℕ → ℕ → Matrix → Matrix
clear_row w col r m =
    if r == col
    then m
    else (let factor = entry m r col in
        if factor == 0 then m else change_row w r col (λ x y. add x (mul factor y)) m)

unfoldable pub clear_column : ℕ → ℕ → ℕ → Matrix → Matrix
clear_column n w col m = for_range n (λ r t. clear_row w col r t) m

-- A column with its pivot in row `pivot`.
unfoldable pub eliminate : ℕ → ℕ → ℕ → Matrix → Matrix
eliminate n col pivot m =
    clear_column n (2 * n) col (scale_row (2 * n) col (swap_rows (2 * n) pivot col m))

-- The columns from `col` on, of which `left` are left.
unfoldable pub reduce : ℕ → ℕ → ℕ → Matrix → Option Matrix
reduce zero col n m = some m
reduce (suc left) col n m = elim (find_pivot (n - col) col col m) [
  | none ↦ none
  | some pivot ↦ reduce left (suc col) n (eliminate n col pivot m)
]

unfoldable pub right_half : ℕ → Matrix → Matrix
right_half n m = fill n n (λ r c. entry m r (n + c)) (zeros n n)

unfoldable pub invert : Matrix → Option Matrix
invert m =
    if m.rows == m.cols
    then elim (reduce m.rows 0 m.rows (augment m.rows m)) [
      | none ↦ none
      | some reduced ↦ some (right_half m.rows reduced)
    ]
    else none

-- A row of powers: the loop's variables are the matrix and the power.
unfoldable pub power_row : ℕ → ℕ → ℕ → Matrix → Matrix
power_row k i point m =
    (for_range k (λ c (s : Matrix × ℕ). (set_entry i c s.1 s.0, mul s.1 point)) (m, 1)).0

unfoldable pub vandermonde : ℕ → ℕ → Matrix
vandermonde n k = for_range n (λ i t. power_row k i (i % 256 + 1) t) (zeros n k)

-- `none` where the assertion on the sizes or the `expect` on the inverse fails.
unfoldable pub vandermonde_systematic : ℕ → ℕ → Option Matrix
vandermonde_systematic k m =
    if leb (k + m) 255
    then elim (invert (fill k k (entry (vandermonde (k + m) k)) (zeros k k))) [
      | none ↦ none
      | some top_inv ↦ mul_matrix (vandermonde (k + m) k) top_inv
    ]
    else none
