-- ===== src/Matrix/Dense.antt =====
-- `Matrix` of crates/shardvault-ec/src/matrix.rs. A read out of bounds, at which the source panics, is
-- 0, and a write out of bounds changes nothing; no operation makes one on matrices of its sizes.
use shard_vault.Base.{
  ℕ, ◌+◌, ◌*◌, Option, none, some, List, get_or, set, replicate, ◌==◌, if◌then◌else◌, for_range,
}
use shard_vault.Gf.Tables.{add, mul}

pub record Matrix : Type 0 where
  pub rows : ℕ
  pub cols : ℕ
  pub entries : List ℕ

unfoldable pub zeros : ℕ → ℕ → Matrix
zeros rows cols = record { rows = rows; cols = cols; entries = replicate (rows * cols) 0 }

unfoldable pub entry : Matrix → ℕ → ℕ → ℕ
entry m r c = get_or m.entries (r * m.cols + c) 0

unfoldable pub set_entry : ℕ → ℕ → ℕ → Matrix → Matrix
set_entry r c v m = record m { entries = set m.entries (r * m.cols + c) v }

unfoldable pub identity : ℕ → Matrix
identity n = for_range n (λ i m. set_entry i i 1 m) (zeros n n)

-- Loops that write the columns below `w` of a row, and the rows below `h`.
unfoldable pub fill_row : ℕ → ℕ → (ℕ → ℕ) → Matrix → Matrix
fill_row w r value m = for_range w (λ c t. set_entry r c (value c) t) m

unfoldable pub fill : ℕ → ℕ → (ℕ → ℕ → ℕ) → Matrix → Matrix
fill h w value m = for_range h (λ r t. fill_row w r (value r) t) m

-- The inner loop of `mul`, also of a row of coefficients in rs.rs.
unfoldable pub accumulate : ℕ → (ℕ → ℕ) → (ℕ → ℕ) → ℕ
accumulate n left right = for_range n (λ k acc. add acc (mul (left k) (right k))) 0

-- `none` where the assertion on the dimensions fails.
unfoldable pub mul_matrix : Matrix → Matrix → Option Matrix
mul_matrix a b =
    if a.cols == b.rows
    then some (
        fill a.rows b.cols (λ r c. accumulate a.cols (λ k. entry a r k) (λ k. entry b k c))
          (zeros a.rows b.cols))
    else none

-- The matrix of some rows of another, as `reconstruct` of rs.rs takes it.
unfoldable pub select_rows : ℕ → (ℕ → ℕ) → Matrix → Matrix
select_rows k rows m = fill k k (λ r c. entry m (rows r) c) (zeros k k)
