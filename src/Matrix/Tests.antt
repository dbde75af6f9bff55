-- ===== src/Matrix/Tests.antt =====
-- Tests of the matrices, and the theorems on them at a few.
use shard_vault.Base.{◌≡◌, refl, some, [], ◌∷◌, for_range, arith}
use shard_vault.Gf.Tables.{
  xtime, fill_tables, repeat_exp, build_tables, exp_at, log_at, add, mul, inv,
}
use shard_vault.Matrix.Dense.{Matrix, zeros, entry, set_entry, identity, fill_row, fill, mul_matrix}
use shard_vault.Matrix.Invert.{
  augment, find_pivot, swap_rows, change_row, scale_row, clear_row, clear_column, eliminate, reduce,
  right_half, invert,
}
use shard_vault.Matrix.Access.{IsMatrix}
use shard_vault.Matrix.Product.{mul_matrix-invert}
use shard_vault.Matrix.Unique.{invert-left_inverse}

abbrev square : Matrix
square = record { rows = 2; cols = 2; entries = 1 ∷ 2 ∷ 3 ∷ 4 ∷ [] }

abbrev inverse : Matrix
inverse = record { rows = 2; cols = 2; entries = 2 ∷ 1 ∷ 143 ∷ 142 ∷ [] }

square-IsMatrix : IsMatrix 2 2 square
square-IsMatrix = record {
  height = refl;
  width = refl;
  size = refl;
  bytes = (omega arith, (omega arith, (omega arith, (omega arith, tt))));
}

invert-square : invert square ≡ some inverse
unfolding invert augment find_pivot swap_rows change_row scale_row clear_row clear_column eliminate
    reduce right_half zeros entry set_entry fill_row fill for_range xtime fill_tables repeat_exp
    build_tables exp_at log_at add mul inv
invert-square = refl

mul_matrix-invert_example :
    (mul_matrix square inverse ≡ some (identity 2))
    × (mul_matrix inverse square ≡ some (identity 2))
mul_matrix-invert_example = mul_matrix-invert square inverse square-IsMatrix invert-square

inverse-IsMatrix : IsMatrix 2 2 inverse
inverse-IsMatrix = record {
  height = refl;
  width = refl;
  size = refl;
  bytes = (omega arith, (omega arith, (omega arith, (omega arith, tt))));
}

invert-left_inverse_example : invert inverse ≡ some square
invert-left_inverse_example =
    invert-left_inverse 2 square inverse square-IsMatrix inverse-IsMatrix
      (mul_matrix-invert square inverse square-IsMatrix invert-square).0
