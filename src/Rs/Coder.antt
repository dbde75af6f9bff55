-- ===== src/Rs/Coder.antt =====
-- `ReedSolomon::new` and `ReedSolomon::encode` of crates/shardvault-ec/src/rs.rs. A failed assertion
-- is `none`.
use shard_vault.Base.{
  ℕ, ◌+◌, bit_xor, Option, none, some, Bool, true, ◌&&◌, List, [], ◌∷◌, length, get_or, replicate,
  ◌==◌, leb, if◌then◌else◌, for_range, tabulate,
}
use shard_vault.Gf.Tables.{mul}
use shard_vault.Matrix.Dense.{Matrix, entry}
use shard_vault.Matrix.Invert.{vandermonde_systematic}

pub record ReedSolomon : Type 0 where
  pub k : ℕ
  pub m : ℕ
  pub encode_matrix : Matrix
  pub mul_tables : List (List (List ℕ))

-- The products of a coefficient with every byte.
unfoldable pub product_table : ℕ → List ℕ
product_table coeff = tabulate 256 (λ x. mul coeff x)

unfoldable pub new : ℕ → ℕ → Option ReedSolomon
new k m =
    if leb 1 k && (leb 1 m && leb (k + m) 255)
    then elim (vandermonde_systematic k m) [
      | none ↦ none
      | some encode_matrix ↦ some (record {
        k = k;
        m = m;
        encode_matrix = encode_matrix;
        mul_tables =
            tabulate m (λ j. tabulate k (λ i. product_table (entry encode_matrix (k + j) i)));
      })
    ]
    else none

-- `for (pos, out) in shard.iter_mut().enumerate() { *out ^= value(pos) }`
unfoldable pub xor_each : (ℕ → ℕ) → List ℕ → List ℕ
xor_each value shard = tabulate (length shard) (λ pos. bit_xor (get_or shard pos 0) (value pos))

unfoldable pub all_of_length : ℕ → List (List ℕ) → Bool
all_of_length n [] = true
all_of_length n (s ∷ ss) = (length s == n) && all_of_length n ss

-- A parity shard from the tables of its row.
unfoldable pub parity_shard : List (List ℕ) → List (List ℕ) → ℕ → List ℕ
parity_shard tables data_shards shard_len =
    for_range (length data_shards)
      (λ i par.
        let table = get_or tables i [] in
        xor_each (λ pos. get_or table (get_or (get_or data_shards i []) pos 0) 0) par)
      (replicate shard_len 0)

unfoldable pub encode : ReedSolomon → List (List ℕ) → Option (List (List ℕ))
encode rs data_shards =
    let shard_len = length (get_or data_shards 0 []) in
    if (length data_shards == rs.k) && all_of_length shard_len data_shards
    then some (tabulate rs.m (λ j. parity_shard (get_or rs.mul_tables j []) data_shards shard_len))
    else none
