-- ===== src/Rs/Encode.antt =====
-- What `new` and `encode` promise.
use shard_vault.Base.{
  ℕ, suc, ◌+◌, ◌<◌, ◌≤◌, ◌≡◌, refl, ap, ◌∙◌, true, ◌&&◌, some, List, [], ◌∷◌, length, get_or, ◌==◌,
  leb, length-tabulate, get_or-tabulate, tabulate, IsByte, arith,
}
use shard_vault.Gf.Tables.{mul}
use shard_vault.Gf.Bytes.{byte_field}
use shard_vault.Matrix.Dense.{entry}
use shard_vault.Matrix.Systematic.{IsEncoder, systematic_lem}
use shard_vault.Rs.Coder.{ReedSolomon, product_table, new, all_of_length, parity_shard, encode}
use shard_vault.Rs.Rounds.{IsSum, sum_loop_lem}

-- A coder of `k` data and `m` parity shards.
pub record IsCoder (k m : ℕ) (rs : ReedSolomon) : Type 0 where
  pub data_count : rs.k ≡ k
  pub parity_count : rs.m ≡ m
  pub encodes : IsEncoder (k + m) k rs.encode_matrix
  pub tables :
      (j i x : ℕ)
      → j < m
      → i < k
      → x < 256
      → get_or (get_or (get_or rs.mul_tables j []) i []) x 0
        ≡ mul (entry rs.encode_matrix (k + j) i) x

pub new_lem :
    (k m : ℕ)
    → 1 ≤ k
    → 1 ≤ m
    → k + m ≤ 255
    → (rs : ReedSolomon) × (new k m ≡ some rs) × IsCoder k m rs
unfolding new product_table
new_lem k m hk hm h =
    let (e, is, encodes) = systematic_lem k m h in
    let asserted : leb 1 k && (leb 1 m && leb (k + m) 255) ≡ true = ground arith in
    let row = λ (j : ℕ). tabulate k (λ i. product_table (entry e (k + j) i)) in
    (
      record { k = k; m = m; encode_matrix = e; mul_tables = tabulate m row },
      rw (asserted, is) refl,
      record {
        data_count = refl;
        parity_count = refl;
        encodes = encodes;
        tables = λ j i x hj hi hx.
            ap (λ (r : List (List ℕ)). get_or (get_or r i []) x 0) (get_or-tabulate m row j [] hj)
            ∙ ap (λ (t : List ℕ). get_or t x 0)
                (get_or-tabulate k (λ i. product_table (entry e (k + j) i)) i [] hi)
            ∙ get_or-tabulate 256 (λ x. mul (entry e (k + j) i) x) x 0 hx;
      },
    )

-- Shards of the same length, of bytes.
pub record IsShards (n len : ℕ) (shards : List (List ℕ)) : Type 0 where
  pub count : length shards ≡ n
  pub sizes : (i : ℕ) → i < n → length (get_or shards i []) ≡ len
  pub bytes : (i pos : ℕ) → i < n → pos < len → IsByte (get_or (get_or shards i []) pos 0)

pub all_of_length_lem :
    (len : ℕ) (shards : List (List ℕ))
    → ((i : ℕ) → i < length shards → length (get_or shards i []) ≡ len)
    → all_of_length len shards ≡ true
unfolding all_of_length
all_of_length_lem len [] h = refl
all_of_length_lem len (s ∷ ss) h =
    let here : (length s == len) ≡ true = let e = h 0 (omega arith) in ground arith in
    rw here (all_of_length_lem len ss (λ i p. h (suc i) (omega arith)))

-- Every parity shard holds its row's sums of the data shards.
pub encode_lem :
    {k m len : ℕ} (rs : ReedSolomon) (data_shards : List (List ℕ))
    → IsCoder k m rs
    → IsShards k len data_shards
    → 1 ≤ k
    → (parity : List (List ℕ)) × (encode rs data_shards ≡ some parity)
      × (length parity ≡ m)
      × ((j : ℕ)
          → j < m
          → IsSum len k
              (entry rs.encode_matrix (k + j))
              (λ i pos. get_or (get_or data_shards i []) pos 0)
              (get_or parity j []))
unfolding encode parity_shard
encode_lem {k} {m} {len} rs data_shards coder valid hk =
    let value = λ (j : ℕ). parity_shard (get_or rs.mul_tables j []) data_shards len in
    let lens : all_of_length len data_shards ≡ true =
      all_of_length_lem len data_shards (λ i p. valid.sizes i (rw⁻¹ valid.count p)) in
    let first = valid.sizes 0 hk in
    let counted : (length data_shards == rs.k) ≡ true =
      let e = valid.count in let f = coder.data_count in ground arith in
    (
      tabulate m value,
      rw (counted, first, lens, coder.parity_count) refl,
      length-tabulate m value,
      λ j hj. rw (get_or-tabulate m value j [] hj) (parity_sums j hj),
    )
  where
    parity_sums :
        (j : ℕ)
        → j < m
        → IsSum len k
            (entry rs.encode_matrix (k + j))
            (λ i pos. get_or (get_or data_shards i []) pos 0)
            (parity_shard (get_or rs.mul_tables j []) data_shards len)
    parity_sums j hj = rw valid.count (
        sum_loop_lem len k (entry rs.encode_matrix (k + j))
          (λ i pos. get_or (get_or data_shards i []) pos 0)
          (λ i pos.
            get_or (get_or (get_or rs.mul_tables j []) i [])
              (get_or (get_or data_shards i []) pos 0) 0)
          (λ i pos hi hp. coder.tables j i _ hj hi (valid.bytes i pos hi hp)))
