-- ===== src/Rs/Word.antt =====
-- The shards of an encoded set, as the words of a code.
use shard_vault.Base.{
  ℕ, ◌+◌, ◌-◌, ◌<◌, ◌≤◌, ◌≡◌, refl, sym, ap, ◌∙◌, some, List, [], ◌++◌, length, get_or,
  get_or-append_left, get_or-append_right, ltb, Bool-cases, inl, inr, IsByte, arith,
}
use shard_vault.Gf.Bytes.{Byte, byte_field}
use shard_vault.Algebra.Inverse.{apply, delta, sum-delta}
use shard_vault.Matrix.Dense.{Matrix, entry}
use shard_vault.Matrix.Access.{entry-IsByte}
use shard_vault.Matrix.View.{view, to_byte}
use shard_vault.Matrix.Inverse.{apply_congr}
use shard_vault.Matrix.Product.{accumulate-sum, accumulate-IsByte}
use shard_vault.Rs.Coder.{ReedSolomon, encode}
use shard_vault.Rs.Rounds.{IsSum}
use shard_vault.Rs.Encode.{IsCoder, IsShards, encode_lem}

-- What the shards hold at a position.
abbrev pub symbols : (ℕ → List ℕ) → ℕ → ℕ → Byte
symbols word pos i = to_byte (get_or (word i) pos 0)

-- Every shard is its row's product with the data shards.
pub record IsCodeword (n k len : ℕ) (e : Matrix) (word : ℕ → List ℕ) : Type 0 where
  pub sizes : (i : ℕ) → i < n → length (word i) ≡ len
  pub bytes : (i pos : ℕ) → i < n → pos < len → IsByte (get_or (word i) pos 0)
  pub encoded :
      (i pos : ℕ) → i < n → pos < len → symbols word pos i ≡ apply k (view e) (symbols word pos) i

-- A shard's sum is a product.
pub IsSum-symbols :
    {k len : ℕ} (e : Matrix) (r : ℕ) (word : ℕ → List ℕ) (t : List ℕ) (pos : ℕ)
    → ((i : ℕ) → i < k → IsByte (entry e r i))
    → ((i : ℕ) → i < k → IsByte (get_or (word i) pos 0))
    → pos < len
    → IsSum len k (entry e r) (λ i pos. get_or (word i) pos 0) t
    → IsByte (get_or t pos 0) × (to_byte (get_or t pos 0) ≡ apply k (view e) (symbols word pos) r)
unfolding view
IsSum-symbols {k} e r word t pos he hw h sum = rw (sum.each pos h) (
  accumulate-IsByte k (entry e r) (λ i. get_or (word i) pos 0) he hw,
  accumulate-sum k (entry e r) (λ i. get_or (word i) pos 0) he hw,
)

-- Row by row, for data shards followed by their parity.
module _ {k m len : ℕ} (rs : ReedSolomon) (data_shards parity : List (List ℕ))
    (coder : IsCoder k m rs) (valid : IsShards k len data_shards) (count : length parity ≡ m)
    (sums : (j : ℕ)
      → j < m
      → IsSum len k
          (entry rs.encode_matrix (k + j))
          (λ i pos. get_or (get_or data_shards i []) pos 0)
          (get_or parity j [])) where
  word : ℕ → List ℕ
  word i = get_or (data_shards ++ parity) i []

  word_data : (i : ℕ) → i < k → word i ≡ get_or data_shards i []
  unfolding word
  word_data i h = get_or-append_left data_shards parity i [] (rw valid.count h)

  word-parity : (j : ℕ) → word (k + j) ≡ get_or parity j []
  unfolding word
  word-parity j = rw⁻¹ valid.count (get_or-append_right data_shards parity j [])

  data_row :
      (i : ℕ)
      → i < k
      → (length (word i) ≡ len)
        × ((pos : ℕ)
            → pos < len
            → IsByte (get_or (word i) pos 0)
              × (symbols word pos i ≡ apply k (view rs.encode_matrix) (symbols word pos) i))
  data_row i h = (
    ap length (word_data i h) ∙ valid.sizes i h,
    λ pos hp. (
      rw (word_data i h) (valid.bytes i pos h hp),
      sym (
          apply_congr (view rs.encode_matrix) delta (symbols word pos) (symbols word pos) i
            (λ c hc. coder.encodes.upper i c h hc) (λ c hc. refl)
          ∙ sum-delta k i (symbols word pos) h),
    ),
  )

  parity_row :
      (j : ℕ)
      → j < m
      → (length (word (k + j)) ≡ len)
        × ((pos : ℕ)
            → pos < len
            → IsByte (get_or (word (k + j)) pos 0)
              × (symbols word pos (k + j)
                  ≡ apply k (view rs.encode_matrix) (symbols word pos) (k + j)))
  parity_row j h = rw (word-parity j) (
    (sums j h).size,
    λ pos hp.
        let (b, e) =
          IsSum-symbols rs.encode_matrix (k + j) (λ i. get_or data_shards i []) (get_or parity j [])
            pos (λ i p. entry-IsByte rs.encode_matrix (k + j) i coder.encodes.valid)
            (λ i p. valid.bytes i pos p hp) hp (sums j h) in
        (
          b,
          e
              ∙ apply_congr (view rs.encode_matrix) (view rs.encode_matrix)
                  (λ i. to_byte (get_or (get_or data_shards i []) pos 0)) (symbols word pos) (k + j)
                  (λ c hc. refl)
                  (λ c hc. ap (λ (s : List ℕ). to_byte (get_or s pos 0)) (sym (word_data c hc))),
        ),
  )

  row :
      (i : ℕ)
      → i < k + m
      → (length (word i) ≡ len)
        × ((pos : ℕ)
            → pos < len
            → IsByte (get_or (word i) pos 0)
              × (symbols word pos i ≡ apply k (view rs.encode_matrix) (symbols word pos) i))
  row i h = elim (Bool-cases (ltb i k)) [
    | inl lower ↦ data_row i (ground arith)
    | inr upper ↦
        let split : k + (i - k) ≡ i = ground arith in rw⁻¹ split (parity_row (i - k) (ground arith))
  ]

  pub word-IsCodeword :
      IsCodeword (k + m) k len rs.encode_matrix (λ i. get_or (data_shards ++ parity) i [])
  unfolding word
  word-IsCodeword = record {
    sizes = λ i h. (row i h).0;
    bytes = λ i pos h p. ((row i h).1 pos p).0;
    encoded = λ i pos h p. ((row i h).1 pos p).1;
  }

-- The data shards followed by what `encode` returns.
pub encode-IsCodeword :
    {k m len : ℕ} (rs : ReedSolomon) (data_shards : List (List ℕ))
    → IsCoder k m rs
    → IsShards k len data_shards
    → 1 ≤ k
    → (parity : List (List ℕ)) × (encode rs data_shards ≡ some parity)
      × (length parity ≡ m)
      × IsCodeword (k + m) k len rs.encode_matrix (λ i. get_or (data_shards ++ parity) i [])
encode-IsCodeword rs data_shards coder valid hk =
    let (parity, is, count, sums) = encode_lem rs data_shards coder valid hk in
    (parity, is, count, word-IsCodeword rs data_shards parity coder valid count sums)
