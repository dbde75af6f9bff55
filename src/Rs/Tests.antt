-- ===== src/Rs/Tests.antt =====
-- The theorems on the codes at two data shards and one parity shard.
use shard_vault.Base.{
  ℕ, zero, suc, ◌+◌, ◌<◌, ◌≡◌, refl, ◌⊎◌, inl, inr, Option, none, some, List, [], ◌∷◌, ◌++◌, length,
  get_or, ltb, if◌then◌else◌, arith,
}
use shard_vault.Matrix.Dense.{Matrix, identity, mul_matrix, select_rows}
use shard_vault.Matrix.Invert.{invert, vandermonde_systematic}
use shard_vault.Matrix.Powers.{IsChoice}
use shard_vault.Rs.Coder.{ReedSolomon, new, encode}
use shard_vault.Rs.Rebuild.{EcError, ok, err, reconstruct}
use shard_vault.Rs.Encode.{IsShards}
use shard_vault.Rs.Recover.{IsErasure, complete, survivor_count}
use shard_vault.Rs.RoundTrip.{
  vandermonde_systematic-upper, invert-chosen_rows, new-encode, reconstruct-encode,
}

vandermonde_systematic-upper_example :
    (e : Matrix) × (vandermonde_systematic 2 1 ≡ some e) × (select_rows 2 (λ i. i) e ≡ identity 2)
vandermonde_systematic-upper_example = vandermonde_systematic-upper 2 1 (omega arith)

abbrev encoder : Matrix
encoder = (vandermonde_systematic-upper 2 1 (omega arith)).0

-- The second row and the third.
lower_rows : IsChoice 3 2 (λ i. i + 1)
lower_rows = record { within = λ i p. omega arith; apart = λ i j p q e. omega arith }

invert-chosen_rows_example :
    (u : Matrix) × (invert (select_rows 2 (λ i. i + 1) encoder) ≡ some u)
    × (mul_matrix (select_rows 2 (λ i. i + 1) encoder) u ≡ some (identity 2))
invert-chosen_rows_example =
    invert-chosen_rows 2 1 encoder (λ i. i + 1) (omega arith)
      (vandermonde_systematic-upper 2 1 (omega arith)).1 lower_rows

abbrev data_shards : List (List ℕ)
data_shards = (7 ∷ []) ∷ (200 ∷ []) ∷ []

data_shards-IsShards : IsShards 2 1 data_shards
data_shards-IsShards = record { count = refl; sizes = sizes; bytes = bytes }
  where
    sizes : (i : ℕ) → i < 2 → length (get_or data_shards i []) ≡ 1
    sizes zero p = refl
    sizes (suc zero) p = refl
    sizes (suc (suc i)) p = absurd (omega arith)

    bytes : (i pos : ℕ) → i < 2 → pos < 1 → get_or (get_or data_shards i []) pos 0 < 256
    bytes zero zero p q = omega arith
    bytes (suc zero) zero p q = omega arith
    bytes i (suc pos) p q = absurd (omega arith)
    bytes (suc (suc i)) zero p q = absurd (omega arith)

new-encode_example :
    (rs : ReedSolomon) × (new 2 1 ≡ some rs)
    × ((parity : List (List ℕ)) × (encode rs data_shards ≡ some parity) × (length parity ≡ 1))
new-encode_example =
    new-encode 2 1 1 data_shards (omega arith) (omega arith) (omega arith) data_shards-IsShards

built :
    (rs : ReedSolomon) × (new 2 1 ≡ some rs)
    × ((parity : List (List ℕ)) × (encode rs data_shards ≡ some parity) × (length parity ≡ 1))
built = new-encode 2 1 1 data_shards (omega arith) (omega arith) (omega arith) data_shards-IsShards

abbrev coder : ReedSolomon
coder = built.0

abbrev parity : List (List ℕ)
parity = built.2.0

-- The first data shard is lost.
abbrev left_over : List (Option (List ℕ))
left_over = none ∷ some (200 ∷ []) ∷ some (get_or parity 0 []) ∷ []

left_over-IsErasure : IsErasure 3 (λ i. get_or (data_shards ++ parity) i []) left_over
left_over-IsErasure = record { count = refl; each = each }
  where
    each :
        (i : ℕ)
        → i < 3
        → (get_or left_over i none ≡ none)
          ⊎ (get_or left_over i none ≡ some (get_or (data_shards ++ parity) i []))
    each zero p = inl refl
    each (suc zero) p = inr refl
    each (suc (suc zero)) p = inr refl
    each (suc (suc (suc i))) p = absurd (omega arith)

reconstruct-encode_example : reconstruct coder left_over ≡ (
    if ltb (survivor_count 3 left_over) 2
    then err EcError.too_few_shards
    else ok (complete 3 (λ i. get_or (data_shards ++ parity) i [])))
reconstruct-encode_example =
    reconstruct-encode 2 1 1 coder data_shards parity left_over (omega arith) (omega arith)
      (omega arith) built.1 data_shards-IsShards built.2.1 left_over-IsErasure
