-- ===== src/Rs/RoundTrip.antt =====
-- What the coder as a whole promises: it is built, its matrix is systematic, every choice of rows can be
-- inverted, and encoded shards come back.
use shard_vault.Base.{
  ℕ, ◌+◌, ◌≤◌, ◌≡◌, sym, ◌∙◌, Option, some, List, [], ◌++◌, length, get_or, ltb, if◌then◌else◌,
}
use mathlib.Core.Path.{subst}
use mathlib.Core.Option.{some_inj}
use shard_vault.Matrix.Dense.{Matrix, identity, mul_matrix, select_rows}
use shard_vault.Matrix.Invert.{invert, vandermonde_systematic}
use shard_vault.Matrix.Product.{
  Matrix_ext, view-entry, identity_lem, view-identity, mul_matrix-invert,
}
use shard_vault.Matrix.Powers.{IsChoice}
use shard_vault.Matrix.Systematic.{IsEncoder, systematic_lem, chosen-invert, select_rows_lem}
use shard_vault.Rs.Coder.{ReedSolomon, new, encode}
use shard_vault.Rs.Rebuild.{EcError, ok, err, reconstruct}
use shard_vault.Rs.Encode.{IsCoder, IsShards, new_lem}
use shard_vault.Rs.Word.{IsCodeword, encode-IsCodeword}
use shard_vault.Rs.Recover.{IsErasure, complete, survivor_count, reconstruct-answer}

systematic-IsEncoder :
    (k m : ℕ) (e : Matrix)
    → k + m ≤ 255
    → vandermonde_systematic k m ≡ some e
    → IsEncoder (k + m) k e
systematic-IsEncoder k m e h is =
    let (e', is', encodes) = systematic_lem k m h in
    subst (IsEncoder (k + m) k) (some_inj.0 (sym is' ∙ is)) encodes

-- For at most 255 shards the encoding matrix is returned, and its first `k` rows are the identity.
pub vandermonde_systematic-upper :
    (k m : ℕ)
    → k + m ≤ 255
    → (e : Matrix) × (vandermonde_systematic k m ≡ some e) × (select_rows k (λ i. i) e ≡ identity k)
vandermonde_systematic-upper k m h =
    let (e, is, encodes) = systematic_lem k m h in
    let (valid, rows) = select_rows_lem (λ i. i) e encodes.valid in
    (
      e,
      is,
      Matrix_ext (select_rows k (λ i. i) e) (identity k) valid (identity_lem k).0 (λ r c hr hc.
          view-entry (select_rows k (λ i. i) e) (identity k) r c valid (identity_lem k).0
            (rows r c hr hc ∙ encodes.upper r c hr hc ∙ sym (view-identity k r c hr hc))),
    )

-- Any `k` different rows of an encoding matrix for at most 255 shards are a matrix that `invert` inverts,
-- and the product of the two is the identity.
pub invert-chosen_rows :
    (k m : ℕ) (e : Matrix) (rows : ℕ → ℕ)
    → k + m ≤ 255
    → vandermonde_systematic k m ≡ some e
    → IsChoice (k + m) k rows
    → (u : Matrix) × (invert (select_rows k rows e) ≡ some u)
      × (mul_matrix (select_rows k rows e) u ≡ some (identity k))
invert-chosen_rows k m e rows h is choice =
    let encodes = systematic-IsEncoder k m e h is in
    let (u, inverted, inverse) = chosen-invert e rows encodes choice in
    let valid = (select_rows_lem rows e encodes.valid).0 in
    (u, inverted, (mul_matrix-invert (select_rows k rows e) u valid inverted).0)

pub new-IsCoder :
    (k m : ℕ) (rs : ReedSolomon) → 1 ≤ k → 1 ≤ m → k + m ≤ 255 → new k m ≡ some rs → IsCoder k m rs
new-IsCoder k m rs hk hm h is =
    let (rs', is', coder) = new_lem k m hk hm h in
    subst (IsCoder k m) (some_inj.0 (sym is' ∙ is)) coder

-- No assertion of `new` and `encode` fails for at least one data and one parity shard, at most 255 in
-- all, and `k` shards of bytes of one length: the coder is built, and `encode` returns `m` parity shards.
pub new-encode :
    (k m len : ℕ) (data_shards : List (List ℕ))
    → 1 ≤ k
    → 1 ≤ m
    → k + m ≤ 255
    → IsShards k len data_shards
    → (rs : ReedSolomon) × (new k m ≡ some rs)
      × ((parity : List (List ℕ)) × (encode rs data_shards ≡ some parity) × (length parity ≡ m))
new-encode k m len data_shards hk hm h valid =
    let (rs, is, coder) = new_lem k m hk hm h in
    let (parity, encoded, count, code) = encode-IsCodeword rs data_shards coder valid hk in
    (rs, is, (parity, encoded, count))

-- Where a coder for at least one data and one parity shard, at most 255 in all, encoded k data
-- shards of bytes of one length, and some of the data and parity shards are lost and the others are
-- as they were, reconstruct answers with all of them, each as it was, if at least k are left, and
-- with `TooFewShards` if not.
pub reconstruct-encode :
    (k m len : ℕ) (rs : ReedSolomon) (data_shards parity : List (List ℕ))
    (shards : List (Option (List ℕ)))
    → 1 ≤ k
    → 1 ≤ m
    → k + m ≤ 255
    → new k m ≡ some rs
    → IsShards k len data_shards
    → encode rs data_shards ≡ some parity
    → IsErasure (k + m) (λ i. get_or (data_shards ++ parity) i []) shards
    → reconstruct rs shards ≡ (
        if ltb (survivor_count (k + m) shards) k
        then err EcError.too_few_shards
        else ok (complete (k + m) (λ i. get_or (data_shards ++ parity) i [])))
reconstruct-encode k m len rs data_shards parity shards hk hm h is valid encoded erased =
    let coder = new-IsCoder k m rs hk hm h is in
    let (parity', encoded', count, code) = encode-IsCodeword rs data_shards coder valid hk in
    let same : parity' ≡ parity = some_inj.0 (sym encoded' ∙ encoded) in
    let code' =
      subst (λ p. IsCodeword (k + m) k len rs.encode_matrix (λ i. get_or (data_shards ++ p) i []))
        same code in
    reconstruct-answer rs (λ i. get_or (data_shards ++ parity) i []) shards coder hk code' erased
