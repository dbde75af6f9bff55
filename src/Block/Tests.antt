-- ===== src/Block/Tests.antt =====
-- The block layer's theorems at a short payload.
use shard_vault.Base.{ℕ, ◌≡◌, List, [], ◌∷◌, length, arith}
use shard_vault.Block.Layer.{block_size, done}
use shard_vault.Block.Codec.{encode, decode}
use shard_vault.Block.RoundTrip.{decode-encode, encode-fits}

abbrev payload : List ℕ
payload = 1 ∷ 9 ∷ 0 ∷ 0 ∷ 0 ∷ 0 ∷ 0 ∷ 0 ∷ 0 ∷ []

encode-fits_example : (blk : List ℕ) × (encode 9 payload 1 ≡ done blk) × (length blk ≡ block_size)
encode-fits_example = encode-fits 9 payload 1 (omega arith)

encoded : (blk : List ℕ) × (encode 9 payload 1 ≡ done blk) × (length blk ≡ block_size)
encoded = encode-fits 9 payload 1 (omega arith)

decode-encode_example : decode encoded.0 ≡ done (record { lsn = 9; flags = 1; payload = payload })
decode-encode_example = decode-encode 9 payload 1 encoded.0 (omega arith) encoded.1
