-- ===== src/Stripe/Shard.antt =====
-- `write_shard` and `read_shard` of crates/shardvault-core/src/stripe.rs. The nodes' directories are a
-- function from a node and a stripe to the bytes of the file, if there is one. The operating system's
-- calls succeed, but for opening a file that is not there.
use shard_vault.Base.{
  ℕ, zero, suc, ◌+◌, ◌&&◌, Option, none, some, List, [], ◌∷◌, ◌++◌, length, take, drop, ◌==◌, ltb,
  if◌then◌else◌, Result, ok, err, ◌>>=◌, io, corrupt, block_encode_failed, block_decode_failed,
  torn_block, empty_shard_file,
}
use shard_vault.Block.Layer.{
  BlockLayer, BlockError, done, failed, invalid, crc, len, other, block_size, payload_max,
}

abbrev pub Nodes : Type 0
Nodes = ℕ → ℕ → Option (List ℕ)

unfoldable pub put_file : ℕ → ℕ → List ℕ → Nodes → Nodes
put_file node stripe file nodes i s = if (i == node) && (s == stripe) then some file else nodes i s

-- `shard.chunks(size)`, with a round for each byte.
unfoldable pub chunks : ℕ → ℕ → List ℕ → List (List ℕ)
chunks size fuel [] = []
chunks size zero (x ∷ xs) = []
chunks size (suc fuel) (x ∷ xs) = take size (x ∷ xs) ∷ chunks size fuel (drop size (x ∷ xs))

-- The number that a message prints for an error of the block layer.
abbrev pub error_code : BlockError → ℕ
error_code len = 0
error_code invalid = 1
error_code crc = 2
error_code (other code) = 3 + code

module _ (layer : BlockLayer) where
  -- The loop over the chunks, at chunk `i`; the file keeps what was written before an error.
  unfoldable pub write_blocks : ℕ → List (List ℕ) → List ℕ → List ℕ × Result ℕ
  write_blocks i [] file = (file, ok i)
  write_blocks i (chunk ∷ rest) file = elim (layer.encode i chunk 0) [
    | failed e ↦ (file, err (corrupt (block_encode_failed (error_code e))))
    | done encoded ↦ write_blocks (suc i) rest (file ++ encoded)
  ]

  unfoldable pub write_shard : ℕ → ℕ → List ℕ → Nodes → Nodes × Result ℕ
  write_shard node stripe shard nodes =
      let (file, result) = write_blocks 0 (chunks payload_max (length shard) shard) [] in
      (put_file node stripe file nodes, result)

  -- The loop over the blocks of the file, with fuel for its rounds.
  unfoldable pub read_blocks : ℕ → List ℕ → Result (List ℕ)
  read_blocks zero bytes = ok []
  read_blocks (suc fuel) bytes =
      if length bytes == 0
      then ok []
      else if ltb (length bytes) block_size
      then err (corrupt torn_block)
      else elim (layer.decode (take block_size bytes)) [
        | failed e ↦ err (corrupt (block_decode_failed (error_code e)))
        | done decoded ↦ do
          out ← read_blocks fuel (drop block_size bytes)
          ok (decoded.payload ++ out)
      ]

  unfoldable pub read_shard : ℕ → ℕ → Nodes → Result (List ℕ)
  read_shard node stripe nodes = elim (nodes node stripe) [
    | none ↦ err io
    | some file ↦ do
      out ← read_blocks (suc (length file)) file
      if length out == 0 then err (corrupt empty_shard_file) else ok out
  ]
