-- ===== src/Block/Layer.antt =====
-- What the log needs of the block layer: `block::encode` and `block::decode` of
-- crates/shardvault-core/src/ffi.rs, and the laws that they keep.
use shard_vault.Base.{ℕ, ◌≤◌, ◌<◌, ◌^◌, ◌≡◌, List, length}

abbrev pub block_size : ℕ
block_size = 4096

abbrev pub payload_max : ℕ
payload_max = 4072

pub data BlockError : Type 0 where
  invalid crc len : BlockError
  -- With the 32 bits of the code.
  other : ℕ → BlockError

pub data BlockResult (A : Type 0) : Type 0 where
  done : A → BlockResult A
  failed : BlockError → BlockResult A

pub record Block : Type 0 where
  pub lsn : ℕ
  pub flags : ℕ
  pub payload : List ℕ

pub record BlockLayer : Type 0 where
  pub encode : ℕ → List ℕ → ℕ → BlockResult (List ℕ)
  pub decode : List ℕ → BlockResult Block
  -- A payload that fits is encoded as one block.
  pub encode-fits :
      (lsn : ℕ) (payload : List ℕ) (flags : ℕ)
      → length payload ≤ payload_max
      → (blk : List ℕ) × (encode lsn payload flags ≡ done blk) × (length blk ≡ block_size)
  -- A block decodes to what was encoded.
  pub decode-encode :
      (lsn : ℕ) (payload : List ℕ) (flags : ℕ) (blk : List ℕ)
      → lsn < 2 ^ 64
      → flags < 256
      → encode lsn payload flags ≡ done blk
      → decode blk ≡ done (record { lsn = lsn; flags = flags; payload = payload })
