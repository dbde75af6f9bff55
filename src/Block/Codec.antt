-- ===== src/Block/Codec.antt =====
-- `block::encode` and `block::decode` of crates/shardvault-core/src/ffi.rs, with the C functions
-- `sv_block_encode` and `sv_block_decode` that they call. The pointers that ffi.rs passes are never
-- null, so that `SV_ERR_INVAL` does not come back.
use shard_vault.Base.{
  ℕ, zero, suc, List, [], ◌∷◌, length, take, drop, get_or, replicate, ltb, ◌==◌, if◌then◌else◌,
  le_bytes, from_le,
}
use shard_vault.Block.Crc.{crc_update, not32}
use shard_vault.Block.Layer.{BlockResult, Block, done, failed, len, crc, block_size, payload_max}

-- Bytes written into a buffer from an offset on.
unfoldable pub write : ℕ → List ℕ → List ℕ → List ℕ
write offset bs [] = []
write (suc offset) bs (x ∷ xs) = x ∷ write offset bs xs
write zero [] (x ∷ xs) = x ∷ xs
write zero (b ∷ bs) (x ∷ xs) = b ∷ write zero bs xs

-- `memset(out, 0, n)`
unfoldable pub zeroed : ℕ → List ℕ
zeroed n = replicate n 0

-- `sv_block_checksum`: the header with zeros for the checksum, and the payload.
unfoldable pub block_checksum : List ℕ → ℕ → ℕ
block_checksum blk n =
    let head = crc_update (not32 0) (take 12 blk) in
    let zeros = crc_update head (0 ∷ 0 ∷ 0 ∷ 0 ∷ []) in
    let tail = crc_update zeros (take 8 (drop 16 blk)) in
    not32 (crc_update tail (take n (drop 24 blk)))

unfoldable pub sv_block_encode : ℕ → List ℕ → ℕ → BlockResult (List ℕ)
sv_block_encode lsn payload flags =
    if ltb payload_max (length payload)
    then failed len
    else (let lsn_put = write 0 (le_bytes 8 lsn) (zeroed block_size) in
        let len_put = write 8 (le_bytes 4 (length payload)) lsn_put in
        let flags_put = write 16 (flags ∷ []) len_put in
        let copied = write 24 payload flags_put in
        done (write 12 (le_bytes 4 (block_checksum copied (length payload))) copied))

unfoldable pub sv_block_decode : List ℕ → BlockResult Block
sv_block_decode blk =
    let n = from_le (take 4 (drop 8 blk)) in
    if ltb payload_max n
    then failed len
    else if block_checksum blk n == from_le (take 4 (drop 12 blk))
    then done (record {
      lsn = from_le (take 8 blk);
      flags = get_or blk 16 0;
      payload = take n (drop 24 blk);
    })
    else failed crc

-- `block::encode` refuses a long payload itself, before the call.
unfoldable pub encode : ℕ → List ℕ → ℕ → BlockResult (List ℕ)
encode lsn payload flags =
    if ltb payload_max (length payload) then failed len else sv_block_encode lsn payload flags

unfoldable pub decode : List ℕ → BlockResult Block
decode blk = sv_block_decode blk
