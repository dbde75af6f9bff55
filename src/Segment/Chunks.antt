-- ===== src/Segment/Chunks.antt =====
-- How the loop of `compact_stage` over the remap entries takes those of one record.
use shard_vault.Base.{ℕ, ◌+◌, ◌-◌, List, [], ◌∷◌, length, ltb, if◌then◌else◌}
use shard_vault.Block.Layer.{payload_max}
use shard_vault.Wal.Record.{RemapEntry}

-- `2 + entries[j].key.len() + 20`
abbrev pub cost : RemapEntry → ℕ
cost e = 2 + length e.key + 20

-- The inner loop: the entries of the chunk, and those from `j` on.
unfoldable pub take_chunk : ℕ → List RemapEntry → List RemapEntry × List RemapEntry
take_chunk budget [] = ([], [])
take_chunk budget (e ∷ es) =
    let (chunk, rest) = take_chunk (budget - cost e) es in
    if ltb budget (cost e) then ([], e ∷ es) else (e ∷ chunk, rest)

-- `block::PAYLOAD_MAX - 1 - 8 - 2`
abbrev pub chunk_budget : ℕ
chunk_budget = payload_max - 1 - 8 - 2
