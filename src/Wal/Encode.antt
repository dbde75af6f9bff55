-- ===== src/Wal/Encode.antt =====
-- `encode_record` of crates/shardvault-core/src/wal.rs.
use shard_vault.Base.{
  ℕ, List, [], ◌∷◌, ◌++◌, length, ltb, if◌then◌else◌, le_bytes, Result, ok, err, record_too_large,
  ◌>>=◌,
}
use shard_vault.Block.Layer.{payload_max}
use shard_vault.Rollup.Entry.{AggDeltaEntry}
use shard_vault.Wal.Record.{
  Record, RemapEntry, put, commit, segment_seal, agg_delta, segment_swap, segment_remap, tag_put,
  tag_commit, tag_seal, tag_agg, tag_swap, tag_remap,
}

-- `u16::try_from(n).map_err(|_| StoreError::RecordTooLarge)`
abbrev pub u16_try_from : ℕ → Result ℕ
u16_try_from n = if ltb n 65536 then ok n else err record_too_large

-- The bytes of one delta and of one entry, behind the length of its text.
abbrev pub delta_bytes : ℕ → AggDeltaEntry → List ℕ
delta_bytes plen d =
    le_bytes 2 plen
    ++ (d.prefix ++ (le_bytes 8 d.object_count_delta ++ le_bytes 8 d.byte_count_delta))

abbrev pub entry_bytes : ℕ → RemapEntry → List ℕ
entry_bytes klen e =
    le_bytes 2 klen ++ (e.key ++ (le_bytes 8 e.lsn ++ (le_bytes 8 e.offset ++ le_bytes 4 e.len)))

unfoldable pub encode_deltas : List AggDeltaEntry → Result (List ℕ)
encode_deltas [] = ok []
encode_deltas (d ∷ ds) = do
  plen ← u16_try_from (length d.prefix)
  rest ← encode_deltas ds
  ok (delta_bytes plen d ++ rest)

unfoldable pub encode_entries : List RemapEntry → Result (List ℕ)
encode_entries [] = ok []
encode_entries (e ∷ es) = do
  klen ← u16_try_from (length e.key)
  rest ← encode_entries es
  ok (entry_bytes klen e ++ rest)

-- The `match` of `encode_record`.
unfoldable pub encode_fields : Record → Result (List ℕ)
encode_fields (put key len stripe_id) = do
  key_len ← u16_try_from (length key)
  ok (tag_put ∷ (le_bytes 8 stripe_id ++ (le_bytes 4 len ++ (le_bytes 2 key_len ++ key))))
encode_fields (commit lsn) = ok (tag_commit ∷ le_bytes 8 lsn)
encode_fields (segment_seal id next) = ok (tag_seal ∷ (le_bytes 8 id ++ le_bytes 8 next))
encode_fields (agg_delta deltas) = do
  n ← u16_try_from (length deltas)
  rest ← encode_deltas deltas
  ok (tag_agg ∷ (le_bytes 2 n ++ rest))
encode_fields (segment_swap old new) = ok (tag_swap ∷ (le_bytes 8 old ++ le_bytes 8 new))
encode_fields (segment_remap new entries) = do
  n ← u16_try_from (length entries)
  rest ← encode_entries entries
  ok (tag_remap ∷ (le_bytes 8 new ++ (le_bytes 2 n ++ rest)))

unfoldable pub encode_record : Record → Result (List ℕ)
encode_record rec = do
  v ← encode_fields rec
  if ltb payload_max (length v) then err record_too_large else ok v
