-- ===== src/Wal/Decode.antt =====
-- `decode_record` of crates/shardvault-core/src/wal.rs.
use shard_vault.Base.{
  ℕ, zero, suc, List, [], ◌∷◌, get_or, ◌==◌, if◌then◌else◌, Result, ok, err, corrupt, unknown_tag,
}
use shard_vault.Rollup.Entry.{AggDeltaEntry}
use shard_vault.Wal.Record.{
  Record, RemapEntry, put, commit, segment_seal, agg_delta, segment_swap, segment_remap, tag_put,
  tag_commit, tag_seal, tag_agg, tag_swap, tag_remap,
}
use shard_vault.Wal.Reader.{
  Reader, ◌>>=◌, pure, take_bytes, take_u64, take_u32, take_u16, take_utf8,
}

unfoldable pub decode_delta : Reader AggDeltaEntry
decode_delta = do
  plen ← take_u16
  prefix ← take_utf8 plen
  objects ← take_u64
  bytes ← take_u64
  pure (record { prefix = prefix; object_count_delta = objects; byte_count_delta = bytes })

unfoldable pub decode_deltas : ℕ → Reader (List AggDeltaEntry)
decode_deltas zero = pure []
decode_deltas (suc n) = do d ← decode_delta; ds ← decode_deltas n; pure (d ∷ ds)

unfoldable pub decode_entry : Reader RemapEntry
decode_entry = do
  klen ← take_u16
  key ← take_utf8 klen
  lsn ← take_u64
  offset ← take_u64
  len ← take_u32
  pure (record { key = key; lsn = lsn; offset = offset; len = len })

unfoldable pub decode_entries : ℕ → Reader (List RemapEntry)
decode_entries zero = pure []
decode_entries (suc n) = do e ← decode_entry; es ← decode_entries n; pure (e ∷ es)

unfoldable pub decode_put : Reader Record
decode_put = do
  stripe_id ← take_u64
  len ← take_u32
  klen ← take_u16
  key ← take_utf8 klen
  pure (put key len stripe_id)

unfoldable pub decode_commit : Reader Record
decode_commit = do lsn ← take_u64; pure (commit lsn)

unfoldable pub decode_seal : Reader Record
decode_seal = do id ← take_u64; next ← take_u64; pure (segment_seal id next)

unfoldable pub decode_agg : Reader Record
decode_agg = do n ← take_u16; deltas ← decode_deltas n; pure (agg_delta deltas)

unfoldable pub decode_swap : Reader Record
decode_swap = do old ← take_u64; new ← take_u64; pure (segment_swap old new)

unfoldable pub decode_remap : Reader Record
decode_remap = do
  new ← take_u64
  n ← take_u16
  entries ← decode_entries n
  pure (segment_remap new entries)

unfoldable pub decode_fields : ℕ → Reader Record
decode_fields tag =
    if tag == tag_put
    then decode_put
    else if tag == tag_commit
    then decode_commit
    else if tag == tag_seal
    then decode_seal
    else if tag == tag_agg
    then decode_agg
    else if tag == tag_swap
    then decode_swap
    else if tag == tag_remap
    then decode_remap
    else (λ p. err (corrupt (unknown_tag tag)))

-- What follows the record in the payload is ignored.
unfoldable pub decode_record : List ℕ → Result Record
decode_record payload = elim ((do tag ← take_bytes 1; decode_fields (get_or tag 0 0)) payload) [
  | ok (rec, rest) ↦ ok rec
  | err e ↦ err e
]
