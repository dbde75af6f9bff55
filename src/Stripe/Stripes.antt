-- ===== src/Stripe/Stripes.antt =====
-- `StripeWriter::write` and `StripeReader::read` of crates/shardvault-core/src/stripe.rs.
use shard_vault.Base.{
  ℕ, suc, ◌+◌, ◌-◌, ◌*◌, ◌%◌, min, Option, none, some, List, [], ◌∷◌, ◌++◌, length, take, drop,
  replicate, get_or, ◌==◌, ltb, if◌then◌else◌, tabulate, not, le_bytes, from_le, u64_mod, Result,
  ok, err, ◌>>=◌, StoreError, corrupt, shard_missing, shard_too_short, stripe_length_out_of_range,
  shard_length_mismatch, stripe_too_few_shards, stripe_inconsistent_shards,
}
use shard_vault.Block.Layer.{BlockLayer}
use shard_vault.Node.Leader.{div_ceil}
use shard_vault.Rs.Coder.{ReedSolomon, encode}
use shard_vault.Rs.Rebuild.{EcError, too_few_shards, inconsistent_shards, Rebuilt, reconstruct}
use shard_vault.Stripe.Shard.{Nodes, write_shard, read_shard}

abbrev pub len_prefix : ℕ
len_prefix = 8

-- `shard[offset..offset + bytes.len()].copy_from_slice(bytes)`
unfoldable pub copy_into : ℕ → List ℕ → List ℕ → List ℕ
copy_into offset bytes shard = take offset shard ++ (bytes ++ drop (offset + length bytes) shard)

-- The data shard `i`: the first has the length of the data in front.
unfoldable pub data_shard : List ℕ → ℕ → ℕ → List ℕ
data_shard contents shard_len i =
    let shard = replicate (shard_len + len_prefix) 0 in
    if i == 0
    then copy_into len_prefix (take (min (length contents) shard_len) contents)
        (copy_into 0 (le_bytes 8 (length contents)) shard)
    else (let start = i * shard_len in
        if ltb start (length contents)
        then copy_into 0 (take (min (length contents - start) shard_len) (drop start contents))
            shard
        else shard)

abbrev pub data_shards : ℕ → List ℕ → List (List ℕ)
data_shards k contents = tabulate k (data_shard contents (div_ceil (length contents) k))

-- The bytes of shard `i` that are data.
abbrev pub payload_of : ℕ → ℕ → List ℕ → List ℕ
payload_of shard_len i s = if i == 0 then take shard_len (drop len_prefix s) else take shard_len s

-- The last loop of `read`, from shard `i` on. `reconstruct` leaves no shard missing, so that `unwrap`
-- does not fail.
unfoldable pub join_shards : ℕ → ℕ → ℕ → List (Option (List ℕ)) → Result (List ℕ)
join_shards shard_len first_len i [] = ok []
join_shards shard_len first_len i (none ∷ rest) = err (corrupt shard_missing)
join_shards shard_len first_len i (some s ∷ rest) =
    let joined = join_shards shard_len first_len (suc i) rest in
    if not (length s == first_len)
    then err (corrupt shard_length_mismatch)
    else do out ← joined; ok (payload_of shard_len i s ++ out)

-- `read` behind the reconstruction.
unfoldable pub assemble : ℕ → List (Option (List ℕ)) → Result (List ℕ)
assemble k shards = elim (get_or shards 0 none) [
  | none ↦ err (corrupt shard_missing)
  | some first ↦
      if ltb (length first) len_prefix
      then err (corrupt shard_too_short)
      else (let data_len = from_le (take len_prefix first) in
          let shard_len = length first - len_prefix in
          if ltb (shard_len * k % u64_mod) data_len
          then err (corrupt stripe_length_out_of_range)
          else do
            out ← join_shards shard_len (length first) 0 (take k shards)
            ok (take data_len out))
]

-- The message of `read` for an error of `reconstruct`.
abbrev pub stripe_error : ℕ → EcError → StoreError
stripe_error stripe too_few_shards = corrupt (stripe_too_few_shards stripe)
stripe_error stripe inconsistent_shards = corrupt (stripe_inconsistent_shards stripe)

-- `.ok()`
abbrev pub ok_value : Result (List ℕ) → Option (List ℕ)
ok_value (ok s) = some s
ok_value (err e) = none

-- `?` in a chain of writes: an error keeps what was written.
abbrev pub and_then : Nodes × Result ℕ → (Nodes → Nodes × Result ℕ) → Nodes × Result ℕ
and_then (nodes, err e) next = (nodes, err e)
and_then (nodes, ok n) next = next nodes

module _ (layer : BlockLayer) where
  -- A loop over shards, from a node on, that an error ends.
  unfoldable pub write_shards : ℕ → ℕ → List (List ℕ) → Nodes → Nodes × Result ℕ
  write_shards node stripe [] nodes = (nodes, ok node)
  write_shards node stripe (shard ∷ rest) nodes =
      and_then (write_shard layer node stripe shard nodes)
        (λ nodes'. write_shards (suc node) stripe rest nodes')

  -- `none` where an assertion of `encode` fails.
  unfoldable pub write : ReedSolomon → ℕ → List ℕ → Nodes → Option (Nodes × Result ℕ)
  write rs stripe contents nodes = elim (encode rs (data_shards rs.k contents)) [
    | none ↦ none
    | some parity ↦ some (
        and_then (write_shards 0 stripe (data_shards rs.k contents) nodes)
          (λ nodes'. write_shards rs.k stripe parity nodes'))
  ]

  unfoldable pub read : ReedSolomon → ℕ → Nodes → Result (List ℕ)
  read rs stripe nodes =
      let shards = tabulate (rs.k + rs.m) (λ node. ok_value (read_shard layer node stripe nodes)) in
      elim (reconstruct rs shards) [
        | Rebuilt.err e ↦ err (stripe_error stripe e)
        | Rebuilt.ok all ↦ assemble rs.k all
      ]
