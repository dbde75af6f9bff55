-- ===== src/Rollup/Deltas.antt =====
-- The `AggDelta` record of a put carries what `record` adds.
use shard_vault.Base.{◌≡◌, refl, ℕ, List, [], ◌∷◌, map, Text, Map, lookup, insert, Text-Key}
use shard_vault.Rollup.Entry.{AggDeltaEntry}
use shard_vault.Rollup.Prefixes.{prefixes_of}
use shard_vault.Rollup.Aggregate.{
  Aggregate, Rollup, or_default, put_delta, add_delta, bump_prefixes, record_put, deltas_for,
}

-- The aggregates with the deltas of a record added, one entry after the other.
abbrev pub apply_deltas : List AggDeltaEntry → Map Text Aggregate → Map Text Aggregate
apply_deltas [] aggs = aggs
apply_deltas (d ∷ ds) aggs = apply_deltas ds (
    insert d.prefix
      (add_delta (d.object_count_delta, d.byte_count_delta) (or_default (lookup d.prefix aggs)))
      aggs)

bump_prefixes-apply_deltas :
    (delta : ℕ × ℕ) (ps : List Text) (aggs : Map Text Aggregate)
    → apply_deltas
        (map
          (λ p. record { prefix = p; object_count_delta = delta.0; byte_count_delta = delta.1 })
          ps)
        aggs
      ≡ bump_prefixes delta ps aggs
unfolding bump_prefixes
bump_prefixes-apply_deltas delta [] aggs = refl
bump_prefixes-apply_deltas delta (p ∷ ps) aggs =
    bump_prefixes-apply_deltas delta ps
      (insert p (add_delta delta (or_default (lookup p aggs))) aggs)

-- Adding the deltas that `deltas_for` logs for a put to the aggregates gives those that `record`
-- computes for the put.
pub deltas_for-record_put :
    (key : Text) (len : ℕ) (r : Rollup)
    → apply_deltas (deltas_for key len r) r.aggregates ≡ (record_put key len r).aggregates
unfolding deltas_for record_put
deltas_for-record_put key len r =
    bump_prefixes-apply_deltas (put_delta (lookup key r.sizes) len) (prefixes_of key) r.aggregates
