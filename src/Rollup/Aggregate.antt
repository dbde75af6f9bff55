-- ===== src/Rollup/Aggregate.antt =====
-- `Aggregate` and `Rollup` of crates/shardvault-core/src/rollup.rs.
use shard_vault.Base.{
  ℕ, Option, none, some, List, [], ◌∷◌, map, Text, Map, empty, lookup, insert, add64, sub64,
}
use shard_vault.Rollup.Entry.{AggDeltaEntry}
use shard_vault.Rollup.Prefixes.{prefixes_of}
use shard_vault.Base.{Text-Key}

pub record Aggregate : Type 0 where
  pub object_count : ℕ
  pub byte_count : ℕ

abbrev pub no_objects : Aggregate
no_objects = record { object_count = 0; byte_count = 0 }

pub record Rollup : Type 0 where
  pub aggregates : Map Text Aggregate
  pub sizes : Map Text ℕ

abbrev pub empty_rollup : Rollup
empty_rollup = record { aggregates = empty; sizes = empty }

-- `unwrap_or_default` and `or_default`.
abbrev pub or_default : Option Aggregate → Aggregate
or_default none = no_objects
or_default (some agg) = agg

-- The count and byte deltas of a put, from the size that the key had.
abbrev pub put_delta : Option ℕ → ℕ → ℕ × ℕ
put_delta (some old_len) len = (0, sub64 len old_len)
put_delta none len = (1, len)

abbrev pub add_delta : ℕ × ℕ → Aggregate → Aggregate
add_delta (objects, bytes) agg = record {
  object_count = add64 agg.object_count objects;
  byte_count = add64 agg.byte_count bytes;
}

-- The `for` loop of `record`.
unfoldable pub bump_prefixes : ℕ × ℕ → List Text → Map Text Aggregate → Map Text Aggregate
bump_prefixes delta [] aggs = aggs
bump_prefixes delta (p ∷ ps) aggs =
    bump_prefixes delta ps (insert p (add_delta delta (or_default (lookup p aggs))) aggs)

-- `Rollup::record`
unfoldable pub record_put : Text → ℕ → Rollup → Rollup
record_put key len r = record {
  aggregates = bump_prefixes (put_delta (lookup key r.sizes) len) (prefixes_of key) r.aggregates;
  sizes = insert key len r.sizes;
}

unfoldable pub deltas_for : Text → ℕ → Rollup → List AggDeltaEntry
deltas_for key len r =
    let (objects, bytes) = put_delta (lookup key r.sizes) len in
    map (λ p. record { prefix = p; object_count_delta = objects; byte_count_delta = bytes })
      (prefixes_of key)

unfoldable pub get : Text → Rollup → Aggregate
get prefix r = or_default (lookup prefix r.aggregates)
