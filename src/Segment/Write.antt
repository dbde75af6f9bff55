-- ===== src/Segment/Write.antt =====
-- `open_segment`, `write_value`, `seal_active_record` and `stage_put` of
-- crates/shardvault-core/src/segment.rs.
use shard_vault.Base.{
  ℕ, zero, suc, ◌-◌, ◌^◌, Bool, true, false, none, some, List, [], ◌∷◌, ◌++◌, length, drop, take,
  ltb, if◌then◌else◌, ◌&&◌, Text, Map, lookup, insert, Text-Key, ℕ-Key, add64, Result, ok, err,
  corrupt, segment_not_open, short_segment_read, record_too_large,
}
use shard_vault.Block.Layer.{BlockLayer}
use shard_vault.Rollup.Aggregate.{record_put, deltas_for}
use shard_vault.Wal.Record.{Record, put, segment_seal, agg_delta}
use shard_vault.Wal.Log.{Entries}
use shard_vault.Segment.State.{Inner, contains, add_id}
use shard_vault.Segment.Exec.{Exec, ◌>>=◌, ◌>>◌, pure, raise, gets, modify, wal_append}

-- `write_at`: a write past the end fills the gap with zeros.
unfoldable pub write_at : ℕ → List ℕ → List ℕ → List ℕ
write_at zero bs xs = bs ++ drop (length bs) xs
write_at (suc offset) bs [] = 0 ∷ write_at offset bs []
write_at (suc offset) bs (x ∷ xs) = x ∷ write_at offset bs xs

-- The write loop of `write_value`, `compact_stage` and `apply_record`: no call for no bytes.
unfoldable pub write_all_at : ℕ → List ℕ → List ℕ → List ℕ
write_all_at offset [] xs = xs
write_all_at offset (b ∷ bs) xs = write_at offset (b ∷ bs) xs

-- `read_value`
unfoldable pub read_value : List ℕ → ℕ → ℕ → Result (List ℕ)
read_value file offset len =
    let value = take len (drop offset file) in
    if ltb (length value) len then err (corrupt short_segment_read) else ok value

-- What a handle of a segment reads; a file without content is empty.
abbrev pub content_of : ℕ → Map ℕ (List ℕ) → List ℕ
content_of id contents = elim (lookup id contents) [ none ↦ [] | some bytes ↦ bytes ]

-- A file that has no name is created empty.
unfoldable pub open_segment : ℕ → Inner → Inner
open_segment id s = if contains id s.segments then s else record s {
  contents = insert id (if contains id s.named then content_of id s.contents else []) s.contents;
  named = add_id id s.named;
  segments = id ∷ s.segments;
}

unfoldable pub write_value : List ℕ → Exec (Unit {0})
unfolding write_all_at write_at
write_value value s =
    if contains s.active_id s.segments
    then (
      ok tt,
      record s {
        contents =
            insert s.active_id
              (write_all_at s.active_offset value (content_of s.active_id s.contents)) s.contents;
      },
    )
    else (err (corrupt segment_not_open), s)

-- The new key's place: `index`, `put_locations`, the rollup and the active segment.
unfoldable pub place_value : Text → ℕ → ℕ → Inner → Inner
place_value key len lsn s = record s {
  index =
      insert key (record { seg = s.active_id; offset = s.active_offset; len = len; lsn = lsn })
        s.index;
  put_locations =
      insert lsn (record { key = key; seg = s.active_id; offset = s.active_offset; len = len })
        s.put_locations;
  rollup = record_put key len s.rollup;
  active_offset = add64 s.active_offset len;
  dirty_segments = add_id s.active_id s.dirty_segments;
  pending = true;
}

module _ (layer : BlockLayer) where
  unfoldable pub seal_active_record : Exec (ℕ × Record)
  seal_active_record = do
    closing ← gets (λ s. s.active_id)
    next ← gets (λ s. s.next_free_id)
    modify (λ s. record s { next_free_id = add64 next 1 })
    lsn ← wal_append layer (segment_seal closing next)
    modify (λ s. record s {
      pending = true;
      sealed = s.sealed ++ s.active_id ∷ [];
      active_id = next;
      active_offset = 0;
    })
    pure (lsn, segment_seal closing next)

  -- The two places of `stage_put` that may seal: the records so far, with the seal's.
  unfoldable pub seal_when : Bool → Entries → Exec Entries
  seal_when true records = do rec ← seal_active_record; pure (records ++ rec ∷ [])
  seal_when false records = pure records

  -- The value and its `Put` record.
  unfoldable pub log_put : Text → List ℕ → Exec ℕ
  log_put key value = do
    modify (λ s. open_segment s.active_id s)
    write_value value
    put_lsn ← gets (λ s. s.wal.next_lsn)
    wal_append layer (put key (length value) put_lsn)

  -- The `AggDelta` record, and then the key's place.
  unfoldable pub log_deltas : Text → ℕ → ℕ → Exec (ℕ × Record)
  log_deltas key len put_lsn = do
    deltas ← gets (λ s. deltas_for key len s.rollup)
    agg_lsn ← wal_append layer (agg_delta deltas)
    modify (place_value key len put_lsn)
    pure (agg_lsn, agg_delta deltas)

  -- The `StagedPut` of a value whose length fits: the object id and the records by their LSNs.
  unfoldable pub stage_fitting : Text → List ℕ → Exec (ℕ × Entries)
  stage_fitting key value = do
    let len = length value
    full ← gets (λ s. ltb 0 s.active_offset && ltb s.segment_max_bytes (add64 s.active_offset len))
    before ← seal_when full []
    put_lsn ← log_put key value
    agg ← log_deltas key len put_lsn
    large ← gets (λ s. ltb s.segment_max_bytes len)
    after ← seal_when large (before ++ (put_lsn, put key len put_lsn) ∷ agg ∷ [])
    pure (put_lsn, after)

  unfoldable pub stage_put : Text → List ℕ → Exec (ℕ × Entries)
  stage_put key value =
      if ltb (2 ^ 32 - 1) (length value) then raise record_too_large else stage_fitting key value

  -- `put`: the object id of the staged put.
  unfoldable pub put_value : Text → List ℕ → Exec ℕ
  put_value key value = do staged ← stage_put key value; pure staged.0
