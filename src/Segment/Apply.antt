-- ===== src/Segment/Apply.antt =====
-- `apply_record` of crates/shardvault-core/src/segment.rs: what a follower does with a record.
use shard_vault.Base.{
  ℕ, max, true, Option, none, some, List, [], ◌∷◌, ◌++◌, length, if◌then◌else◌, ◌==◌, ◌&&◌, lookup,
  Text-Key, ℕ-Key, add64, Result, ok, err, corrupt, ok_or, put_without_data, put_length_mismatch,
  seal_mismatch, StoreError, remap_without_swap, remap_target_mismatch, remap_source_missing,
  remap_source_mismatch, segment_not_open,
}
use shard_vault.Block.Layer.{BlockLayer}
use shard_vault.Wal.Record.{
  Record, RemapEntry, put, commit, segment_seal, agg_delta, segment_swap, segment_remap,
}
use shard_vault.Segment.State.{Inner, PendingSwap, contains}
use shard_vault.Segment.Exec.{Exec, ◌>>=◌, ◌>>◌, pure, raise, gets, modify, lift, wal_append_at}
use shard_vault.Segment.Write.{
  open_segment, write_value, write_all_at, read_value, place_value, content_of,
}
use shard_vault.Segment.Publish.{finalize_pending_swap}

-- One entry of a `SegmentRemap`: its value is copied from the old segment into the temporary file.
unfoldable pub copy_entry : RemapEntry → PendingSwap → Inner → Result PendingSwap
copy_entry e swap s = elim (lookup e.lsn s.put_locations) [
  | none ↦ err (corrupt (remap_source_missing e.lsn))
  | some source ↦
      if (source.seg == swap.old) && (source.len == e.len)
      then if contains source.seg s.segments
        then elim (read_value (content_of source.seg s.contents) source.offset source.len) [
          | err x ↦ err x
          | ok value ↦ ok (record swap {
            bytes = write_all_at e.offset value swap.bytes;
            entries = swap.entries ++ e ∷ [];
          })
        ]
        else err (corrupt segment_not_open)
      else err (corrupt remap_source_mismatch)
]

-- What `pending_swap` is when the loop over the entries stops: a mismatch puts the swap back, and
-- the other errors lose it.
abbrev pub swap_after : StoreError → PendingSwap → Option PendingSwap
swap_after (corrupt remap_source_mismatch) swap = some swap
swap_after _ swap = none

unfoldable pub copy_entries : List RemapEntry → PendingSwap → Exec (Unit {0})
unfolding copy_entry
copy_entries [] swap s = (ok tt, record s { pending_swap = some swap; pending = true })
copy_entries (e ∷ es) swap s = elim (copy_entry e swap s) [
  | ok swap' ↦ copy_entries es swap' s
  | err x ↦ (err x, record s { pending_swap = swap_after x swap })
]

-- The swap is taken out of `pending_swap` and put back where its target is another segment.
unfoldable pub apply_remap : ℕ → List RemapEntry → Exec (Unit {0})
unfolding copy_entries
apply_remap new entries s = elim s.pending_swap [
  | none ↦ (err (corrupt remap_without_swap), s)
  | some swap ↦
      if swap.new == new
      then copy_entries entries swap s
      else (err (corrupt remap_target_mismatch), s)
]

module _ (layer : BlockLayer) where
  -- The `match`, behind the update of `applied_upto`.
  unfoldable pub apply_match : ℕ → Record → Option (List ℕ) → Exec (Unit {0})
  apply_match lsn (put key len stripe_id) value = do
    bytes ← lift (ok_or value (corrupt put_without_data))
    if length bytes == len then pure tt else raise (corrupt put_length_mismatch)
    modify (λ s. open_segment s.active_id s)
    write_value bytes
    wal_append_at layer (put key len stripe_id) lsn
    modify (place_value key len lsn)
  apply_match lsn (segment_seal id next) value = do
    active ← gets (λ s. s.active_id)
    if id == active then pure tt else raise (corrupt (seal_mismatch id active))
    wal_append_at layer (segment_seal id next) lsn
    modify (λ s. record s {
      sealed = s.sealed ++ s.active_id ∷ [];
      active_id = next;
      active_offset = 0;
      next_free_id = max s.next_free_id (add64 next 1);
      pending = true;
    })
  apply_match lsn (agg_delta deltas) value = do
    wal_append_at layer (agg_delta deltas) lsn
    modify (λ s. record s { pending = true })
  apply_match lsn (segment_swap old new) value = do
    modify finalize_pending_swap
    wal_append_at layer (segment_swap old new) lsn
    modify (λ s. record s {
      pending_swap = some (record { lsn = lsn; old = old; new = new; bytes = []; entries = [] });
      pending = true;
    })
  apply_match lsn (segment_remap new entries) value = do
    wal_append_at layer (segment_remap new entries) lsn
    apply_remap new entries
  apply_match lsn (commit committed) value = do
    wal_append_at layer (commit committed) lsn
    modify (λ s. record s {
      committed_lsn = max s.committed_lsn committed;
      last_commit_block = max s.last_commit_block lsn;
      pending = true;
    })

  unfoldable pub apply_record : ℕ → Record → Option (List ℕ) → Exec (Unit {0})
  unfolding apply_match
  apply_record lsn rec value = do
    modify (λ s. record s { applied_upto = max s.applied_upto lsn })
    apply_match lsn rec value
