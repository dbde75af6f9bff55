-- ===== src/Segment/Compact.antt =====
-- `compact_stage` and `compact_commit` of crates/shardvault-core/src/segment.rs.
use shard_vault.Base.{
  ℕ, zero, suc, Bool, true, false, ◌&&◌, ◌||◌, not, Option, none, some, List, [], ◌∷◌, ◌++◌, leb,
  ltb, ◌==◌, if◌then◌else◌, Text, Map, insert, remove, Text-Key, ℕ-Key, add64, Result, ok, err,
  corrupt, segment_not_open, short_compaction_read,
}
use shard_vault.Block.Layer.{BlockLayer}
use shard_vault.Wal.Record.{RemapEntry, Record, segment_swap, segment_remap}
use shard_vault.Wal.Log.{Entries}
use shard_vault.Segment.State.{Inner, Store, Loc, PutLoc, contains, add_id, drop_id}
use shard_vault.Segment.Exec.{Exec, ◌>>=◌, ◌>>◌, pure, raise, gets, modify, lift, wal_append}
use shard_vault.Segment.Write.{write_all_at, read_value, content_of}
use shard_vault.Segment.Publish.{repoint, publish}
use shard_vault.Segment.Chunks.{take_chunk, chunk_budget}

pub record CompactStage : Type 0 where
  pub records : Entries
  pub freed : ℕ
  pub old_id : ℕ
  pub new_id : ℕ
  pub entries : List RemapEntry
  pub dropped : List ℕ

-- The answers of `compact_stage`: `Ok(None)`, `Ok(Some(stage))`, and that the rounds of its last loop
-- ran out.
pub data Compaction : Type 0 where
  nothing : Compaction
  rounds_ran_out : Compaction
  staged : CompactStage → Compaction

-- The LSNs of the values that keys point to in a segment.
unfoldable pub live_in : ℕ → Map Text Loc → List ℕ
live_in seg [] = []
live_in seg ((key, loc) ∷ rest) =
    let more = live_in seg rest in if loc.seg == seg then loc.lsn ∷ more else more

-- How many bytes of a segment no key points to, at LSNs up to the horizon.
unfoldable pub reclaim_in : ℕ → List ℕ → ℕ → Map ℕ PutLoc → ℕ
reclaim_in seg live horizon [] = 0
reclaim_in seg live horizon ((lsn, loc) ∷ rest) =
    let more = reclaim_in seg live horizon rest in
    if (loc.seg == seg) && (not (contains lsn live) && leb lsn horizon)
    then add64 loc.len more
    else more

-- The first sealed segment with bytes to reclaim.
unfoldable pub choose : List ℕ → ℕ → Inner → Option ℕ
choose [] horizon s = none
choose (sid ∷ rest) horizon s =
    let later = choose rest horizon s in
    if ltb 0 (reclaim_in sid (live_in sid s.index) horizon s.put_locations) then some sid else later

-- The values to keep, with their places in the old segment.
unfoldable pub keep_in : ℕ → List ℕ → ℕ → Map ℕ PutLoc → List RemapEntry
keep_in old live horizon [] = []
keep_in old live horizon ((lsn, loc) ∷ rest) =
    let more = keep_in old live horizon rest in
    if (loc.seg == old) && (contains lsn live || ltb horizon lsn)
    then record { key = loc.key; lsn = lsn; offset = loc.offset; len = loc.len } ∷ more
    else more

-- `keep.sort_by_key(|(_, _, off, _)| *off)`, which is stable.
unfoldable pub insert_by_offset : RemapEntry → List RemapEntry → List RemapEntry
insert_by_offset e [] = e ∷ []
insert_by_offset e (f ∷ fs) =
    let later = insert_by_offset e fs in if leb e.offset f.offset then e ∷ (f ∷ fs) else f ∷ later

unfoldable pub sort_by_offset : List RemapEntry → List RemapEntry
sort_by_offset [] = []
sort_by_offset (e ∷ es) = insert_by_offset e (sort_by_offset es)

abbrev pub push_entry :
    RemapEntry → Result (List RemapEntry × List ℕ) → Result (List RemapEntry × List ℕ)
push_entry e (err x) = err x
push_entry e (ok (es, bytes)) = ok (e ∷ es, bytes)

-- The loop that copies the values from the bytes of the old segment behind those of the new one.
unfoldable pub copy_values :
    List ℕ → List RemapEntry → ℕ → List ℕ → Result (List RemapEntry × List ℕ)
copy_values old [] new_offset file = ok ([], file)
copy_values old (e ∷ es) new_offset file = elim (read_value old e.offset e.len) [
  | err x ↦ err (corrupt short_compaction_read)
  | ok value ↦
      push_entry (record e { offset = new_offset })
        (copy_values old es (add64 new_offset e.len) (write_all_at new_offset value file))
]

-- `keep.iter().any(|(l, ..)| l == lsn)`
unfoldable pub is_kept : ℕ → List RemapEntry → Bool
is_kept lsn [] = false
is_kept lsn (e ∷ es) = (e.lsn == lsn) || is_kept lsn es

-- The LSNs of the old segment's values that are not kept, and how many bytes these are.
unfoldable pub drop_in : ℕ → List RemapEntry → Map ℕ PutLoc → List ℕ × ℕ
drop_in old keep [] = ([], 0)
drop_in old keep ((lsn, loc) ∷ rest) =
    let (dropped, freed) = drop_in old keep rest in
    if (loc.seg == old) && not (is_kept lsn keep)
    then (lsn ∷ dropped, add64 loc.len freed)
    else (dropped, freed)

-- `keep`
unfoldable pub kept_of : ℕ → ℕ → Inner → List RemapEntry
kept_of old horizon s = sort_by_offset (keep_in old (live_in old s.index) horizon s.put_locations)

-- The temporary file gets its name.
unfoldable pub add_segment : ℕ → List ℕ → Inner → Inner
add_segment new bytes s = record s {
  contents = insert new bytes s.contents;
  named = add_id new s.named;
}

-- A `SegmentRemap` record before those of the later rounds.
abbrev pub push_record : ℕ × Record → Option Entries → Option Entries
push_record rec none = none
push_record rec (some records) = some (rec ∷ records)

abbrev pub stage_of : Option Entries → (Entries → CompactStage) → Compaction
stage_of none make = rounds_ran_out
stage_of (some records) make = staged (make records)

module _ (layer : BlockLayer) where
  unfoldable pub log_pending : Record → Exec ℕ
  log_pending rec = do
    lsn ← wal_append layer rec
    modify (λ s. record s { pending = true })
    pure lsn

  -- The loop over the chunks of entries, with fuel for its rounds.
  unfoldable pub log_remaps : ℕ → ℕ → List RemapEntry → Exec (Option Entries)
  log_remaps fuel new [] = pure (some [])
  log_remaps zero new (e ∷ es) = pure none
  log_remaps (suc fuel) new (e ∷ es) = do
    let (chunk, rest) = take_chunk chunk_budget (e ∷ es)
    lsn ← log_pending (segment_remap new chunk)
    more ← log_remaps fuel new rest
    pure (push_record (lsn, segment_remap new chunk) more)

  -- What follows the renaming of the new segment's file: the records and the answer.
  unfoldable pub log_stage : ℕ → ℕ → ℕ → List RemapEntry → List RemapEntry → Exec Compaction
  log_stage fuel old new keep entries = do
    unkept ← gets (λ s. drop_in old keep s.put_locations)
    swap_lsn ← log_pending (segment_swap old new)
    remaps ← log_remaps fuel new entries
    pure (
        stage_of remaps (λ records. record {
          records = (swap_lsn, segment_swap old new) ∷ records;
          freed = unkept.1;
          old_id = old;
          new_id = new;
          entries = entries;
          dropped = unkept.0;
        }))

  -- What follows the choice of a segment.
  unfoldable pub compact_segment : ℕ → ℕ → ℕ → Exec Compaction
  compact_segment fuel old horizon = do
    keep ← gets (kept_of old horizon)
    new ← gets (λ s. s.next_free_id)
    modify (λ s. record s { next_free_id = add64 new 1 })
    held ← gets (λ s. contains old s.segments)
    if held then pure tt else raise (corrupt segment_not_open)
    source ← gets (λ s. content_of old s.contents)
    copied ← lift (copy_values source keep 0 [])
    modify (add_segment new copied.1)
    log_stage fuel old new keep copied.0

  unfoldable pub compact_stage : ℕ → ℕ → Exec Compaction
  compact_stage fuel horizon s = elim (choose s.sealed horizon s) [
    | none ↦ (ok nothing, s)
    | some old ↦ compact_segment fuel old horizon s
  ]

-- `put_locations.remove(lsn)` for each.
unfoldable pub remove_all : List ℕ → Map ℕ PutLoc → Map ℕ PutLoc
remove_all [] m = m
remove_all (lsn ∷ rest) m = remove_all rest (remove lsn m)

unfoldable pub settle : CompactStage → Inner → Inner
settle stage s =
    let t = repoint stage.new_id stage.entries s in
    record t {
      put_locations = remove_all stage.dropped t.put_locations;
      segments = add_id stage.new_id (drop_id stage.old_id t.segments);
      sealed = drop_id stage.old_id t.sealed ++ stage.new_id ∷ [];
      named = drop_id stage.old_id t.named;
    }

unfoldable pub compact_commit : CompactStage → Store → ℕ × Store
compact_commit stage st = (stage.freed, publish (record st { inner = settle stage st.inner }))
