-- ===== src/Segment/Recover.antt =====
-- `open_with_options` and `Inner::recover` of crates/shardvault-core/src/segment.rs.
use shard_vault.Base.{
  ℕ, max, false, none, some, List, [], ◌∷◌, ◌++◌, length, take, ltb, if◌then◌else◌, ◌&&◌, not, Map,
  empty, lookup, insert, Text-Key, ℕ-Key, add64, Result, ok, err, corrupt, segment_missing,
  segment_too_short,
}
use shard_vault.Block.Layer.{BlockLayer}
use shard_vault.Rollup.Aggregate.{empty_rollup, record_put}
use shard_vault.Wal.Record.{
  Record, RemapEntry, put, commit, segment_seal, agg_delta, segment_swap, segment_remap,
}
use shard_vault.Wal.Log.{Entries, replay_with_lsns, open_wal}
use shard_vault.Segment.State.{Inner, Store, snap_of, contains, drop_id}
use shard_vault.Segment.Write.{content_of, open_segment}
use shard_vault.Segment.Publish.{repoint}

-- What stands on the disk.
pub record Disk : Type 0 where
  pub wal_file : List ℕ
  pub contents : Map ℕ (List ℕ)
  pub named : List ℕ

-- The loop's variables: the store, the committed lengths, the swaps and their entries.
pub record Recovery : Type 0 where
  pub inner : Inner
  pub committed : Map ℕ ℕ
  pub swap_pairs : List (ℕ × ℕ)
  pub remap_entries : Map ℕ (List RemapEntry)

abbrev pub entries_of : ℕ → Map ℕ (List RemapEntry) → List RemapEntry
entries_of new remaps = elim (lookup new remaps) [ none ↦ [] | some es ↦ es ]

-- The `match` of the loop.
unfoldable pub recover_match : ℕ → Record → Recovery → Recovery
recover_match lsn (put key len stripe_id) r =
    let s = r.inner in
    let offset = add64 s.active_offset len in
    record r {
      inner = record s {
        index =
            insert key
              (record { seg = s.active_id; offset = s.active_offset; len = len; lsn = lsn })
              s.index;
        put_locations =
            insert lsn
              (record { key = key; seg = s.active_id; offset = s.active_offset; len = len })
              s.put_locations;
        rollup = record_put key len s.rollup;
        active_offset = offset;
      };
      committed = insert s.active_id offset r.committed;
    }
recover_match lsn (segment_seal id next) r =
    let s = r.inner in
    record r {
      inner = record s { sealed = s.sealed ++ id ∷ []; active_id = next; active_offset = 0 };
      committed = insert id s.active_offset r.committed;
    }
recover_match lsn (segment_swap old new) r = record r {
  swap_pairs = r.swap_pairs ++ (old, new) ∷ [];
}
recover_match lsn (segment_remap new entries) r = record r {
  remap_entries = insert new (entries_of new r.remap_entries ++ entries) r.remap_entries;
}
recover_match lsn (commit c) r =
    let s = r.inner in
    record r {
      inner = record s {
        committed_lsn = max s.committed_lsn c;
        last_commit_block = max s.last_commit_block lsn;
      };
    }
recover_match lsn (agg_delta deltas) r = r

unfoldable pub recover_step : ℕ × Record → Recovery → Recovery
unfolding recover_match
recover_step (lsn, rec) r =
    recover_match lsn rec
      (record r { inner = record r.inner { applied_upto = max r.inner.applied_upto lsn } })

unfoldable pub recover_loop : Entries → Recovery → Recovery
recover_loop [] r = r
recover_loop (e ∷ es) r = recover_loop es (recover_step e r)

-- `new_len`: how far the entries of a swap reach.
abbrev pub reach : List RemapEntry → ℕ → ℕ
reach [] n = n
reach (e ∷ es) n = reach es (max n (add64 e.offset e.len))

unfoldable pub recover_swaps : List (ℕ × ℕ) → Recovery → Recovery
recover_swaps [] r = r
recover_swaps ((old, new) ∷ rest) r =
    let entries = entries_of new r.remap_entries in
    let s = repoint new entries r.inner in
    recover_swaps rest (record r {
      inner = record s { sealed = drop_id old s.sealed ++ new ∷ [] };
      committed = insert old 0 (insert new (reach entries 0) r.committed);
    })

-- The first committed segment with bytes that has no file.
unfoldable pub check_present : Map ℕ ℕ → List ℕ → Result (Unit {0})
check_present [] named = ok tt
check_present ((id, target) ∷ rest) named =
    if ltb 0 target && not (contains id named)
    then err (corrupt (segment_missing id))
    else check_present rest named

abbrev pub target_of : ℕ → Map ℕ ℕ → ℕ
target_of id committed = elim (lookup id committed) [ none ↦ 0 | some n ↦ n ]

-- Every file is cut to its committed length, which it must have.
unfoldable pub truncate_all : List ℕ → Map ℕ ℕ → Map ℕ (List ℕ) → Result (Map ℕ (List ℕ))
truncate_all [] committed contents = ok contents
truncate_all (id ∷ rest) committed contents =
    let target = target_of id committed in
    if ltb (length (content_of id contents)) target
    then err (corrupt (segment_too_short id))
    else truncate_all rest committed (insert id (take target (content_of id contents)) contents)

abbrev pub drop_olds : List (ℕ × ℕ) → List ℕ → List ℕ
drop_olds [] named = named
drop_olds ((old, new) ∷ rest) named = drop_olds rest (drop_id old named)

abbrev pub max_key : ℕ → Map ℕ ℕ → ℕ
max_key n [] = n
max_key n ((id, len) ∷ rest) = max_key (max n id) rest

abbrev pub max_id : ℕ → List ℕ → ℕ
max_id n [] = n
max_id n (id ∷ ids) = max_id (max n id) ids

unfoldable pub open_all : Map ℕ ℕ → Inner → Inner
open_all [] s = s
open_all ((id, len) ∷ rest) s = open_all rest (open_segment id s)

-- What follows the loops: the files are checked, cut, removed and opened.
unfoldable pub recover_files : Recovery → Result Inner
unfolding check_present truncate_all open_all
recover_files r =
    let s = r.inner in
    elim (check_present r.committed s.named) [
      | err e ↦ err e
      | ok _ ↦ elim (truncate_all s.named r.committed s.contents) [
        | err e ↦ err e
        | ok cut ↦ ok (
            open_all r.committed (record s {
              contents = cut;
              named = drop_olds r.swap_pairs s.named;
              next_free_id = add64 (max_id (max_key s.active_id r.committed) s.named) 1;
            }))
      ]
    ]

-- The `or_insert` between the loops.
abbrev pub or_insert : ℕ → ℕ → Map ℕ ℕ → Map ℕ ℕ
or_insert id n m = elim (lookup id m) [ none ↦ insert id n m | some _ ↦ m ]

unfoldable pub recover : Entries → Inner → Result Inner
unfolding recover_loop recover_swaps recover_files
recover records s =
    let r =
      recover_loop records
        (record { inner = s; committed = empty; swap_pairs = []; remap_entries = empty }) in
    let filled = record r {
      committed = or_insert r.inner.active_id r.inner.active_offset r.committed;
    } in
    recover_files (recover_swaps filled.swap_pairs filled)

module _ (layer : BlockLayer) where
  unfoldable pub fresh_inner : ℕ → Disk → Inner
  fresh_inner segment_max disk = record {
    segment_max_bytes = segment_max;
    wal = open_wal layer disk.wal_file;
    contents = disk.contents;
    named = disk.named;
    segments = [];
    index = empty;
    put_locations = empty;
    rollup = empty_rollup;
    active_id = 0;
    active_offset = 0;
    pending = false;
    committed_lsn = 0;
    last_commit_block = 0;
    applied_upto = 0;
    dirty_segments = [];
    sealed = [];
    next_free_id = 0;
    pending_swap = none;
    retired_segments = [];
  }

  unfoldable pub open_with_options : ℕ → Disk → Result Store
  unfolding recover fresh_inner snap_of
  open_with_options segment_max disk =
      elim (recover (replay_with_lsns layer disk.wal_file).0 (fresh_inner segment_max disk)) [
        | err e ↦ err e
        | ok s ↦ ok (record { inner = s; snap = snap_of s })
      ]
