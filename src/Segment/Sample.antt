-- ===== src/Segment/Sample.antt =====
-- A fresh store, a store with a sealed segment, in which one of two values is dead, and the stage of
-- its compaction.
use shard_vault.Base.{empty, refl, [], ◌∷◌, none, arith, lookup, false}
use shard_vault.Rollup.Aggregate.{empty_rollup}
use shard_vault.Wal.Record.{RemapEntry, segment_swap, segment_remap}
use shard_vault.Segment.State.{Inner}
use shard_vault.Segment.Compact.{CompactStage}
use shard_vault.Segment.CompactSettled.{Consistent}

abbrev pub fresh : Inner
fresh = record {
  segment_max_bytes = 1000;
  wal = record { file = []; buf = []; next_lsn = 1; dirty = false };
  contents = empty;
  named = [];
  segments = [];
  index = empty;
  put_locations = empty;
  rollup = empty_rollup;
  active_id = 1;
  active_offset = 0;
  pending = false;
  committed_lsn = 0;
  last_commit_block = 0;
  applied_upto = 0;
  dirty_segments = [];
  sealed = [];
  next_free_id = 2;
  pending_swap = none;
  retired_segments = [];
}

abbrev pub overwritten : Inner
overwritten = record {
  segment_max_bytes = 3;
  wal = record { file = []; buf = []; next_lsn = 5; dirty = false };
  contents = (1, 9 ∷ 5 ∷ 6 ∷ []) ∷ [];
  named = 1 ∷ [];
  segments = 1 ∷ [];
  index = (97 ∷ [], record { seg = 1; offset = 1; len = 2; lsn = 3 }) ∷ [];
  put_locations =
      (1, record { key = 97 ∷ []; seg = 1; offset = 0; len = 1 })
      ∷ (3, record { key = 97 ∷ []; seg = 1; offset = 1; len = 2 })
      ∷ [];
  rollup = empty_rollup;
  active_id = 2;
  active_offset = 0;
  pending = false;
  committed_lsn = 3;
  last_commit_block = 4;
  applied_upto = 4;
  dirty_segments = [];
  sealed = 1 ∷ [];
  next_free_id = 3;
  pending_swap = none;
  retired_segments = [];
}

pub overwritten-Consistent : Consistent overwritten
unfolding lookup
overwritten-Consistent = record {
  one_place = (refl, tt);
  one_put = (refl, (refl, tt));
  placed = (refl, tt);
  given = (omega arith, (omega arith, tt));
  held = omega arith;
}

abbrev pub moved_entry : RemapEntry
moved_entry = record { key = 97 ∷ []; lsn = 3; offset = 0; len = 2 }

abbrev pub stage : CompactStage
stage = record {
  records = (5, segment_swap 1 3) ∷ (6, segment_remap 3 (moved_entry ∷ [])) ∷ [];
  freed = 1;
  old_id = 1;
  new_id = 3;
  entries = moved_entry ∷ [];
  dropped = 1 ∷ [];
}
