-- ===== src/Segment/State.antt =====
-- `Inner`, `Snap` and `Store` of crates/shardvault-core/src/segment.rs.
--
-- A segment id is never given twice, so that it stands for the file as well as for its name:
-- `contents` is what each file holds, `named` lists the files that the directory shows, and
-- `segments` those of which the store has a handle. A file that is removed keeps its content for
-- the handles that readers still have.
use shard_vault.Base.{
  ℕ, Bool, Option, List, Text, Map, Text-Key, ℕ-Key, if◌then◌else◌, ◌==◌, ◌||◌, false, [], ◌∷◌,
}
use shard_vault.Rollup.Aggregate.{Rollup}
use shard_vault.Wal.Record.{RemapEntry}
use shard_vault.Wal.Log.{Wal}

-- A value of `index`: segment, offset, length and put LSN.
pub record Loc : Type 0 where
  pub seg : ℕ
  pub offset : ℕ
  pub len : ℕ
  pub lsn : ℕ

-- A value of `put_locations`.
pub record PutLoc : Type 0 where
  pub key : Text
  pub seg : ℕ
  pub offset : ℕ
  pub len : ℕ

-- `bytes` is what the temporary file holds.
pub record PendingSwap : Type 0 where
  pub lsn : ℕ
  pub old : ℕ
  pub new : ℕ
  pub bytes : List ℕ
  pub entries : List RemapEntry

pub record Inner : Type 0 where
  pub segment_max_bytes : ℕ
  pub wal : Wal
  pub contents : Map ℕ (List ℕ)
  pub named : List ℕ
  pub segments : List ℕ
  pub index : Map Text Loc
  pub put_locations : Map ℕ PutLoc
  pub rollup : Rollup
  pub active_id : ℕ
  pub active_offset : ℕ
  pub pending : Bool
  pub committed_lsn : ℕ
  pub last_commit_block : ℕ
  pub applied_upto : ℕ
  pub dirty_segments : List ℕ
  pub sealed : List ℕ
  pub next_free_id : ℕ
  pub pending_swap : Option PendingSwap
  pub retired_segments : List (ℕ × ℕ)

pub record Snap : Type 0 where
  pub committed : ℕ
  pub index : Map Text Loc
  pub files : List ℕ
  pub put_locations : Map ℕ PutLoc
  pub rollup : Rollup

pub record Store : Type 0 where
  pub inner : Inner
  pub snap : Snap

-- `Snap::from`
unfoldable pub snap_of : Inner → Snap
snap_of s = record {
  committed = s.committed_lsn;
  index = s.index;
  files = s.segments;
  put_locations = s.put_locations;
  rollup = s.rollup;
}

-- Sets of segment ids.
abbrev pub contains : ℕ → List ℕ → Bool
contains id [] = false
contains id (x ∷ xs) = (x == id) || contains id xs

abbrev pub add_id : ℕ → List ℕ → List ℕ
add_id id xs = if contains id xs then xs else id ∷ xs

abbrev pub drop_id : ℕ → List ℕ → List ℕ
drop_id id [] = []
drop_id id (x ∷ xs) = let rest = drop_id id xs in if x == id then rest else x ∷ rest
