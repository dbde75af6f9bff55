-- ===== src/Segment/Restart.antt =====
-- A restart by `recover` of crates/shardvault-core/src/segment.rs finds the objects where `stage_put`
-- put them.
use shard_vault.Base.{ℕ, ◌≡◌, Bool, true, false, Result, ok, err}
use shard_vault.Wal.Record.{
  Record, put, commit, segment_seal, agg_delta, segment_swap, segment_remap,
}
use shard_vault.Wal.Log.{Entries}
use shard_vault.Segment.State.{Inner}
use shard_vault.Segment.Recover.{Recovery}
use shard_vault.Segment.Refused.{IsOffset, IsRefused}
use shard_vault.Segment.Layout.{Layout, layout_of}

-- A record of no compaction that was committed.
abbrev pub is_no_swap : Record → Bool
is_no_swap (segment_swap old new) = false
is_no_swap (put key len stripe_id) = true
is_no_swap (commit c) = true
is_no_swap (segment_seal id next) = true
is_no_swap (agg_delta deltas) = true
is_no_swap (segment_remap new entries) = true

abbrev pub IsNoSwap : ℕ × Record → Type 0
IsNoSwap (lsn, rec) = is_no_swap rec ≡ true

-- What `recover` may answer for a log and the files of a store: the layout, or why it refuses the
-- files by their names, their bytes and the active offsets along the log.
abbrev pub Restored : Entries → Inner → Layout → Result Inner → Type 0
Restored log start l (ok s) = layout_of s ≡ l
Restored log start l (err e) =
    IsRefused (IsOffset log (layout_of start)) start.named start.contents e

-- What a log without swaps leaves as it is.
record Kept (r r' : Recovery) : Type 0 where
  swap_pairs : r'.swap_pairs ≡ r.swap_pairs
  named : r'.inner.named ≡ r.inner.named
  contents : r'.inner.contents ≡ r.inner.contents

-- The layout, or the refusal of the files that the recovery holds.
abbrev Answers : (ℕ → Type 0) → Recovery → Result Inner → Type 0
Answers P r (ok s) = layout_of s ≡ layout_of r.inner
Answers P r (err e) = IsRefused P r.inner.named r.inner.contents e
