-- ===== src/Segment/Layout.antt =====
-- Where every object lies, as a function of the log: the specification that the leader, the
-- followers and recovery share. Swaps are left to recovery's second loop.
use shard_vault.Base.{
  ℕ, max, Bool, true, false, ◌≡◌, refl, ap, ◌∙◌, List, [], ◌∷◌, ◌++◌, Text, Map, insert, Text-Key,
  ℕ-Key, add64,
}
use shard_vault.Rollup.Aggregate.{Rollup, record_put}
use shard_vault.Wal.Record.{
  Record, put, commit, segment_seal, agg_delta, segment_swap, segment_remap,
}
use shard_vault.Wal.Log.{Entries}
use shard_vault.Segment.State.{Inner, Loc, PutLoc}
use shard_vault.Segment.Recover.{Recovery, recover_step, recover_loop}

pub record Layout : Type 0 where
  pub index : Map Text Loc
  pub put_locations : Map ℕ PutLoc
  pub rollup : Rollup
  pub active_id : ℕ
  pub active_offset : ℕ
  pub sealed : List ℕ
  pub committed_lsn : ℕ
  pub last_commit_block : ℕ

abbrev pub layout_of : Inner → Layout
layout_of s = record {
  index = s.index;
  put_locations = s.put_locations;
  rollup = s.rollup;
  active_id = s.active_id;
  active_offset = s.active_offset;
  sealed = s.sealed;
  committed_lsn = s.committed_lsn;
  last_commit_block = s.last_commit_block;
}

-- What one record does to the layout.
abbrev pub lay_step : ℕ × Record → Layout → Layout
lay_step (lsn, put key len stripe_id) l = record l {
  index =
      insert key (record { seg = l.active_id; offset = l.active_offset; len = len; lsn = lsn })
        l.index;
  put_locations =
      insert lsn (record { key = key; seg = l.active_id; offset = l.active_offset; len = len })
        l.put_locations;
  rollup = record_put key len l.rollup;
  active_offset = add64 l.active_offset len;
}
lay_step (lsn, segment_seal id next) l = record l {
  sealed = l.sealed ++ id ∷ [];
  active_id = next;
  active_offset = 0;
}
lay_step (lsn, commit c) l = record l {
  committed_lsn = max l.committed_lsn c;
  last_commit_block = max l.last_commit_block lsn;
}
lay_step (lsn, agg_delta deltas) l = l
lay_step (lsn, segment_swap old new) l = l
lay_step (lsn, segment_remap new entries) l = l

-- The records that a put logs.
abbrev pub is_plain : Record → Bool
is_plain (put key len stripe_id) = true
is_plain (segment_seal id next) = true
is_plain (agg_delta deltas) = true
is_plain _ = false

abbrev pub IsPlain : ℕ × Record → Type 0
IsPlain (lsn, rec) = is_plain rec ≡ true

abbrev pub lay_all : Entries → Layout → Layout
lay_all [] l = l
lay_all (e ∷ es) l = lay_all es (lay_step e l)

pub lay_all-append :
    (es fs : Entries) (l : Layout) → lay_all (es ++ fs) l ≡ lay_all fs (lay_all es l)
lay_all-append [] fs l = refl
lay_all-append (e ∷ es) fs l = lay_all-append es fs (lay_step e l)

pub recover_step-lay_step :
    (lsn : ℕ) (rec : Record) (r : Recovery)
    → layout_of (recover_step (lsn, rec) r).inner ≡ lay_step (lsn, rec) (layout_of r.inner)
unfolding recover_step
recover_step-lay_step lsn (put key len stripe_id) r = refl
recover_step-lay_step lsn (commit c) r = refl
recover_step-lay_step lsn (segment_seal id next) r = refl
recover_step-lay_step lsn (agg_delta deltas) r = refl
recover_step-lay_step lsn (segment_swap old new) r = refl
recover_step-lay_step lsn (segment_remap new entries) r = refl

-- The first loop of `recover` lays the objects out as the specification does, record by record.
pub recover_loop-lay_all :
    (es : Entries) (r : Recovery)
    → layout_of (recover_loop es r).inner ≡ lay_all es (layout_of r.inner)
unfolding recover_loop
recover_loop-lay_all [] r = refl
recover_loop-lay_all ((lsn, rec) ∷ es) r =
    recover_loop-lay_all es (recover_step (lsn, rec) r)
    ∙ ap (lay_all es) (recover_step-lay_step lsn rec r)
