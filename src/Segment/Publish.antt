-- ===== src/Segment/Publish.antt =====
-- Syncs and commits of crates/shardvault-core/src/segment.rs. `File::sync_data` succeeds, and what
-- it makes durable is not told apart from what was written.
use shard_vault.Base.{
  ℕ, ◌-◌, max, true, false, none, some, List, [], ◌∷◌, ◌++◌, leb, filter, if◌then◌else◌, ◌==◌,
  lookup, insert, Text-Key, ℕ-Key, Result, ok, err,
}
use shard_vault.Block.Layer.{BlockLayer}
use shard_vault.Wal.Record.{RemapEntry, commit}
use shard_vault.Segment.State.{Inner, Snap, Store, PendingSwap, snap_of, add_id, drop_id}
use shard_vault.Segment.Exec.{Exec, ◌>>=◌, ◌>>◌, pure, gets, modify, wal_append, wal_sync}

-- The loop of `finalize_pending_swap` and of `compact_commit`: an entry repoints the index where its
-- put is still the key's last, and its put location always.
unfoldable pub repoint : ℕ → List RemapEntry → Inner → Inner
repoint new [] s = s
repoint new (e ∷ es) s = repoint new es (record s {
  index = elim (lookup e.key s.index) [
    | none ↦ s.index
    | some loc ↦
        if loc.lsn == e.lsn
        then insert e.key (record { seg = new; offset = e.offset; len = e.len; lsn = e.lsn })
            s.index
        else s.index
  ];
  put_locations =
      insert e.lsn (record { key = e.key; seg = new; offset = e.offset; len = e.len })
        s.put_locations;
})

-- The temporary file is renamed to the new segment, which takes the place of the old one.
unfoldable pub finish_swap : PendingSwap → Inner → Inner
unfolding repoint
finish_swap swap s =
    let t = repoint swap.new swap.entries s in
    record t {
      contents = insert swap.new swap.bytes t.contents;
      named = add_id swap.new t.named;
      segments = add_id swap.new (drop_id swap.old t.segments);
      sealed = drop_id swap.old t.sealed ++ swap.new ∷ [];
      pending_swap = none;
      retired_segments = t.retired_segments ++ (swap.lsn, swap.old) ∷ [];
    }

unfoldable pub finalize_pending_swap : Inner → Inner
unfolding finish_swap
finalize_pending_swap s = elim s.pending_swap [ none ↦ s | some swap ↦ finish_swap swap s ]

-- The files of the retired segments that a durable `Commit` covers are removed.
unfoldable pub remove_retired : List (ℕ × ℕ) → ℕ → List ℕ → List ℕ
remove_retired [] durable named = named
remove_retired ((swap_lsn, old) ∷ rest) durable named =
    remove_retired rest durable (if leb swap_lsn durable then drop_id old named else named)

unfoldable pub remove_committed_retired_segments : Inner → Inner
unfolding remove_retired
remove_committed_retired_segments s = record s {
  named = remove_retired s.retired_segments s.last_commit_block s.named;
  retired_segments =
      filter (λ r. if leb r.0 s.last_commit_block then false else true) s.retired_segments;
}

unfoldable pub publish : Store → Store
unfolding snap_of
publish st = record st { snap = snap_of st.inner }

-- An action of the store that publishes where it succeeds.
abbrev pub publish_on : {A : Type 0} → Result A → Inner → Snap → Result A × Store
publish_on (ok a) s old = (ok a, record { inner = s; snap = snap_of s })
publish_on (err e) s old = (err e, record { inner = s; snap = old })

unfoldable pub sync_wal : Inner → Inner
sync_wal s = (wal_sync s).1

unfoldable pub sync_all : Store → Result (Unit {0}) × Store
unfolding finalize_pending_swap remove_committed_retired_segments snap_of
sync_all st =
    let (r, s) =
      (do
        modify finalize_pending_swap
        wal_sync
        modify remove_committed_retired_segments
        modify (λ s. record s { dirty_segments = [] }))
        st.inner in
    publish_on r s st.snap

module _ (layer : BlockLayer) where
  -- The part of `commit` behind its guard.
  unfoldable pub commit_pending : ℕ → Exec (Unit {0})
  commit_pending lsn = do
    wal_append layer (commit lsn) >>= λ _. pure tt
    wal_sync
    commit_block ← gets (λ s. s.wal.next_lsn - 1)
    modify (λ s. record s {
      committed_lsn = max s.committed_lsn lsn;
      last_commit_block = max s.last_commit_block commit_block;
      applied_upto = max s.applied_upto commit_block;
      pending = false;
      dirty_segments = [];
    })

  unfoldable pub commit_store : ℕ → Store → Result (Unit {0}) × Store
  unfolding commit_pending snap_of
  commit_store lsn st = elim st.inner.pending [
    | false ↦ (ok tt, st)
    | true ↦ let (r, s) = commit_pending lsn st.inner in publish_on r s st.snap
  ]

  unfoldable pub flush : Store → Result (Unit {0}) × Store
  unfolding commit_store
  flush st = elim st.inner.pending [
    | false ↦ (ok tt, st)
    | true ↦ commit_store (st.inner.wal.next_lsn - 1) st
  ]
