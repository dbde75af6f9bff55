-- ===== src/Segment/ReadUpto.antt =====
-- A put that was committed is at or below the leader's commit index, so that `get_upto` finds it.
use shard_vault.Base.{
  ℕ, ◌+◌, ◌-◌, ◌≡◌, ◌<◌, ◌≤◌, ◌^◌, refl, sym, ap, ◌∙◌, max, Bool, true, false, Bool-cases, inl, inr,
  some, List, [], length, ltb, ◌&&◌, add64, Text, text_eq, text_eq_iff, lookup, lookup-insert,
  Text-Key, ℕ-Key, Result, ok, arith, Result-cases,
}
use shard_vault.Block.Layer.{BlockLayer}
use shard_vault.Rollup.Aggregate.{deltas_for}
use shard_vault.Wal.Record.{Record, put, commit, agg_delta, segment_seal}
use shard_vault.Wal.Log.{Wal, Entries, sync, append, append_at}
use shard_vault.Segment.State.{Inner, Loc, Snap, Store, snap_of, contains}
use shard_vault.Segment.Exec.{wal_append, >>=-eq-ok}
use shard_vault.Segment.Write.{
  open_segment, write_value, seal_active_record, seal_when, place_value, log_put, log_deltas,
  stage_fitting, stage_put,
}
use shard_vault.Segment.Publish.{commit_pending, commit_store, sync_wal}
use shard_vault.Segment.Read.{found, get_upto}
use shard_vault.Segment.ReadBack.{
  Readable-SameData, stage_put-Readable, commit_store-SameData, read_at-Written,
}

-- The key's put has an LSN that the log gave.
pub record Placed (key : Text) (s : Inner) : Type 0 where
  pub loc : Loc
  pub at : lookup key s.index ≡ some loc
  pub given : loc.lsn < s.wal.next_lsn

module _ (layer : BlockLayer) where
  -- A record's LSN is the next one, and the log goes on behind it.
  pub append_next :
      (rec : Record) (s : Inner) {lsn : ℕ} {s' : Inner}
      → wal_append layer rec s ≡ (ok lsn, s')
      → (lsn ≡ s.wal.next_lsn)
        × (s'.wal.next_lsn ≡ max s.wal.next_lsn (add64 s.wal.next_lsn 1))
        × (s'.index ≡ s.index)
  unfolding wal_append append append_at
  append_next rec s h = (ground arith, ground arith, ground arith)

  pub seal_next :
      (s : Inner) {rec : ℕ × Record} {s' : Inner}
      → seal_active_record layer s ≡ (ok rec, s')
      → (s.wal.next_lsn ≤ s'.wal.next_lsn)
        × (s'.wal.next_lsn ≤ s.wal.next_lsn + 1)
        × (s'.index ≡ s.index)
  unfolding seal_active_record
  seal_next s {s' = s'} h =
      let t : Inner = record s { next_free_id = add64 s.next_free_id 1 } in
      let (lsn, u, logged, h1) =
        >>=-eq-ok (wal_append layer (segment_seal s.active_id s.next_free_id)) _ t h in
      let (first, next, index) = append_next (segment_seal s.active_id s.next_free_id) t logged in
      let wal : u.wal ≡ s'.wal = ap (λ (q : Result (ℕ × Record) × Inner). q.1.wal) h1 in
      let same : u.wal.next_lsn ≡ s'.wal.next_lsn = ap (λ (w : Wal). w.next_lsn) wal in
      let back : u.index ≡ s'.index = ap (λ (q : Result (ℕ × Record) × Inner). q.1.index) h1 in
      (omega arith, omega arith, sym back ∙ index)

  pub seal_when_next :
      (b : Bool) (recs : Entries) (s : Inner) {after : Entries} {s' : Inner}
      → seal_when layer b recs s ≡ (ok after, s')
      → (s.wal.next_lsn ≤ s'.wal.next_lsn)
        × (s'.wal.next_lsn ≤ s.wal.next_lsn + 1)
        × (s'.index ≡ s.index)
  unfolding seal_when
  seal_when_next true recs s {s' = s'} h =
      let (rec, t, sealed, h1) = >>=-eq-ok (seal_active_record layer) _ s h in
      let same : t ≡ s' = ap (λ (q : Result Entries × Inner). q.1) h1 in
      rw (← same) (seal_next s sealed)
  seal_when_next false recs s {s' = s'} h =
      let same : s ≡ s' = ap (λ (q : Result Entries × Inner). q.1) h in
      rw (← same) (omega arith, omega arith, refl)

  pub open_segment_next : (id : ℕ) (s : Inner) → (open_segment id s).wal ≡ s.wal
  unfolding open_segment
  open_segment_next id s = ground arith

  pub write_value_next :
      (value : List ℕ) (s : Inner) {s' : Inner} → write_value value s ≡ (ok tt, s') → s'.wal ≡ s.wal
  unfolding write_value
  write_value_next value s h = ground arith

  pub log_put_next :
      (key : Text) (value : List ℕ) (s : Inner) {lsn : ℕ} {s' : Inner}
      → s.wal.next_lsn + 1 < 2 ^ 64
      → log_put layer key value s ≡ (ok lsn, s')
      → lsn < s'.wal.next_lsn
  unfolding log_put
  log_put_next key value s small h =
      let (x, u, wrote, rest) = >>=-eq-ok (write_value value) _ (open_segment s.active_id s) h in
      let wal = write_value_next value (open_segment s.active_id s) wrote in
      let here : u.wal.next_lsn ≡ s.wal.next_lsn =
        ap (λ (w : Wal). w.next_lsn) (wal ∙ open_segment_next s.active_id s) in
      let (first, next, index) = append_next (put key (length value) u.wal.next_lsn) u rest in
      omega arith

  log_deltas-Placed :
      (key : Text) (len put_lsn : ℕ) (s : Inner) {p : ℕ × Record} {s' : Inner}
      → put_lsn < s.wal.next_lsn
      → log_deltas layer key len put_lsn s ≡ (ok p, s')
      → Placed key s'
  unfolding log_deltas place_value
  log_deltas-Placed key len put_lsn s {s' = s'} below h =
      let rec = agg_delta (deltas_for key len s.rollup) in
      let (agg_lsn, t, logged, h1) = >>=-eq-ok (wal_append layer rec) _ s h in
      let (first, next, index) = append_next rec s logged in
      let same : place_value key len put_lsn t ≡ s' =
        ap (λ (q : Result (ℕ × Record) × Inner). q.1) h1 in
      let loc : Loc = record {
        seg = t.active_id;
        offset = t.active_offset;
        len = len;
        lsn = put_lsn;
      } in
      let here : text_eq key key ≡ true = (text_eq_iff key key).1 refl in
      let up : put_lsn < t.wal.next_lsn = omega arith in
      rw (← same)
        (record { loc = loc; at = rw (lookup-insert key key loc t.index, here) refl; given = up })

  Placed-later :
      (key : Text) (s t : Inner)
      → s.wal.next_lsn ≤ t.wal.next_lsn
      → t.index ≡ s.index
      → Placed key s
      → Placed key t
  Placed-later key s t up index p =
      let below = p.given in
      record { loc = p.loc; at = ap (lookup key) index ∙ p.at; given = omega arith }

  stage_fitting-Placed :
      (key : Text) (value : List ℕ) (s : Inner) {id : ℕ} {recs : Entries} {s' : Inner}
      → s.wal.next_lsn + 2 < 2 ^ 64
      → stage_fitting layer key value s ≡ (ok (id, recs), s')
      → Placed key s'
  unfolding stage_fitting
  stage_fitting-Placed key value s {s' = s'} small h =
      let full =
        ltb 0 s.active_offset && ltb s.segment_max_bytes (add64 s.active_offset (length value)) in
      let (before, u, sealed, h1) = >>=-eq-ok (seal_when layer full []) _ s h in
      let (put_lsn, v, logged, h2) = >>=-eq-ok (log_put layer key value) _ u h1 in
      let (p, t, deltas, h3) = >>=-eq-ok (log_deltas layer key (length value) put_lsn) _ v h2 in
      let (after, w, closed, h4) = >>=-eq-ok (seal_when layer _ _) _ t h3 in
      let stay : w ≡ s' = ap (λ (q : Result (ℕ × Entries) × Inner). q.1) h4 in
      let (above, least, kept) = seal_when_next full [] s sealed in
      let below = log_put_next key value u (omega arith) logged in
      let placed = log_deltas-Placed key (length value) put_lsn v below deltas in
      let (up, most, index) = seal_when_next _ _ t closed in
      rw (← stay) (Placed-later key t w up index placed)

  stage_put-Placed :
      (key : Text) (value : List ℕ) (s : Inner) {id : ℕ} {recs : Entries} {s' : Inner}
      → s.wal.next_lsn + 2 < 2 ^ 64
      → stage_put layer key value s ≡ (ok (id, recs), s')
      → Placed key s'
  unfolding stage_put
  stage_put-Placed key value s small h = elim (Bool-cases (ltb (2 ^ 32 - 1) (length value))) [
    | inl long ↦ absurd (cc (rw (long) at h))
    | inr fits ↦ stage_fitting-Placed key value s small (rw (fits) at h)
  ]

  append_up :
      (rec : Record) (w : Wal) {lsn : ℕ} {w' : Wal}
      → append layer rec w ≡ ok (lsn, w')
      → w.next_lsn ≤ w'.next_lsn
  unfolding append append_at
  append_up rec w h = ground arith

  commit_store_next :
      (lsn : ℕ) (st : Store) {st' : Store}
      → st.inner.pending ≡ true
      → commit_store layer lsn st ≡ (ok tt, st')
      → st.inner.wal.next_lsn ≤ st'.inner.wal.next_lsn
  unfolding commit_store commit_pending wal_append sync
  commit_store_next lsn st pending h =
      elim (Result-cases (append layer (commit lsn) st.inner.wal)) [
        | inr (e, failed) ↦ ground arith
        | inl ((n, w), logged) ↦ let up = append_up (commit lsn) st.inner.wal logged in ground arith
      ]

  -- The WAL is synced between the put and its commit.
  pub get_upto_synced :
      (key : Text) (value : List ℕ) (st : Store) (id : ℕ) (recs : Entries) (s' : Inner) (lsn : ℕ)
      (st' : Store)
      → st.inner.wal.next_lsn + 2 < 2 ^ 64
      → stage_put layer key value st.inner ≡ (ok (id, recs), s')
      → commit_store layer lsn (record st { inner = sync_wal s' }) ≡ (ok tt, st')
      → get_upto key (st'.inner.wal.next_lsn - 1) st' ≡ ok (some value)
  unfolding snap_of get_upto sync_wal sync
  get_upto_synced key value st id recs s' lsn st' small staged committed =
      let (readable, pending) = stage_put-Readable layer key value st.inner staged in
      let synced : Store = record st { inner = sync_wal s' } in
      let (same, snap) = commit_store-SameData layer lsn synced pending committed in
      let (index, segments, contents) = same in
      let log : (sync_wal s').wal.next_lsn ≡ s'.wal.next_lsn = ground arith in
      let up : s'.wal.next_lsn ≤ st'.inner.wal.next_lsn =
        rw (← log) (commit_store_next lsn synced pending committed) in
      let placed =
        Placed-later key s' st'.inner up index (stage_put-Placed key value st.inner small staged) in
      let r = Readable-SameData s' st'.inner same readable in
      let at : lookup key st'.snap.index ≡ some r.loc =
        ap (λ (sn : Snap). lookup key sn.index) snap ∙ r.placed in
      let both : some r.loc ≡ some placed.loc = sym r.placed ∙ placed.at in
      let one : r.loc ≡ placed.loc = cc in
      let given : r.loc.lsn < st'.inner.wal.next_lsn = rw one placed.given in
      let test : ltb (st'.inner.wal.next_lsn - 1) r.loc.lsn ≡ false = ground arith in
      let files = ap (λ (sn : Snap). contains r.loc.seg sn.files) snap ∙ r.written.handle in
      let read =
        read_at-Written layer r.loc.seg r.loc.offset r.loc.len value st'.inner st'.snap files
          r.written in
      rw (get_upto, at, test) (ap found read)
