-- ===== src/Segment/PutReady.antt =====
-- The whole of `stage_put` keeps a store ready.
use shard_vault.Base.{
  ℕ, ◌+◌, ◌-◌, ◌≡◌, ◌<◌, ◌^◌, ap, ◌∙◌, Bool-cases, inl, inr, List, [], length, All-imp, ltb, ◌&&◌,
  add64, Text, Result, ok, arith,
}
use shard_vault.Block.Layer.{BlockLayer}
use shard_vault.Rollup.Aggregate.{deltas_for}
use shard_vault.Wal.Record.{Record, put, agg_delta}
use shard_vault.Wal.Log.{Wal, Entries}
use shard_vault.Segment.State.{Inner}
use shard_vault.Segment.Exec.{wal_append, >>=-eq-ok}
use shard_vault.Segment.Write.{
  open_segment, write_value, seal_when, place_value, log_put, log_deltas, stage_fitting, stage_put,
}
use shard_vault.Segment.Copied.{held_bytes}
use shard_vault.Segment.ReadUpto.{append_next, seal_when_next}
use shard_vault.Segment.Ready.{
  Ready, Placing, place_value-Ready, Onward, Consistent-Onward, append-Onward, seal_when-Ready,
}

-- The value is written: the log and the maps are as they were.
record Wrote (s t : Inner) : Type 0 where
  index : t.index ≡ s.index
  put_locations : t.put_locations ≡ s.put_locations
  wal : t.wal ≡ s.wal
  active_id : t.active_id ≡ s.active_id
  next_free_id : t.next_free_id ≡ s.next_free_id

open_segment-Wrote : (id : ℕ) (s : Inner) → Wrote s (open_segment id s)
unfolding open_segment
open_segment-Wrote id s = record {
  index = ground arith;
  put_locations = ground arith;
  wal = ground arith;
  active_id = ground arith;
  next_free_id = ground arith;
}

write_value-Wrote :
    (value : List ℕ) (s : Inner) {t : Inner} → write_value value s ≡ (ok tt, t) → Wrote s t
unfolding write_value
write_value-Wrote value s h = record {
  index = ground arith;
  put_locations = ground arith;
  wal = ground arith;
  active_id = ground arith;
  next_free_id = ground arith;
}

module _ (layer : BlockLayer) where
  log_put-Placing :
      (key : Text) (value : List ℕ) (s : Inner) {lsn : ℕ} {s' : Inner}
      → s.wal.next_lsn + 1 < 2 ^ 64
      → Ready s
      → log_put layer key value s ≡ (ok lsn, s')
      → Placing lsn s' × (s'.put_locations ≡ s.put_locations) × (s'.next_free_id ≡ s.next_free_id)
  unfolding log_put
  log_put-Placing key value s {lsn} {s'} small r h =
      let opened = open_segment s.active_id s in
      let (x, u, wrote, rest) = >>=-eq-ok (write_value value) _ opened h in
      let a = open_segment-Wrote s.active_id s in
      let b = write_value-Wrote value opened wrote in
      let rec = put key (length value) u.wal.next_lsn in
      let (first, next, index) = append_next layer rec u rest in
      let (o, active, ids) = append-Onward layer rec u rest in
      let log : u.wal.next_lsn ≡ s.wal.next_lsn = ap (λ (w : Wal). w.next_lsn) (b.wal ∙ a.wal) in
      let puts : s'.put_locations ≡ s.put_locations =
        o.put_locations ∙ b.put_locations ∙ a.put_locations in
      let free : s'.next_free_id ≡ s.next_free_id = ids ∙ b.next_free_id ∙ a.next_free_id in
      let act : s'.active_id ≡ s.active_id = active ∙ b.active_id ∙ a.active_id in
      let onward : Onward s s' = record {
        index = o.index ∙ b.index ∙ a.index;
        put_locations = puts;
        next_lsn = omega arith;
        next_free_id = omega arith;
      } in
      let given = r.active in
      (
        record {
          maps = Consistent-Onward s s' onward r.maps;
          below = rw puts (All-imp _ _ (λ e below. omega arith) s.put_locations r.logged);
          logged = omega arith;
          active = omega arith;
        },
        puts,
        free,
      )

  log_deltas-Ready :
      (key : Text) (len put_lsn : ℕ) (s : Inner) {p : ℕ × Record} {s' : Inner}
      → Placing put_lsn s
      → held_bytes s.put_locations + len < 2 ^ 64
      → log_deltas layer key len put_lsn s ≡ (ok p, s')
      → Ready s' × (s'.next_free_id ≡ s.next_free_id)
  unfolding log_deltas place_value
  log_deltas-Ready key len put_lsn s {s' = s'} p small h =
      let rec = agg_delta (deltas_for key len s.rollup) in
      let (lsn, t, logged, h1) = >>=-eq-ok (wal_append layer rec) _ s h in
      let (o, active, ids) = append-Onward layer rec s logged in
      let same : place_value key len put_lsn t ≡ s' =
        ap (λ (q : Result (ℕ × Record) × Inner). q.1) h1 in
      let up = o.next_lsn in
      let given = p.active in
      let below = p.logged in
      let placing : Placing put_lsn t = record {
        maps = Consistent-Onward s t o p.maps;
        below = rw (o.put_locations) p.below;
        logged = omega arith;
        active = omega arith;
      } in
      let held : held_bytes t.put_locations + len < 2 ^ 64 = rw (o.put_locations) small in
      rw (← same) (place_value-Ready key len put_lsn t placing held, ids)

  stage_fitting-Ready :
      (key : Text) (value : List ℕ) (s : Inner) {id : ℕ} {recs : Entries} {s' : Inner}
      → s.wal.next_lsn + 2 < 2 ^ 64
      → s.next_free_id + 2 < 2 ^ 64
      → held_bytes s.put_locations + length value < 2 ^ 64
      → Ready s
      → stage_fitting layer key value s ≡ (ok (id, recs), s')
      → Ready s'
  unfolding stage_fitting
  stage_fitting-Ready key value s {s' = s'} small ids held r h =
      let full =
        ltb 0 s.active_offset && ltb s.segment_max_bytes (add64 s.active_offset (length value)) in
      let (before, u, sealed, h1) = >>=-eq-ok (seal_when layer full []) _ s h in
      let (put_lsn, v, logged, h2) = >>=-eq-ok (log_put layer key value) _ u h1 in
      let (p, t, deltas, h3) = >>=-eq-ok (log_deltas layer key (length value) put_lsn) _ v h2 in
      let (after, w, closed, h4) = >>=-eq-ok (seal_when layer _ _) _ t h3 in
      let stay : w ≡ s' = ap (λ (q : Result (ℕ × Entries) × Inner). q.1) h4 in
      let (first, few, puts) = seal_when-Ready layer full [] s (omega arith) r sealed in
      let (above, least, kept) = seal_when_next layer full [] s sealed in
      let (placing, same, free) = log_put-Placing key value u (omega arith) first logged in
      let bytes : held_bytes v.put_locations + length value < 2 ^ 64 = rw (same ∙ puts) held in
      let (placed, free') = log_deltas-Ready key (length value) put_lsn v placing bytes deltas in
      let (last, more, end) = seal_when-Ready layer _ _ t (omega arith) placed closed in
      rw (← stay) last

  -- Where the maps of a store agree, the log is ahead of every put and the active segment's id was
  -- given, the next LSN and the next segment id are below 2 ^ 64 - 2, and the bytes that are held
  -- and those of the value are less than 2 ^ 64, the first three are so after a put that
  -- `stage_put` accepted.
  pub stage_put-Ready :
      (key : Text) (value : List ℕ) (s : Inner) (id : ℕ) (recs : Entries) (s' : Inner)
      → s.wal.next_lsn + 2 < 2 ^ 64
      → s.next_free_id + 2 < 2 ^ 64
      → held_bytes s.put_locations + length value < 2 ^ 64
      → Ready s
      → stage_put layer key value s ≡ (ok (id, recs), s')
      → Ready s'
  unfolding stage_put
  stage_put-Ready key value s id recs s' small ids held r h =
      elim (Bool-cases (ltb (2 ^ 32 - 1) (length value))) [
        | inl long ↦ absurd (cc (rw (long) at h))
        | inr fits ↦ stage_fitting-Ready key value s small ids held r (rw (fits) at h)
      ]
