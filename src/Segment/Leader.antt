-- ===== src/Segment/Leader.antt =====
-- `stage_put` keeps the store at the layout of its log.
use shard_vault.Base.{
  ℕ, ◌^◌, ◌≡◌, ◌-◌, refl, sym, ap, ◌∙◌, Bool, true, false, Bool-cases, inl, inr, List, [], ◌∷◌,
  ◌++◌, All, All-append, append_assoc, length, ltb, ◌&&◌, Text, add64, Result, ok, arith,
}
use shard_vault.Block.Layer.{BlockLayer}
use shard_vault.Rollup.Entry.{AggDeltaEntry}
use shard_vault.Rollup.Aggregate.{deltas_for}
use shard_vault.Wal.Record.{Record, put, agg_delta}
use shard_vault.Wal.Log.{Wal, Entries, append}
use shard_vault.Segment.State.{Inner}
use shard_vault.Segment.Exec.{wal_append, >>=-eq-ok}
use shard_vault.Segment.Write.{
  open_segment, write_value, seal_active_record, seal_when, place_value, log_put, log_deltas,
  stage_fitting, stage_put,
}
use shard_vault.Segment.Layout.{
  is_plain, IsPlain, Layout, layout_of, lay_step, lay_all, lay_all-append,
}

module _ (layer : BlockLayer) where
  -- The records that were appended between two states of the log, with their LSNs.
  pub data Logged (w : Wal) : Entries → Wal → Type 0 where
    nothing : Logged w [] w
    then_one :
        {recs : Entries} {v u : Wal} (lsn : ℕ) (rec : Record)
        → Logged w recs v
        → append layer rec v ≡ ok (lsn, u)
        → Logged w (recs ++ (lsn, rec) ∷ []) u

module _ (layer : BlockLayer) where
  seal_active_record-eq-ok :
      (s : Inner) {lsn : ℕ} {rec : Record} {s' : Inner}
      → seal_active_record layer s ≡ (ok (lsn, rec), s')
      → (append layer rec s.wal ≡ ok (lsn, s'.wal))
        × (layout_of s' ≡ lay_step (lsn, rec) (layout_of s))
        × (is_plain rec ≡ true)
  unfolding seal_active_record wal_append
  seal_active_record-eq-ok s h = ground arith

  pub layout-open_segment :
      (id : ℕ) (s : Inner)
      → (layout_of (open_segment id s) ≡ layout_of s) × ((open_segment id s).wal ≡ s.wal)
  unfolding open_segment
  layout-open_segment id s = ground arith

  pub layout-write_value :
      (value : List ℕ) (s : Inner) {s' : Inner}
      → write_value value s ≡ (ok tt, s')
      → (layout_of s' ≡ layout_of s) × (s'.wal ≡ s.wal)
  unfolding write_value
  layout-write_value value s h = ground arith

  append-next_lsn :
      (rec : Record) (w : Wal) {lsn : ℕ} {u : Wal}
      → append layer rec w ≡ ok (lsn, u)
      → lsn ≡ w.next_lsn
  unfolding append
  append-next_lsn rec w h = ground arith

  log_put_tail :
      (key : Text) (len : ℕ) (u : Inner) {lsn : ℕ} {s' : Inner}
      → wal_append layer (put key len u.wal.next_lsn) u ≡ (ok lsn, s')
      → (append layer (put key len lsn) u.wal ≡ ok (lsn, s'.wal)) × (layout_of s' ≡ layout_of u)
  unfolding wal_append
  log_put_tail key len u {lsn} {s'} h =
      let appended : append layer (put key len u.wal.next_lsn) u.wal ≡ ok (lsn, s'.wal) =
        ground arith in
      let named = append-next_lsn (put key len u.wal.next_lsn) u.wal appended in
      (rw named (rw named at appended), ground arith)

  log_put-eq-ok :
      (key : Text) (value : List ℕ) (s : Inner) {lsn : ℕ} {s' : Inner}
      → log_put layer key value s ≡ (ok lsn, s')
      → (append layer (put key (length value) lsn) s.wal ≡ ok (lsn, s'.wal))
        × (layout_of s' ≡ layout_of s)
  unfolding log_put
  log_put-eq-ok key value s h =
      let t = open_segment s.active_id s in
      let (same, wal) = layout-open_segment s.active_id s in
      let (x, u, wrote, rest) = >>=-eq-ok (write_value value) _ t h in
      let (same', wal') = layout-write_value value t wrote in
      let (appended, same'') = log_put_tail key (length value) u rest in
      (rw (sym (wal' ∙ wal)) appended, same'' ∙ same' ∙ same)

  log_deltas-eq-ok :
      (key : Text) (len put_lsn : ℕ) (s : Inner) {lsn : ℕ} {rec : Record} {s' : Inner}
      → log_deltas layer key len put_lsn s ≡ (ok (lsn, rec), s')
      → (rec ≡ agg_delta (deltas_for key len s.rollup))
        × (append layer rec s.wal ≡ ok (lsn, s'.wal))
        × (layout_of s' ≡ lay_step (put_lsn, put key len put_lsn) (layout_of s))
  unfolding log_deltas wal_append place_value
  log_deltas-eq-ok key len put_lsn s h = ground arith

  -- What an action that returned these records did to the layout and to the log.
  pub record Stages (s : Inner) (recs : Entries) (s' : Inner) : Type 0 where
    pub layout : layout_of s' ≡ lay_all recs (layout_of s)
    pub logged : Logged layer s.wal recs s'.wal
    pub plain : All IsPlain recs

  Stages-none : (s : Inner) → Stages s [] s
  Stages-none s = record { layout = refl; logged = nothing; plain = tt }

  Stages-one :
      {s u s' : Inner} {recs : Entries} (lsn : ℕ) (rec : Record)
      → Stages s recs u
      → append layer rec u.wal ≡ ok (lsn, s'.wal)
      → layout_of s' ≡ lay_step (lsn, rec) (layout_of u)
      → is_plain rec ≡ true
      → Stages s (recs ++ (lsn, rec) ∷ []) s'
  Stages-one {s = s} {recs = recs} lsn rec st e l plain = record {
    layout =
        l
        ∙ ap (lay_step (lsn, rec)) st.layout
        ∙ sym (lay_all-append recs ((lsn, rec) ∷ []) (layout_of s));
    logged = then_one lsn rec st.logged e;
    plain = All-append IsPlain recs ((lsn, rec) ∷ []) st.plain (plain, tt);
  }

  -- The records so far are those since `s`; a seal adds its own.
  seal_when-Stages :
      (b : Bool) (recs : Entries) {s u : Inner} {after : Entries} {s' : Inner}
      → Stages s recs u
      → seal_when layer b recs u ≡ (ok after, s')
      → Stages s after s'
  unfolding seal_when
  seal_when-Stages false recs {s} {u} {after} {s'} st h =
      let same : recs ≡ after = ground arith in
      let stay : u ≡ s' = cc (ap (λ (p : Result Entries × Inner). p.1) h) in rw (← same, ← stay) st
  seal_when-Stages true recs {s} {u} {after} {s'} st h =
      let ((lsn, rec), t, sealed, rest) = >>=-eq-ok (seal_active_record layer) _ u h in
      let (e, l, plain) = seal_active_record-eq-ok u sealed in
      let same : recs ++ (lsn, rec) ∷ [] ≡ after = ground arith in
      let stay : t ≡ s' = cc (ap (λ (p : Result Entries × Inner). p.1) rest) in
      rw (← same, ← stay) (Stages-one lsn rec st e l plain)

  lay_put_deltas :
      (before : Entries) (put_lsn : ℕ) (key : Text) (len lsn : ℕ) {rec : Record}
      {deltas : List AggDeltaEntry}
      → rec ≡ agg_delta deltas
      → (l : Layout)
      → lay_step (put_lsn, put key len put_lsn) (lay_all before l)
        ≡ lay_all ((before ++ (put_lsn, put key len put_lsn) ∷ []) ++ (lsn, rec) ∷ []) l
  lay_put_deltas before put_lsn key len lsn {rec} {deltas} named l =
      rw
        (
          named,
          lay_all-append (before ++ (put_lsn, put key len put_lsn) ∷ [])
              ((lsn, agg_delta deltas) ∷ []) l,
          lay_all-append before ((put_lsn, put key len put_lsn) ∷ []) l,
        )
        refl

  returned :
      {s w s' : Inner} {put_lsn id : ℕ} {after recs : Entries}
      → ◌≡◌ {A = Result (ℕ × Entries) × Inner} (ok (put_lsn, after), w) (ok (id, recs), s')
      → Stages s after w
      → Stages s recs s'
  returned {s} {w} {s'} {put_lsn} {id} {after} {recs} h st =
      let same : after ≡ recs = ground arith in
      let stay : w ≡ s' = cc (ap (λ (p : Result (ℕ × Entries) × Inner). p.1) h) in
      rw (← same, ← stay) st

  Stages-put :
      (key : Text) (value : List ℕ) {before : Entries} {s u : Inner} (put_lsn : ℕ) {lsn : ℕ}
      {rec : Record} {v t : Inner}
      → Stages s before u
      → log_put layer key value u ≡ (ok put_lsn, v)
      → log_deltas layer key (length value) put_lsn v ≡ (ok (lsn, rec), t)
      → Stages s (before ++ (put_lsn, put key (length value) put_lsn) ∷ (lsn, rec) ∷ []) t
  Stages-put key value {before} {s} put_lsn {lsn} {rec} st logged deltas =
      let (e, l) = log_put-eq-ok key value _ logged in
      let (named, e', l') = log_deltas-eq-ok key (length value) put_lsn _ deltas in
      let recs = before ++ (put_lsn, put key (length value) put_lsn) ∷ [] in
      let both : Stages _ (recs ++ (lsn, rec) ∷ []) _ = record {
        layout =
            l'
            ∙ ap (lay_step (put_lsn, put key (length value) put_lsn)) (l ∙ st.layout)
            ∙ lay_put_deltas before put_lsn key (length value) lsn named (layout_of s);
        logged =
            then_one lsn rec (then_one put_lsn (put key (length value) put_lsn) st.logged e) e';
        plain =
            All-append IsPlain recs ((lsn, rec) ∷ [])
              (All-append IsPlain before ((put_lsn, put key (length value) put_lsn) ∷ []) st.plain
                (refl, tt))
              (rw (named) refl, tt);
      } in
      rw
        (sym
          (append_assoc before ((put_lsn, put key (length value) put_lsn) ∷ []) ((lsn, rec) ∷ [])))
        both

  stage_fitting-Stages :
      (key : Text) (value : List ℕ) (s : Inner) {id : ℕ} {recs : Entries} {s' : Inner}
      → stage_fitting layer key value s ≡ (ok (id, recs), s')
      → Stages s recs s'
  unfolding stage_fitting
  stage_fitting-Stages key value s h =
      let full =
        ltb 0 s.active_offset && ltb s.segment_max_bytes (add64 s.active_offset (length value)) in
      let (before, u, sealed, h1) = >>=-eq-ok (seal_when layer full []) _ s h in
      let (put_lsn, v, logged, h2) = >>=-eq-ok (log_put layer key value) _ u h1 in
      let ((lsn, rec), t, deltas, h3) =
        >>=-eq-ok (log_deltas layer key (length value) put_lsn) _ v h2 in
      let (after, w, closed, h4) = >>=-eq-ok (seal_when layer _ _) _ t h3 in
      let opened = seal_when-Stages full [] (Stages-none s) sealed in
      let staged =
        seal_when-Stages _ _ (Stages-put key value put_lsn opened logged deltas) closed in
      returned h4 staged

  -- Where `stage_put` returns, the records that it returns are those that it logged, in order and at
  -- the LSNs that it reports, and the store lies as these records say.
  pub stage_put-Stages :
      (key : Text) (value : List ℕ) (s : Inner) (id : ℕ) (recs : Entries) (s' : Inner)
      → stage_put layer key value s ≡ (ok (id, recs), s')
      → Stages s recs s'
  unfolding stage_put
  stage_put-Stages key value s id recs s' h = elim (Bool-cases (ltb (2 ^ 32 - 1) (length value))) [
    | inl long ↦ absurd (cc (rw (long) at h))
    | inr fits ↦ stage_fitting-Stages key value s (rw (fits) at h)
  ]
