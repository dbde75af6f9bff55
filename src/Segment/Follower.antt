-- ===== src/Segment/Follower.antt =====
-- A follower that applies the records of a leader lies as the leader does.
use shard_vault.Base.{
  ℕ, ◌≡◌, refl, sym, ap, ◌∙◌, max, true, Option, none, some, List, [], All, All-split, ◌∷◌, ◌++◌,
  ◌==◌, Text, Result, ok, err, corrupt, remap_without_swap, remap_target_mismatch, if◌then◌else◌,
  arith,
}
use shard_vault.Block.Layer.{BlockLayer}
use shard_vault.Rollup.Entry.{AggDeltaEntry}
use shard_vault.Wal.Record.{
  Record, RemapEntry, put, commit, segment_seal, agg_delta, segment_swap, segment_remap,
}
use shard_vault.Wal.Log.{Entries}
use shard_vault.Segment.State.{Inner, PendingSwap}
use shard_vault.Segment.Exec.{wal_append_at, >>=-eq-ok}
use shard_vault.Segment.Write.{stage_put, open_segment, write_value, place_value}
use shard_vault.Segment.Apply.{
  swap_after, copy_entry, copy_entries, apply_remap, apply_match, apply_record,
}
use shard_vault.Segment.Layout.{is_plain, IsPlain, layout_of, lay_step, lay_all, lay_all-append}
use shard_vault.Segment.Leader.{stage_put-Stages}

layout-copy_entries :
    (es : List RemapEntry) (swap : PendingSwap) (s : Inner)
    → layout_of (copy_entries es swap s).1 ≡ layout_of s
unfolding copy_entries
layout-copy_entries [] swap s = refl
layout-copy_entries (e ∷ es) swap s =
    elim (copy_entry e swap s)
      as (λ r.
        let after : Result (Unit {0}) × Inner = elim r [
          | ok swap' ↦ copy_entries es swap' s
          | err x ↦ (err x, record s { pending_swap = swap_after x swap })
        ] in
        layout_of after.1 ≡ layout_of s) [
          | ok swap' ↦ layout-copy_entries es swap' s
          | err x ↦ refl
        ]

layout-apply_remap :
    (new : ℕ) (es : List RemapEntry) (s : Inner) → layout_of (apply_remap new es s).1 ≡ layout_of s
unfolding apply_remap
layout-apply_remap new es s =
    elim s.pending_swap
      as (λ p.
        let after : Result (Unit {0}) × Inner = elim p [
          | none ↦ (err (corrupt remap_without_swap), s)
          | some swap ↦
              if swap.new == new
              then copy_entries es swap s
              else (err (corrupt remap_target_mismatch), s)
        ] in
        layout_of after.1 ≡ layout_of s) [
          | none ↦ refl
          | some swap ↦ let copied = layout-copy_entries es swap s in ground arith
        ]

module _ (layer : BlockLayer) where
  layout-wal_append_at :
      (rec : Record) (lsn : ℕ) (s : Inner)
      → layout_of (wal_append_at layer rec lsn s).1 ≡ layout_of s
  unfolding wal_append_at
  layout-wal_append_at rec lsn s = ground arith

  layout-apply_record-seal :
      (lsn id next : ℕ) (value : Option (List ℕ)) (s : Inner) {s' : Inner}
      → apply_record layer lsn (segment_seal id next) value s ≡ (ok tt, s')
      → layout_of s' ≡ lay_step (lsn, segment_seal id next) (layout_of s)
  unfolding apply_record apply_match wal_append_at
  layout-apply_record-seal lsn id next value s h = ground arith

  layout-apply_record-put :
      (lsn : ℕ) (key : Text) (len stripe_id : ℕ) (value : Option (List ℕ)) (s : Inner) {s' : Inner}
      → apply_record layer lsn (put key len stripe_id) value s ≡ (ok tt, s')
      → layout_of s' ≡ lay_step (lsn, put key len stripe_id) (layout_of s)
  unfolding apply_record apply_match wal_append_at open_segment write_value place_value
  layout-apply_record-put lsn key len stripe_id value s h = ground arith

  layout-apply_record-agg_delta :
      (lsn : ℕ) (deltas : List AggDeltaEntry) (value : Option (List ℕ)) (s : Inner) {s' : Inner}
      → apply_record layer lsn (agg_delta deltas) value s ≡ (ok tt, s')
      → layout_of s' ≡ lay_step (lsn, agg_delta deltas) (layout_of s)
  unfolding apply_record apply_match wal_append_at
  layout-apply_record-agg_delta lsn deltas value s h = ground arith

  layout-apply_record-commit :
      (lsn committed : ℕ) (value : Option (List ℕ)) (s : Inner) {s' : Inner}
      → apply_record layer lsn (commit committed) value s ≡ (ok tt, s')
      → layout_of s' ≡ lay_step (lsn, commit committed) (layout_of s)
  unfolding apply_record apply_match wal_append_at
  layout-apply_record-commit lsn committed value s h = ground arith

  layout-apply_record-remap :
      (lsn new : ℕ) (es : List RemapEntry) (value : Option (List ℕ)) (s : Inner) {s' : Inner}
      → apply_record layer lsn (segment_remap new es) value s ≡ (ok tt, s')
      → layout_of s' ≡ lay_step (lsn, segment_remap new es) (layout_of s)
  unfolding apply_record apply_match
  layout-apply_record-remap lsn new es value s {s'} h =
      let t = record s { applied_upto = max s.applied_upto lsn } in
      let (x, u, logged, rest) = >>=-eq-ok (wal_append_at layer (segment_remap new es) lsn) _ t h in
      let kept = ap (λ (p : Result (Unit {0}) × Inner). layout_of p.1) logged in
      let same = ap (λ (p : Result (Unit {0}) × Inner). layout_of p.1) rest in
      sym same
      ∙ layout-apply_remap new es u
      ∙ sym kept
      ∙ layout-wal_append_at (segment_remap new es) lsn t

  -- A follower that applied these records in order, each with what came with it as its value.
  pub data Applies (s : Inner) : Entries → Inner → Type 0 where
    nothing : Applies s [] s
    then_one :
        {es : Entries} {t u : Inner} (lsn : ℕ) (rec : Record) (value : Option (List ℕ))
        → Applies s es t
        → apply_record layer lsn rec value t ≡ (ok tt, u)
        → Applies s (es ++ (lsn, rec) ∷ []) u

  pub layout-apply_record :
      (lsn : ℕ) (rec : Record) (value : Option (List ℕ)) (s : Inner) {s' : Inner}
      → is_plain rec ≡ true
      → apply_record layer lsn rec value s ≡ (ok tt, s')
      → layout_of s' ≡ lay_step (lsn, rec) (layout_of s)
  layout-apply_record lsn (put key len stripe_id) value s p h =
      layout-apply_record-put lsn key len stripe_id value s h
  layout-apply_record lsn (commit committed) value s p h =
      layout-apply_record-commit lsn committed value s h
  layout-apply_record lsn (segment_seal id next) value s p h =
      layout-apply_record-seal lsn id next value s h
  layout-apply_record lsn (agg_delta deltas) value s p h =
      layout-apply_record-agg_delta lsn deltas value s h
  layout-apply_record lsn (segment_swap old new) value s p h = absurd (cc p)
  layout-apply_record lsn (segment_remap new es) value s p h =
      layout-apply_record-remap lsn new es value s h

  layout-Applies :
      (s : Inner) {es : Entries} {u : Inner}
      → All IsPlain es
      → Applies s es u
      → layout_of u ≡ lay_all es (layout_of s)
  layout-Applies s plain nothing = refl
  layout-Applies s plain (then_one {es = es} {t} lsn rec value applied e) =
      let (before, last) = All-split IsPlain es ((lsn, rec) ∷ []) plain in
      layout-apply_record lsn rec value t last.0 e
      ∙ ap (lay_step (lsn, rec)) (layout-Applies s before applied)
      ∙ sym (lay_all-append es ((lsn, rec) ∷ []) (layout_of s))

  -- A follower at the layout of the leader that applies the records that `stage_put` returned, in
  -- their order, is at the layout of the leader after `stage_put`: the same index, the same
  -- offsets, the same rollup and the same active segment.
  pub stage_put-Applies :
      (key : Text) (value : List ℕ) (s : Inner) (id : ℕ) (recs : Entries) (s' f f' : Inner)
      → stage_put layer key value s ≡ (ok (id, recs), s')
      → layout_of f ≡ layout_of s
      → Applies f recs f'
      → layout_of f' ≡ layout_of s'
  stage_put-Applies key value s id recs s' f f' staged same applied =
      let st = stage_put-Stages layer key value s id recs s' staged in
      layout-Applies f st.plain applied ∙ ap (lay_all recs) same ∙ sym st.layout
