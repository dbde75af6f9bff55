-- ===== src/Node/Follow.antt =====
-- A follower's connection that carries the batch of a put.
use shard_vault.Base.{
  ℕ, ◌≡◌, ◌≤◌, ◌<◌, refl, sym, ap, ◌∙◌, max, true, false, inl, inr, Option, none, some, List, [],
  ◌∷◌, All, leb, Text, Result-cases, ok, arith,
}
use shard_vault.Block.Layer.{BlockLayer}
use shard_vault.Rollup.Entry.{AggDeltaEntry}
use shard_vault.Wal.Record.{
  Record, put, segment_seal, agg_delta, commit, segment_swap, segment_remap,
}
use shard_vault.Wal.Log.{Entries}
use shard_vault.Segment.State.{Inner, Store, PendingSwap}
use shard_vault.Segment.Exec.{wal_append_at}
use shard_vault.Segment.Write.{stage_put, open_segment, write_value, place_value}
use shard_vault.Segment.Publish.{
  finish_swap, finalize_pending_swap, remove_committed_retired_segments, sync_all,
}
use shard_vault.Segment.Apply.{apply_match, apply_record}
use shard_vault.Segment.Layout.{is_plain, IsPlain, Layout, layout_of, lay_step, lay_all}
use shard_vault.Segment.Leader.{stage_put-Stages}
use shard_vault.Segment.Follower.{layout-apply_record}
use shard_vault.Node.Frame.{Frame, append, sync_barrier, sync_ack}
use shard_vault.Node.Leader.{batch_frames, data_of}
use shard_vault.Node.Apply.{apply_append, apply_frame, apply_frames}

-- What a record of a put leaves alone at a follower, and how far it counts as applied.
abbrev Quiet : ℕ → Inner → Inner → Type 0
Quiet lsn s t = (t.pending_swap ≡ s.pending_swap) × (t.applied_upto ≡ max s.applied_upto lsn)

lay_step-last_commit_block :
    (lsn : ℕ) (rec : Record) (l : Layout)
    → is_plain rec ≡ true
    → (lay_step (lsn, rec) l).last_commit_block ≡ l.last_commit_block
lay_step-last_commit_block lsn (put key len stripe_id) l p = refl
lay_step-last_commit_block lsn (commit n) l p = absurd (cc p)
lay_step-last_commit_block lsn (segment_seal id next) l p = refl
lay_step-last_commit_block lsn (agg_delta ds) l p = refl
lay_step-last_commit_block lsn (segment_swap old new) l p = absurd (cc p)
lay_step-last_commit_block lsn (segment_remap new es) l p = absurd (cc p)

module _ (layer : BlockLayer) where
  apply_put-Quiet :
      (lsn : ℕ) (key : Text) (len stripe_id : ℕ) (value : Option (List ℕ)) (s : Inner) {s' : Inner}
      → apply_record layer lsn (put key len stripe_id) value s ≡ (ok tt, s')
      → Quiet lsn s s'
  unfolding apply_record apply_match wal_append_at open_segment write_value place_value
  apply_put-Quiet lsn key len stripe_id value s h = (ground arith, ground arith)

  apply_seal-Quiet :
      (lsn id next : ℕ) (value : Option (List ℕ)) (s : Inner) {s' : Inner}
      → apply_record layer lsn (segment_seal id next) value s ≡ (ok tt, s')
      → Quiet lsn s s'
  unfolding apply_record apply_match wal_append_at
  apply_seal-Quiet lsn id next value s h = (ground arith, ground arith)

  apply_deltas-Quiet :
      (lsn : ℕ) (deltas : List AggDeltaEntry) (value : Option (List ℕ)) (s : Inner) {s' : Inner}
      → apply_record layer lsn (agg_delta deltas) value s ≡ (ok tt, s')
      → Quiet lsn s s'
  unfolding apply_record apply_match wal_append_at
  apply_deltas-Quiet lsn deltas value s h = (ground arith, ground arith)

  apply_record-Quiet :
      (lsn : ℕ) (rec : Record) (value : Option (List ℕ)) (s : Inner) {s' : Inner}
      → is_plain rec ≡ true
      → apply_record layer lsn rec value s ≡ (ok tt, s')
      → Quiet lsn s s'
  apply_record-Quiet lsn (put key len stripe_id) value s p h =
      apply_put-Quiet lsn key len stripe_id value s h
  apply_record-Quiet lsn (commit n) value s p h = absurd (cc p)
  apply_record-Quiet lsn (segment_seal id next) value s p h = apply_seal-Quiet lsn id next value s h
  apply_record-Quiet lsn (agg_delta ds) value s p h = apply_deltas-Quiet lsn ds value s h
  apply_record-Quiet lsn (segment_swap old new) value s p h = absurd (cc p)
  apply_record-Quiet lsn (segment_remap new es) value s p h = absurd (cc p)

  finalize-calm : (s : Inner) → s.pending_swap ≡ none → finalize_pending_swap s ≡ s
  unfolding finalize_pending_swap
  finalize-calm s calm =
      ap (λ (p : Option PendingSwap). elim p [ none ↦ s | some swap ↦ finish_swap swap s ]) calm

  -- The end of a batch: without a pending swap, everything stays where it lies.
  sync_all-layout :
      (end : ℕ) (st : Store) {st' : Store} {ack : ℕ}
      → st.inner.pending_swap ≡ none
      → apply_frames layer (sync_barrier end ∷ []) st ≡ (sync_ack ack ∷ [], st')
      → (layout_of st'.inner ≡ layout_of st.inner) × (st.inner.applied_upto ≤ ack)
  unfolding apply_frames apply_frame sync_all remove_committed_retired_segments
  sync_all-layout end st {st'} {ack} calm h =
      let still = finalize-calm st.inner calm in
      let same : layout_of (finalize_pending_swap st.inner) ≡ layout_of st'.inner =
        ap (λ (q : List Frame × Store). layout_of q.1.inner) h in
      let frames : sync_ack (finalize_pending_swap st.inner).applied_upto ∷ [] ≡ sync_ack ack ∷ [] =
        ap (λ (q : List Frame × Store). q.0) h in
      let upto : (finalize_pending_swap st.inner).applied_upto ≡ ack = cc in
      let before : (finalize_pending_swap st.inner).applied_upto ≡ st.inner.applied_upto =
        ap (λ (s : Inner). s.applied_upto) still in
      (sym same ∙ ap (λ s. layout_of s) still, omega arith)

  apply_frames-append :
      (lsn : ℕ) (rec : Record) (value : Option (List ℕ)) (frames : List Frame) (st : Store)
      {ack : ℕ} {st' : Store}
      → st.inner.last_commit_block < lsn
      → apply_frames layer (append lsn rec value ∷ frames) st ≡ (sync_ack ack ∷ [], st')
      → (s : Inner) × (apply_record layer lsn rec value st.inner ≡ (ok tt, s))
        × (apply_frames layer frames (record st { inner = s }) ≡ (sync_ack ack ∷ [], st'))
  unfolding apply_frames apply_frame apply_append
  apply_frames-append lsn rec value frames st above h =
      let new : leb lsn st.inner.last_commit_block ≡ false = ground arith in
      let run = apply_record layer lsn rec value st.inner in
      elim (Result-cases run.0) [
        | inl (done, returned) ↦ (
          run.1,
          ap (λ r. (r, run.1)) returned,
          rw (apply_frames, apply_frame, apply_append, new, returned) at h,
        )
        | inr (e, failed) ↦
            absurd (cc (rw (apply_frames, apply_frame, apply_append, new, failed) at h))
      ]

  batch-lay_all :
      (es : Entries) (value : Option (List ℕ)) (end : ℕ) (st : Store) {ack : ℕ} {st' : Store}
      → All IsPlain es
      → All (λ e. st.inner.last_commit_block < e.0) es
      → st.inner.pending_swap ≡ none
      → apply_frames layer (batch_frames es value end) st ≡ (sync_ack ack ∷ [], st')
      → (layout_of st'.inner ≡ lay_all es (layout_of st.inner))
        × (st.inner.applied_upto ≤ ack)
        × All (λ e. e.0 ≤ ack) es
  unfolding batch_frames
  batch-lay_all [] value end st plain above calm h =
      let (same, upto) = sync_all-layout end st calm h in (same, upto, tt)
  batch-lay_all ((lsn, rec) ∷ es) value end st (p, plain) (up, above) calm h =
      let (s, done, rest) = apply_frames-append lsn rec (data_of rec value) _ st up h in
      let layout = layout-apply_record layer lsn rec (data_of rec value) st.inner p done in
      let (swap, upto) = apply_record-Quiet lsn rec (data_of rec value) st.inner p done in
      let block : s.last_commit_block ≡ st.inner.last_commit_block =
        ap (λ (l : Layout). l.last_commit_block) layout
        ∙ lay_step-last_commit_block lsn rec (layout_of st.inner) p in
      let still : All (λ e. s.last_commit_block < e.0) es = rw block above in
      let (same, later, all) =
        batch-lay_all es value end (record st { inner = s }) plain still (swap ∙ calm) rest in
      (same ∙ ap (lay_all es) layout, omega arith, (omega arith, all))

  -- Where a follower that lies as the leader does and has no pending swap receives the frames that
  -- `send_batch` queued for a put, all at LSNs above its last `Commit`, and answers with an
  -- acknowledgement alone, it lies as the leader does behind `stage_put`, and it acknowledges every
  -- record of the put.
  pub apply_frames-stage_put :
      (key : Text) (value : List ℕ) (s : Inner) (id : ℕ) (recs : Entries) (s' : Inner) (end : ℕ)
      (st st' : Store) (ack : ℕ)
      → stage_put layer key value s ≡ (ok (id, recs), s')
      → layout_of st.inner ≡ layout_of s
      → st.inner.pending_swap ≡ none
      → All (λ e. st.inner.last_commit_block < e.0) recs
      → apply_frames layer (batch_frames recs (some value) end) st ≡ (sync_ack ack ∷ [], st')
      → (layout_of st'.inner ≡ layout_of s') × All (λ e. e.0 ≤ ack) recs
  apply_frames-stage_put key value s id recs s' end st st' ack staged same calm above h =
      let stages = stage_put-Stages layer key value s id recs s' staged in
      let (layout, upto, all) = batch-lay_all recs (some value) end st stages.plain above calm h in
      (layout ∙ ap (lay_all recs) same ∙ sym stages.layout, all)
