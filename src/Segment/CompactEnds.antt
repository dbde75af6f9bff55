-- ===== src/Segment/CompactEnds.antt =====
-- `compact_stage` ends: the rounds of its last loop suffice.
use shard_vault.Base.{
  ℕ, zero, suc, ◌+◌, ◌≡◌, ◌≢◌, ◌<◌, ◌≤◌, ◌^◌, refl, ap, ◌∙◌, Bool-cases, Option-cases, inl, inr,
  Option, none, some, List, [], ◌∷◌, All, All-imp, length, Map, ℕ-Key, arith, Result, ok,
  ok-injective, ◌==◌, ◌&&◌, ◌||◌, ltb,
}
use shard_vault.Block.Layer.{BlockLayer}
use shard_vault.Wal.Record.{Record, RemapEntry, segment_remap, segment_swap}
use shard_vault.Wal.Log.{Entries}
use shard_vault.Segment.State.{Inner, PutLoc, contains}
use shard_vault.Segment.Exec.{>>=-eq-ok}
use shard_vault.Segment.Write.{content_of}
use shard_vault.Segment.Chunks.{take_chunk, chunk_budget}
use shard_vault.Segment.ChunksFit.{take_chunk_shrinks, All-rest}
use shard_vault.Segment.CompactFits.{Fits}
use shard_vault.Segment.Compact.{
  CompactStage, Compaction, compact_segment, rounds_ran_out, push_record, stage_of, log_pending,
  log_remaps, log_stage, compact_stage, choose, kept_of, keep_in, live_in,
}
use shard_vault.Segment.CompactRun.{compact_segment-eq-ok}
use shard_vault.Segment.Moved.{sort_by_offset-All}
use shard_vault.Segment.Copied.{
  copy_values-CopyDone, held_bytes, total_of-keep_in, total_of-sort_by_offset,
  length-sort_by_offset, length-keep_in,
}

push_record-none :
    (rec : ℕ × Record) (more : Option Entries) → push_record rec more ≡ none → more ≡ none
push_record-none rec none h = refl
push_record-none rec (some records) h = absurd (cc)

stage_of-eq-rounds_ran_out :
    (remaps : Option Entries) (make : Entries → CompactStage)
    → stage_of remaps make ≡ rounds_ran_out
    → remaps ≡ none
stage_of-eq-rounds_ran_out none make h = refl
stage_of-eq-rounds_ran_out (some records) make h = absurd (cc)

-- A key that fits a remap record of its own.
abbrev pub FitsAlone : PutLoc → Type 0
FitsAlone loc = 2 + length loc.key + 20 ≤ chunk_budget

keep_in-Fits :
    (old : ℕ) (live : List ℕ) (horizon : ℕ) (puts : Map ℕ PutLoc)
    → All (λ p. FitsAlone p.1) puts
    → All Fits (keep_in old live horizon puts)
unfolding keep_in
keep_in-Fits old live horizon [] fits = tt
keep_in-Fits old live horizon ((lsn, loc) ∷ rest) (fit, fits) =
    let more = keep_in-Fits old live horizon rest fits in
    elim (Bool-cases ((loc.seg == old) && (contains lsn live || ltb horizon lsn))) [
      | inl taken ↦ rw taken (fit, more)
      | inr left ↦ rw left more
    ]

module _ (layer : BlockLayer) where
  log_remaps_ends :
      (fuel new : ℕ) (es : List RemapEntry) (s : Inner) {records : Option Entries} {s' : Inner}
      → length es ≤ fuel
      → All Fits es
      → log_remaps layer fuel new es s ≡ (ok records, s')
      → records ≢ none
  unfolding log_remaps
  log_remaps_ends fuel new [] s {records} enough fits h e =
      let done : some [] ≡ records =
        ok-injective (ap (λ (q : Result (Option Entries) × Inner). q.0) h) in
      cc
  log_remaps_ends zero new (e ∷ es) s enough fits h gone = omega arith
  log_remaps_ends (suc fuel) new (e ∷ es) s {records} enough (fit, fits) h gone =
      let (chunk, rest) = take_chunk chunk_budget (e ∷ es) in
      let (lsn, t, logged, h1) = >>=-eq-ok (log_pending layer (segment_remap new chunk)) _ s h in
      let (more, u, others, h2) = >>=-eq-ok (log_remaps layer fuel new rest) _ t h1 in
      let pushed : push_record (lsn, segment_remap new chunk) more ≡ records =
        ok-injective (ap (λ (q : Result (Option Entries) × Inner). q.0) h2) in
      let shorter = take_chunk_shrinks chunk_budget e es fit in
      let left =
        log_remaps_ends fuel new rest t (omega arith) (All-rest (e ∷ es) (fit, fits)) others in
      left (push_record-none _ more (pushed ∙ gone))

  log_stage_ends :
      (fuel old new : ℕ) (keep entries : List RemapEntry) (s : Inner) {s' : Inner}
      → length entries ≤ fuel
      → All Fits entries
      → log_stage layer fuel old new keep entries s ≢ (ok rounds_ran_out, s')
  unfolding log_stage
  log_stage_ends fuel old new keep entries s enough fits h =
      let (lsn, t, logged, h1) = >>=-eq-ok (log_pending layer (segment_swap old new)) _ s h in
      let (remaps, u, others, h2) = >>=-eq-ok (log_remaps layer fuel new entries) _ t h1 in
      let answered = ok-injective (ap (λ (q : Result Compaction × Inner). q.0) h2) in
      log_remaps_ends fuel new entries t enough fits others
        (stage_of-eq-rounds_ran_out remaps _ answered)

  compact_segment_ends :
      (fuel old horizon : ℕ) (s : Inner) {s' : Inner}
      → length s.put_locations ≤ fuel
      → held_bytes s.put_locations < 2 ^ 64
      → All (λ p. FitsAlone p.1) s.put_locations
      → compact_segment layer fuel old horizon s ≢ (ok rounds_ran_out, s')
  unfolding kept_of
  compact_segment_ends fuel old horizon s enough held fits h =
      let (handle, copied, done, logged) = compact_segment-eq-ok layer fuel old horizon s h in
      let live = live_in old s.index in
      let all = keep_in old live horizon s.put_locations in
      let kept = sort_by_offset-All Fits all (keep_in-Fits old live horizon s.put_locations fits) in
      let small = total_of-keep_in old live horizon s.put_locations in
      let sorted = total_of-sort_by_offset all in
      let copy =
        copy_values-CopyDone Fits (content_of old s.contents) (kept_of old horizon s) 0 [] kept refl
          (omega arith) done in
      let few = length-keep_in old live horizon s.put_locations in
      let same = length-sort_by_offset all in
      let count = copy.same_length in
      log_stage_ends fuel old s.next_free_id (kept_of old horizon s) copied.0 _ (omega arith)
        (All-imp _ Fits (λ e c. c.1) copied.0 copy.copied) logged

  -- Where the bytes of all put locations are less than 2 ^ 64 and each key fits a remap record of
  -- its own, a round for each put location is enough for the loops of `compact_stage`: they do not
  -- run out of rounds.
  pub compact_stage_ends :
      (fuel horizon : ℕ) (s s' : Inner)
      → length s.put_locations ≤ fuel
      → held_bytes s.put_locations < 2 ^ 64
      → All (λ p. FitsAlone p.1) s.put_locations
      → compact_stage layer fuel horizon s ≢ (ok rounds_ran_out, s')
  unfolding compact_stage
  compact_stage_ends fuel horizon s s' enough held fits h =
      elim (Option-cases (choose s.sealed horizon s)) [
        | inl missing ↦ cc (rw (compact_stage, missing) at h)
        | inr (old, chosen) ↦
            compact_segment_ends fuel old horizon s enough held fits
              (rw (compact_stage, chosen) at h)
      ]
