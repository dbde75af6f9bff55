-- ===== src/Segment/CompactFits.antt =====
-- What `compact_stage` puts into the records of a stage: crates/shardvault-core/src/segment.rs.
use shard_vault.Base.{
  ℕ, zero, suc, ◌≡◌, ◌≤◌, refl, ap, ◌∙◌, Option-cases, inl, inr, Option, none, some, List, [], ◌∷◌,
  ◌++◌, All, All-imp, All-append, arith, Result, ok, ok-injective,
}
use mathlib.Core.Path.{subst}
use mathlib.Core.Option.{some_inj, none-ne-some}
use shard_vault.Block.Layer.{BlockLayer, payload_max}
use shard_vault.Wal.Size.{record_size}
use shard_vault.Wal.Record.{
  Record, RemapEntry, put, commit, segment_seal, agg_delta, segment_remap, segment_swap,
}
use shard_vault.Wal.Log.{Entries}
use shard_vault.Segment.State.{Inner}
use shard_vault.Segment.Exec.{>>=-eq-ok}
use shard_vault.Segment.Chunks.{take_chunk, chunk_budget, cost}
use shard_vault.Segment.ChunksFit.{take_chunk-append, All-chunk}
use shard_vault.Segment.Compact.{
  CompactStage, Compaction, staged, push_record, stage_of, log_pending, log_remaps, log_stage,
  compact_stage, choose,
}
use shard_vault.Segment.CompactRun.{compact_segment-eq-ok}

-- An entry that fits a remap record of its own.
abbrev pub Fits : RemapEntry → Type 0
Fits e = cost e ≤ chunk_budget

-- The entries of the remap records among the records, in order.
abbrev pub remapped : Entries → List RemapEntry
remapped [] = []
remapped ((lsn, segment_remap new es) ∷ rest) = es ++ remapped rest
remapped ((lsn, put key len stripe_id) ∷ rest) = remapped rest
remapped ((lsn, commit c) ∷ rest) = remapped rest
remapped ((lsn, segment_seal id next) ∷ rest) = remapped rest
remapped ((lsn, agg_delta deltas) ∷ rest) = remapped rest
remapped ((lsn, segment_swap old new) ∷ rest) = remapped rest

-- An entry whose remap record, with no other entry, is no longer than a block's payload.
abbrev pub FitsBlock : RemapEntry → Type 0
FitsBlock e = record_size (segment_remap 0 (e ∷ [])) ≤ payload_max

-- Every entry fits a remap record, and the remap records hold the entries in order.
pub record Carries (entries : List RemapEntry) (records : Entries) : Type 0 where
  pub fitting : All FitsBlock entries
  pub whole : remapped records ≡ entries

push_record-some :
    (rec : ℕ × Record) (more : Option Entries) {records : Entries}
    → push_record rec more ≡ some records
    → (rest : Entries) × (more ≡ some rest) × (rec ∷ rest ≡ records)
push_record-some rec none h = absurd (cc)
push_record-some rec (some rest) h = (rest, refl, some_inj.0 h)

stage_of-staged :
    (remaps : Option Entries) (make : Entries → CompactStage) {stage : CompactStage}
    → stage_of remaps make ≡ staged stage
    → (records : Entries) × (remaps ≡ some records) × (make records ≡ stage)
stage_of-staged none make h = absurd (cc)
stage_of-staged (some records) make h = (records, refl, cc)

chunk-Carries :
    (lsn new : ℕ) (es : List RemapEntry) {rest : Entries}
    → Carries (take_chunk chunk_budget es).1 rest
    → Carries es ((lsn, segment_remap new (take_chunk chunk_budget es).0) ∷ rest)
chunk-Carries lsn new es {rest} later =
    let (chunk, left) = take_chunk chunk_budget es in
    record {
      fitting = subst (All FitsBlock) (take_chunk-append chunk_budget es) (
          All-append FitsBlock chunk left
            (All-imp Fits FitsBlock (λ e h. omega arith) chunk (All-chunk chunk_budget es))
            later.fitting);
      whole = ap (◌++◌ chunk) later.whole ∙ take_chunk-append chunk_budget es;
    }

module _ (layer : BlockLayer) where
  log_remaps-Carries :
      (fuel new : ℕ) (es : List RemapEntry) (s : Inner) {records : Entries} {s' : Inner}
      → log_remaps layer fuel new es s ≡ (ok (some records), s')
      → Carries es records
  unfolding log_remaps
  log_remaps-Carries fuel new [] s {records} h =
      let none_logged : [] ≡ records =
        some_inj.0 (ok-injective (ap (λ (q : Result (Option Entries) × Inner). q.0) h)) in
      subst (Carries []) none_logged (record { fitting = tt; whole = refl })
  log_remaps-Carries zero new (e ∷ es) s h =
      absurd (none-ne-some _ (ok-injective (ap (λ (q : Result (Option Entries) × Inner). q.0) h)))
  log_remaps-Carries (suc fuel) new (e ∷ es) s {records} h =
      let (chunk, rest) = take_chunk chunk_budget (e ∷ es) in
      let (lsn, t, logged, h1) = >>=-eq-ok (log_pending layer (segment_remap new chunk)) _ s h in
      let (more, u, others, h2) = >>=-eq-ok (log_remaps layer fuel new rest) _ t h1 in
      let pushed : push_record (lsn, segment_remap new chunk) more ≡ some records =
        ok-injective (ap (λ (q : Result (Option Entries) × Inner). q.0) h2) in
      let (behind, is, front) = push_record-some (lsn, segment_remap new chunk) more pushed in
      let later = log_remaps-Carries fuel new rest t (others ∙ ap (λ m. (ok m, u)) is) in
      subst (Carries (e ∷ es)) front (chunk-Carries lsn new (e ∷ es) later)

  log_stage-Carries :
      (fuel old new : ℕ) (keep entries : List RemapEntry) (s : Inner) {stage : CompactStage}
      {s' : Inner}
      → log_stage layer fuel old new keep entries s ≡ (ok (staged stage), s')
      → Carries stage.entries stage.records
  unfolding log_stage
  log_stage-Carries fuel old new keep entries s {stage} h =
      let (lsn, t, logged, h1) = >>=-eq-ok (log_pending layer (segment_swap old new)) _ s h in
      let (remaps, u, others, h2) = >>=-eq-ok (log_remaps layer fuel new entries) _ t h1 in
      let answered = ok-injective (ap (λ (q : Result Compaction × Inner). q.0) h2) in
      let (records, is, made) = stage_of-staged remaps _ answered in
      let cut = log_remaps-Carries fuel new entries t (others ∙ ap (λ m. (ok m, u)) is) in
      let swapped : Carries entries ((lsn, segment_swap old new) ∷ records) = record {
        fitting = cut.fitting;
        whole = cut.whole;
      } in
      subst (λ (c : CompactStage). Carries c.entries c.records) made swapped

  -- Where `compact_stage` returns a stage, every entry of the stage fits a remap record of its own,
  -- and the remap records of the stage hold all its entries in their order. So it returns no stage
  -- that keeps a value whose key is too long for a remap record.
  pub compact_stage-Carries :
      (fuel horizon : ℕ) (s s' : Inner) (stage : CompactStage)
      → compact_stage layer fuel horizon s ≡ (ok (staged stage), s')
      → Carries stage.entries stage.records
  unfolding compact_stage
  compact_stage-Carries fuel horizon s s' stage h =
      elim (Option-cases (choose s.sealed horizon s)) [
        | inl missing ↦ absurd (cc (rw (compact_stage, missing) at h))
        | inr (old, chosen) ↦
            let (handle, copied, done, logged) =
              compact_segment-eq-ok layer fuel old horizon s (rw (compact_stage, chosen) at h) in
            log_stage-Carries fuel old s.next_free_id _ copied.0 _ logged
      ]
