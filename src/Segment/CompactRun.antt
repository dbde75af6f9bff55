-- ===== src/Segment/CompactRun.antt =====
-- What `compact_stage` answers and leaves, where it returns a stage.
use shard_vault.Base.{
  ℕ, zero, suc, ◌≡◌, refl, sym, ap, ◌∙◌, Bool, true, false, Option-cases, inl, inr, Option, none,
  some, List, [], ◌∷◌, insert, ℕ-Key, arith, add64, Result, StoreError, corrupt, segment_not_open,
  ok, if◌then◌else◌, ok-injective, Map,
}
use shard_vault.Block.Layer.{BlockLayer}
use shard_vault.Wal.Record.{Record, RemapEntry, segment_remap, segment_swap}
use shard_vault.Wal.Log.{Entries}
use shard_vault.Segment.State.{Inner, PutLoc, contains}
use shard_vault.Segment.Exec.{lift, pure, raise, >>=-eq-ok, wal_append}
use shard_vault.Segment.Chunks.{take_chunk, chunk_budget}
use shard_vault.Segment.Write.{content_of}
use shard_vault.Segment.Compact.{
  CompactStage, Compaction, staged, choose, kept_of, drop_in, copy_values, log_pending, log_remaps,
  log_stage, add_segment, compact_segment, compact_stage, stage_of,
}

-- What the records that compaction logs leave alone.
pub record SameMaps (s t : Inner) : Type 0 where
  pub index : t.index ≡ s.index
  pub put_locations : t.put_locations ≡ s.put_locations
  pub segments : t.segments ≡ s.segments
  pub contents : t.contents ≡ s.contents
  pub next_free_id : t.next_free_id ≡ s.next_free_id

pub SameMaps-refl : (s : Inner) → SameMaps s s
SameMaps-refl s = record {
  index = refl;
  put_locations = refl;
  segments = refl;
  contents = refl;
  next_free_id = refl;
}

pub SameMaps-trans : {s t u : Inner} → SameMaps s t → SameMaps t u → SameMaps s u
SameMaps-trans a b = record {
  index = b.index ∙ a.index;
  put_locations = b.put_locations ∙ a.put_locations;
  segments = b.segments ∙ a.segments;
  contents = b.contents ∙ a.contents;
  next_free_id = b.next_free_id ∙ a.next_free_id;
}

-- The stage of a segment `old`, whose kept values `bytes` are.
pub record StageOf (old horizon : ℕ) (s s' : Inner) (stage : CompactStage) (bytes : List ℕ)
    : Type 0 where
  pub handle : contains old s.segments ≡ true
  pub copied :
      copy_values (content_of old s.contents) (kept_of old horizon s) 0 []
      ≡ ok (stage.entries, bytes)
  pub old_id : stage.old_id ≡ old
  pub new_id : stage.new_id ≡ s.next_free_id
  pub dropped : stage.dropped ≡ (drop_in old (kept_of old horizon s) s.put_locations).0
  pub index : s'.index ≡ s.index
  pub put_locations : s'.put_locations ≡ s.put_locations
  pub segments : s'.segments ≡ s.segments
  pub contents : s'.contents ≡ insert s.next_free_id bytes s.contents
  pub next_free_id : s'.next_free_id ≡ add64 s.next_free_id 1
  pub pending : s'.pending ≡ true

-- What the answer of a compaction says.
record Answer (old new : ℕ) (keep copied : List RemapEntry) (puts : Map ℕ PutLoc)
    (stage : CompactStage) : Type 0 where
  pub old_id : stage.old_id ≡ old
  pub new_id : stage.new_id ≡ new
  pub entries : stage.entries ≡ copied
  pub dropped : stage.dropped ≡ (drop_in old keep puts).0

stage_of-eq-staged :
    (remaps : Option Entries) (make : Entries → CompactStage) {stage : CompactStage}
    → stage_of remaps make ≡ staged stage
    → (records : Entries) × (make records ≡ stage)
stage_of-eq-staged none make h = absurd (cc)
stage_of-eq-staged (some records) make h = (records, cc)

module _ (layer : BlockLayer) where
  log_pending-SameMaps :
      (rec : Record) (s : Inner) {lsn : ℕ} {s' : Inner}
      → log_pending layer rec s ≡ (ok lsn, s')
      → SameMaps s s' × (s'.pending ≡ true)
  unfolding log_pending wal_append
  log_pending-SameMaps rec s h = (
    record {
      index = ground arith;
      put_locations = ground arith;
      segments = ground arith;
      contents = ground arith;
      next_free_id = ground arith;
    },
    ground arith,
  )

  log_remaps-SameMaps :
      (fuel new : ℕ) (es : List RemapEntry) (s : Inner) {records : Option Entries} {s' : Inner}
      → s.pending ≡ true
      → log_remaps layer fuel new es s ≡ (ok records, s')
      → SameMaps s s' × (s'.pending ≡ true)
  unfolding log_remaps
  log_remaps-SameMaps fuel new [] s {s' = s'} p h =
      let same : s ≡ s' = ap (λ (q : Result (Option Entries) × Inner). q.1) h in
      rw (← same) (SameMaps-refl s, p)
  log_remaps-SameMaps zero new (e ∷ es) s {s' = s'} p h =
      let same : s ≡ s' = ap (λ (q : Result (Option Entries) × Inner). q.1) h in
      rw (← same) (SameMaps-refl s, p)
  log_remaps-SameMaps (suc fuel) new (e ∷ es) s {s' = s'} p h =
      let (chunk, rest) = take_chunk chunk_budget (e ∷ es) in
      let (lsn, t, logged, h1) = >>=-eq-ok (log_pending layer (segment_remap new chunk)) _ s h in
      let (more, u, others, h2) = >>=-eq-ok (log_remaps layer fuel new rest) _ t h1 in
      let same : u ≡ s' = ap (λ (q : Result (Option Entries) × Inner). q.1) h2 in
      let (first, pending) = log_pending-SameMaps (segment_remap new chunk) s logged in
      let (later, still) = log_remaps-SameMaps fuel new rest t pending others in
      rw (← same) (SameMaps-trans first later, still)

  log_stage-SameMaps :
      (fuel old new : ℕ) (keep entries : List RemapEntry) (s : Inner) {stage : CompactStage}
      {s' : Inner}
      → log_stage layer fuel old new keep entries s ≡ (ok (staged stage), s')
      → SameMaps s s' × (s'.pending ≡ true) × Answer old new keep entries s.put_locations stage
  unfolding log_stage
  log_stage-SameMaps fuel old new keep entries s {stage} {s'} h =
      let (lsn, t, logged, h1) = >>=-eq-ok (log_pending layer (segment_swap old new)) _ s h in
      let (remaps, u, others, h2) = >>=-eq-ok (log_remaps layer fuel new entries) _ t h1 in
      let same : u ≡ s' = ap (λ (q : Result Compaction × Inner). q.1) h2 in
      let (first, pending) = log_pending-SameMaps (segment_swap old new) s logged in
      let (later, still) = log_remaps-SameMaps fuel new entries t pending others in
      let answered = ok-injective (ap (λ (q : Result Compaction × Inner). q.0) h2) in
      let (records, made) = stage_of-eq-staged remaps _ answered in
      let put_back : SameMaps s s' = rw (← same) (SameMaps-trans first later) in
      (
        put_back,
        rw (← same) still,
        rw (← made) (record { old_id = refl; new_id = refl; entries = refl; dropped = refl }),
      )

  guard-eq-ok :
      (held : Bool) (x : StoreError) (s : Inner) {u : Inner} {a : Unit {0}}
      → (if held then pure tt else raise x) s ≡ (ok a, u)
      → (held ≡ true) × (s ≡ u)
  guard-eq-ok true x s h = (refl, ap (λ (q : Result (Unit {0}) × Inner). q.1) h)
  guard-eq-ok false x s h = absurd (cc)

  lift-eq-ok :
      {A : Type 0} (r : Result A) (s : Inner) {u : Inner} {a : A}
      → lift r s ≡ (ok a, u)
      → (r ≡ ok a) × (s ≡ u)
  lift-eq-ok {A} r s h =
      (ap (λ (q : Result A × Inner). q.0) h, ap (λ (q : Result A × Inner). q.1) h)

  -- The state in which the copies start.
  abbrev pub numbered : Inner → Inner
  numbered s = record s { next_free_id = add64 s.next_free_id 1 }

  pub compact_segment-eq-ok :
      (fuel old horizon : ℕ) (s : Inner) {answer : Compaction} {s' : Inner}
      → compact_segment layer fuel old horizon s ≡ (ok answer, s')
      → (contains old s.segments ≡ true)
        × (copied : List RemapEntry × List ℕ) × (copy_values
              (content_of old s.contents)
              (kept_of old horizon s)
              0
              []
            ≡ ok copied)
        × (log_stage layer fuel old s.next_free_id
              (kept_of old horizon s)
              copied.0
              (add_segment s.next_free_id copied.1 (numbered s))
            ≡ (ok answer, s'))
  unfolding compact_segment
  compact_segment-eq-ok fuel old horizon s h =
      let held = contains old s.segments in
      let missing = corrupt segment_not_open in
      let (a, u, guarded, h1) =
        >>=-eq-ok (if held then pure tt else raise missing) _ (numbered s) h in
      let (handle, start) = guard-eq-ok held missing (numbered s) guarded in
      let copy = copy_values (content_of old u.contents) (kept_of old horizon s) 0 [] in
      let (copied, v, wrote, h2) = >>=-eq-ok (lift copy) _ u h1 in
      let (done, next) = lift-eq-ok copy u wrote in
      (
        handle,
        copied,
        ap (λ (w : Inner). copy_values (content_of old w.contents) (kept_of old horizon s) 0 [])
              start
            ∙ done,
        ap
              (λ w.
                log_stage layer fuel old s.next_free_id (kept_of old horizon s) copied.0
                  (add_segment s.next_free_id copied.1 w))
              (start ∙ next)
            ∙ h2,
      )

  compact_segment-StageOf :
      (fuel old horizon : ℕ) (s : Inner) {stage : CompactStage} {s' : Inner}
      → compact_segment layer fuel old horizon s ≡ (ok (staged stage), s')
      → (bytes : List ℕ) × StageOf old horizon s s' stage bytes
  unfolding add_segment
  compact_segment-StageOf fuel old horizon s h =
      let (held, copied, done, logged) = compact_segment-eq-ok fuel old horizon s h in
      let (kept, pending, answer) =
        log_stage-SameMaps fuel old s.next_free_id (kept_of old horizon s) copied.0
          (add_segment s.next_free_id copied.1 (numbered s)) logged in
      (
        copied.1,
        record {
          handle = held;
          copied = done ∙ ap (λ es. ok (es, copied.1)) (sym answer.entries);
          old_id = answer.old_id;
          new_id = answer.new_id;
          dropped = answer.dropped;
          index = kept.index;
          put_locations = kept.put_locations;
          segments = kept.segments;
          contents = kept.contents;
          next_free_id = kept.next_free_id;
          pending = pending;
        },
      )

  pub compact_stage-StageOf :
      (fuel horizon : ℕ) (s : Inner) {stage : CompactStage} {s' : Inner}
      → compact_stage layer fuel horizon s ≡ (ok (staged stage), s')
      → (old : ℕ) × (bytes : List ℕ) × StageOf old horizon s s' stage bytes
  unfolding compact_stage
  compact_stage-StageOf fuel horizon s h = elim (Option-cases (choose s.sealed horizon s)) [
    | inl missing ↦ absurd (cc (rw (compact_stage, missing) at h))
    | inr (old, chosen) ↦
        let (bytes, stage_of) =
          compact_segment-StageOf fuel old horizon s (rw (compact_stage, chosen) at h) in
        (old, bytes, stage_of)
  ]
