-- ===== src/Wal/Size.antt =====
-- How many bytes `encode_record` writes, and which records it refuses.
use shard_vault.Base.{
  ap, ℕ, suc, ◌+◌, ◌≤◌, ◌<◌, ◌≡◌, refl, ◌⊎◌, inl, inr, List, [], ◌∷◌, ◌++◌, length, length-append,
  length-le_bytes, le_bytes, arith, Result, ok, err, record_too_large, Bool-cases, ltb,
}
use shard_vault.Rollup.Entry.{AggDeltaEntry}
use shard_vault.Block.Layer.{payload_max}
use shard_vault.Wal.Record.{
  Record, RemapEntry, put, commit, segment_seal, agg_delta, segment_swap, segment_remap, tag_put,
  tag_commit, tag_seal, tag_agg, tag_swap, tag_remap,
}
use shard_vault.Wal.Encode.{
  delta_bytes, entry_bytes, encode_deltas, encode_entries, encode_fields, encode_record,
}

-- Each text takes its length and two bytes more; the numbers take their width.
abbrev pub deltas_size : List AggDeltaEntry → ℕ
deltas_size [] = 0
deltas_size (d ∷ ds) = 18 + length d.prefix + deltas_size ds

abbrev pub entries_size : List RemapEntry → ℕ
entries_size [] = 0
entries_size (e ∷ es) = 22 + length e.key + entries_size es

abbrev pub record_size : Record → ℕ
record_size (put key len stripe_id) = 15 + length key
record_size (commit lsn) = 9
record_size (segment_seal id next) = 17
record_size (agg_delta deltas) = 3 + deltas_size deltas
record_size (segment_swap old new) = 17
record_size (segment_remap new entries) = 11 + entries_size entries

-- Bytes of size `n`, or the refusal of a size that no u16 counts.
abbrev Sized : Result (List ℕ) → ℕ → Type 0
Sized r n =
    ((v : List ℕ) × (r ≡ ok v) × (length v ≡ n)) ⊎ ((r ≡ err record_too_large) × (65536 ≤ n))

length-delta_bytes : (k : ℕ) (d : AggDeltaEntry) → length (delta_bytes k d) ≡ 18 + length d.prefix
length-delta_bytes k d = simp (length-append, length-le_bytes) (omega arith)

length-entry_bytes : (k : ℕ) (e : RemapEntry) → length (entry_bytes k e) ≡ 22 + length e.key
length-entry_bytes k e = simp (length-append, length-le_bytes) (omega arith)

length-le-deltas_size : (ds : List AggDeltaEntry) → length ds ≤ deltas_size ds
length-le-deltas_size [] = omega arith
length-le-deltas_size (d ∷ ds) = omega (arith, length-le-deltas_size ds)

length-le-entries_size : (es : List RemapEntry) → length es ≤ entries_size es
length-le-entries_size [] = omega arith
length-le-entries_size (e ∷ es) = omega (arith, length-le-entries_size es)

encode_deltas-Sized : (ds : List AggDeltaEntry) → Sized (encode_deltas ds) (deltas_size ds)
unfolding encode_deltas
encode_deltas-Sized [] = inl ([], refl, refl)
encode_deltas-Sized (d ∷ ds) = elim (Bool-cases (ltb (length d.prefix) 65536)) [
  | inr long ↦ inr (rw long, ground arith)
  | inl short ↦ elim (encode_deltas-Sized ds) [
    | inl (w, ew, lw) ↦ inl (
      delta_bytes (length d.prefix) d ++ w,
      rw (short, ew),
      rw length-append (omega (arith, length-delta_bytes (length d.prefix) d)),
    )
    | inr (ew, big) ↦ inr (rw (short, ew), omega arith)
  ]
]

encode_entries-Sized : (es : List RemapEntry) → Sized (encode_entries es) (entries_size es)
unfolding encode_entries
encode_entries-Sized [] = inl ([], refl, refl)
encode_entries-Sized (x ∷ es) = elim (Bool-cases (ltb (length x.key) 65536)) [
  | inr long ↦ inr (rw long, ground arith)
  | inl short ↦ elim (encode_entries-Sized es) [
    | inl (w, ew, lw) ↦ inl (
      entry_bytes (length x.key) x ++ w,
      rw (short, ew),
      rw length-append (omega (arith, length-entry_bytes (length x.key) x)),
    )
    | inr (ew, big) ↦ inr (rw (short, ew), omega arith)
  ]
]

encode_fields-Sized : (rec : Record) → Sized (encode_fields rec) (record_size rec)
unfolding encode_fields
encode_fields-Sized (put key len stripe_id) = elim (Bool-cases (ltb (length key) 65536)) [
  | inr long ↦ inr (rw long, ground arith)
  | inl short ↦ inl (
    tag_put ∷ (le_bytes 8 stripe_id ++ (le_bytes 4 len ++ (le_bytes 2 (length key) ++ key))),
    rw short,
    simp (length-append, length-le_bytes) (omega arith),
  )
]
encode_fields-Sized (commit lsn) =
    inl (tag_commit ∷ le_bytes 8 lsn, refl, ap suc (length-le_bytes 8 lsn))
encode_fields-Sized (segment_seal id next) = inl (
  tag_seal ∷ (le_bytes 8 id ++ le_bytes 8 next),
  refl,
  simp (length-append, length-le_bytes) (omega arith),
)
encode_fields-Sized (agg_delta ds) = elim (Bool-cases (ltb (length ds) 65536)) [
  | inr long ↦ inr (rw long, ground (arith, length-le-deltas_size ds))
  | inl short ↦ elim (encode_deltas-Sized ds) [
    | inl (w, ew, lw) ↦ inl (
      tag_agg ∷ (le_bytes 2 (length ds) ++ w),
      rw (short, ew),
      simp (length-append, length-le_bytes) (omega arith),
    )
    | inr (ew, big) ↦ inr (rw (short, ew), omega arith)
  ]
]
encode_fields-Sized (segment_swap old new) = inl (
  tag_swap ∷ (le_bytes 8 old ++ le_bytes 8 new),
  refl,
  simp (length-append, length-le_bytes) (omega arith),
)
encode_fields-Sized (segment_remap new es) = elim (Bool-cases (ltb (length es) 65536)) [
  | inr long ↦ inr (rw long, ground (arith, length-le-entries_size es))
  | inl short ↦ elim (encode_entries-Sized es) [
    | inl (w, ew, lw) ↦ inl (
      tag_remap ∷ (le_bytes 8 new ++ (le_bytes 2 (length es) ++ w)),
      rw (short, ew),
      simp (length-append, length-le_bytes) (omega arith),
    )
    | inr (ew, big) ↦ inr (rw (short, ew), omega arith)
  ]
]

-- `encode_record` writes exactly `record_size` bytes where these fit a block's payload, and refuses
-- every other record as too large.
pub encode_record_size :
    (rec : Record)
    → (record_size rec ≤ payload_max
        → (v : List ℕ) × (encode_record rec ≡ ok v) × (length v ≡ record_size rec))
      × (payload_max < record_size rec → encode_record rec ≡ err record_too_large)
unfolding encode_record
encode_record_size rec = elim (encode_fields-Sized rec) [
  | inl (v, ev, lv) ↦ (λ fits. (v, rw ev (ground arith), lv), λ long. rw ev (ground arith))
  | inr (ev, big) ↦ (λ fits. absurd (omega arith), λ long. rw ev)
]
