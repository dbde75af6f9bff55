-- ===== src/Wal/Durable.antt =====
-- The log across appends, syncs and crashes.
use shard_vault.Base.{
  ℕ, ◌/◌, ◌≤◌, ◌<◌, ◌≡◌, refl, sym, ap, ◌∙◌, max, List, [], ◌∷◌, ◌++◌, append-nil, take, arith,
  get_or, inl, inr, add64, true, false, Bool-cases, if◌then◌else◌, ok,
}
use mathlib.Core.Bool.{false≢true}
use shard_vault.Block.Layer.{BlockLayer, BlockResult, done, failed, block_size, payload_max}
use shard_vault.Wal.Record.{
  Record, IsRecord, IsU64, put, commit, segment_seal, agg_delta, segment_swap, segment_remap,
}
use shard_vault.Wal.Encode.{encode_record, encode_fields}
use shard_vault.Wal.Decode.{decode_record}
use shard_vault.Wal.Size.{record_size, encode_record_size}
use shard_vault.Wal.RoundTrip.{decode_record-encode_record}
use shard_vault.Wal.Log.{Wal, Entries, block_result, append_at, sync, scan, replay_with_lsns}
use shard_vault.Wal.Scan.{IsBlock, IsLog, nil, entry, IsLog-append, scan-IsLog, scan_torn}
use shard_vault.Wal.Replay.{EndsInCommit, kept, kept-append}

-- The first byte of an encoded record is its tag.
tag_small : (rec : Record) {v : List ℕ} → encode_record rec ≡ ok v → get_or v 0 0 < 256
unfolding encode_record encode_fields
tag_small (put key len stripe_id) h = ground arith
tag_small (commit lsn) h = ground arith
tag_small (segment_seal id next) h = ground arith
tag_small (agg_delta deltas) h = ground arith
tag_small (segment_swap old new) h = ground arith
tag_small (segment_remap new entries) h = ground arith

block_result_done : (r : BlockResult (List ℕ)) {b : List ℕ} → r ≡ done b → block_result r ≡ ok b
block_result_done (done b) e = cc
block_result_done (failed x) e = absurd (cc)

module _ (layer : BlockLayer) where
  -- The file holds the blocks of `durable`, the buffer those of `staged`.
  pub record Holds (durable staged : Entries) (w : Wal) : Type 0 where
    pub file : IsLog layer durable w.file
    pub buf : IsLog layer staged w.buf
    pub clean : w.dirty ≡ false → staged ≡ []

module _ (layer : BlockLayer) where
  -- A record that fits is encoded as one block, which reads back as that record.
  encoded-IsBlock :
      (lsn : ℕ) (rec : Record)
      → IsRecord rec
      → IsU64 lsn
      → record_size rec ≤ payload_max
      → (payload : List ℕ) × (blk : List ℕ) × (encode_record rec ≡ ok payload)
        × (block_result (layer.encode lsn payload (get_or payload 0 0)) ≡ ok blk)
        × IsBlock layer lsn rec blk
  encoded-IsBlock lsn rec typed small fits =
      let (payload, e, size) = (encode_record_size rec).0 fits in
      let (blk, b, whole) = layer.encode-fits lsn payload (get_or payload 0 0) (omega arith) in
      (
        payload,
        blk,
        e,
        block_result_done _ b,
        record {
          whole = whole;
          flags = get_or payload 0 0;
          payload = payload;
          block = layer.decode-encode lsn payload _ blk small (tag_small rec e) b;
          decoded =
              ap decode_record (sym (append-nil payload))
              ∙ decode_record-encode_record rec payload [] typed e;
        },
      )

  one_block :
      {lsn : ℕ} {rec : Record} {blk : List ℕ}
      → IsBlock layer lsn rec blk
      → IsLog layer ((lsn, rec) ∷ []) blk
  one_block {blk = blk} b = rw append-nil at (entry b nil)

  -- A record that fits a block and holds what its types hold is appended behind those that are staged,
  -- at any u64 LSN, and what is durable stays.
  pub append_at-Holds :
      {durable staged : Entries} (lsn : ℕ) (rec : Record) {w : Wal}
      → Holds layer durable staged w
      → IsRecord rec
      → IsU64 lsn
      → record_size rec ≤ payload_max
      → (w' : Wal) × (append_at layer rec lsn w ≡ ok w')
        × Holds layer durable (staged ++ (lsn, rec) ∷ []) w'
  unfolding append_at
  append_at-Holds lsn rec {w = w} h typed small fits =
      let (payload, blk, e, b, isblk) = encoded-IsBlock lsn rec typed small fits in
      (
        record {
          file = w.file;
          buf = w.buf ++ blk;
          next_lsn = max w.next_lsn (add64 lsn 1);
          dirty = true;
        },
        rw e (rw b),
        record {
          file = h.file;
          buf = IsLog-append layer h.buf (one_block isblk);
          clean = λ d. absurd (false≢true (sym d));
        },
      )

  -- `sync` makes all that is staged durable, in its order behind what was, and leaves nothing staged.
  pub sync-Holds :
      {durable staged : Entries} {w : Wal}
      → Holds layer durable staged w
      → Holds layer (durable ++ staged) [] (sync w)
  unfolding sync
  sync-Holds {durable} {staged} {w = w} h = elim (Bool-cases w.dirty) [
    | inl d ↦ rw d (record { file = IsLog-append layer h.file h.buf; buf = nil; clean = λ _. refl })
    | inr d ↦ unchanged d
  ]
    where
      unchanged :
          w.dirty ≡ false
          → Holds layer
              (durable ++ staged)
              []
              (if w.dirty then record w { file = w.file ++ w.buf; buf = []; dirty = false } else w)
      unchanged d = simp (d, h.clean d, append-nil) (simp (h.clean d) at h)

  -- After a crash that leaves any number of the buffer's bytes in the file, the scan finds all that was
  -- durable and, of the staged records, those whose blocks are whole.
  pub scan_crash :
      {durable staged : Entries} (w : Wal) (n : ℕ)
      → Holds layer durable staged w
      → scan layer (w.file ++ take n w.buf) ≡ durable ++ take (n / block_size) staged
  scan_crash {durable} w n h =
      scan-IsLog layer (take n w.buf) h.file ∙ ap (λ r. durable ++ r) (scan_torn layer n h.buf)

  -- If what is durable ends in a `Commit`, the replay after a crash that leaves any number of the
  -- buffer's bytes in the file keeps all of it in its order, and then what a replay keeps of the
  -- staged records whose blocks are whole.
  pub crash_keeps_committed :
      {durable staged : Entries} (w : Wal) (n : ℕ)
      → Holds layer durable staged w
      → EndsInCommit durable
      → (replay_with_lsns layer (w.file ++ take n w.buf)).0
        ≡ durable ++ kept (take (n / block_size) staged)
  unfolding replay_with_lsns
  crash_keeps_committed {durable} {staged} w n h c =
      rw (scan_crash w n h) (kept-append durable (take (n / block_size) staged) c)
