-- ===== src/Wal/Log.antt =====
-- `Wal` of crates/shardvault-core/src/wal.rs over a block layer. `file` is the content of `wal.log`;
-- the operating system's calls succeed.
use shard_vault.Base.{
  ◌+◌, ℕ, zero, suc, ◌*◌, max, Bool, true, false, Option, none, some, List, [], ◌∷◌, ◌++◌, length,
  take, drop, get_or, map, ltb, if◌then◌else◌, add64, Result, ok, err, corrupt, block_encode_failed,
  record_too_large, ◌>>=◌,
}
use shard_vault.Block.Layer.{
  other, BlockLayer, BlockResult, done, failed, invalid, crc, len, block_size,
}
use shard_vault.Wal.Record.{Record, commit}
use shard_vault.Wal.Encode.{encode_record}
use shard_vault.Wal.Decode.{decode_record}

pub record Wal : Type 0 where
  pub file : List ℕ
  pub buf : List ℕ
  pub next_lsn : ℕ
  pub dirty : Bool

abbrev pub Entries : Type 0
Entries = List (ℕ × Record)

-- The `match` on `block::encode` in `append_at`.
abbrev pub block_result : BlockResult (List ℕ) → Result (List ℕ)
block_result (done b) = ok b
block_result (failed len) = err record_too_large
block_result (failed invalid) = err (corrupt (block_encode_failed 1))
block_result (failed crc) = err (corrupt (block_encode_failed 2))
block_result (failed (other code)) = err (corrupt (block_encode_failed (3 + code)))

-- A record goes before those of the later rounds; without one the loop breaks.
abbrev pub push_or_break : Option (ℕ × Record) → Entries → Entries
push_or_break none rest = []
push_or_break (some e) rest = e ∷ rest

module _ (layer : BlockLayer) where
  unfoldable pub append_at : Record → ℕ → Wal → Result Wal
  append_at rec lsn w = do
    payload ← encode_record rec
    encoded ← block_result (layer.encode lsn payload (get_or payload 0 0))
    ok (record w { buf = w.buf ++ encoded; next_lsn = max w.next_lsn (add64 lsn 1); dirty = true })

  unfoldable pub append : Record → Wal → Result (ℕ × Wal)
  append rec w = do w' ← append_at rec w.next_lsn w; ok (w.next_lsn, w')

  -- The record of one whole block, or `none` where `block::decode` or `decode_record` fails.
  unfoldable pub read_block : List ℕ → Option (ℕ × Record)
  read_block block = elim (layer.decode block) [
    | failed e ↦ none
    | done decoded ↦ elim (decode_record decoded.payload) [
      | ok rec ↦ some (decoded.lsn, rec)
      | err e ↦ none
    ]
  ]

  -- The loop of `Wal::scan` over the bytes of the file. A block that is short, torn or does not
  -- decode ends it.
  unfoldable pub scan_loop : ℕ → List ℕ → Entries
  scan_loop zero bytes = []
  scan_loop (suc fuel) bytes =
      let rest = scan_loop fuel (drop block_size bytes) in
      if ltb (length bytes) block_size
      then []
      else push_or_break (read_block (take block_size bytes)) rest

  -- A round takes a whole block, so a round for each byte is enough.
  unfoldable pub scan : List ℕ → Entries
  scan file = scan_loop (length file) file

unfoldable pub sync : Wal → Wal
sync w = if w.dirty then record w { file = w.file ++ w.buf; buf = []; dirty = false } else w

-- How many records stand up to the last `Commit`, and the LSN that it names.
unfoldable pub last_commit : Entries → Option (ℕ × ℕ)
last_commit [] = none
last_commit ((lsn, rec) ∷ rest) = elim (last_commit rest) [
  | some (keep, committed) ↦ some (suc keep, committed)
  | none ↦ elim rec [ commit committed ↦ some (1, committed) | _ ↦ none ]
]

-- `records.last().map(|(lsn, _)| *lsn).unwrap_or(0)`
unfoldable pub last_lsn : Entries → ℕ
last_lsn [] = 0
last_lsn ((lsn, rec) ∷ []) = lsn
last_lsn (x ∷ (y ∷ rest)) = last_lsn (y ∷ rest)

unfoldable pub replay_entries : Entries → Entries × ℕ
replay_entries records = elim (last_commit records) [
  | none ↦ ([], max 0 (last_lsn records))
  | some (keep, committed) ↦ (take keep records, max committed (last_lsn records))
]

module _ (layer : BlockLayer) where
  unfoldable pub replay_with_lsns : List ℕ → Entries × ℕ
  replay_with_lsns file = replay_entries (scan layer file)

  unfoldable pub replay : List ℕ → List Record × ℕ
  replay file =
      let (records, high_water) = replay_with_lsns file in (map (λ e. e.1) records, high_water)

  unfoldable pub open_wal : List ℕ → Wal
  open_wal file =
      let (records, high_water) = replay file in
      record {
        file = take (length records * block_size) file;
        buf = [];
        next_lsn = add64 high_water 1;
        dirty = false;
      }
