-- ===== src/Wal/Tests.antt =====
-- The log's theorems at concrete records, over the block layer of the source.
use shard_vault.Base.{
  ℕ, ◌+◌, ◌<◌, ◌≤◌, ◌≡◌, refl, List, [], ◌∷◌, ◌++◌, All, length, take, arith, false, is_utf8,
  le_bytes, ok, err, record_too_large, u64_mod,
}
use shard_vault.Block.Layer.{payload_max}
use shard_vault.Block.RoundTrip.{block_layer}
use shard_vault.Wal.Record.{Record, IsRecord, put, commit}
use shard_vault.Wal.Encode.{encode_fields, encode_record}
use shard_vault.Wal.Decode.{decode_record}
use shard_vault.Wal.RoundTrip.{decode_record-encode_record}
use shard_vault.Wal.Size.{record_size, encode_record_size}
use shard_vault.Wal.Log.{
  Wal, Entries, append_at, sync, scan, last_commit, last_lsn, replay_entries, replay_with_lsns,
  open_wal,
}
use shard_vault.Wal.Scan.{nil, scan_torn}
use shard_vault.Wal.Replay.{
  EndsInCommit, last, earlier, kept, high_water, Above, kept-append, open_wal-next_lsn-gt,
}
use shard_vault.Wal.Durable.{Holds, append_at-Holds, sync-Holds, scan_crash, crash_keeps_committed}
use shard_vault.Wal.Reopen.{open_wal-Holds, reopen_same}

-- `a/b`, five bytes.
abbrev put_record : Record
put_record = put (97 ∷ 47 ∷ 98 ∷ []) 5 1

abbrev put_bytes : List ℕ
put_bytes = 0 ∷ 1 ∷ 0 ∷ 0 ∷ 0 ∷ 0 ∷ 0 ∷ 0 ∷ 0 ∷ 5 ∷ 0 ∷ 0 ∷ 0 ∷ 3 ∷ 0 ∷ 97 ∷ 47 ∷ 98 ∷ []

encode_put_record : encode_record put_record ≡ ok put_bytes
unfolding encode_record encode_fields le_bytes
encode_put_record = refl

put_record-IsRecord : IsRecord put_record
unfolding is_utf8
put_record-IsRecord = (
  record { bytes = (omega arith, (omega arith, (omega arith, tt))); valid = refl },
  omega arith,
  omega arith,
)

decode_record-encode_record_example : decode_record (put_bytes ++ 7 ∷ []) ≡ ok put_record
decode_record-encode_record_example =
    decode_record-encode_record put_record put_bytes (7 ∷ []) put_record-IsRecord encode_put_record

encode_record_size_example :
    (record_size put_record ≤ payload_max
      → (v : List ℕ) × (encode_record put_record ≡ ok v) × (length v ≡ record_size put_record))
    × (payload_max < record_size put_record → encode_record put_record ≡ err record_too_large)
encode_record_size_example = encode_record_size put_record

abbrev empty_wal : Wal
empty_wal = record { file = []; buf = []; next_lsn = 1; dirty = false }

empty_wal-Holds : Holds block_layer [] [] empty_wal
empty_wal-Holds = record { file = nil; buf = nil; clean = λ _. refl }

append_at-Holds_example :
    (w : Wal) × (append_at block_layer put_record 1 empty_wal ≡ ok w)
    × Holds block_layer [] ((1, put_record) ∷ []) w
append_at-Holds_example =
    append_at-Holds block_layer 1 put_record empty_wal-Holds put_record-IsRecord (omega arith)
      (omega arith)

one_put :
    (w : Wal) × (append_at block_layer put_record 1 empty_wal ≡ ok w)
    × Holds block_layer [] ((1, put_record) ∷ []) w
one_put =
    append_at-Holds block_layer 1 put_record empty_wal-Holds put_record-IsRecord (omega arith)
      (omega arith)

-- A put and its commit, staged and then synced.
committed :
    (w : Wal) × (append_at block_layer (commit 1) 2 one_put.0 ≡ ok w)
    × Holds block_layer [] ((1, put_record) ∷ (2, commit 1) ∷ []) w
committed =
    append_at-Holds block_layer 2 (commit 1) one_put.2 (omega arith) (omega arith) (omega arith)

abbrev log : Entries
log = (1, put_record) ∷ (2, commit 1) ∷ []

sync-Holds_example : Holds block_layer log [] (sync committed.0)
sync-Holds_example = sync-Holds block_layer committed.2

durable : Holds block_layer log [] (sync committed.0)
durable = sync-Holds block_layer committed.2

-- A second put is staged and not synced.
staged :
    (w : Wal) × (append_at block_layer put_record 3 (sync committed.0) ≡ ok w)
    × Holds block_layer log ((3, put_record) ∷ []) w
staged =
    append_at-Holds block_layer 3 put_record durable put_record-IsRecord (omega arith) (omega arith)

log-EndsInCommit : EndsInCommit log
log-EndsInCommit = earlier (1, put_record) (last 2 1)

-- The staged put is torn, and only the committed records come back.
crash_keeps_committed_example :
    (replay_with_lsns block_layer (staged.0.file ++ take 100 staged.0.buf)).0 ≡ log ++ kept []
crash_keeps_committed_example =
    crash_keeps_committed block_layer staged.0 100 staged.2 log-EndsInCommit

scan_crash_example :
    scan block_layer (staged.0.file ++ take 5000 staged.0.buf) ≡ log ++ (3, put_record) ∷ []
scan_crash_example = scan_crash block_layer staged.0 5000 staged.2

kept-append_example : kept (log ++ (3, put_record) ∷ []) ≡ log ++ kept ((3, put_record) ∷ [])
kept-append_example = kept-append log ((3, put_record) ∷ []) log-EndsInCommit

scan_torn_example : scan block_layer (take 5000 (sync committed.0).file) ≡ (1, put_record) ∷ []
scan_torn_example = scan_torn block_layer 5000 durable.file

open_wal-Holds_example :
    Holds block_layer
      (kept ((1, put_record) ∷ []))
      []
      (open_wal block_layer (take 5000 (sync committed.0).file))
open_wal-Holds_example = open_wal-Holds block_layer 5000 durable.file

reopen_same_example :
    (replay_with_lsns block_layer (open_wal block_layer (take 9000 (sync committed.0).file)).file).0
    ≡ (replay_with_lsns block_layer (take 9000 (sync committed.0).file)).0
reopen_same_example = reopen_same block_layer 9000 durable.file

torn_rising : Above 0 (scan block_layer (take 5000 (sync committed.0).file))
torn_rising = rw (scan_torn_example) (omega arith, tt)

torn_high_water : high_water (scan block_layer (take 5000 (sync committed.0).file)) + 1 < u64_mod
unfolding replay_entries last_commit last_lsn
torn_high_water = rw (scan_torn_example) (omega arith)

-- The put is not committed, and its LSN is not given again.
open_wal-next_lsn-gt_example :
    All
      (λ e. e.0 < (open_wal block_layer (take 5000 (sync committed.0).file)).next_lsn)
      (scan block_layer (take 5000 (sync committed.0).file))
open_wal-next_lsn-gt_example =
    open_wal-next_lsn-gt block_layer (take 5000 (sync committed.0).file) torn_rising torn_high_water
