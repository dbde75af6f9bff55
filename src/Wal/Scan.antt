-- ===== src/Wal/Scan.antt =====
-- What `Wal::scan` finds in a file of encoded records, whole or torn.
use shard_vault.Base.{
  ℕ, zero, suc, ◌-◌, ◌/◌, ◌≤◌, ◌<◌, ◌≡◌, refl, sym, ap, ◌∙◌, List, [], ◌∷◌, ◌++◌, append_assoc,
  length, take, drop, length-append, length-take_le, length-drop, take-append_ge, take_all,
  take-append_length, drop-append_length, arith, Bool-cases, ltb, if◌then◌else◌, some, false, inl,
  inr, ok,
}
use shard_vault.Block.Layer.{BlockLayer, done, block_size}
use shard_vault.Wal.Record.{Record}
use shard_vault.Wal.Decode.{decode_record}
use shard_vault.Wal.Log.{Entries, push_or_break, read_block, scan_loop, scan}

module _ (layer : BlockLayer) where
  -- The block of one record at an LSN.
  pub record IsBlock (lsn : ℕ) (rec : Record) (blk : List ℕ) : Type 0 where
    pub whole : length blk ≡ block_size
    pub flags : ℕ
    pub payload : List ℕ
    pub block : layer.decode blk ≡ done (record { lsn = lsn; flags = flags; payload = payload })
    pub decoded : decode_record payload ≡ ok rec

  -- The bytes of a file that holds these records, one block each.
  pub data IsLog : Entries → List ℕ → Type 0 where
    nil : IsLog [] []
    entry :
        {lsn : ℕ} {rec : Record} {blk bs : List ℕ} {log : Entries}
        → IsBlock lsn rec blk
        → IsLog log bs
        → IsLog ((lsn, rec) ∷ log) (blk ++ bs)

module _ (layer : BlockLayer) where
  pub IsLog-append :
      {a b : Entries} {bs cs : List ℕ}
      → IsLog layer a bs
      → IsLog layer b cs
      → IsLog layer (a ++ b) (bs ++ cs)
  IsLog-append nil k = k
  IsLog-append {cs = cs} (entry {blk = blk} {bs = bs} e h) k =
      rw append_assoc (entry e (IsLog-append h k))

  scan_loop-suc :
      (fuel : ℕ) (bytes : List ℕ)
      → scan_loop layer (suc fuel) bytes ≡ (
          if ltb (length bytes) block_size
          then []
          else push_or_break
              (read_block layer (take block_size bytes))
              (scan_loop layer fuel (drop block_size bytes)))
  unfolding scan_loop
  scan_loop-suc fuel bytes = refl

  scan_loop-short :
      (fuel : ℕ) (bytes : List ℕ) → length bytes < block_size → scan_loop layer fuel bytes ≡ []
  unfolding scan_loop
  scan_loop-short zero bytes h = refl
  scan_loop-short (suc fuel) bytes h = ground arith

  both_short :
      (f g : ℕ) (bytes : List ℕ)
      → length bytes < block_size
      → scan_loop layer f bytes ≡ scan_loop layer g bytes
  both_short f g bytes h = scan_loop-short f bytes h ∙ sym (scan_loop-short g bytes h)

  -- Enough fuel is as good as any.
  scan_loop_fuel :
      (f g : ℕ) (bytes : List ℕ)
      → length bytes ≤ f
      → length bytes ≤ g
      → scan_loop layer f bytes ≡ scan_loop layer g bytes
  scan_loop_fuel zero g bytes hf hg = both_short zero g bytes (omega arith)
  scan_loop_fuel (suc f) zero bytes hf hg = both_short (suc f) zero bytes (omega arith)
  scan_loop_fuel (suc f) (suc g) bytes hf hg = ground (
    arith,
    scan_loop-suc f bytes,
    scan_loop-suc g bytes,
    length-drop block_size bytes,
    scan_loop_fuel f g (drop block_size bytes),
  )

  read_block-IsBlock :
      {lsn : ℕ} {rec : Record} {blk : List ℕ}
      → IsBlock layer lsn rec blk
      → read_block layer blk ≡ some (lsn, rec)
  unfolding read_block
  read_block-IsBlock e = rw (e.block, read_block) (rw e.decoded)

  take-block : (blk bs : List ℕ) → length blk ≡ block_size → take block_size (blk ++ bs) ≡ blk
  take-block blk bs h = rw (← h) (take-append_length blk bs)

  drop-block : (blk bs : List ℕ) → length blk ≡ block_size → drop block_size (blk ++ bs) ≡ bs
  drop-block blk bs h = rw (← h) (drop-append_length blk bs)

  not_short : (n : ℕ) → block_size ≤ n → ltb n block_size ≡ false
  not_short n h = ground arith

  scan_loop-entry :
      {lsn : ℕ} {rec : Record} {blk : List ℕ} (fuel : ℕ) (bs : List ℕ)
      → IsBlock layer lsn rec blk
      → scan_loop layer (suc fuel) (blk ++ bs) ≡ (lsn, rec) ∷ scan_loop layer fuel bs
  scan_loop-entry {blk = blk} fuel bs e =
      let long : ltb (length (blk ++ bs)) block_size ≡ false =
        not_short (length (blk ++ bs)) (omega (arith, length-append blk bs, e.whole)) in
      scan_loop-suc fuel (blk ++ bs)
      ∙ rw (long, take-block blk bs e.whole, drop-block blk bs e.whole, read_block-IsBlock e)

  scan_fuel :
      (fuel : ℕ) (bytes : List ℕ)
      → length bytes ≤ fuel
      → scan_loop layer fuel bytes ≡ scan layer bytes
  unfolding scan
  scan_fuel fuel bytes h = scan_loop_fuel fuel (length bytes) bytes h (omega arith)

  scan-entry :
      {lsn : ℕ} {rec : Record} {blk : List ℕ} (bs : List ℕ)
      → IsBlock layer lsn rec blk
      → scan layer (blk ++ bs) ≡ (lsn, rec) ∷ scan layer bs
  scan-entry {lsn} {rec} {blk = blk} bs e =
      sym (scan_fuel (suc (length (blk ++ bs))) (blk ++ bs) (omega arith))
      ∙ scan_loop-entry (length (blk ++ bs)) bs e
      ∙ ap (λ r. (lsn, rec) ∷ r)
          (scan_fuel (length (blk ++ bs)) bs (omega (arith, length-append blk bs)))

  -- Of the blocks of a log with any bytes behind them, the scan reads the log's records in order, and
  -- then what it reads of these bytes.
  pub scan-IsLog :
      {log : Entries} {bs : List ℕ} (junk : List ℕ)
      → IsLog layer log bs
      → scan layer (bs ++ junk) ≡ log ++ scan layer junk
  scan-IsLog junk nil = refl
  scan-IsLog junk (entry {lsn = lsn} {rec = rec} {blk = blk} {bs = bs} e h) =
      rw append_assoc (scan-entry (bs ++ junk) e ∙ ap (λ r. (lsn, rec) ∷ r) (scan-IsLog junk h))

  pub scan-short : (bytes : List ℕ) → length bytes < block_size → scan layer bytes ≡ []
  unfolding scan
  scan-short bytes h = scan_loop-short (length bytes) bytes h

  scan_torn_short :
      (n : ℕ) (bs : List ℕ) (log : Entries)
      → n < block_size
      → scan layer (take n bs) ≡ take (n / block_size) log
  scan_torn_short n bs log h =
      let none_whole : n / block_size ≡ 0 = omega arith in
      rw none_whole (scan-short (take n bs) (omega (arith, length-take_le n bs)))

  -- Of a log that is cut at any byte, the scan reads the records of the blocks that are whole.
  pub scan_torn :
      {log : Entries} {bs : List ℕ} (n : ℕ)
      → IsLog layer log bs
      → scan layer (take n bs) ≡ take (n / block_size) log
  scan_torn zero nil = scan_torn_short 0 [] [] (omega arith)
  scan_torn (suc n) nil =
      scan-short [] (omega arith) ∙ sym (take_all (suc n / block_size) [] (omega arith))
  scan_torn n (entry {lsn = lsn} {rec = rec} {blk = blk} {bs = bs} {log = log} e h) =
      elim (Bool-cases (ltb n block_size)) [
        | inl short ↦ scan_torn_short n (blk ++ bs) ((lsn, rec) ∷ log) (ground arith)
        | inr long ↦
            let room : block_size ≤ n = ground arith in
            let more : n / block_size ≡ suc ((n - block_size) / block_size) = omega arith in
            let cut : n - length blk ≡ n - block_size = ap (λ k. n - k) e.whole in
            rw (take-append_ge blk bs n (omega (arith, e.whole)), cut, more)
              (scan-entry (take (n - block_size) bs) e
                ∙ ap (λ r. (lsn, rec) ∷ r) (scan_torn (n - block_size) h))
      ]
