-- ===== src/Wal/Reopen.antt =====
-- `Wal::open` after a crash: the file is cut after the last `Commit`, and stays a log.
use shard_vault.Base.{
  ℕ, zero, suc, ◌-◌, ◌*◌, ◌/◌, ◌≤◌, ◌≡◌, refl, sym, ap, ◌∙◌, List, [], ◌++◌, length, take,
  take-append_ge, take-take, take_all, length-map, length-take_le_length, take-length-take,
  length-take_le, Option-cases, inl, inr, arith, append-nil,
}
use shard_vault.Block.Layer.{BlockLayer, block_size}
use shard_vault.Wal.Record.{Record}
use shard_vault.Wal.Log.{Entries, last_commit, scan, replay_with_lsns, replay, open_wal}
use shard_vault.Wal.Scan.{IsLog, nil, entry, scan-IsLog, scan_torn, scan-short}
use shard_vault.Wal.Replay.{kept, kept-some, kept-none, kept-append, kept-EndsInCommit}
use shard_vault.Wal.Durable.{Holds}

take-length-kept : (log : Entries) → take (length (kept log)) log ≡ kept log
take-length-kept log = elim (Option-cases (last_commit log)) [
  | inl e ↦ rw (kept-none log e)
  | inr ((keep, c), e) ↦ rw (kept-some log e) (take-length-take keep log)
]

length-kept-le : (n : ℕ) (log : Entries) → length (kept (take n log)) ≤ n
length-kept-le n log = elim (Option-cases (last_commit (take n log))) [
  | inl e ↦ rw (kept-none (take n log) e) (omega arith)
  | inr ((keep, c), e) ↦
      rw (kept-some (take n log) e)
        (omega (arith, length-take_le_length keep (take n log), length-take_le n log))
]

-- A second replay keeps all that a first one kept.
pub kept-kept : (log : Entries) → kept (kept log) ≡ kept log
kept-kept log = elim (kept-EndsInCommit log) [
  | inl e ↦ rw (ap kept e, e) (kept-none [] (unfold last_commit in refl))
  | inr c ↦
      ap kept (sym (append-nil (kept log)))
      ∙ kept-append (kept log) [] c
      ∙ rw (kept-none [] (unfold last_commit in refl)) (append-nil (kept log))
]

module _ (layer : BlockLayer) where
  IsLog-take :
      {log : Entries} {bs : List ℕ} (n : ℕ)
      → IsLog layer log bs
      → IsLog layer (take n log) (take (n * block_size) bs)
  IsLog-take zero h = nil
  IsLog-take (suc n) nil = rw (take_all {A = ℕ} (suc n * block_size) [] (omega arith)) nil
  IsLog-take (suc n) (entry {blk = blk} {bs = bs} e h) =
      let cut : suc n * block_size - length blk ≡ n * block_size = omega (arith, e.whole) in
      rw (take-append_ge blk bs (suc n * block_size) (omega (arith, e.whole)), cut)
        (entry e (IsLog-take n h))

  pub scan_whole : {log : Entries} {bs : List ℕ} → IsLog layer log bs → scan layer bs ≡ log
  scan_whole {log} {bs} h =
      ap (scan layer) (sym (append-nil bs))
      ∙ scan-IsLog layer [] h
      ∙ ap (λ r. log ++ r) (scan-short layer [] (omega arith))
      ∙ append-nil log

  -- A log that is cut at any byte is opened as a log whose file holds the records that the replay
  -- keeps of its whole blocks, with nothing staged.
  pub open_wal-Holds :
      {log : Entries} {bs : List ℕ} (n : ℕ)
      → IsLog layer log bs
      → Holds layer (kept (take (n / block_size) log)) [] (open_wal layer (take n bs))
  unfolding open_wal replay replay_with_lsns
  open_wal-Holds {log} {bs} n h = record {
    file =
        let q = n / block_size in
        let count = length (kept (take q log)) in
        let whole : take count log ≡ kept (take q log) =
          sym (take-take count q log (length-kept-le q log)) ∙ take-length-kept (take q log) in
        rw (scan_torn layer n h, length-map (λ (e : ℕ × Record). e.1) (kept (take q log)))
          (rw (take-take (count * block_size) n bs (omega (arith, length-kept-le q log)))
            (rw whole at (IsLog-take count h)));
    buf = nil;
    clean = λ _. refl;
  }

  -- For a log that is cut at any byte, a replay of the file that `Wal::open` leaves gives the records
  -- that the replay of the cut file gives.
  pub reopen_same :
      {log : Entries} {bs : List ℕ} (n : ℕ)
      → IsLog layer log bs
      → (replay_with_lsns layer (open_wal layer (take n bs)).file).0
        ≡ (replay_with_lsns layer (take n bs)).0
  unfolding replay_with_lsns
  reopen_same {log} {bs} n h =
      let recs = take (n / block_size) log in
      let kept_file = scan_whole (open_wal-Holds n h).file in
      ap kept kept_file ∙ kept-kept recs ∙ ap kept (sym (scan_torn layer n h))
