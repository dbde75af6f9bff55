-- ===== src/Wal/Replay.antt =====
-- Which records `Wal::replay_with_lsns` keeps, and the LSN from which `Wal::open` goes on.
use shard_vault.Base.{
  ℕ, suc, ◌+◌, ◌≤◌, ◌<◌, ◌≡◌, refl, ap, ◌∙◌, List, [], All-imp, ◌∷◌, ◌++◌, All, append-nil, length,
  take, take-append_ge, take-append_length, arith, Option, some, none, Option-cases, inl, inr, ◌⊎◌,
  u64_mod,
}
use shard_vault.Block.Layer.{BlockLayer}
use shard_vault.Wal.Record.{Record, commit}
use shard_vault.Wal.Log.{
  Entries, last_commit, last_lsn, replay_entries, replay_with_lsns, replay, open_wal, scan,
}

-- The records that a replay keeps, and its high-water mark.
abbrev pub kept : Entries → Entries
kept records = (replay_entries records).0

abbrev pub high_water : Entries → ℕ
high_water records = (replay_entries records).1

-- The last record is a `Commit`.
pub data EndsInCommit : Entries → Type 0 where
  last : (lsn committed : ℕ) → EndsInCommit ((lsn, commit committed) ∷ [])
  earlier : {log : Entries} (e : ℕ × Record) → EndsInCommit log → EndsInCommit (e ∷ log)

abbrev shift : ℕ → Option (ℕ × ℕ) → Option (ℕ × ℕ) → Option (ℕ × ℕ)
shift n (some (keep, committed)) before = some (n + keep, committed)
shift n none before = before

last_commit-append :
    (log more : Entries)
    → last_commit (log ++ more) ≡ shift (length log) (last_commit more) (last_commit log)
unfolding last_commit
last_commit-append [] more = elim (Option-cases (last_commit more)) [
  | inl e ↦ rw e
  | inr ((keep, c), e) ↦ rw (e, shift) (ap (λ (k : ℕ). some (k, c)) (omega arith))
]
last_commit-append ((lsn, rec) ∷ log) more = elim (Option-cases (last_commit more)) [
  | inl e ↦ rw (last_commit-append log more, e)
  | inr ((keep, c), e) ↦
      rw (last_commit-append log more, e, shift) (ap (λ (k : ℕ). some (k, c)) (omega arith))
]

EndsInCommit-last_commit :
    {log : Entries} → EndsInCommit log → (c : ℕ) × (last_commit log ≡ some (length log, c))
unfolding last_commit
EndsInCommit-last_commit (last lsn c) = (c, refl)
EndsInCommit-last_commit (earlier (lsn, rec) h) =
    let (c, e) = EndsInCommit-last_commit h in (c, rw e)

pub kept-some :
    (log : Entries) {keep c : ℕ} → last_commit log ≡ some (keep, c) → kept log ≡ take keep log
unfolding replay_entries
kept-some log e = rw (e, kept)

pub kept-none : (log : Entries) → last_commit log ≡ none → kept log ≡ []
unfolding replay_entries
kept-none log e = rw (e, kept)

-- Of a log that ends in a `Commit` and of more records behind it, a replay keeps the whole log and
-- what it keeps of the other records.
pub kept-append : (log more : Entries) → EndsInCommit log → kept (log ++ more) ≡ log ++ kept more
kept-append log more h = elim (Option-cases (last_commit more)) [
  | inl e ↦
      let (c, whole) = EndsInCommit-last_commit h in
      rw (kept-none more e, append-nil)
        (kept-some (log ++ more) {c = c} (last_commit-append log more ∙ rw (e, whole))
          ∙ take-append_length log more)
  | inr ((keep, c), e) ↦ rw (kept-some more e) (
      kept-some (log ++ more) {c = c} (last_commit-append log more ∙ rw e)
      ∙ take-append_ge log more (length log + keep) (omega arith)
      ∙ ap (λ k. log ++ take k more) (omega arith))
]

last_is_commit :
    (lsn : ℕ) (rec : Record) (log : Entries) {keep c : ℕ}
    → last_commit log ≡ none
    → last_commit ((lsn, rec) ∷ log) ≡ some (keep, c)
    → EndsInCommit (take keep ((lsn, rec) ∷ log))
unfolding last_commit
last_is_commit lsn (commit c') log {keep = keep} e h =
    let one : keep ≡ 1 = ground arith in rw one (last lsn c')
last_is_commit lsn _ log e h = absurd (ground arith)

later_keep :
    (lsn : ℕ) (rec : Record) (log : Entries) {k c keep c' : ℕ}
    → last_commit log ≡ some (k, c)
    → last_commit ((lsn, rec) ∷ log) ≡ some (keep, c')
    → keep ≡ suc k
unfolding last_commit
later_keep lsn rec log e h = ground arith

take-EndsInCommit :
    (log : Entries) {keep c : ℕ} → last_commit log ≡ some (keep, c) → EndsInCommit (take keep log)
take-EndsInCommit [] h = absurd (unfold last_commit in cc)
take-EndsInCommit ((lsn, rec) ∷ log) {keep = keep} h = elim (Option-cases (last_commit log)) [
  | inl e ↦ last_is_commit lsn rec log e h
  | inr ((k, c'), e) ↦
      let next : keep ≡ suc k = later_keep lsn rec log e h in
      rw next (earlier (lsn, rec) (take-EndsInCommit log e))
]

-- Only records up to a `Commit` are kept.
pub kept-EndsInCommit : (log : Entries) → (kept log ≡ []) ⊎ EndsInCommit (kept log)
kept-EndsInCommit log = elim (Option-cases (last_commit log)) [
  | inl e ↦ inl (kept-none log e)
  | inr ((keep, c), e) ↦ inr (rw (kept-some log e) (take-EndsInCommit log e))
]

-- LSNs that rise from each record to the next.
abbrev pub Above : ℕ → Entries → Type 0
Above n [] = Unit {0}
Above n ((lsn, rec) ∷ log) = (n ≤ lsn) × Above (suc lsn) log

last_lsn-ge : (n : ℕ) (log : Entries) → Above n log → All (λ e. e.0 ≤ last_lsn log) log
unfolding last_lsn
last_lsn-ge n [] h = tt
last_lsn-ge n ((lsn, rec) ∷ []) h = (omega arith, tt)
last_lsn-ge n ((lsn, rec) ∷ ((lsn', rec') ∷ log)) (h, rest) =
    let (first, others) = last_lsn-ge (suc lsn) ((lsn', rec') ∷ log) rest in
    (omega arith, (first, others))

last_lsn-le-high_water : (log : Entries) → last_lsn log ≤ high_water log
unfolding replay_entries
last_lsn-le-high_water log = ground arith

-- If the LSNs on the disk rise and the high-water mark is below 2 ^ 64 - 1, `Wal::open` goes on above
-- every LSN on the disk, those of the records that it discards included.
pub open_wal-next_lsn-gt :
    (layer : BlockLayer) (file : List ℕ)
    → Above 0 (scan layer file)
    → high_water (scan layer file) + 1 < u64_mod
    → All (λ e. e.0 < (open_wal layer file).next_lsn) (scan layer file)
unfolding open_wal replay replay_with_lsns
open_wal-next_lsn-gt layer file rising fits =
    All-imp (λ e. e.0 ≤ last_lsn (scan layer file)) _
      (λ e le. omega (arith, last_lsn-le-high_water (scan layer file))) (scan layer file)
      (last_lsn-ge 0 (scan layer file) rising)
