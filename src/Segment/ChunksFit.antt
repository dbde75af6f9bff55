-- ===== src/Segment/ChunksFit.antt =====
-- The entries of one record and those that are left: cost, length and order.
use shard_vault.Base.{
  ℕ, ◌-◌, ◌≤◌, ◌≡◌, refl, List, [], ◌∷◌, ◌++◌, length, All, All-split, All-imp, Bool-cases, inl,
  inr, ltb, arith,
}
use shard_vault.Wal.Record.{RemapEntry}
use shard_vault.Segment.Chunks.{cost, take_chunk, chunk_budget}

pub take_chunk-append :
    (budget : ℕ) (es : List RemapEntry) → (take_chunk budget es).0 ++ (take_chunk budget es).1 ≡ es
unfolding take_chunk
take_chunk-append budget [] = refl
take_chunk-append budget (e ∷ es) =
    let rest = take_chunk-append (budget - cost e) es in ground arith

-- No entry of the chunk costs more than its budget.
pub All-chunk :
    (budget : ℕ) (es : List RemapEntry) → All (λ e. cost e ≤ budget) (take_chunk budget es).0
unfolding take_chunk
All-chunk budget [] = tt
All-chunk budget (e ∷ es) =
    let rest =
      All-imp (λ f. cost f ≤ budget - cost e) (λ f. cost f ≤ budget) (λ f h. omega arith)
        (take_chunk (budget - cost e) es).0 (All-chunk (budget - cost e) es) in
    elim (Bool-cases (ltb budget (cost e))) [
      | inl large ↦ rw large tt
      | inr fits ↦ rw fits (ground arith, rest)
    ]

take_chunk_shorter :
    (budget : ℕ) (es : List RemapEntry) → length (take_chunk budget es).1 ≤ length es
unfolding take_chunk
take_chunk_shorter budget [] = omega arith
take_chunk_shorter budget (e ∷ es) =
    let rest = take_chunk_shorter (budget - cost e) es in ground arith

-- A first entry within the budget is taken, so that the rest is shorter.
pub take_chunk_shrinks :
    (budget : ℕ) (e : RemapEntry) (es : List RemapEntry)
    → cost e ≤ budget
    → length (take_chunk budget (e ∷ es)).1 ≤ length es
unfolding take_chunk
take_chunk_shrinks budget e es fits =
    let rest = take_chunk_shorter (budget - cost e) es in ground arith

pub All-rest :
    (es : List RemapEntry)
    → All (λ e. cost e ≤ chunk_budget) es
    → All (λ e. cost e ≤ chunk_budget) (take_chunk chunk_budget es).1
All-rest es fits =
    let whole : All (λ e. cost e ≤ chunk_budget)
        ((take_chunk chunk_budget es).0 ++ (take_chunk chunk_budget es).1) =
      rw (take_chunk-append chunk_budget es) fits in
    (All-split (λ e. cost e ≤ chunk_budget) (take_chunk chunk_budget es).0
      (take_chunk chunk_budget es).1 whole).1
