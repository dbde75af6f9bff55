-- ===== src/Stripe/Cut.antt =====
-- The data shards that `write` cuts the data into are shards to encode.
use shard_vault.Base.{
  ℕ, zero, suc, ◌+◌, ◌-◌, ◌*◌, ◌^◌, ◌≤◌, ◌<◌, inl, inr, List, [], ◌∷◌, ◌++◌, length, take, drop,
  length-tabulate, get_or-tabulate, All, All-append, ◌==◌, ltb, Bool-cases, IsByte, le_bytes-IsByte,
  arith,
}
use native.Mathlib.Nat.{mul-div-le, div-le_self}
use shard_vault.Node.Leader.{div_ceil}
use shard_vault.Matrix.Access.{get_or-IsByte, replicate-IsByte}
use shard_vault.Rs.Encode.{IsShards}
use shard_vault.Stripe.Stripes.{copy_into, data_shard, data_shards}
use shard_vault.Stripe.Places.{data_shard-IsPlaced}

All-take : (n : ℕ) (xs : List ℕ) → All IsByte xs → All IsByte (take n xs)
All-take zero xs h = tt
All-take (suc n) [] h = tt
All-take (suc n) (x ∷ xs) (h, hs) = (h, All-take n xs hs)

All-drop : (n : ℕ) (xs : List ℕ) → All IsByte xs → All IsByte (drop n xs)
All-drop zero xs h = h
All-drop (suc n) [] h = tt
All-drop (suc n) (x ∷ xs) (h, hs) = All-drop n xs hs

copy_into-IsByte :
    (offset : ℕ) (bytes shard : List ℕ)
    → All IsByte bytes
    → All IsByte shard
    → All IsByte (copy_into offset bytes shard)
unfolding copy_into
copy_into-IsByte offset bytes shard hb hs =
    All-append IsByte (take offset shard) (bytes ++ drop (offset + length bytes) shard)
      (All-take offset shard hs)
      (All-append IsByte bytes (drop (offset + length bytes) shard) hb
        (All-drop (offset + length bytes) shard hs))

data_shard-IsByte :
    (contents : List ℕ) (s i : ℕ) → All IsByte contents → All IsByte (data_shard contents s i)
unfolding data_shard
data_shard-IsByte contents s i h =
    let zeros = replicate-IsByte (s + 8) in
    elim (Bool-cases (i == 0)) [
      | inl first ↦ rw first (
          copy_into-IsByte 8 _ _ (All-take _ contents h)
            (copy_into-IsByte 0 _ _ (le_bytes-IsByte 8 (length contents)) zeros))
      | inr later ↦ elim (Bool-cases (ltb (i * s) (length contents))) [
        | inl some_left ↦
            rw (later, some_left)
              (copy_into-IsByte 0 _ _
                (All-take _ (drop (i * s) contents) (All-drop (i * s) contents h)) zeros)
        | inr none_left ↦ rw (later, none_left) zeros
      ]
    ]

-- The shards that `write` cuts the data into.
pub data_shards-IsShards :
    (k : ℕ) (contents : List ℕ)
    → All IsByte contents
    → IsShards k (div_ceil (length contents) k + 8) (data_shards k contents)
data_shards-IsShards k contents h =
    let s = div_ceil (length contents) k in
    let at = λ (i : ℕ) (p : i < k). get_or-tabulate k (data_shard contents s) i [] p in
    record {
      count = length-tabulate k (data_shard contents s);
      sizes = λ i p. rw (at i p) (data_shard-IsPlaced contents s i).size;
      bytes = λ i pos p q.
          rw (at i p)
            (get_or-IsByte (data_shard contents s i) pos (data_shard-IsByte contents s i h));
    }

div_ceil-le : (n k : ℕ) → div_ceil n k * k ≤ n + (k - 1)
div_ceil-le n k = let h = mul-div-le (n + (k - 1)) k in grind arith

pub small_shards :
    (n k : ℕ)
    → 1 ≤ k
    → k ≤ 255
    → n < 2 ^ 63
    → (div_ceil n k + 8 ≤ 2 ^ 64) × (div_ceil n k * k < 2 ^ 64)
small_shards n k hk h hn =
    let total = div_ceil-le n k in
    let each = div-le_self (n + (k - 1)) k in (omega arith, omega arith)
