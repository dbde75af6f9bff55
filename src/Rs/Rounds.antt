-- ===== src/Rs/Rounds.antt =====
-- The loops of rs.rs that add multiples of shards up, position by position.
use shard_vault.Base.{
  ℕ, suc, ◌<◌, ◌≡◌, refl, sym, ap, ◌∙◌, bit_xor, Bool-cases, inl, inr, List, length, get_or,
  replicate, length-replicate, ◌==◌, ==_iff, if◌then◌else◌, for_range, for_range_inv,
  length-tabulate, get_or-tabulate, IsByte, arith,
}
use shard_vault.Gf.Tables.{add, mul}
use shard_vault.Gf.Field.{mul-zero_left}
use shard_vault.Gf.Xor.{xor_self}
use shard_vault.Matrix.Dense.{accumulate}
use shard_vault.Matrix.Access.{get_or-replicate}
use shard_vault.Matrix.Product.{accumulate-IsByte}
use shard_vault.Rs.Coder.{xor_each}

-- A shard that holds a sum of multiples.
pub record IsSum (len c : ℕ) (coeffs : ℕ → ℕ) (shards : ℕ → ℕ → ℕ) (t : List ℕ) : Type 0 where
  pub size : length t ≡ len
  pub each : (pos : ℕ) → pos < len → get_or t pos 0 ≡ accumulate c coeffs (λ i. shards i pos)

pub length-xor_each : (value : ℕ → ℕ) (t : List ℕ) → length (xor_each value t) ≡ length t
unfolding xor_each
length-xor_each value t = length-tabulate (length t) _

pub get_or-xor_each :
    (value : ℕ → ℕ) (t : List ℕ) (pos : ℕ)
    → pos < length t
    → get_or (xor_each value t) pos 0 ≡ add (get_or t pos 0) (value pos)
unfolding xor_each add
get_or-xor_each value t pos h = get_or-tabulate (length t) _ pos 0 h

add_product :
    (len i : ℕ) (coeffs : ℕ → ℕ) (shards : ℕ → ℕ → ℕ) (value : ℕ → ℕ) (t : List ℕ)
    → IsSum len i coeffs shards t
    → ((pos : ℕ) → pos < len → value pos ≡ mul (coeffs i) (shards i pos))
    → IsSum len (suc i) coeffs shards (xor_each value t)
unfolding accumulate for_range add
add_product len i coeffs shards value t done e = record {
  size = length-xor_each value t ∙ done.size;
  each = λ pos h. get_or-xor_each value t pos (rw done.size h) ∙ rw (done.each pos h, e pos h) refl;
}

-- A coefficient that is zero adds nothing.
skip_product :
    (len i : ℕ) (coeffs : ℕ → ℕ) (shards : ℕ → ℕ → ℕ) (t : List ℕ)
    → ((j : ℕ) → j < i → IsByte (coeffs j))
    → ((j pos : ℕ) → j < i → pos < len → IsByte (shards j pos))
    → coeffs i ≡ 0
    → IsSum len i coeffs shards t
    → IsSum len (suc i) coeffs shards t
unfolding accumulate for_range add
skip_product len i coeffs shards t hc hs z done = record {
  size = done.size;
  each = λ pos h.
      let sum = accumulate i coeffs (λ j. shards j pos) in
      done.each pos h
      ∙ sym (
          ap (λ a. bit_xor sum (mul a (shards i pos))) z
          ∙ ap (bit_xor sum) (mul-zero_left (shards i pos))
          ∙ (xor_self sum
              (accumulate-IsByte i coeffs (λ j. shards j pos) hc (λ j p. hs j pos p h))).1);
}

pub zeros-IsSum :
    (len : ℕ) (coeffs : ℕ → ℕ) (shards : ℕ → ℕ → ℕ) → IsSum len 0 coeffs shards (replicate len 0)
unfolding accumulate for_range
zeros-IsSum len coeffs shards = record {
  size = length-replicate len 0;
  each = λ pos h. get_or-replicate len pos;
}

-- The loop over the data shards.
pub sum_loop_lem :
    (len c : ℕ) (coeffs : ℕ → ℕ) (shards value : ℕ → ℕ → ℕ)
    → ((i pos : ℕ) → i < c → pos < len → value i pos ≡ mul (coeffs i) (shards i pos))
    → IsSum len c coeffs shards (for_range c (λ i t. xor_each (value i) t) (replicate len 0))
sum_loop_lem len c coeffs shards value e =
    for_range_inv (λ i t. IsSum len i coeffs shards t) c (λ i t. xor_each (value i) t)
      (replicate len 0) (zeros-IsSum len coeffs shards)
      (λ i t hi done. add_product len i coeffs shards (value i) t done (λ pos h. e i pos hi h))

-- The loop over the survivors, which leaves zero coefficients out.
pub sparse_loop_lem :
    (len c : ℕ) (coeffs : ℕ → ℕ) (shards : ℕ → ℕ → ℕ)
    → ((j : ℕ) → j < c → IsByte (coeffs j))
    → ((j pos : ℕ) → j < c → pos < len → IsByte (shards j pos))
    → IsSum len c coeffs shards (
        for_range c
          (λ j t. if coeffs j == 0 then t else xor_each (λ pos. mul (coeffs j) (shards j pos)) t)
          (replicate len 0))
sparse_loop_lem len c coeffs shards hc hs =
    for_range_inv (λ i t. IsSum len i coeffs shards t) c _ (replicate len 0)
      (zeros-IsSum len coeffs shards)
      (λ i t hi done. elim (Bool-cases (coeffs i == 0)) [
        | inl nothing ↦ rw nothing (
            skip_product len i coeffs shards t (λ j p. hc j (omega arith))
              (λ j pos p h. hs j pos (omega arith) h) ((==_iff (coeffs i) 0).0 nothing) done)
        | inr some_coeff ↦ rw some_coeff (add_product len i coeffs shards _ t done (λ pos h. refl))
      ])
