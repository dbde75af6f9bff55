-- ===== src/Rs/Rebuild.antt =====
-- `ReedSolomon::reconstruct` of crates/shardvault-ec/src/rs.rs.
use shard_vault.Base.{
  ℕ, zero, suc, ◌+◌, Option, none, some, Bool, true, false, ◌||◌, not, List, [], ◌∷◌, length,
  get_or, set, take, replicate, ◌==◌, ltb, if◌then◌else◌, for_range, tabulate,
}
use shard_vault.Gf.Tables.{mul}
use shard_vault.Matrix.Dense.{Matrix, entry, accumulate, select_rows}
use shard_vault.Matrix.Invert.{invert}
use shard_vault.Rs.Coder.{ReedSolomon, xor_each}

pub data EcError : Type 0 where
  too_few_shards inconsistent_shards : EcError

-- The shards that are rebuilt in place, or an error, which leaves them as they are.
pub data Rebuilt : Type 0 where
  ok : List (Option (List ℕ)) → Rebuilt
  err : EcError → Rebuilt

unfoldable pub is_some_at : List (Option (List ℕ)) → ℕ → Bool
is_some_at shards i = elim (get_or shards i none) [ none ↦ false | some s ↦ true ]

-- `shards[i].as_ref().unwrap()`; the source asks only for shards that are there.
unfoldable pub shard_at : List (Option (List ℕ)) → ℕ → List ℕ
shard_at shards i = elim (get_or shards i none) [ none ↦ [] | some s ↦ s ]

-- `(from..from + left).filter(test).collect()`
unfoldable pub indices : (ℕ → Bool) → ℕ → ℕ → List ℕ
indices test zero from = []
indices test (suc left) from =
    let rest = indices test left (suc from) in if test from then from ∷ rest else rest

-- Some survivor's length is another.
unfoldable pub any_other_length : List (Option (List ℕ)) → ℕ → List ℕ → Bool
any_other_length shards n [] = false
any_other_length shards n (i ∷ is) =
    not (length (shard_at shards i) == n) || any_other_length shards n is

-- The coefficient of a survivor in a missing shard.
unfoldable pub coefficients : ℕ → Matrix → Matrix → ℕ → List ℕ
coefficients k encode_matrix inv mi =
    tabulate k (λ j. accumulate k (λ t. entry encode_matrix mi t) (λ t. entry inv t j))

unfoldable pub rebuild_shard : List ℕ → List ℕ → ℕ → List (Option (List ℕ)) → List ℕ
rebuild_shard coeffs survivors shard_len shards =
    for_range (length survivors)
      (λ j rebuilt.
        let coeff = get_or coeffs j 0 in
        if coeff == 0
        then rebuilt
        else xor_each (λ pos. mul coeff (get_or (shard_at shards (get_or survivors j 0)) pos 0))
            rebuilt)
      (replicate shard_len 0)

-- The loop over the missing shards.
unfoldable pub rebuild_all :
    ReedSolomon → Matrix → List ℕ → ℕ → List ℕ → List (Option (List ℕ)) → List (Option (List ℕ))
rebuild_all rs inv survivors shard_len [] shards = shards
rebuild_all rs inv survivors shard_len (mi ∷ missing) shards =
    let coeffs = coefficients rs.k rs.encode_matrix inv mi in
    let rebuilt = rebuild_shard coeffs survivors shard_len shards in
    rebuild_all rs inv survivors shard_len missing (set shards mi (some rebuilt))

-- What follows when there are enough survivors.
unfoldable pub rebuild_from : ReedSolomon → List ℕ → List (Option (List ℕ)) → Rebuilt
rebuild_from rs survivors shards =
    let shard_len = length (shard_at shards (get_or survivors 0 0)) in
    if any_other_length shards shard_len survivors
    then err inconsistent_shards
    else elim (invert (select_rows rs.k (λ r. get_or survivors r 0) rs.encode_matrix)) [
      | none ↦ err inconsistent_shards
      | some inv ↦
          let missing = indices (λ i. not (is_some_at shards i)) (rs.k + rs.m) 0 in
          ok (rebuild_all rs inv survivors shard_len missing shards)
    ]

unfoldable pub reconstruct : ReedSolomon → List (Option (List ℕ)) → Rebuilt
reconstruct rs shards =
    let n = rs.k + rs.m in
    let survivors = indices (is_some_at shards) n 0 in
    if not (length shards == n)
    then err inconsistent_shards
    else if ltb (length survivors) rs.k
    then err too_few_shards
    else rebuild_from rs (take rs.k survivors) shards
