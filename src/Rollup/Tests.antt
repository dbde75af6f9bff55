-- ===== src/Rollup/Tests.antt =====
-- The rollup's theorems at a few objects.
use shard_vault.Base.{ℕ, ◌≡◌, List, [], ◌∷◌, Text, arith}
use shard_vault.Rollup.Aggregate.{empty_rollup, record_put, deltas_for}
use shard_vault.Rollup.Recount.{IsRecounted, IsRecounted-empty, record_all, record_all-IsRecounted}
use shard_vault.Rollup.Deltas.{apply_deltas, deltas_for-record_put}

-- `a/b` and `a`.
abbrev nested : Text
nested = 97 ∷ 47 ∷ 98 ∷ []

abbrev top : Text
top = 97 ∷ []

-- Two objects, the first of which is overwritten by a shorter one.
abbrev puts : List (Text × ℕ)
puts = (nested, 5) ∷ (top, 7) ∷ (nested, 3) ∷ []

record_all-IsRecounted_example : IsRecounted (record_all puts empty_rollup)
record_all-IsRecounted_example =
    record_all-IsRecounted puts empty_rollup IsRecounted-empty
      (omega arith, (omega arith, (omega arith, tt)))

deltas_for-record_put_example :
    apply_deltas
      (deltas_for nested 3 (record_all puts empty_rollup))
      (record_all puts empty_rollup).aggregates
    ≡ (record_put nested 3 (record_all puts empty_rollup)).aggregates
deltas_for-record_put_example = deltas_for-record_put nested 3 (record_all puts empty_rollup)
