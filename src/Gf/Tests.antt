-- ===== src/Gf/Tests.antt =====
-- The field's theorems at a few bytes.
use shard_vault.Base.{◌≡◌, arith}
use shard_vault.Gf.Tables.{mul}
use shard_vault.Gf.Field.{mul_assoc}

mul_assoc_example : mul (mul 2 128) 3 ≡ mul 2 (mul 128 3)
mul_assoc_example = mul_assoc 2 128 3 (omega arith) (omega arith) (omega arith)
