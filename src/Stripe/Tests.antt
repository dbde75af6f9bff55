-- ===== src/Stripe/Tests.antt =====
-- The theorems on stripes, for three bytes on three nodes of which the first is lost.
use shard_vault.Base.{
  ℕ, zero, suc, ◌+◌, ◌<◌, ◌≡◌, refl, ◌∙◌, Bool, not, false, none, some, List, [], ◌∷◌, All, IsByte,
  ◌==◌, ltb, if◌then◌else◌, ok, err, arith,
}
use shard_vault.Block.RoundTrip.{block_layer}
use shard_vault.Rs.Coder.{ReedSolomon, new}
use shard_vault.Rs.Encode.{IsCoder, new_lem}
use shard_vault.Rs.Rebuild.{too_few_shards}
use shard_vault.Stripe.Shard.{Nodes}
use shard_vault.Stripe.Stripes.{stripe_error, write, read}
use shard_vault.Stripe.Losses.{intact_count, FileFate}
use shard_vault.Stripe.RoundTrip.{write-new, read-write}

new-IsCoder : (rs : ReedSolomon) × (new 2 1 ≡ some rs) × IsCoder 2 1 rs
new-IsCoder = new_lem 2 1 (omega arith) (omega arith) (omega arith)

abbrev coder : ReedSolomon
coder = new-IsCoder.0

abbrev object : List ℕ
object = 10 ∷ 20 ∷ 30 ∷ []

object-IsByte : All IsByte object
object-IsByte = (omega arith, (omega arith, (omega arith, tt)))

abbrev no_files : Nodes
no_files i s = none

write-new_example :
    (nodes' : Nodes) × (n : ℕ) × (write block_layer coder 7 object no_files ≡ some (nodes', ok n))
write-new_example =
    write-new block_layer 2 1 7 coder object no_files (omega arith) (omega arith) (omega arith)
      new-IsCoder.1 object-IsByte (omega arith)

written :
    (nodes' : Nodes) × (n : ℕ) × (write block_layer coder 7 object no_files ≡ some (nodes', ok n))
written =
    write-new block_layer 2 1 7 coder object no_files (omega arith) (omega arith) (omega arith)
      new-IsCoder.1 object-IsByte (omega arith)

-- The files without that of the first node.
abbrev left_over : Nodes
left_over i s = if i == 0 then none else written.0 i s

abbrev intact : ℕ → Bool
intact i = not (i == 0)

left_over-FileFate :
    (i : ℕ)
    → i < coder.k + coder.m
    → FileFate block_layer (written.0 i 7) (left_over i 7) (intact i)
left_over-FileFate zero p = tt
left_over-FileFate (suc i) p = let later : (suc i == 0) ≡ false = ground arith in rw later refl

read-write_example : read block_layer coder 7 left_over ≡ (
    if ltb (intact_count intact (coder.k + coder.m) 0) coder.k
    then err (stripe_error 7 too_few_shards)
    else ok object)
read-write_example =
    read-write block_layer 2 1 7 written.1 coder object no_files written.0 left_over intact
      (omega arith) (omega arith) (omega arith) new-IsCoder.1 object-IsByte (omega arith) written.2
      left_over-FileFate

-- Two of the three files are intact, which is enough.
enough_left : ltb (intact_count intact (coder.k + coder.m) 0) coder.k ≡ false
enough_left = rw (new-IsCoder.2.data_count, new-IsCoder.2.parity_count) refl

read_again : read block_layer coder 7 left_over ≡ ok object
read_again =
    read-write block_layer 2 1 7 written.1 coder object no_files written.0 left_over intact
      (omega arith) (omega arith) (omega arith) new-IsCoder.1 object-IsByte (omega arith) written.2
      left_over-FileFate
    ∙ rw enough_left refl
