-- ===== src/Stripe/Damage.antt =====
-- What can be wrong with a shard's file, by its bytes, and that `read_shard` of
-- crates/shardvault-core/src/stripe.rs then fails.
use shard_vault.Base.{
  ℕ, zero, suc, ◌*◌, ◌%◌, ◌≤◌, ◌<◌, ◌≡◌, ◌≢◌, refl, false, Bool-cases, ◌⊎◌, inl, inr, Option, none,
  some, List, [], ◌∷◌, length, length-drop, take, drop, ◌==◌, ltb, StoreError, err, io, corrupt,
  torn_block, block_decode_failed, empty_shard_file, arith,
}
use shard_vault.Block.Layer.{BlockLayer, BlockResult, BlockError, done, failed, block_size}
use shard_vault.Stripe.Shard.{Nodes, error_code, read_blocks, read_shard}

-- A block of a file.
abbrev pub nth_block : ℕ → List ℕ → List ℕ
nth_block zero file = take block_size file
nth_block (suc b) file = nth_block b (drop block_size file)

BlockResult-cases :
    {A : Type 0} (r : BlockResult A)
    → ((a : A) × (r ≡ done a)) ⊎ ((e : BlockError) × (r ≡ failed e))
BlockResult-cases (done a) = inl (a, refl)
BlockResult-cases (failed e) = inr (e, refl)

not_zero : (n : ℕ) → n ≢ 0 → (n == 0) ≡ false
not_zero n h = ground arith

not_short : (n : ℕ) → block_size ≤ n → ltb n block_size ≡ false
not_short n h = ground arith

whole_block : (n : ℕ) → ltb n block_size ≡ false → block_size ≤ n
whole_block n h = ground arith

module _ (layer : BlockLayer) where
  -- A file is damaged where it is missing, is empty, is not a whole number of blocks, or has a block
  -- that does not decode.
  abbrev pub Damaged : Option (List ℕ) → Type 0
  Damaged none = Unit
  Damaged (some file) =
      (length file ≡ 0)
      ⊎ (length file % block_size ≢ 0)
      ⊎ ((b : ℕ) × (e : BlockError) × (suc b * block_size ≤ length file)
          × (layer.decode (nth_block b file) ≡ failed e))

  -- A round of the loop on a whole block: what fails on the rest fails.
  read_blocks_step :
      (fuel : ℕ) (file : List ℕ)
      → block_size ≤ length file
      → ((e : StoreError) × (read_blocks layer fuel (drop block_size file) ≡ err e))
      → (e : StoreError) × (read_blocks layer (suc fuel) file ≡ err e)
  unfolding read_blocks
  read_blocks_step fuel file whole (e, rest) =
      let some_left = not_zero (length file) (λ e. omega arith) in
      let long = not_short (length file) whole in
      elim (BlockResult-cases (layer.decode (take block_size file))) [
        | inl (decoded, is) ↦ (e, rw (some_left, long, is, rest) refl)
        | inr (code, is) ↦
            (corrupt (block_decode_failed (error_code code)), rw (some_left, long, is) refl)
      ]

  read_blocks_torn :
      (fuel : ℕ) (file : List ℕ)
      → length file < fuel
      → length file % block_size ≢ 0
      → (e : StoreError) × (read_blocks layer fuel file ≡ err e)
  unfolding read_blocks
  read_blocks_torn zero file enough torn = absurd (omega arith)
  read_blocks_torn (suc fuel) file enough torn =
      let some_left = not_zero (length file) (λ e. omega arith) in
      elim (Bool-cases (ltb (length file) block_size)) [
        | inl short ↦ (corrupt torn_block, rw (some_left, short) refl)
        | inr long ↦
            let whole = whole_block (length file) long in
            let less = length-drop block_size file in
            read_blocks_step fuel file whole
              (read_blocks_torn fuel (drop block_size file) (omega arith) (omega arith))
      ]

  read_blocks_broken :
      (fuel b : ℕ) (file : List ℕ) (code : BlockError)
      → length file < fuel
      → suc b * block_size ≤ length file
      → layer.decode (nth_block b file) ≡ failed code
      → (e : StoreError) × (read_blocks layer fuel file ≡ err e)
  unfolding read_blocks
  read_blocks_broken zero b file code enough there broken = absurd (omega arith)
  read_blocks_broken (suc fuel) zero file code enough there broken =
      let some_left = not_zero (length file) (λ e. omega arith) in
      let long = not_short (length file) (omega arith) in
      (corrupt (block_decode_failed (error_code code)), rw (some_left, long, broken) refl)
  read_blocks_broken (suc fuel) (suc b) file code enough there broken =
      let less = length-drop block_size file in
      read_blocks_step fuel file (omega arith)
        (read_blocks_broken fuel b (drop block_size file) code (omega arith) (omega arith) broken)

  -- A damaged file is not read as a shard.
  pub read_shard-Damaged :
      (node stripe : ℕ) (nodes : Nodes)
      → Damaged (nodes node stripe)
      → (e : StoreError) × (read_shard layer node stripe nodes ≡ err e)
  unfolding read_shard read_blocks
  read_shard-Damaged node stripe nodes damaged = go (nodes node stripe) refl damaged
    where
      go :
          (held : Option (List ℕ))
          → nodes node stripe ≡ held
          → Damaged held
          → (e : StoreError) × (read_shard layer node stripe nodes ≡ err e)
      go none is damaged = (io, rw (read_shard, is) refl)
      go (some []) is damaged = (corrupt empty_shard_file, rw (read_shard, is) refl)
      go (some (x ∷ xs)) is (inl gone) = absurd (omega arith)
      go (some (x ∷ xs)) is (inr (inl torn)) =
          let (e, h) = read_blocks_torn (suc (length (x ∷ xs))) (x ∷ xs) (omega arith) torn in
          (e, rw (read_shard, is, h) refl)
      go (some (x ∷ xs)) is (inr (inr (b, code, there, broken))) =
          let (e, h) =
            read_blocks_broken (suc (length (x ∷ xs))) b (x ∷ xs) code (omega arith) there broken in
          (e, rw (read_shard, is, h) refl)
