-- ===== src/Stripe/Files.antt =====
-- A shard's file is read back as the shard.
use shard_vault.Base.{
  ℕ, zero, suc, ◌+◌, ◌^◌, ◌≤◌, ◌<◌, ◌≡◌, refl, ap, ◌∙◌, false, some, List, [], ◌∷◌, ◌++◌,
  append-nil, append_assoc, length, length-append, length-take_le, length-drop, take, drop,
  take-append_length, drop-append_length, All, ◌==◌, ltb, Result, ok, arith,
}
use shard_vault.Block.Layer.{BlockLayer, done, block_size, payload_max}
use shard_vault.Stripe.Shard.{
  Nodes, put_file, chunks, write_blocks, write_shard, read_blocks, read_shard,
}

abbrev concat : List (List ℕ) → List ℕ
concat [] = []
concat (c ∷ cs) = c ++ concat cs

take-drop : (n : ℕ) (xs : List ℕ) → take n xs ++ drop n xs ≡ xs
take-drop zero xs = refl
take-drop (suc n) [] = refl
take-drop (suc n) (x ∷ xs) = ap (◌∷◌ x) (take-drop n xs)

-- The chunks are the list, none is longer than the size, and they are not more than the bytes.
concat-chunks :
    (size fuel : ℕ) (xs : List ℕ) → 1 ≤ size → length xs ≤ fuel → concat (chunks size fuel xs) ≡ xs
unfolding chunks
concat-chunks size fuel [] hs h = refl
concat-chunks size zero (x ∷ xs) hs h = absurd (omega arith)
concat-chunks size (suc fuel) (x ∷ xs) hs h =
    let less = length-drop size (x ∷ xs) in
    ap (◌++◌ (take size (x ∷ xs))) (concat-chunks size fuel (drop size (x ∷ xs)) hs (omega arith))
    ∙ take-drop size (x ∷ xs)

chunks_fit : (size fuel : ℕ) (xs : List ℕ) → All (λ c. length c ≤ size) (chunks size fuel xs)
unfolding chunks
chunks_fit size fuel [] = tt
chunks_fit size zero (x ∷ xs) = tt
chunks_fit size (suc fuel) (x ∷ xs) =
    (length-take_le size (x ∷ xs), chunks_fit size fuel (drop size (x ∷ xs)))

length-chunks : (size fuel : ℕ) (xs : List ℕ) → length (chunks size fuel xs) ≤ fuel
unfolding chunks
length-chunks size fuel [] = omega arith
length-chunks size zero (x ∷ xs) = omega arith
length-chunks size (suc fuel) (x ∷ xs) =
    let h = length-chunks size fuel (drop size (x ∷ xs)) in omega arith

module _ (layer : BlockLayer) where
  -- Blocks that are written are read back.
  write_blocks_lem :
      (cs : List (List ℕ)) (i : ℕ) (file : List ℕ)
      → All (λ c. length c ≤ payload_max) cs
      → i + length cs ≤ 2 ^ 64
      → (blocks : List ℕ) × (write_blocks layer i cs file ≡ (file ++ blocks, ok (i + length cs)))
        × (length cs ≤ length blocks)
        × ((fuel : ℕ) → length cs < fuel → read_blocks layer fuel blocks ≡ ok (concat cs))
  unfolding write_blocks read_blocks
  write_blocks_lem [] i file fit h =
      let e : i + 0 ≡ i = omega arith in ([], rw (append-nil file, e) refl, omega arith, none_left)
    where
      none_left : (fuel : ℕ) → 0 < fuel → read_blocks layer fuel [] ≡ ok []
      none_left zero p = absurd (omega arith)
      none_left (suc fuel) p = refl
  write_blocks_lem (c ∷ cs) i file (fits, fit) h =
      let (blk, encoded, size) = layer.encode-fits i c 0 fits in
      let decoded = layer.decode-encode i c 0 blk (omega arith) (omega arith) encoded in
      let (blocks, written, count, reads) =
        write_blocks_lem cs (suc i) (file ++ blk) fit (omega arith) in
      let e : suc i + length cs ≡ i + suc (length cs) = omega arith in
      let total = length-append blk blocks in
      (
        blk ++ blocks,
        rw (write_blocks, encoded) (written ∙ rw (append_assoc file blk blocks, e) refl),
        omega arith,
        one_more blk blocks size decoded reads,
      )
    where
      one_more :
          (blk blocks : List ℕ)
          → length blk ≡ block_size
          → layer.decode blk ≡ done (record { lsn = i; flags = 0; payload = c })
          → ((fuel : ℕ) → length cs < fuel → read_blocks layer fuel blocks ≡ ok (concat cs))
          → (fuel : ℕ) → suc (length cs) < fuel
          → read_blocks layer fuel (blk ++ blocks) ≡ ok (c ++ concat cs)
      one_more blk blocks size decoded reads zero p = absurd (omega arith)
      one_more blk blocks size decoded reads (suc fuel) p =
          let total = length-append blk blocks in
          let some_left : (length (blk ++ blocks) == 0) ≡ false = ground arith in
          let whole : ltb (length (blk ++ blocks)) block_size ≡ false = ground arith in
          let front : take block_size (blk ++ blocks) ≡ blk =
            rw⁻¹ size (take-append_length blk blocks) in
          let behind : drop block_size (blk ++ blocks) ≡ blocks =
            rw⁻¹ size (drop-append_length blk blocks) in
          rw (some_left, whole, front, decoded, behind, reads fuel (omega arith)) refl

  -- The file of a shard.
  unfoldable pub stored : List ℕ → List ℕ
  stored shard = (write_blocks layer 0 (chunks payload_max (length shard) shard) []).0

  pub write_shard_lem :
      (node stripe : ℕ) (shard : List ℕ) (nodes : Nodes)
      → length shard ≤ 2 ^ 64
      → (n : ℕ) × (write_shard layer node stripe shard nodes
          ≡ (put_file node stripe (stored shard) nodes, ok n))
  unfolding write_shard stored
  write_shard_lem node stripe shard nodes h =
      let cs = chunks payload_max (length shard) shard in
      let few = length-chunks payload_max (length shard) shard in
      let (blocks, written, count, reads) =
        write_blocks_lem cs 0 [] (chunks_fit payload_max (length shard) shard) (omega arith) in
      (
        0 + length cs,
        ap (λ (r : Result ℕ). (put_file node stripe (write_blocks layer 0 cs []).0 nodes, r))
            (ap (λ p. p.1) written),
      )

  pub read_shard-stored :
      (node stripe : ℕ) (shard : List ℕ) (nodes : Nodes)
      → 1 ≤ length shard
      → length shard ≤ 2 ^ 64
      → nodes node stripe ≡ some (stored shard)
      → read_shard layer node stripe nodes ≡ ok shard
  unfolding read_shard stored
  read_shard-stored node stripe shard nodes some_bytes h held =
      let cs = chunks payload_max (length shard) shard in
      let few = length-chunks payload_max (length shard) shard in
      let (blocks, written, count, reads) =
        write_blocks_lem cs 0 [] (chunks_fit payload_max (length shard) shard) (omega arith) in
      let whole = concat-chunks payload_max (length shard) shard (omega arith) (omega arith) in
      let file : (write_blocks layer 0 cs []).0 ≡ blocks = ap (λ p. p.0) written in
      let all : read_blocks layer (suc (length blocks)) blocks ≡ ok shard =
        reads (suc (length blocks)) (omega arith) ∙ ap ok whole in
      let not_empty : (length shard == 0) ≡ false = ground arith in
      rw (read_shard, held, file, all, not_empty) refl
