-- ===== src/Block/RoundTrip.antt =====
-- `block::decode` after `block::encode`, and the block layer that the two make.
use shard_vault.Base.{
  ℕ, zero, suc, ◌+◌, ◌≤◌, ◌<◌, ◌^◌, ◌≡◌, refl, ap, sym, ◌∙◌, List, [], ◌∷◌, ◌++◌, length, take,
  drop, get_or, replicate, length-replicate, ltb, arith, le_bytes, from_le, from_le-le_bytes, false,
  true, ◌==◌, ==_iff,
}
use native.Mathlib.Nat.{zero-add, suc-add}
use shard_vault.Block.Codec.{
  write, zeroed, block_checksum, sv_block_encode, sv_block_decode, encode, decode,
}
use shard_vault.Block.Layer.{BlockLayer, done, block_size, payload_max}

-- A block laid out: lsn, payload length, checksum, flags, padding, and the body.
layout : ℕ → ℕ → ℕ → ℕ → List ℕ → List ℕ
layout lsn n sum flags body =
    le_bytes 8 lsn
    ++ (le_bytes 4 n ++ (le_bytes 4 sum ++ (flags ∷ 0 ∷ 0 ∷ 0 ∷ 0 ∷ 0 ∷ 0 ∷ 0 ∷ body)))

abbrev header_zeros : List ℕ → List ℕ
header_zeros rest = replicate 24 0 ++ rest

written_layout :
    (lsn n flags : ℕ) (payload rest : List ℕ)
    → write 24 payload (
        write 16
          (flags ∷ [])
          (write 8 (le_bytes 4 n) (write 0 (le_bytes 8 lsn) (header_zeros rest))))
      ≡ layout lsn n 0 flags (write 0 payload rest)
unfolding write layout le_bytes
written_layout lsn n flags payload rest = refl

checksum_put :
    (lsn n sum flags : ℕ) (body : List ℕ)
    → write 12 (le_bytes 4 sum) (layout lsn n 0 flags body) ≡ layout lsn n sum flags body
unfolding write layout le_bytes
checksum_put lsn n sum flags body = refl

-- The checksum does not read its own field.
checksum_layout :
    (lsn n sum flags k : ℕ) (body : List ℕ)
    → block_checksum (layout lsn n sum flags body) k ≡ block_checksum (layout lsn n 0 flags body) k
unfolding block_checksum layout le_bytes
checksum_layout lsn n sum flags k body = refl

zeroed_add : (n m : ℕ) → zeroed (n + m) ≡ replicate n 0 ++ zeroed m
unfolding zeroed
zeroed_add zero m = rw zero-add
zeroed_add (suc n) m = rw suc-add (ap (λ r. 0 ∷ r) (zeroed_add n m))

length-write : (offset : ℕ) (bs xs : List ℕ) → length (write offset bs xs) ≡ length xs
unfolding write
length-write zero bs [] = refl
length-write (suc offset) bs [] = refl
length-write (suc offset) bs (x ∷ xs) = ap suc (length-write offset bs xs)
length-write zero [] (x ∷ xs) = refl
length-write zero (b ∷ bs) (x ∷ xs) = ap suc (length-write zero bs xs)

take-write : (bs xs : List ℕ) → length bs ≤ length xs → take (length bs) (write 0 bs xs) ≡ bs
unfolding write
take-write [] xs h = refl
take-write (b ∷ bs) [] h = absurd (omega arith)
take-write (b ∷ bs) (x ∷ xs) h = ap (λ r. b ∷ r) (take-write bs xs (omega arith))

-- The payload over a zeroed body.
body : List ℕ → List ℕ
body payload = write 0 payload (zeroed payload_max)

length-body : (payload : List ℕ) → length (body payload) ≡ payload_max
unfolding body zeroed
length-body payload =
    length-write 0 payload (zeroed payload_max) ∙ length-replicate {A = ℕ} payload_max 0

payload_taken :
    (payload : List ℕ)
    → length payload ≤ payload_max
    → take (length payload) (body payload) ≡ payload
unfolding body
payload_taken payload h = take-write payload (zeroed payload_max) (rw zeroed_size h)
  where
    zeroed_size : length (zeroed payload_max) ≡ payload_max
    zeroed_size = unfold zeroed in length-replicate {A = ℕ} payload_max 0

done-injective : {A : Type 0} {a b : A} → done a ≡ done b → a ≡ b
done-injective h = cc

abbrev checksum : ℕ → List ℕ → ℕ → ℕ
checksum lsn payload flags =
    block_checksum (layout lsn (length payload) 0 flags (body payload)) (length payload)

not_long : (n : ℕ) → n ≤ payload_max → ltb payload_max n ≡ false
not_long n h = ground arith

zeroed_block : zeroed block_size ≡ header_zeros (zeroed payload_max)
zeroed_block = zeroed_add 24 payload_max

copied_layout :
    (lsn n flags : ℕ) (payload : List ℕ)
    → write 24 payload (
        write 16
          (flags ∷ [])
          (write 8 (le_bytes 4 n) (write 0 (le_bytes 8 lsn) (zeroed block_size))))
      ≡ layout lsn n 0 flags (body payload)
unfolding body
copied_layout lsn n flags payload =
    rw zeroed_block (written_layout lsn n flags payload (zeroed payload_max))

checksum_of :
    (lsn n flags : ℕ) (payload copied : List ℕ)
    → copied ≡ layout lsn n 0 flags (body payload)
    → write 12 (le_bytes 4 (block_checksum copied n)) copied
      ≡ layout lsn n (block_checksum (layout lsn n 0 flags (body payload)) n) flags (body payload)
checksum_of lsn n flags payload copied e = rw e (
    checksum_put lsn n (block_checksum (layout lsn n 0 flags (body payload)) n) flags
      (body payload))

encode_layout :
    (lsn : ℕ) (payload : List ℕ) (flags : ℕ)
    → length payload ≤ payload_max
    → encode lsn payload flags
      ≡ done (layout lsn (length payload) (checksum lsn payload flags) flags (body payload))
unfolding encode sv_block_encode
encode_layout lsn payload flags h =
    rw (not_long (length payload) h, encode)
      (ap done (
        checksum_of lsn (length payload) flags payload _
          (copied_layout lsn (length payload) flags payload)))

checksum-lt : (blk : List ℕ) (n : ℕ) → block_checksum blk n < 2 ^ 32
unfolding block_checksum
checksum-lt blk n = omega arith

module _ (lsn n sum flags : ℕ) (rest : List ℕ) where
  lsn_field : lsn < 2 ^ 64 → from_le (take 8 (layout lsn n sum flags rest)) ≡ lsn
  unfolding layout le_bytes
  lsn_field h = from_le-le_bytes 8 lsn h

  length_field : n < 2 ^ 32 → from_le (take 4 (drop 8 (layout lsn n sum flags rest))) ≡ n
  unfolding layout le_bytes
  length_field h = from_le-le_bytes 4 n h

  sum_field : sum < 2 ^ 32 → from_le (take 4 (drop 12 (layout lsn n sum flags rest))) ≡ sum
  unfolding layout le_bytes
  sum_field h = from_le-le_bytes 4 sum h

  flags_field : get_or (layout lsn n sum flags rest) 16 0 ≡ flags
  unfolding layout le_bytes
  flags_field = refl

  body_field : drop 24 (layout lsn n sum flags rest) ≡ rest
  unfolding layout le_bytes
  body_field = refl

decode_layout :
    (lsn n sum flags : ℕ) (rest : List ℕ)
    → lsn < 2 ^ 64
    → n ≤ payload_max
    → sum ≡ block_checksum (layout lsn n 0 flags rest) n
    → decode (layout lsn n sum flags rest)
      ≡ done (record { lsn = lsn; flags = flags; payload = take n rest })
unfolding decode sv_block_decode
decode_layout lsn n sum flags rest hl hn e =
    let blk = layout lsn n sum flags rest in
    let same : (block_checksum blk n == sum) ≡ true =
      (==_iff _ _).1 (checksum_layout lsn n sum flags n rest ∙ sym e) in
    let small : sum < 2 ^ 32 = rw e (checksum-lt (layout lsn n 0 flags rest) n) in
    rw (length_field lsn n sum flags rest (omega arith), decode)
      (rw (not_long n hn, sum_field lsn n sum flags rest small)
        (rw (
          same,
          lsn_field lsn n sum flags rest hl,
          flags_field lsn n sum flags rest,
          body_field lsn n sum flags rest,
        )))

encode-eq-done :
    (lsn : ℕ) (payload : List ℕ) (flags : ℕ) {blk : List ℕ}
    → encode lsn payload flags ≡ done blk
    → length payload ≤ payload_max
unfolding encode
encode-eq-done lsn payload flags h = ground arith

-- `decode` gives back the LSN, the flags and the payload of every block that `encode` makes at an
-- LSN below 2 ^ 64.
pub decode-encode :
    (lsn : ℕ) (payload : List ℕ) (flags : ℕ) (blk : List ℕ)
    → lsn < 2 ^ 64
    → encode lsn payload flags ≡ done blk
    → decode blk ≡ done (record { lsn = lsn; flags = flags; payload = payload })
decode-encode lsn payload flags blk small e =
    let fits = encode-eq-done lsn payload flags e in
    let laid : blk ≡ layout lsn (length payload) (checksum lsn payload flags) flags (body payload) =
      done-injective (sym e ∙ encode_layout lsn payload flags fits) in
    rw laid (
      decode_layout lsn (length payload) (checksum lsn payload flags) flags (body payload) small
        fits refl
      ∙ ap (λ (p : List ℕ). done (record { lsn = lsn; flags = flags; payload = p }))
          (payload_taken payload fits))

length-layout :
    (lsn n sum flags : ℕ) (payload : List ℕ)
    → length (layout lsn n sum flags (body payload)) ≡ block_size
unfolding layout le_bytes
length-layout lsn n sum flags payload = omega (arith, length-body payload)

-- A payload of at most 4072 bytes is encoded, as one block of 4096 bytes.
pub encode-fits :
    (lsn : ℕ) (payload : List ℕ) (flags : ℕ)
    → length payload ≤ payload_max
    → (blk : List ℕ) × (encode lsn payload flags ≡ done blk) × (length blk ≡ block_size)
encode-fits lsn payload flags h = (
  layout lsn (length payload) (checksum lsn payload flags) flags (body payload),
  encode_layout lsn payload flags h,
  length-layout lsn (length payload) (checksum lsn payload flags) flags payload,
)

-- The block layer that the log and the stripes use.
abbrev pub block_layer : BlockLayer
block_layer = record {
  encode = encode;
  decode = decode;
  encode-fits = encode-fits;
  decode-encode = λ lsn payload flags blk small _ e. decode-encode lsn payload flags blk small e;
}
