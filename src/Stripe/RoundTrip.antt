-- ===== src/Stripe/RoundTrip.antt =====
-- A stripe that is written and loses some of its files is read back.
use shard_vault.Base.{
  ℕ, ◌+◌, ◌*◌, ◌^◌, ◌≤◌, ◌<◌, ◌≡◌, refl, sym, ap, ◌∙◌, inl, inr, some, List, [], ◌++◌, length,
  length-append, get_or, get_or-append_left, length-tabulate, get_or-tabulate, All, ltb, Bool-cases,
  Bool, if◌then◌else◌, IsByte, Result, ok, err, arith,
}
use mathlib.Core.Path.{subst}
use mathlib.Core.Option.{some_inj}
use shard_vault.Block.Layer.{BlockLayer}
use shard_vault.Node.Leader.{div_ceil}
use shard_vault.Rs.Coder.{ReedSolomon, new}
use shard_vault.Rs.Rebuild.{too_few_shards}
use shard_vault.Rs.Encode.{IsCoder}
use shard_vault.Rs.Word.{IsCodeword, encode-IsCodeword}
use shard_vault.Rs.Recover.{reconstruct-answer}
use shard_vault.Rs.RoundTrip.{new-IsCoder}
use shard_vault.Stripe.Shard.{Nodes}
use shard_vault.Stripe.Stripes.{data_shard, data_shards, stripe_error, write, read}
use shard_vault.Stripe.Files.{stored}
use shard_vault.Stripe.Written.{Holds, write_lem}
use shard_vault.Stripe.Places.{IsPlaced, div_ceil-ge, data_shard-IsPlaced}
use shard_vault.Stripe.Join.{assemble_lem}
use shard_vault.Stripe.Cut.{data_shards-IsShards, small_shards}
use shard_vault.Stripe.Losses.{
  readable, intact_count, FileFate, FileFate-KeptOrLost, readable-IsErasure,
  survivor_count-readable,
}

self_counted : {k m : ℕ} (rs : ReedSolomon) → IsCoder k m rs → IsCoder rs.k rs.m rs
self_counted {k} {m} rs coder =
    subst (λ b. IsCoder rs.k b rs) (sym coder.parity_count)
      (subst (λ a. IsCoder a m rs) (sym coder.data_count) coder)

module _ (layer : BlockLayer) where
  -- What a write makes of the data: its shards, each at its node.
  record IsWritten (rs : ReedSolomon) (stripe : ℕ) (contents : List ℕ) (parity : List (List ℕ))
      (nodes : Nodes) : Type 0 where
    count : length (data_shards rs.k contents ++ parity) ≡ rs.k + rs.m
    code :
        IsCodeword
          (rs.k + rs.m)
          rs.k
          (div_ceil (length contents) rs.k + 8)
          rs.encode_matrix
          (λ i. get_or (data_shards rs.k contents ++ parity) i [])
    holds : Holds layer 0 stripe (data_shards rs.k contents ++ parity) nodes

  write-IsWritten :
      (rs : ReedSolomon) (stripe : ℕ) (contents : List ℕ) (nodes : Nodes)
      → IsCoder rs.k rs.m rs
      → 1 ≤ rs.k
      → All IsByte contents
      → div_ceil (length contents) rs.k + 8 ≤ 2 ^ 64
      → (parity : List (List ℕ)) × (nodes' : Nodes) × (n : ℕ) × (write layer rs stripe contents
            nodes
          ≡ some (nodes', ok n))
        × IsWritten rs stripe contents parity nodes'
  write-IsWritten rs stripe contents nodes coder hk bytes small =
      let ds = data_shards rs.k contents in
      let (parity, encoded, size, code) =
        encode-IsCodeword rs ds coder (data_shards-IsShards rs.k contents bytes) hk in
      let total : length (ds ++ parity) ≡ rs.k + rs.m =
        length-append ds parity
        ∙ (let c = length-tabulate rs.k (data_shard contents (div_ceil (length contents) rs.k)) in
            omega arith) in
      let (nodes', n, written, holds) =
        write_lem layer rs stripe contents nodes parity encoded
          (λ j p. let e = code.sizes j (omega arith) in omega arith) in
      (parity, nodes', n, written, record { count = total; code = code; holds = holds })

  read-IsWritten :
      (rs : ReedSolomon) (stripe : ℕ) (contents : List ℕ) (parity : List (List ℕ))
      (nodes after : Nodes) (intact : ℕ → Bool)
      → IsCoder rs.k rs.m rs
      → 1 ≤ rs.k
      → div_ceil (length contents) rs.k + 8 ≤ 2 ^ 64
      → div_ceil (length contents) rs.k * rs.k < 2 ^ 64
      → IsWritten rs stripe contents parity nodes
      → ((i : ℕ) → i < rs.k + rs.m → FileFate layer (nodes i stripe) (after i stripe) (intact i))
      → read layer rs stripe after ≡ (
          if ltb (intact_count intact (rs.k + rs.m) 0) rs.k
          then err (stripe_error stripe too_few_shards)
          else ok contents)
  unfolding read
  read-IsWritten rs stripe contents parity nodes after intact coder hk small total written fate =
      let ds = data_shards rs.k contents in
      let s = div_ceil (length contents) rs.k in
      let word = λ (i : ℕ). get_or (ds ++ parity) i [] in
      let erasure =
        readable-IsErasure layer rs stripe (s + 8) nodes after (ds ++ parity) written.count
          written.code.sizes (omega arith) small written.holds
          (λ i p. FileFate-KeptOrLost layer stripe nodes after i (intact i) (fate i p)) in
      let counted =
        survivor_count-readable layer rs stripe (s + 8) nodes after (ds ++ parity) intact
          written.count written.code.sizes (omega arith) small written.holds fate in
      let answer =
        reconstruct-answer rs word (readable layer rs stripe after) coder hk written.code erasure in
      let count : length ds ≡ rs.k = length-tabulate rs.k (data_shard contents s) in
      let placed : (i : ℕ) → i < rs.k → IsPlaced contents s i (word i) = λ i p.
        subst (IsPlaced contents s i)
          (sym (
            get_or-append_left ds parity i [] (omega arith)
            ∙ get_or-tabulate rs.k (data_shard contents s) i [] p))
          (data_shard-IsPlaced contents s i) in
      let joined =
        assemble_lem contents s rs.k rs.m word hk total (div_ceil-ge (length contents) rs.k hk)
          placed in
      rw (read, answer, counted)
        (elim (Bool-cases (ltb (intact_count intact (rs.k + rs.m) 0) rs.k)) [
          | inl few ↦ rw few refl
          | inr enough ↦ rw enough joined
        ])

-- Data of less than 2 ^ 63 bytes is written to the nodes without an error, by a coder for at least one
-- data and one parity shard, and at most 255 in all.
pub write-new :
    (layer : BlockLayer) (k m stripe : ℕ) (rs : ReedSolomon) (contents : List ℕ) (nodes : Nodes)
    → 1 ≤ k
    → 1 ≤ m
    → k + m ≤ 255
    → new k m ≡ some rs
    → All IsByte contents
    → length contents < 2 ^ 63
    → (nodes' : Nodes) × (n : ℕ) × (write layer rs stripe contents nodes ≡ some (nodes', ok n))
write-new layer k m stripe rs contents nodes hk hm h built bytes small =
    let coder = new-IsCoder k m rs hk hm h built in
    let ek = coder.data_count in
    let (fits, total) = small_shards (length contents) rs.k (omega arith) (omega arith) small in
    let (parity, nodes', n, written, is) =
      write-IsWritten layer rs stripe contents nodes (self_counted rs coder) (omega arith) bytes
        fits in
    (nodes', n, written)

-- Where a coder for at least one data and one parity shard, at most 255 in all, wrote data of less
-- than 2 ^ 63 bytes without an error, and then every node's file is intact, as it was written, or is
-- damaged, which is missing, empty, no whole number of blocks or with a block that does not decode,
-- read returns the data if at least k of the files are intact, and fails with the message of too few
-- shards if not.
pub read-write :
    (layer : BlockLayer) (k m stripe n : ℕ) (rs : ReedSolomon) (contents : List ℕ)
    (nodes written after : Nodes) (intact : ℕ → Bool)
    → 1 ≤ k
    → 1 ≤ m
    → k + m ≤ 255
    → new k m ≡ some rs
    → All IsByte contents
    → length contents < 2 ^ 63
    → write layer rs stripe contents nodes ≡ some (written, ok n)
    → ((i : ℕ) → i < rs.k + rs.m → FileFate layer (written i stripe) (after i stripe) (intact i))
    → read layer rs stripe after ≡ (
        if ltb (intact_count intact (rs.k + rs.m) 0) rs.k
        then err (stripe_error stripe too_few_shards)
        else ok contents)
read-write layer k m stripe n rs contents nodes written after intact hk hm h built bytes small
      stored fate =
    let coder = new-IsCoder k m rs hk hm h built in
    let ek = coder.data_count in
    let (fits, total) = small_shards (length contents) rs.k (omega arith) (omega arith) small in
    let (parity, nodes', n', stored', is) =
      write-IsWritten layer rs stripe contents nodes (self_counted rs coder) (omega arith) bytes
        fits in
    let same : nodes' ≡ written =
      ap (λ (p : Nodes × Result ℕ). p.0) (some_inj.0 (sym stored' ∙ stored)) in
    read-IsWritten layer rs stripe contents parity written after intact (self_counted rs coder)
      (omega arith) fits total (subst (IsWritten layer rs stripe contents parity) same is) fate
