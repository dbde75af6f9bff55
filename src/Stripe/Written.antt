-- ===== src/Stripe/Written.antt =====
-- After a write, every node's file holds its shard.
use shard_vault.Base.{
  ℕ, zero, suc, ◌+◌, ◌-◌, ◌^◌, ◌≤◌, ◌<◌, ◌≡◌, refl, sym, ap, ◌∙◌, true, false, ◌&&◌, some, List, [],
  ◌∷◌, ◌++◌, length, length-append, get_or, get_or-append_left, get_or-append_right,
  length-tabulate, ◌==◌, ltb, Bool-cases, inl, inr, ok, arith,
}
use shard_vault.Block.Layer.{BlockLayer}
use shard_vault.Rs.Coder.{ReedSolomon, encode}
use shard_vault.Stripe.Shard.{Nodes, put_file}
use shard_vault.Stripe.Stripes.{data_shards, and_then, write_shards, write}
use shard_vault.Stripe.Files.{stored, write_shard_lem}

put_file_here :
    (node stripe : ℕ) (file : List ℕ) (nodes : Nodes)
    → put_file node stripe file nodes node stripe ≡ some file
unfolding put_file
put_file_here node stripe file nodes =
    let e : (node == node) && (stripe == stripe) ≡ true = ground arith in rw e refl

put_file_below :
    (node stripe i : ℕ) (file : List ℕ) (nodes : Nodes)
    → i < node
    → put_file node stripe file nodes i stripe ≡ nodes i stripe
unfolding put_file
put_file_below node stripe i file nodes h =
    let e : (i == node) && (stripe == stripe) ≡ false = ground arith in rw e refl

module _ (layer : BlockLayer) where
  -- The shards of a list stand at the nodes from `node` on.
  pub record Holds (node stripe : ℕ) (shards : List (List ℕ)) (nodes : Nodes) : Type 0 where
    pub each :
        (j : ℕ)
        → j < length shards
        → nodes (node + j) stripe ≡ some (stored layer (get_or shards j []))

  write_shards_lem :
      (shards : List (List ℕ)) (node stripe : ℕ) (nodes : Nodes)
      → ((j : ℕ) → j < length shards → length (get_or shards j []) ≤ 2 ^ 64)
      → (nodes' : Nodes) × (n : ℕ) × (write_shards layer node stripe shards nodes ≡ (nodes', ok n))
        × Holds node stripe shards nodes'
        × ((i : ℕ) → i < node → nodes' i stripe ≡ nodes i stripe)
  unfolding write_shards
  write_shards_lem [] node stripe nodes small =
      (nodes, node, refl, record { each = λ j p. absurd (omega arith) }, λ i p. refl)
  write_shards_lem (s ∷ ss) node stripe nodes small =
      let (n, written) = write_shard_lem layer node stripe s nodes (small 0 (omega arith)) in
      let nodes1 = put_file node stripe (stored layer s) nodes in
      let (nodes', n', rest, holds, below) =
        write_shards_lem ss (suc node) stripe nodes1 (λ j p. small (suc j) (omega arith)) in
      (
        nodes',
        n',
        ap (λ r. and_then r (λ nodes'. write_shards layer (suc node) stripe ss nodes')) written
            ∙ rest,
        record {
          each =
              first_and_rest nodes' holds
                (below node (omega arith) ∙ put_file_here node stripe (stored layer s) nodes);
        },
        λ i p. below i (omega arith) ∙ put_file_below node stripe i (stored layer s) nodes p,
      )
    where
      first_and_rest :
          (nodes' : Nodes)
          → Holds (suc node) stripe ss nodes'
          → nodes' node stripe ≡ some (stored layer s)
          → (j : ℕ) → j < suc (length ss)
          → nodes' (node + j) stripe ≡ some (stored layer (get_or (s ∷ ss) j []))
      first_and_rest nodes' holds first zero p = let e : node + 0 ≡ node = omega arith in rw e first
      first_and_rest nodes' holds first (suc j) p =
          let e : node + suc j ≡ suc node + j = omega arith in rw e (holds.each j (omega arith))

  -- What `write` leaves, where `encode` does not fail.
  pub write_lem :
      (rs : ReedSolomon) (stripe : ℕ) (contents : List ℕ) (nodes : Nodes) (parity : List (List ℕ))
      → encode rs (data_shards rs.k contents) ≡ some parity
      → ((j : ℕ)
          → j < length (data_shards rs.k contents ++ parity)
          → length (get_or (data_shards rs.k contents ++ parity) j []) ≤ 2 ^ 64)
      → (nodes' : Nodes) × (n : ℕ) × (write layer rs stripe contents nodes ≡ some (nodes', ok n))
        × Holds 0 stripe (data_shards rs.k contents ++ parity) nodes'
  unfolding write
  write_lem rs stripe contents nodes parity encoded small =
      let ds = data_shards rs.k contents in
      let count : length ds ≡ rs.k = length-tabulate rs.k _ in
      let total = length-append ds parity in
      let (nodes1, n1, first, holds1, below1) =
        write_shards_lem ds 0 stripe nodes
          (λ j p. rw⁻¹ (get_or-append_left ds parity j [] p) (small j (omega arith))) in
      let (nodes2, n2, second, holds2, below2) =
        write_shards_lem parity rs.k stripe nodes1 (λ j p.
          rw⁻¹ (get_or-append_right ds parity j []) (small (length ds + j) (omega arith))) in
      (
        nodes2,
        n2,
        rw (write, encoded)
            (ap some (
              ap (λ r. and_then r (λ nodes'. write_shards layer rs.k stripe parity nodes')) first
              ∙ second)),
        record {
          each = λ j p. elim (Bool-cases (ltb j (length ds))) [
            | inl lower ↦
                let h : j < length ds = ground arith in
                let e : 0 + j ≡ j = omega arith in
                below2 (0 + j) (omega arith)
                ∙ holds1.each j h
                ∙ ap (λ s. some (stored layer s)) (sym (get_or-append_left ds parity j [] h))
            | inr upper ↦
                let h : length ds ≤ j = ground arith in
                let e : 0 + j ≡ rs.k + (j - length ds) = omega arith in
                let f : length ds + (j - length ds) ≡ j = omega arith in
                rw e (holds2.each (j - length ds) (omega arith))
                ∙ ap (λ s. some (stored layer s))
                    (sym (get_or-append_right ds parity (j - length ds) [])
                      ∙ ap (λ i. get_or (ds ++ parity) i []) f)
          ];
        },
      )
