-- ===== src/Stripe/Losses.antt =====
-- The shards that can still be read after files were lost.
use shard_vault.Base.{
  ℕ, ◌+◌, ◌^◌, ◌≤◌, ◌<◌, ◌≡◌, sym, ap, ◌∙◌, refl, zero, suc, Bool, true, false, Bool-cases,
  if◌then◌else◌, ◌⊎◌, inl, inr, Option, none, List, [], length, get_or, tabulate, length-tabulate,
  get_or-tabulate, err, StoreError, arith,
}
use shard_vault.Block.Layer.{BlockLayer}
use shard_vault.Rs.Coder.{ReedSolomon}
use shard_vault.Rs.Rebuild.{is_some_at, indices}
use shard_vault.Rs.Recover.{IsErasure, survivor_count}
use shard_vault.Stripe.Shard.{Nodes, read_shard}
use shard_vault.Stripe.Damage.{Damaged, read_shard-Damaged}
use shard_vault.Stripe.Stripes.{ok_value}
use shard_vault.Stripe.Files.{read_shard-stored}
use shard_vault.Stripe.Written.{Holds}

-- How many of `left` nodes from `i` on are marked.
abbrev pub intact_count : (ℕ → Bool) → ℕ → ℕ → ℕ
intact_count intact zero i = 0
intact_count intact (suc left) i = (if intact i then 1 else 0) + intact_count intact left (suc i)

length-indices :
    (test intact : ℕ → Bool) (left i : ℕ)
    → ((j : ℕ) → j < i + left → test j ≡ intact j)
    → length (indices test left i) ≡ intact_count intact left i
unfolding indices
length-indices test intact zero i same = refl
length-indices test intact (suc left) i same =
    let here = same i (omega arith) in
    let rest = length-indices test intact left (suc i) (λ j p. same j (omega arith)) in
    elim (Bool-cases (intact i)) [
      | inl marked ↦ rw (here, marked) (omega (arith, rest))
      | inr unmarked ↦ rw (here, unmarked) (omega (arith, rest))
    ]

module _ (layer : BlockLayer) where
  -- A file that is marked intact is as it was, and any other is damaged.
  abbrev pub FileFate : Option (List ℕ) → Option (List ℕ) → Bool → Type 0
  FileFate before after true = after ≡ before
  FileFate before after false = Damaged layer after

  -- The shards that can still be read, each at its node.
  abbrev pub readable : ReedSolomon → ℕ → Nodes → List (Option (List ℕ))
  readable rs stripe nodes =
      tabulate (rs.k + rs.m) (λ node. ok_value (read_shard layer node stripe nodes))

  -- A node's file is as it was, or cannot be read.
  abbrev KeptOrLost : ℕ → Nodes → Nodes → ℕ → Type 0
  KeptOrLost stripe before after i =
      (after i stripe ≡ before i stripe)
      ⊎ ((e : StoreError) × (read_shard layer i stripe after ≡ err e))

  pub FileFate-KeptOrLost :
      (stripe : ℕ) (before after : Nodes) (i : ℕ) (kept : Bool)
      → FileFate (before i stripe) (after i stripe) kept
      → KeptOrLost stripe before after i
  FileFate-KeptOrLost stripe before after i true same = inl same
  FileFate-KeptOrLost stripe before after i false damaged =
      inr (read_shard-Damaged layer i stripe after damaged)

  pub readable-IsErasure :
      (rs : ReedSolomon) (stripe len : ℕ) (nodes after : Nodes) (shards : List (List ℕ))
      → length shards ≡ rs.k + rs.m
      → ((i : ℕ) → i < rs.k + rs.m → length (get_or shards i []) ≡ len)
      → 1 ≤ len
      → len ≤ 2 ^ 64
      → Holds layer 0 stripe shards nodes
      → ((i : ℕ) → i < rs.k + rs.m → KeptOrLost stripe nodes after i)
      → IsErasure (rs.k + rs.m) (λ i. get_or shards i []) (readable rs stripe after)
  readable-IsErasure rs stripe len nodes after shards count sizes some_bytes small holds fate =
      record {
        count = length-tabulate (rs.k + rs.m) _;
        each = λ i p.
            rw
              (get_or-tabulate (rs.k + rs.m) (λ node. ok_value (read_shard layer node stripe after))
                i none p)
              (elim (fate i p) [
                | inr (e, lost) ↦ inl (ap ok_value lost)
                | inl kept ↦
                    let e : 0 + i ≡ i = omega arith in
                    let there =
                      ap (λ j. nodes j stripe) (sym e) ∙ holds.each i (omega (arith, count)) in
                    let size = sizes i p in
                    inr (
                      ap ok_value (
                        read_shard-stored layer i stripe (get_or shards i []) after (omega arith)
                          (omega arith) (kept ∙ there)))
              ]);
      }

  -- The shards that can be read are those whose files are marked intact.
  pub survivor_count-readable :
      (rs : ReedSolomon) (stripe len : ℕ) (nodes after : Nodes) (shards : List (List ℕ))
      (intact : ℕ → Bool)
      → length shards ≡ rs.k + rs.m
      → ((i : ℕ) → i < rs.k + rs.m → length (get_or shards i []) ≡ len)
      → 1 ≤ len
      → len ≤ 2 ^ 64
      → Holds layer 0 stripe shards nodes
      → ((i : ℕ) → i < rs.k + rs.m → FileFate (nodes i stripe) (after i stripe) (intact i))
      → survivor_count (rs.k + rs.m) (readable rs stripe after)
        ≡ intact_count intact (rs.k + rs.m) 0
  unfolding is_some_at
  survivor_count-readable rs stripe len nodes after shards intact count sizes some_bytes small holds
        fate =
      length-indices (is_some_at (readable rs stripe after)) intact (rs.k + rs.m) 0 (λ i p.
        let at =
          get_or-tabulate (rs.k + rs.m) (λ node. ok_value (read_shard layer node stripe after)) i
            none (omega arith) in
        same i (intact i) (omega arith) at refl (fate i (omega arith)))
    where
      same :
          (i : ℕ) (kept : Bool)
          → i < rs.k + rs.m
          → get_or (readable rs stripe after) i none ≡ ok_value (read_shard layer i stripe after)
          → intact i ≡ kept
          → FileFate (nodes i stripe) (after i stripe) kept
          → is_some_at (readable rs stripe after) i ≡ intact i
      same i false p at is damaged =
          let (e, lost) = read_shard-Damaged layer i stripe after damaged in
          rw (is_some_at, at, lost, is) refl
      same i true p at is kept =
          let e : 0 + i ≡ i = omega arith in
          let there = ap (λ j. nodes j stripe) (sym e) ∙ holds.each i (omega (arith, count)) in
          let size = sizes i p in
          let whole =
            read_shard-stored layer i stripe (get_or shards i []) after (omega arith) (omega arith)
              (kept ∙ there) in
          rw (is_some_at, at, whole, is) refl
