-- ===== src/Stripe/Join.antt =====
-- Placed shards are joined to the data.
use shard_vault.Base.{
  ℕ, zero, suc, ◌+◌, ◌-◌, ◌*◌, ◌%◌, ◌^◌, ◌≤◌, ◌<◌, ◌≡◌, refl, sym, ap, ◌∙◌, Bool, true, false, none,
  some, List, [], ◌∷◌, ◌++◌, length, length-append, length-drop, take, drop, get_or, get_or_ext,
  tabulate, get_or-tabulate, ◌==◌, ltb, Bool-cases, inl, inr, if◌then◌else◌, le_bytes, from_le,
  length-le_bytes, from_le-le_bytes, u64_mod, ok, arith,
}
use shard_vault.Rs.Recover.{complete}
use shard_vault.Stripe.Stripes.{payload_of, join_shards, assemble}
use shard_vault.Stripe.Places.{IsPlaced, get_or-take, get_or-drop, get_or-append, length-take}

length-payload :
    (contents s : List ℕ) (shard_len i : ℕ)
    → IsPlaced contents shard_len i s
    → length (payload_of shard_len i s) ≡ shard_len
length-payload contents s shard_len i placed = elim (Bool-cases (i == 0)) [
  | inl first ↦
      let a = length-drop 8 s in
      let b = placed.size in rw first (length-take shard_len (drop 8 s) ∙ omega arith)
  | inr later ↦ let b = placed.size in rw later (length-take shard_len s ∙ omega arith)
]

get_or-payload :
    (contents s : List ℕ) (shard_len i pos : ℕ)
    → IsPlaced contents shard_len i s
    → pos < shard_len
    → get_or (payload_of shard_len i s) pos 0 ≡ get_or contents (i * shard_len + pos) 0
get_or-payload contents s shard_len i pos placed h =
    let inside : ltb pos shard_len ≡ true = ground arith in sym (shown (i == 0)) ∙ placed.held pos h
  where
    shown :
        (b : Bool)
        → get_or s (if b then 8 + pos else pos) 0
          ≡ get_or (if b then take shard_len (drop 8 s) else take shard_len s) pos 0
    shown true =
        let inside : ltb pos shard_len ≡ true = ground arith in
        sym (get_or-take shard_len pos (drop 8 s) ∙ rw inside (get_or-drop 8 pos s))
    shown false =
        let inside : ltb pos shard_len ≡ true = ground arith in
        sym (get_or-take shard_len pos s ∙ rw inside refl)

-- The loop over `c` shards from shard `i` on.
join_shards_lem :
    (contents : List ℕ) (shard_len c i : ℕ) (word : ℕ → List ℕ)
    → ((j : ℕ) → j < c → IsPlaced contents shard_len (i + j) (word j))
    → (out : List ℕ) × (join_shards shard_len (shard_len + 8) i (tabulate c (λ j. some (word j)))
        ≡ ok out)
      × (length out ≡ c * shard_len)
      × ((pos : ℕ)
          → pos < c * shard_len
          → get_or out pos 0 ≡ get_or contents (i * shard_len + pos) 0)
unfolding join_shards tabulate
join_shards_lem contents shard_len zero i word placed =
    ([], refl, omega arith, λ pos p. absurd (omega arith))
join_shards_lem contents shard_len (suc c) i word placed =
    let i0 : i + 0 ≡ i = omega arith in
    let first : IsPlaced contents shard_len i (word 0) = rw⁻¹ i0 (placed 0 (omega arith)) in
    let (out, joined, size, held) =
      join_shards_lem contents shard_len c (suc i) (λ j. word (suc j))
        (λ j p.
          let e : suc i + j ≡ i + suc j = omega arith in rw e (placed (suc j) (omega arith))) in
    let head = payload_of shard_len i (word 0) in
    let head_size = length-payload contents (word 0) shard_len i first in
    let same : (length (word 0) == shard_len + 8) ≡ true = let e = first.size in ground arith in
    (
      head ++ out,
      rw (same, joined) refl,
      length-append head out ∙ (omega arith),
      λ pos p.
          get_or-append head out pos
          ∙ rw head_size (elim (Bool-cases (ltb pos shard_len)) [
            | inl low ↦
                rw low (get_or-payload contents (word 0) shard_len i pos first (ground arith))
            | inr high ↦
                let e : suc i * shard_len + (pos - shard_len) ≡ i * shard_len + pos =
                  ground arith in
                rw high (held (pos - shard_len) (ground arith) ∙ ap (λ q. get_or contents q 0) e)
          ]),
    )

take-tabulate : {A : Type 0} (k m : ℕ) (f : ℕ → A) → take k (tabulate (k + m) f) ≡ tabulate k f
unfolding tabulate
take-tabulate zero m f = refl
take-tabulate (suc k) m f =
    let e : suc k + m ≡ suc (k + m) = omega arith in
    rw e (ap (◌∷◌ (f 0)) (take-tabulate k m (λ i. f (suc i))))

first_shard :
    (k m : ℕ) (word : ℕ → List ℕ) → 1 ≤ k → get_or (complete (k + m) word) 0 none ≡ some (word 0)
first_shard k m word h = get_or-tabulate (k + m) (λ i. some (word i)) 0 none (omega arith)

length_field :
    (contents s : List ℕ) (shard_len : ℕ)
    → length contents < 2 ^ 64
    → IsPlaced contents shard_len 0 s
    → from_le (take 8 s) ≡ length contents
length_field contents s shard_len h placed =
    let size = placed.size in
    let width = length-le_bytes 8 (length contents) in
    let cut = length-take 8 s in
    ap from_le (
      get_or_ext (take 8 s) (le_bytes 8 (length contents)) 0 (omega arith) (λ pos p.
        let inside : ltb pos 8 ≡ true = ground arith in
        get_or-take 8 pos s ∙ rw inside (placed.front refl pos (omega arith))))
    ∙ from_le-le_bytes 8 (length contents) h

take_prefix :
    (contents out : List ℕ)
    → length contents ≤ length out
    → ((pos : ℕ) → pos < length out → get_or out pos 0 ≡ get_or contents pos 0)
    → take (length contents) out ≡ contents
take_prefix contents out h e =
    let cut = length-take (length contents) out in
    get_or_ext (take (length contents) out) contents 0 (omega arith) (λ pos p.
      let inside : ltb pos (length contents) ≡ true = ground arith in
      get_or-take (length contents) pos out ∙ rw inside (e pos (omega arith)))

pub assemble_lem :
    (contents : List ℕ) (shard_len k m : ℕ) (word : ℕ → List ℕ)
    → 1 ≤ k
    → shard_len * k < 2 ^ 64
    → length contents ≤ shard_len * k
    → ((i : ℕ) → i < k → IsPlaced contents shard_len i (word i))
    → assemble k (complete (k + m) word) ≡ ok contents
unfolding assemble
assemble_lem contents shard_len k m word hk small fits placed =
    let first = placed 0 hk in
    let size = first.size in
    let (out, joined, total, held) =
      join_shards_lem contents shard_len k 0 word
        (λ j p. let e : 0 + j ≡ j = omega arith in rw e (placed j p)) in
    let whole : take (length contents) out ≡ contents =
      take_prefix contents out (omega arith) (λ pos p.
        let e : 0 * shard_len + pos ≡ pos = omega arith in
        held pos (omega arith) ∙ ap (λ q. get_or contents q 0) e) in
    let long : ltb (shard_len + 8) 8 ≡ false = ground arith in
    let len : shard_len + 8 - 8 ≡ shard_len = omega arith in
    let exact : shard_len * k % u64_mod ≡ shard_len * k = omega arith in
    let in_range : ltb (shard_len * k) (length contents) ≡ false = ground arith in
    rw
      (
        assemble,
        first_shard k m word hk,
        size,
        long,
        length_field contents (word 0) shard_len (omega arith) first,
        len,
        exact,
        in_range,
        take-tabulate k m (λ i. some (word i)),
        joined,
        whole,
      )
      refl
