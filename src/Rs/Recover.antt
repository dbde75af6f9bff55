-- ===== src/Rs/Recover.antt =====
-- `reconstruct` brings back every lost shard, as long as `k` of them are left.
use shard_vault.Base.{
  ℕ, zero, suc, ◌+◌, ◌<◌, ◌≤◌, ◌≡◌, refl, sym, ap, ◌∙◌, true, false, not, ◌⊎◌, inl, inr, Option,
  none, some, List, [], ◌∷◌, length, get_or, set, get_or_ext, get_or-set, length-set, take,
  tabulate, length-tabulate, get_or-tabulate, ltb, ◌==◌, ==_iff, Bool-cases, if◌then◌else◌, arith,
}
use shard_vault.Matrix.Dense.{Matrix, select_rows}
use shard_vault.Matrix.Invert.{invert}
use shard_vault.Matrix.Inverse.{Inverts}
use shard_vault.Matrix.Powers.{IsChoice}
use shard_vault.Matrix.Systematic.{IsEncoder, chosen-invert}
use shard_vault.Rs.Coder.{ReedSolomon}
use shard_vault.Rs.Rebuild.{
  EcError, Rebuilt, ok, err, is_some_at, shard_at, indices, any_other_length, coefficients,
  rebuild_shard, rebuild_all, rebuild_from, reconstruct,
}
use shard_vault.Rs.Encode.{IsCoder}
use shard_vault.Rs.Word.{IsCodeword}
use shard_vault.Rs.Survivors.{indices-IsIndices, indices_complete, take-IsChoice}
use shard_vault.Rs.Rebuilding.{rebuild_shard_lem}

-- Some of the shards, each as it was.
pub record IsErasure (n : ℕ) (word : ℕ → List ℕ) (shards : List (Option (List ℕ))) : Type 0 where
  pub count : length shards ≡ n
  pub each :
      (i : ℕ) → i < n → (get_or shards i none ≡ none) ⊎ (get_or shards i none ≡ some (word i))

-- The shards all there.
abbrev pub complete : ℕ → (ℕ → List ℕ) → List (Option (List ℕ))
complete n word = tabulate n (λ i. some (word i))

-- A shard that is there is the one that was there.
held :
    {n : ℕ} {word : ℕ → List ℕ} (shards : List (Option (List ℕ))) (i : ℕ)
    → IsErasure n word shards
    → i < n
    → is_some_at shards i ≡ true
    → get_or shards i none ≡ some (word i)
unfolding is_some_at
held shards i valid h there = elim (valid.each i h) [
  | inl lost ↦ let missing : is_some_at shards i ≡ false = rw (is_some_at, lost) refl in cc
  | inr kept ↦ kept
]

not_held :
    {n : ℕ} {word : ℕ → List ℕ} (shards : List (Option (List ℕ))) (i : ℕ)
    → IsErasure n word shards
    → i < n
    → (get_or shards i none ≡ some (word i)) ⊎ (not (is_some_at shards i) ≡ true)
unfolding is_some_at
not_held shards i valid h = elim (valid.each i h) [
  | inl lost ↦ inr (rw (is_some_at, lost) refl)
  | inr kept ↦ inl kept
]

shard_at-some :
    (shards : List (Option (List ℕ))) (i : ℕ) (s : List ℕ)
    → get_or shards i none ≡ some s
    → shard_at shards i ≡ s
unfolding shard_at
shard_at-some shards i s e = rw (shard_at, e) refl

any_other_length_lem :
    (len : ℕ) (shards : List (Option (List ℕ))) (survivors : List ℕ)
    → ((r : ℕ) → r < length survivors → length (shard_at shards (get_or survivors r 0)) ≡ len)
    → any_other_length shards len survivors ≡ false
unfolding any_other_length
any_other_length_lem len shards [] e = refl
any_other_length_lem len shards (i ∷ is) e =
    let here : (length (shard_at shards i) == len) ≡ true =
      let same = e 0 (omega arith) in ground arith in
    rw here (any_other_length_lem len shards is (λ r p. e (suc r) (omega arith)))

module _ {n k len : ℕ} (rs : ReedSolomon) (u : Matrix) (word : ℕ → List ℕ) (survivors : List ℕ)
    (counted : rs.k ≡ k) (encodes : IsEncoder n k rs.encode_matrix)
    (code : IsCodeword n k len rs.encode_matrix word) (count : length survivors ≡ k)
    (choice : IsChoice n k (λ r. get_or survivors r 0))
    (inverse : Inverts k (select_rows k (λ r. get_or survivors r 0) rs.encode_matrix) u) where
  fresh :
      (shards : List (Option (List ℕ))) (mi : ℕ)
      → mi < length shards
      → get_or (set shards mi (some (word mi))) mi none ≡ some (word mi)
  fresh shards mi h =
      let here : (mi == mi) ≡ true = ground arith in
      get_or-set shards mi mi (some (word mi)) none h ∙ rw here refl

  keep :
      (shards : List (Option (List ℕ))) (mi : ℕ)
      → mi < length shards
      → (i : ℕ) → get_or shards i none ≡ some (word i)
      → get_or (set shards mi (some (word mi))) i none ≡ some (word i)
  keep shards mi h i e =
      get_or-set shards mi i (some (word mi)) none h ∙ (elim (Bool-cases (i == mi)) [
        | inl at ↦ rw at (ap (λ j. some (word j)) (sym ((==_iff i mi).0 at)))
        | inr off ↦ rw off e
      ])

  -- The loop puts the lost shards back, and leaves those that are there.
  rebuild_all_lem :
      (missing : List ℕ) (shards : List (Option (List ℕ)))
      → length shards ≡ n
      → ((r : ℕ) → r < length missing → get_or missing r 0 < n)
      → ((r : ℕ)
          → r < k
          → get_or shards (get_or survivors r 0) none ≡ some (word (get_or survivors r 0)))
      → (length (rebuild_all rs u survivors len missing shards) ≡ n)
        × ((i : ℕ)
            → get_or shards i none ≡ some (word i)
            → get_or (rebuild_all rs u survivors len missing shards) i none ≡ some (word i))
        × ((r : ℕ)
            → r < length missing
            → get_or (rebuild_all rs u survivors len missing shards) (get_or missing r 0) none
              ≡ some (word (get_or missing r 0)))
  unfolding rebuild_all
  rebuild_all_lem [] shards size within there = (size, λ i e. e, λ r p. absurd (omega arith))
  rebuild_all_lem (mi ∷ missing) shards size within there =
      let hm = within 0 (omega arith) in
      let rebuilt : rebuild_shard (coefficients rs.k rs.encode_matrix u mi) survivors len shards
          ≡ word mi =
        rw counted (
          rebuild_shard_lem rs.encode_matrix u word survivors encodes code count choice inverse mi
            shards hm (λ r p. shard_at-some shards (get_or survivors r 0) _ (there r p))) in
      let next = set shards mi (some (word mi)) in
      let kept = keep shards mi (rw size hm) in
      let (size', keeps, puts) =
        rebuild_all_lem missing next (length-set shards mi (some (word mi)) ∙ size)
          (λ r p. within (suc r) (omega arith)) (λ r p. kept (get_or survivors r 0) (there r p)) in
      rw rebuilt (
        size',
        λ i e. keeps i (kept i e),
        back missing (rebuild_all rs u survivors len missing next)
            (keeps mi (fresh shards mi (rw size hm))) puts,
      )
    where
      -- The first of the missing shards, and the others.
      back :
          (missing : List ℕ) (result : List (Option (List ℕ)))
          → get_or result mi none ≡ some (word mi)
          → ((r : ℕ)
              → r < length missing
              → get_or result (get_or missing r 0) none ≡ some (word (get_or missing r 0)))
          → (r : ℕ) → r < length (mi ∷ missing)
          → get_or result (get_or (mi ∷ missing) r 0) none ≡ some (word (get_or (mi ∷ missing) r 0))
      back missing result first others zero p = first
      back missing result first others (suc r) p = others r (omega arith)

  -- All of them are back.
  rebuild_all-complete :
      (shards : List (Option (List ℕ)))
      → IsErasure n word shards
      → ((r : ℕ)
          → r < k
          → get_or shards (get_or survivors r 0) none ≡ some (word (get_or survivors r 0)))
      → rebuild_all rs u survivors len (indices (λ i. not (is_some_at shards i)) n 0) shards
        ≡ complete n word
  rebuild_all-complete shards valid there =
      let test = λ (i : ℕ). not (is_some_at shards i) in
      let missing = indices test n 0 in
      let is = indices-IsIndices test n 0 in
      let result = rebuild_all rs u survivors len missing shards in
      let (size, keeps, puts) =
        rebuild_all_lem missing shards valid.count (λ r p. let b = is.below r p in omega arith)
          there in
      get_or_ext result (complete n word) none (size ∙ sym (length-tabulate n (λ i. some (word i))))
        (λ i p.
          let h : i < n = omega (arith, size) in
          (elim (not_held shards i valid h) [
            | inl there ↦ keeps i there
            | inr lost ↦
                let (r, q, e) = indices_complete test n 0 i (omega arith) (omega arith) lost in
                rw⁻¹ e (puts r q)
          ])
          ∙ sym (get_or-tabulate n (λ i. some (word i)) i none h))

-- The survivors that `reconstruct` counts.
abbrev pub survivor_count : ℕ → List (Option (List ℕ)) → ℕ
survivor_count n shards = length (indices (is_some_at shards) n 0)

-- The two functions with the numbers that they read from `self` taken out.
abbrev rebuilt_by : ReedSolomon → List (Option (List ℕ)) → List ℕ → ℕ → ℕ → ℕ → Rebuilt
rebuilt_by rs shards survivors shard_len k n =
    if any_other_length shards shard_len survivors
    then err EcError.inconsistent_shards
    else elim (invert (select_rows k (λ r. get_or survivors r 0) rs.encode_matrix)) [
      | none ↦ err EcError.inconsistent_shards
      | some inv ↦ ok (
          rebuild_all rs inv survivors shard_len (indices (λ i. not (is_some_at shards i)) n 0)
            shards)
    ]

abbrev answered : ReedSolomon → List (Option (List ℕ)) → ℕ → ℕ → Rebuilt
answered rs shards k n =
    if not (length shards == n)
    then err EcError.inconsistent_shards
    else if ltb (survivor_count n shards) k
    then err EcError.too_few_shards
    else rebuild_from rs (take k (indices (is_some_at shards) n 0)) shards

module _ {k m len : ℕ} (rs : ReedSolomon) (word : ℕ → List ℕ) (shards : List (Option (List ℕ)))
    (coder : IsCoder k m rs) (hk : 1 ≤ k) (code : IsCodeword (k + m) k len rs.encode_matrix word)
    (valid : IsErasure (k + m) word shards) where
  rebuild_from_lem :
      k ≤ survivor_count (k + m) shards
      → rebuild_from rs (take k (indices (is_some_at shards) (k + m) 0)) shards
        ≡ ok (complete (k + m) word)
  unfolding rebuild_from
  rebuild_from_lem enough =
      let survivors = take k (indices (is_some_at shards) (k + m) 0) in
      let (count, choice, passed) = take-IsChoice (is_some_at shards) (k + m) k enough in
      let there = λ (r : ℕ) (p : r < k).
        held shards (get_or survivors r 0) valid (choice.within r p) (passed r p) in
      let sizes = λ (r : ℕ) (p : r < k).
        ap length
          (shard_at-some shards (get_or survivors r 0) (word (get_or survivors r 0)) (there r p))
        ∙ code.sizes (get_or survivors r 0) (choice.within r p) in
      let same = any_other_length_lem len shards survivors (λ r p. sizes r (rw⁻¹ count p)) in
      let (u, is, inverse) =
        chosen-invert rs.encode_matrix (λ r. get_or survivors r 0) coder.encodes choice in
      let first : length (shard_at shards (get_or survivors 0 0)) ≡ len = sizes 0 hk in
      let by = rebuilt_by rs shards survivors in
      ap (λ l. by l rs.k (rs.k + rs.m)) first
      ∙ ap (λ a. by len a (a + rs.m)) coder.data_count
      ∙ ap (λ b. by len k (k + b)) coder.parity_count
      ∙ rw (same, is)
          (ap ok (
            rebuild_all-complete rs u word survivors coder.data_count coder.encodes code count
              choice inverse shards valid there))

  -- What `reconstruct` answers: the shards as they were, or that too few are left.
  pub reconstruct-answer : reconstruct rs shards ≡ (
      if ltb (survivor_count (k + m) shards) k
      then err EcError.too_few_shards
      else ok (complete (k + m) word))
  unfolding reconstruct
  reconstruct-answer =
      let sized : (length shards == k + m) ≡ true = let e = valid.count in ground arith in
      ap (λ a. answered rs shards a (a + rs.m)) coder.data_count
      ∙ ap (λ b. answered rs shards k (k + b)) coder.parity_count
      ∙ rw sized (elim (Bool-cases (ltb (survivor_count (k + m) shards) k)) [
        | inl few ↦ rw few refl
        | inr enough ↦ rw enough (rebuild_from_lem (ground arith))
      ])
