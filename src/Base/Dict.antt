-- ===== src/Base/Dict.antt =====
-- `HashMap` as an association list with one entry per key. The order of its entries stands for the
-- order in which an iteration visits them.
use Prim.Native.Nat.{ℕ}
use mathlib.Core.Path.{◌≡◌, refl, sym, ap, ◌∙◌}
use mathlib.Core.Logic.{◌↔◌}
use mathlib.Core.List.{List, [], ◌∷◌}
use mathlib.Core.Bool.{Bool, true, false}
use mathlib.Core.Option.{Option, none, some}
use native.Mathlib.Omega.{arith}
use shard_vault.Base.Lists.{All}
use mathlib.Core.Logic.{inl, inr}
use shard_vault.Base.Tests.{◌==◌, ==_iff, if◌then◌else◌, Bool-cases}
use shard_vault.Base.Utf8.{Text, text_eq, text_eq_iff}

pub record Key (K : Type 0) : Type 0 where
  pub same : K → K → Bool
  pub same_iff : (a b : K) → (same a b ≡ true) ↔ (a ≡ b)

instance abbrev pub ℕ-Key : Key ℕ
ℕ-Key = record { same = ◌==◌; same_iff = ==_iff }

instance abbrev pub Text-Key : Key Text
Text-Key = record { same = text_eq; same_iff = text_eq_iff }

abbrev pub Map : Type 0 → Type 0 → Type 0
Map K V = List (K × V)

module _ {K V : Type 0} where
  abbrev pub empty : Map K V
  empty = []

module _ {K V : Type 0} ⦃key : Key K⦄ where
  unfoldable pub lookup : K → Map K V → Option V
  lookup k [] = none
  lookup k ((j, v) ∷ m) = if key.same j k then some v else lookup k m

  unfoldable pub insert : K → V → Map K V → Map K V
  insert k v [] = (k, v) ∷ []
  insert k v ((j, w) ∷ m) = if key.same j k then (k, v) ∷ m else (j, w) ∷ insert k v m

  unfoldable pub remove : K → Map K V → Map K V
  remove k [] = []
  remove k ((j, w) ∷ m) = let rest = remove k m in if key.same j k then rest else (j, w) ∷ rest

  pub lookup-insert :
      (k j : K) (v : V) (m : Map K V)
      → lookup j (insert k v m) ≡ (if key.same k j then some v else lookup j m)
  unfolding lookup insert
  lookup-insert k j v [] = refl
  lookup-insert k j v ((i, w) ∷ m) =
      ground (arith, key.same_iff k j, key.same_iff i k, key.same_iff i j, lookup-insert k j v m)

  pub lookup-remove :
      (k j : K) (m : Map K V) → lookup j (remove k m) ≡ (if key.same k j then none else lookup j m)
  unfolding lookup remove
  lookup-remove k j [] = ground arith
  lookup-remove k j ((i, w) ∷ m) =
      ground (arith, key.same_iff k j, key.same_iff i k, key.same_iff i j, lookup-remove k j m)

  -- What holds of every entry holds of one that is found.
  pub lookup-All {ℓ} :
      (P : K × V → Type ℓ) (k : K) {v : V} (m : Map K V) → All P m → lookup k m ≡ some v → P (k, v)
  unfolding lookup
  lookup-All P k [] hs e = absurd (cc)
  lookup-All P k {v} ((j, w) ∷ m) (h, hs) e = elim (Bool-cases (key.same j k)) [
    | inl same ↦
        let at : w ≡ v = grind arith in
        let to : j ≡ k = (key.same_iff j k).0 same in rw (← at, ← to) h
    | inr other ↦ lookup-All P k m hs (rw other at e)
  ]

  -- A key stands once.
  abbrev pub IsMap : Map K V → Type 0
  IsMap [] = Unit {0}
  IsMap ((k, v) ∷ m) = (lookup k m ≡ none) × IsMap m

  pub insert-IsMap : (k : K) (v : V) (m : Map K V) → IsMap m → IsMap (insert k v m)
  unfolding insert lookup
  insert-IsMap k v [] h = (refl, tt)
  insert-IsMap k v ((j, w) ∷ m) (new, h) = elim (Bool-cases (key.same j k)) [
    | inl same ↦
        let to : j ≡ k = (key.same_iff j k).0 same in
        let here : lookup k m ≡ none = ap (λ i. lookup i m) (sym to) ∙ new in rw same (here, h)
    | inr other ↦
        let apart : key.same k j ≡ false = ground (arith, key.same_iff k j, key.same_iff j k) in
        let still : lookup j (insert k v m) ≡ none =
          lookup-insert k j v m ∙ ap (λ b. if b then some v else lookup j m) apart ∙ new in
        rw other (still, insert-IsMap k v m h)
  ]

  pub remove-IsMap : (k : K) (m : Map K V) → IsMap m → IsMap (remove k m)
  unfolding remove
  remove-IsMap k [] h = tt
  remove-IsMap k ((j, w) ∷ m) (new, h) = elim (Bool-cases (key.same j k)) [
    | inl same ↦ rw same (remove-IsMap k m h)
    | inr other ↦
        let apart : key.same k j ≡ false = ground (arith, key.same_iff k j, key.same_iff j k) in
        let still : lookup j (remove k m) ≡ none =
          lookup-remove k j m ∙ ap (λ b. if b then none else lookup j m) apart ∙ new in
        rw other (still, remove-IsMap k m h)
  ]

  -- What holds of all that is found holds of every entry.
  pub All-lookup {ℓ} :
      (P : K × V → Type ℓ) (m : Map K V)
      → IsMap m
      → ((k : K) (v : V) → lookup k m ≡ some v → P (k, v))
      → All P m
  unfolding lookup
  All-lookup P [] h hs = tt
  All-lookup P ((j, w) ∷ m) (new, h) hs =
      let same : key.same j j ≡ true = (key.same_iff j j).1 refl in
      (
        hs j w (rw same refl),
        All-lookup P m h (λ k v found. hs k v (elim (Bool-cases (key.same j k)) [
          | inr other ↦ rw other found
          | inl here ↦
              let to : j ≡ k = (key.same_iff j k).0 here in
              let gone : lookup k m ≡ none = ap (λ i. lookup i m) (sym to) ∙ new in absurd (cc)
        ])),
      )
