-- ===== src/Base/Loops.antt =====
-- The `for` loops over a range, and their rule.
use Prim.Native.Nat.{ℕ, zero, suc, ◌<◌}
use mathlib.Core.Path.{◌≡◌, refl, ap}
use mathlib.Core.List.{List, [], ◌∷◌}
use native.Mathlib.Omega.{arith}
use shard_vault.Base.Lists.{length, get_or}

-- `for i in 0..n { body }`, on the state that the body changes.
unfoldable pub for_range {ℓ} : {S : Type ℓ} → ℕ → (ℕ → S → S) → S → S
for_range zero body s = s
for_range (suc n) body s = body n (for_range n body s)

-- What holds before the loop, and is kept by each round from `i` to `i + 1`, holds behind it.
pub for_range_inv {ℓ κ} :
    {S : Type ℓ} (P : ℕ → S → Type κ) (n : ℕ) (body : ℕ → S → S) (s : S)
    → P 0 s
    → ((i : ℕ) (t : S) → i < n → P i t → P (suc i) (body i t))
    → P n (for_range n body s)
unfolding for_range
for_range_inv P zero body s start keep = start
for_range_inv P (suc n) body s start keep =
    keep n (for_range n body s) (omega arith)
      (for_range_inv P n body s start (λ i t p. keep i t (omega arith)))

-- A vector of which each slot is written once, from its index.
unfoldable pub tabulate {ℓ} : {A : Type ℓ} → ℕ → (ℕ → A) → List A
tabulate zero f = []
tabulate (suc n) f = f 0 ∷ tabulate n (λ i. f (suc i))

pub length-tabulate {ℓ} : {A : Type ℓ} (n : ℕ) (f : ℕ → A) → length (tabulate n f) ≡ n
unfolding tabulate
length-tabulate zero f = refl
length-tabulate (suc n) f = ap suc (length-tabulate n (λ i. f (suc i)))

pub get_or-tabulate {ℓ} :
    {A : Type ℓ} (n : ℕ) (f : ℕ → A) (i : ℕ) (d : A) → i < n → get_or (tabulate n f) i d ≡ f i
unfolding tabulate
get_or-tabulate zero f i d h = absurd (omega arith)
get_or-tabulate (suc n) f zero d h = refl
get_or-tabulate (suc n) f (suc i) d h = get_or-tabulate n (λ i. f (suc i)) i d (omega arith)
