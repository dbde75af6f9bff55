-- ===== src/Gf/Xor.antt =====
-- Addition of bytes is a group in which every byte is its own inverse: from one step on the lowest
-- digit, checked at every pair of bytes.
use shard_vault.Base.{
  ℕ, zero, suc, ◌+◌, ◌*◌, ◌/◌, ◌%◌, ◌≤◌, ◌<◌, ◌≡◌, refl, sym, ap, ◌∙◌, bit_xor, ◌==◌, ==_iff, true,
  ◌&&◌, arith,
}
use shard_vault.Gf.Checks.{every, every-holds, both, xor-lt}

step_table :
    every (λ a. every (λ b. bit_xor a b == bit_xor (a / 2) (b / 2) * 2 + (a + b) % 2) 256) 256
    ≡ true
unfolding every
step_table = refl

xor_step : (a b : ℕ) → a < 256 → b < 256 → bit_xor a b ≡ bit_xor (a / 2) (b / 2) * 2 + (a + b) % 2
xor_step a b ha hb =
    (==_iff (bit_xor a b) _).0 (every-holds _ b 256 hb (every-holds _ a 256 ha step_table))

xor_half : (a b : ℕ) → a < 256 → b < 256 → bit_xor a b / 2 ≡ bit_xor (a / 2) (b / 2)
xor_half a b ha hb = omega (arith, xor_step a b ha hb)

xor_assoc_below :
    (n a b c : ℕ)
    → n < 256
    → a ≤ n
    → b ≤ n
    → c ≤ n
    → bit_xor (bit_xor a b) c ≡ bit_xor a (bit_xor b c)
xor_assoc_below zero zero zero zero hn ha hb hc = refl
xor_assoc_below zero (suc a) b c hn ha hb hc = absurd (omega arith)
xor_assoc_below zero zero (suc b) c hn ha hb hc = absurd (omega arith)
xor_assoc_below zero zero zero (suc c) hn ha hb hc = absurd (omega arith)
xor_assoc_below (suc n) a b c hn ha hb hc =
    let lab = xor-lt a b (omega arith) (omega arith) in
    let lbc = xor-lt b c (omega arith) (omega arith) in
    let halves =
      ap (λ x. bit_xor x (c / 2)) (xor_half a b (omega arith) (omega arith))
      ∙ xor_assoc_below n (a / 2) (b / 2) (c / 2) (omega arith) (omega arith) (omega arith)
          (omega arith)
      ∙ ap (bit_xor (a / 2)) (sym (xor_half b c (omega arith) (omega arith))) in
    omega (
      arith,
      halves,
      xor_step a b (omega arith) (omega arith),
      xor_step b c (omega arith) (omega arith),
      xor_step (bit_xor a b) c lab (omega arith),
      xor_step a (bit_xor b c) (omega arith) lbc,
    )

pub xor_assoc :
    (a b c : ℕ) → a < 256 → b < 256 → c < 256 → bit_xor (bit_xor a b) c ≡ bit_xor a (bit_xor b c)
xor_assoc a b c ha hb hc =
    xor_assoc_below 255 a b c (omega arith) (omega arith) (omega arith) (omega arith)

xor_comm_below : (n a b : ℕ) → n < 256 → a ≤ n → b ≤ n → bit_xor a b ≡ bit_xor b a
xor_comm_below zero zero zero hn ha hb = refl
xor_comm_below zero (suc a) b hn ha hb = absurd (omega arith)
xor_comm_below zero zero (suc b) hn ha hb = absurd (omega arith)
xor_comm_below (suc n) a b hn ha hb = omega (
  arith,
  xor_comm_below n (a / 2) (b / 2) (omega arith) (omega arith) (omega arith),
  xor_step a b (omega arith) (omega arith),
  xor_step b a (omega arith) (omega arith),
)

pub xor_comm : (a b : ℕ) → a < 256 → b < 256 → bit_xor a b ≡ bit_xor b a
xor_comm a b ha hb = xor_comm_below 255 a b (omega arith) (omega arith) (omega arith)

self_table : every (λ a. (bit_xor a a == 0) && (bit_xor a 0 == a)) 256 ≡ true
unfolding every
self_table = refl

pub xor_self : (a : ℕ) → a < 256 → (bit_xor a a ≡ 0) × (bit_xor a 0 ≡ a)
xor_self a ha =
    let (s, z) = both _ _ (every-holds _ a 256 ha self_table) in
    ((==_iff _ 0).0 s, (==_iff _ a).0 z)
