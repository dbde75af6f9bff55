-- ===== src/Gf/Field.antt =====
-- The multiplicative laws of GF(2^8), from the logarithms.
use shard_vault.Base.{
  ℕ, zero, suc, ◌+◌, ◌-◌, ◌%◌, ◌<◌, ◌≡◌, refl, sym, ap, ◌∙◌, arith, IsByte, ltb, Bool-cases, inl,
  inr,
}
use native.Mathlib.Nat.{add_comm}
use shard_vault.Gf.Tables.{exp_at, log_at, mul, inv}
use shard_vault.Gf.Checks.{
  exp_at-lt, exp_at-log_at, log_at-lt, log_at-exp_at, exp_at-pos, exp_at-wrap,
}

-- The table is read below 510, where it has period 255.
pub exp_at-mod : (n : ℕ) → n < 510 → exp_at n ≡ exp_at (n % 255)
exp_at-mod n h = elim (Bool-cases (ltb n 255)) [
  | inl low ↦ ap exp_at (ground arith)
  | inr high ↦
      let back : n ≡ 255 + (n - 255) = ground arith in
      let rest : n - 255 ≡ n % 255 = ground arith in
      ap exp_at back ∙ exp_at-wrap (n - 255) (omega arith) ∙ ap exp_at rest
]

pub mul-zero_left : (b : ℕ) → mul 0 b ≡ 0
unfolding mul
mul-zero_left b = refl

pub mul-zero_right : (a : ℕ) → mul a 0 ≡ 0
unfolding mul
mul-zero_right a = ground arith

pub mul_pos : (a b : ℕ) → 0 < a → 0 < b → mul a b ≡ exp_at (log_at a + log_at b)
unfolding mul
mul_pos a b ha hb = ground arith

pub mul-IsByte : (a b : ℕ) → IsByte a → IsByte b → IsByte (mul a b)
mul-IsByte zero b ha hb = rw mul-zero_left (omega arith)
mul-IsByte (suc a) zero ha hb = rw mul-zero_right (omega arith)
mul-IsByte (suc a) (suc b) ha hb =
    rw (mul_pos (suc a) (suc b) (omega arith) (omega arith))
      (exp_at-lt _ (omega (arith, log_at-lt (suc a), log_at-lt (suc b))))

-- Multiplication commutes.
pub mul_comm : (a b : ℕ) → mul a b ≡ mul b a
unfolding mul
mul_comm a b = ground (arith, add_comm (log_at a) (log_at b))

log_at-mul :
    (a b : ℕ)
    → 0 < a
    → 0 < b
    → IsByte a
    → IsByte b
    → (log_at (mul a b) ≡ (log_at a + log_at b) % 255) × (0 < mul a b)
log_at-mul a b pa pb ha hb =
    let s = log_at a + log_at b in
    let small : s < 510 = omega (arith, log_at-lt a pa ha, log_at-lt b pb hb) in
    let e : mul a b ≡ exp_at (s % 255) = mul_pos a b pa pb ∙ exp_at-mod s small in
    rw e (log_at-exp_at (s % 255) (omega arith), exp_at-pos (s % 255) (omega arith))

-- Multiplication of bytes is associative.
pub mul_assoc : (a b c : ℕ) → IsByte a → IsByte b → IsByte c → mul (mul a b) c ≡ mul a (mul b c)
mul_assoc zero b c ha hb hc = simp mul-zero_left
mul_assoc (suc a) zero c ha hb hc = simp (mul-zero_left, mul-zero_right)
mul_assoc (suc a) (suc b) zero ha hb hc = simp mul-zero_right
mul_assoc (suc a) (suc b) (suc c) ha hb hc =
    let (lab, pab) = log_at-mul (suc a) (suc b) (omega arith) (omega arith) ha hb in
    let (lbc, pbc) = log_at-mul (suc b) (suc c) (omega arith) (omega arith) hb hc in
    let la = log_at-lt (suc a) (omega arith) ha in
    let lc = log_at-lt (suc c) (omega arith) hc in
    mul_pos (mul (suc a) (suc b)) (suc c) pab (omega arith)
    ∙ exp_at-mod (log_at (mul (suc a) (suc b)) + log_at (suc c)) (omega arith)
    ∙ ap exp_at (omega arith)
    ∙ sym (exp_at-mod (log_at (suc a) + log_at (mul (suc b) (suc c))) (omega arith))
    ∙ sym (mul_pos (suc a) (mul (suc b) (suc c)) (omega arith) pbc)

pub exp_zero : exp_at 0 ≡ 1
unfolding exp_at
exp_zero = refl

log_one : log_at 1 ≡ 0
log_one = ap log_at (sym exp_zero) ∙ log_at-exp_at 0 (omega arith)

-- One is neutral.
pub mul_one : (a : ℕ) → IsByte a → mul 1 a ≡ a
mul_one zero h = mul-zero_right 1
mul_one (suc a) h =
    mul_pos 1 (suc a) (omega arith) (omega arith)
    ∙ ap exp_at (omega (arith, log_one))
    ∙ exp_at-log_at (suc a) (omega arith) h

inv_pos : (a : ℕ) → 0 < a → inv a ≡ exp_at (255 - log_at a)
unfolding inv
inv_pos a h = ground arith

-- `inv` gives the inverse of every byte but 0, and a byte.
pub mul-inv : (a : ℕ) → 0 < a → IsByte a → (mul a (inv a) ≡ 1) × IsByte (inv a)
mul-inv a p h =
    let la = log_at-lt a p h in
    let k = (255 - log_at a) % 255 in
    let e : inv a ≡ exp_at k = inv_pos a p ∙ exp_at-mod (255 - log_at a) (omega arith) in
    let back : (log_at a + k) % 255 ≡ 0 = omega arith in
    let lk : log_at (exp_at k) ≡ k = log_at-exp_at k (omega arith) in
    (
      rw e (
          mul_pos a (exp_at k) p (exp_at-pos k (omega arith))
          ∙ exp_at-mod (log_at a + log_at (exp_at k)) (omega arith)
          ∙ ap exp_at (omega arith)
          ∙ exp_zero),
      rw e (exp_at-lt k (omega arith)),
    )
