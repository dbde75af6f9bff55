-- ===== src/Gf/Linear.antt =====
-- Multiplication distributes over addition: a power of two doubles that often, and doubling is
-- linear.
use shard_vault.Base.{ℕ, zero, suc, ◌+◌, ◌<◌, ◌≡◌, refl, sym, ap, ◌∙◌, bit_xor, arith, IsByte}
use shard_vault.Gf.Tables.{xtime, exp_at, log_at, add, mul}
use shard_vault.Gf.Checks.{
  exp_at-suc, exp_at-lt, exp_at-pos, exp_at-log_at, log_at-lt, log_at-exp_at, xtime-xor, xor-lt,
}
use shard_vault.Gf.Field.{mul-zero_left, mul-zero_right, mul_pos, mul_one, mul-IsByte, exp_zero}

xtime_zero : xtime 0 ≡ 0
unfolding xtime
xtime_zero = refl

-- The product with the next power is the double.
mul-exp_at-suc : (i b : ℕ) → i < 254 → IsByte b → mul (exp_at (suc i)) b ≡ xtime (mul (exp_at i) b)
mul-exp_at-suc i zero hi hb = simp mul-zero_right (sym xtime_zero)
mul-exp_at-suc i (suc b) hi hb =
    let lb = log_at-lt (suc b) (omega arith) hb in
    let l1 = log_at-exp_at (suc i) (omega arith) in
    let l0 = log_at-exp_at i (omega arith) in
    mul_pos (exp_at (suc i)) (suc b) (exp_at-pos (suc i) (omega arith)) (omega arith)
    ∙ ap exp_at (omega arith)
    ∙ exp_at-suc (log_at (exp_at i) + log_at (suc b)) (omega arith)
    ∙ ap xtime (sym (mul_pos (exp_at i) (suc b) (exp_at-pos i (omega arith)) (omega arith)))

mul-exp_at-xor :
    (i a b : ℕ)
    → i < 255
    → IsByte a
    → IsByte b
    → mul (exp_at i) (bit_xor a b) ≡ bit_xor (mul (exp_at i) a) (mul (exp_at i) b)
mul-exp_at-xor zero a b hi ha hb =
    rw exp_zero (rw (mul_one (bit_xor a b) (xor-lt a b ha hb), mul_one a ha, mul_one b hb))
mul-exp_at-xor (suc i) a b hi ha hb =
    let byte = exp_at-lt i (omega arith) in
    mul-exp_at-suc i (bit_xor a b) (omega arith) (xor-lt a b ha hb)
    ∙ ap xtime (mul-exp_at-xor i a b (omega arith) ha hb)
    ∙ xtime-xor (mul (exp_at i) a) (mul (exp_at i) b) (mul-IsByte _ a byte ha)
        (mul-IsByte _ b byte hb)
    ∙ rw (mul-exp_at-suc i a (omega arith) ha, mul-exp_at-suc i b (omega arith) hb)

-- Multiplication of bytes distributes over addition.
pub mul-add :
    (c a b : ℕ) → IsByte c → IsByte a → IsByte b → mul c (add a b) ≡ add (mul c a) (mul c b)
unfolding add
mul-add zero a b hc ha hb = simp mul-zero_left
mul-add (suc c) a b hc ha hb =
    rw (sym (exp_at-log_at (suc c) (omega arith) hc))
      (mul-exp_at-xor (log_at (suc c)) a b (log_at-lt (suc c) (omega arith) hc) ha hb)

pub add-IsByte : (a b : ℕ) → IsByte a → IsByte b → IsByte (add a b)
unfolding add
add-IsByte = xor-lt
