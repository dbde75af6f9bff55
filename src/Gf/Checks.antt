-- ===== src/Gf/Checks.antt =====
-- Facts about the tables, each checked at every index.
use shard_vault.Base.{
  ℕ, zero, suc, ◌+◌, ◌<◌, ◌≡◌, refl, bit_xor, Bool, true, false, ◌&&◌, ltb, ◌==◌, ==_iff, ltb→lt,
  arith,
}
use mathlib.Core.Bool.{false≢true}
use shard_vault.Gf.Tables.{xtime, exp_at, log_at}

-- A test at every index below a bound, and what it says of one of them.
unfoldable pub every : (ℕ → Bool) → ℕ → Bool
every test zero = true
every test (suc bound) = let below = every test bound in test bound && below

pub every-holds :
    (test : ℕ → Bool) (i bound : ℕ) → i < bound → every test bound ≡ true → test i ≡ true
unfolding every
every-holds test i zero small passed = absurd (omega arith)
every-holds test i (suc bound) small passed = ground (arith, every-holds test i bound)

-- Each power is twice the one before, and the second half of the table repeats the first.
exp_table : every (λ i. (exp_at (suc i) == xtime (exp_at i)) && ltb (exp_at i) 256) 509 ≡ true
unfolding every exp_at xtime
exp_table = refl

-- Doubling respects addition, and addition stays among the bytes.
xtime_table :
    every
      (λ a.
        every
          (λ b. (xtime (bit_xor a b) == bit_xor (xtime a) (xtime b)) && ltb (bit_xor a b) 256)
          256)
      256
    ≡ true
unfolding every xtime
xtime_table = refl

log_table : every (λ a. (exp_at (log_at (suc a)) == suc a) && ltb (log_at (suc a)) 255) 255 ≡ true
unfolding every exp_at log_at
log_table = refl

exp_log_table :
    every
      (λ i. (log_at (exp_at i) == i) && (ltb 0 (exp_at i) && (exp_at (255 + i) == exp_at i)))
      255
    ≡ true
unfolding every exp_at log_at
exp_log_table = refl

pub both : (a b : Bool) → (a && b) ≡ true → (a ≡ true) × (b ≡ true)
both true b h = (refl, h)
both false b h = absurd (false≢true h)

eq_of : (a b : ℕ) → (a == b) ≡ true → a ≡ b
eq_of a b h = (==_iff a b).0 h

exp_checked : (n : ℕ) → n < 509 → (exp_at (suc n) ≡ xtime (exp_at n)) × (exp_at n < 256)
exp_checked n h =
    let (e, l) = both _ _ (every-holds _ n 509 h exp_table) in (eq_of _ _ e, ltb→lt _ _ l)

pub exp_at-suc : (n : ℕ) → n < 509 → exp_at (suc n) ≡ xtime (exp_at n)
exp_at-suc n h = (exp_checked n h).0

pub exp_at-lt : (n : ℕ) → n < 509 → exp_at n < 256
exp_at-lt n h = (exp_checked n h).1

log_checked : (a : ℕ) → a < 255 → (exp_at (log_at (suc a)) ≡ suc a) × (log_at (suc a) < 255)
log_checked a h =
    let (e, l) = both _ _ (every-holds _ a 255 h log_table) in (eq_of _ _ e, ltb→lt _ _ l)

pub exp_at-log_at : (a : ℕ) → 0 < a → a < 256 → exp_at (log_at a) ≡ a
exp_at-log_at zero p h = absurd (omega arith)
exp_at-log_at (suc a) p h = (log_checked a (omega arith)).0

pub log_at-lt : (a : ℕ) → 0 < a → a < 256 → log_at a < 255
log_at-lt zero p h = absurd (omega arith)
log_at-lt (suc a) p h = (log_checked a (omega arith)).1

exp_log_checked :
    (i : ℕ) → i < 255 → (log_at (exp_at i) ≡ i) × (0 < exp_at i) × (exp_at (255 + i) ≡ exp_at i)
exp_log_checked i h =
    let (e, more) = both _ _ (every-holds _ i 255 h exp_log_table) in
    let (p, w) = both _ _ more in (eq_of _ _ e, ltb→lt _ _ p, eq_of _ _ w)

pub log_at-exp_at : (i : ℕ) → i < 255 → log_at (exp_at i) ≡ i
log_at-exp_at i h = (exp_log_checked i h).0

pub exp_at-pos : (i : ℕ) → i < 255 → 0 < exp_at i
exp_at-pos i h = (exp_log_checked i h).1

pub exp_at-wrap : (i : ℕ) → i < 255 → exp_at (255 + i) ≡ exp_at i
exp_at-wrap i h = (exp_log_checked i h).2

xtime_checked :
    (a b : ℕ)
    → a < 256
    → b < 256
    → (xtime (bit_xor a b) ≡ bit_xor (xtime a) (xtime b)) × (bit_xor a b < 256)
xtime_checked a b ha hb =
    let row = every-holds _ a 256 ha xtime_table in
    let (e, l) = both _ _ (every-holds _ b 256 hb row) in (eq_of _ _ e, ltb→lt _ _ l)

pub xtime-xor : (a b : ℕ) → a < 256 → b < 256 → xtime (bit_xor a b) ≡ bit_xor (xtime a) (xtime b)
xtime-xor a b ha hb = (xtime_checked a b ha hb).0

pub xor-lt : (a b : ℕ) → a < 256 → b < 256 → bit_xor a b < 256
xor-lt a b ha hb = (xtime_checked a b ha hb).1
