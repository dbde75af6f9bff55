-- ===== src/Gf/Tables.antt =====
-- The tables of crates/shardvault-ec/src/gf.rs and the operations that read them.
use shard_vault.Base.{
  ℕ, zero, suc, ◌+◌, ◌-◌, ◌*◌, ◌%◌, ◌^◌, bit_and, bit_xor, List, get_or, set, replicate, ◌==◌,
  if◌then◌else◌, ◌||◌,
}

abbrev pub poly : ℕ
poly = 0x11D

pub record GfTables : Type 0 where
  pub exp : List ℕ
  pub log : List ℕ

-- `x <<= 1; if x & 0x100 != 0 { x ^= POLY }`, on a u16.
unfoldable pub xtime : ℕ → ℕ
xtime x =
    let doubled = x * 2 % 2 ^ 16 in
    if bit_and doubled 0x100 == 0 then doubled else bit_xor doubled poly

-- The rounds that are left of the first loop, at `i` with the power `x`.
unfoldable pub fill_tables : ℕ → ℕ → ℕ → GfTables → GfTables
unfolding xtime
fill_tables zero i x t = t
fill_tables (suc left) i x t =
    fill_tables left (suc i) (xtime x)
      (record { exp = set t.exp i (x % 256); log = set t.log x (i % 256) })

-- The second loop: `exp[255 + i] = exp[i]`.
unfoldable pub repeat_exp : ℕ → ℕ → List ℕ → List ℕ
repeat_exp zero i exp = exp
repeat_exp (suc left) i exp = repeat_exp left (suc i) (set exp (255 + i) (get_or exp i 0))

unfoldable pub build_tables : GfTables
unfolding fill_tables repeat_exp
build_tables =
    let filled = fill_tables 255 0 1 (record { exp = replicate 512 0; log = replicate 256 0 }) in
    record { exp = repeat_exp 255 0 filled.exp; log = filled.log }

unfoldable pub exp_at : ℕ → ℕ
unfolding build_tables
exp_at i = get_or build_tables.exp i 0

unfoldable pub log_at : ℕ → ℕ
unfolding build_tables
log_at a = get_or build_tables.log a 0

unfoldable pub add : ℕ → ℕ → ℕ
add a b = bit_xor a b

unfoldable pub mul : ℕ → ℕ → ℕ
mul a b = if (a == 0) || (b == 0) then 0 else exp_at (log_at a + log_at b)

unfoldable pub inv : ℕ → ℕ
inv a = if a == 0 then 0 else exp_at (255 - log_at a)

unfoldable pub div : ℕ → ℕ → ℕ
div a b = mul a (inv b)
