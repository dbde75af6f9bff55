-- ===== src/Gf/Bytes.antt =====
-- The bytes are a field of characteristic two under the operations of gf.rs.
use shard_vault.Base.{ℕ, zero, suc, ◌≡◌, refl, ap, ◌∙◌, ◌⊎◌, inl, inr, IsByte, arith}
use mathlib.Core.HLevel.{Σ_prop_path}
use native.Mathlib.Bridge.{le_prop}
use shard_vault.Algebra.Field.{Field}
use shard_vault.Gf.Tables.{add, mul, inv}
use shard_vault.Gf.Field.{mul-zero_right, mul_comm, mul_assoc, mul_one, mul-inv, mul-IsByte}
use shard_vault.Gf.Linear.{mul-add, add-IsByte}
use shard_vault.Gf.Xor.{xor_assoc, xor_comm, xor_self}

abbrev pub Byte : Type 0
Byte = (n : ℕ) × IsByte n

pub Byte_eq : (a b : Byte) → a.0 ≡ b.0 → a ≡ b
Byte_eq a b e = Σ_prop_path (λ n. le_prop) e

pub zero-IsByte : IsByte 0
zero-IsByte = omega arith

pub one-IsByte : IsByte 1
one-IsByte = omega arith

abbrev pub zero_byte : Byte
zero_byte = (0, zero-IsByte)

abbrev pub one_byte : Byte
one_byte = (1, one-IsByte)

abbrev pub byte_add : Byte → Byte → Byte
byte_add (a, ha) (b, hb) = (add a b, add-IsByte a b ha hb)

abbrev pub byte_mul : Byte → Byte → Byte
byte_mul (a, ha) (b, hb) = (mul a b, mul-IsByte a b ha hb)

pub inv-IsByte : (a : ℕ) → IsByte a → IsByte (inv a)
unfolding inv
inv-IsByte zero h = omega arith
inv-IsByte (suc a) h = (mul-inv (suc a) (omega arith) h).1

pub add_laws :
    (a b c : Byte)
    → (byte_add (byte_add a b) c ≡ byte_add a (byte_add b c))
      × (byte_add a b ≡ byte_add b a)
      × (byte_add a zero_byte ≡ a)
      × (byte_add a a ≡ zero_byte)
unfolding add
add_laws (a, ha) (b, hb) (c, hc) = (
  Byte_eq _ _ (xor_assoc a b c ha hb hc),
  Byte_eq _ _ (xor_comm a b ha hb),
  Byte_eq _ _ (xor_self a ha).1,
  Byte_eq _ _ (xor_self a ha).0,
)

pub mul_laws :
    (a b c : Byte)
    → (byte_mul (byte_mul a b) c ≡ byte_mul a (byte_mul b c))
      × (byte_mul a b ≡ byte_mul b a)
      × (byte_mul a one_byte ≡ a)
      × (byte_mul a zero_byte ≡ zero_byte)
      × (byte_mul a (byte_add b c) ≡ byte_add (byte_mul a b) (byte_mul a c))
mul_laws (a, ha) (b, hb) (c, hc) = (
  Byte_eq _ _ (mul_assoc a b c ha hb hc),
  Byte_eq _ _ (mul_comm a b),
  Byte_eq _ _ (mul_comm a 1 ∙ mul_one a ha),
  Byte_eq _ _ (mul-zero_right a),
  Byte_eq _ _ (mul-add a b c ha hb hc),
)

abbrev pub byte_inv : Byte → Byte
byte_inv (a, h) = (inv a, inv-IsByte a h)

pub mul-byte_inv : (a : Byte) → (a ≡ zero_byte → ⊥) → byte_mul a (byte_inv a) ≡ one_byte
mul-byte_inv (zero, h) ne = absurd (ne (Byte_eq _ _ refl))
mul-byte_inv (suc a, h) ne = Byte_eq _ _ (mul-inv (suc a) (omega arith) h).0

pub zero_or_not : (a : Byte) → (a ≡ zero_byte) ⊎ (a ≡ zero_byte → ⊥)
zero_or_not (zero, h) = inl (Byte_eq _ _ refl)
zero_or_not (suc a, h) = inr (λ e. omega (arith, ap (λ (b : Byte). b.0) e))

pub one-ne-zero : one_byte ≡ zero_byte → ⊥
one-ne-zero e = omega (arith, ap (λ (b : Byte). b.0) e)

instance abbrev pub byte_field : Field Byte
byte_field = record {
  zero = zero_byte;
  one = one_byte;
  add = byte_add;
  mul = byte_mul;
  inv = byte_inv;
  add_assoc = λ a b c. (add_laws a b c).0;
  add_comm = λ a b. (add_laws a b a).1;
  add-zero = λ a. (add_laws a a a).2;
  add_self = λ a. (add_laws a a a).3;
  mul_assoc = λ a b c. (mul_laws a b c).0;
  mul_comm = λ a b. (mul_laws a b a).1;
  mul-one = λ a. (mul_laws a a a).2;
  mul-zero = λ a. (mul_laws a a a).3;
  mul-add = λ a b c. (mul_laws a b c).4;
  mul-inv = mul-byte_inv;
  zero_or_not = zero_or_not;
  one-ne-zero = one-ne-zero;
}
