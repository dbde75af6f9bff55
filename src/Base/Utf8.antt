-- ===== src/Base/Utf8.antt =====
-- Rust's `String`: its UTF-8 bytes. Equality of texts, and the check that `String::from_utf8` makes.
use Prim.Native.Nat.{ℕ, zero, suc}
use mathlib.Core.Path.{◌≡◌, refl}
use mathlib.Core.Logic.{◌↔◌}
use mathlib.Core.List.{List, [], ◌∷◌}
use mathlib.Core.Bool.{Bool, true, false, ◌&&◌}
use native.Mathlib.Omega.{arith}
use shard_vault.Base.Tests.{ltb, leb, ◌==◌, if◌then◌else◌}

abbrev pub Text : Type 0
Text = List ℕ

abbrev pub text_eq : Text → Text → Bool
text_eq [] [] = true
text_eq [] (y ∷ ys) = false
text_eq (x ∷ xs) [] = false
text_eq (x ∷ xs) (y ∷ ys) = (x == y) && text_eq xs ys

text_eq→eq : (s t : Text) → text_eq s t ≡ true → s ≡ t
text_eq→eq [] [] h = refl
text_eq→eq [] (y ∷ ys) h = cc
text_eq→eq (x ∷ xs) [] h = cc
text_eq→eq (x ∷ xs) (y ∷ ys) h = ground (arith, text_eq→eq xs ys)

text_eq_refl : (s : Text) → text_eq s s ≡ true
text_eq_refl [] = refl
text_eq_refl (x ∷ xs) = ground (arith, text_eq_refl xs)

pub text_eq_iff : (s t : Text) → (text_eq s t ≡ true) ↔ (s ≡ t)
text_eq_iff s t = (text_eq→eq s t, λ e. rw e (text_eq_refl t))

abbrev in_range : ℕ → ℕ → ℕ → Bool
in_range lo hi b = leb lo b && leb b hi

-- What may follow the first byte of a sequence: nothing, or the range of the second byte and the
-- number of further bytes (Unicode, table 3-7).
pub data Lead : Type 0 where
  alone bad : Lead
  needs : ℕ → ℕ → ℕ → Lead

lead : ℕ → Lead
lead b =
    if ltb b 0x80
    then alone
    else if in_range 0xC2 0xDF b
    then needs 0x80 0xBF 0
    else if b == 0xE0
    then needs 0xA0 0xBF 1
    else if b == 0xED
    then needs 0x80 0x9F 1
    else if in_range 0xE1 0xEF b
    then needs 0x80 0xBF 1
    else if b == 0xF0
    then needs 0x90 0xBF 2
    else if b == 0xF4
    then needs 0x80 0x8F 2
    else if in_range 0xF1 0xF3 b
    then needs 0x80 0xBF 2
    else bad

-- What the walk expects next: a first byte, or a byte of a range and then more bytes.
pub data Expect : Type 0 where
  start : Expect
  within : ℕ → ℕ → ℕ → Expect

after : ℕ → Expect
after zero = start
after (suc n) = within 0x80 0xBF n

utf8_from : Expect → Text → Bool
unfolding lead after
utf8_from start [] = true
utf8_from (within lo hi n) [] = false
utf8_from start (b ∷ bs) = elim (lead b) [
  | alone ↦ utf8_from start bs
  | bad ↦ false
  | needs lo hi n ↦ utf8_from (within lo hi n) bs
]
utf8_from (within lo hi n) (b ∷ bs) = in_range lo hi b && utf8_from (after n) bs

-- Whether `String::from_utf8` accepts the bytes.
unfoldable pub is_utf8 : Text → Bool
unfolding utf8_from
is_utf8 = utf8_from start

accepts_ascii : is_utf8 (b'a' ∷ b'/' ∷ b'b' ∷ []) ≡ true
unfolding is_utf8
accepts_ascii = refl

rejects_overlong : is_utf8 (0xC0 ∷ 0x80 ∷ []) ≡ false
unfolding is_utf8
rejects_overlong = refl

accepts_accent : is_utf8 (0xC3 ∷ 0xA9 ∷ []) ≡ true
unfolding is_utf8
accepts_accent = refl
