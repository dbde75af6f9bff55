-- ===== src/Matrix/View.antt =====
-- A matrix as a function into the field of the bytes, and the row operations of matrix.rs on it.
use shard_vault.Base.{
  ℕ, ◌%◌, ◌<◌, ◌≡◌, refl, sym, ap, ◌∙◌, Bool, true, false, ◌&&◌, Bool-cases, inl, inr, ◌==◌, ==_iff,
  ltb, if◌then◌else◌, IsByte, arith,
}
use shard_vault.Gf.Tables.{add, mul, inv}
use shard_vault.Gf.Field.{mul_comm, mul-IsByte, mul-zero_right, mul-inv}
use shard_vault.Gf.Linear.{add-IsByte}
use shard_vault.Gf.Bytes.{Byte, Byte_eq, zero_byte, one_byte, inv-IsByte, byte_field}
use shard_vault.Algebra.Field.{◌⊕◌, ◌⊗◌, zero-mul}
use shard_vault.Algebra.Kernel.{swapped}
use shard_vault.Matrix.Dense.{Matrix, entry}
use shard_vault.Matrix.Invert.{swap_rows, scale_row, clear_row}
use shard_vault.Matrix.Access.{IsMatrix, entry-IsByte}
use shard_vault.Matrix.Rows.{change_row_lem, swap_rows_lem}

-- A number as a byte, as `as u8` does.
unfoldable pub to_byte : ℕ → Byte
to_byte n = (n % 256, omega arith)

pub to_byte-num : (n : ℕ) → IsByte n → (to_byte n).0 ≡ n
unfolding to_byte
to_byte-num n h = omega arith

pub to_byte_of : (b : Byte) → to_byte b.0 ≡ b
to_byte_of (n, h) = Byte_eq _ _ (to_byte-num n h)

pub to_byte-add : (a b : ℕ) → IsByte a → IsByte b → to_byte (add a b) ≡ to_byte a ⊕ to_byte b
to_byte-add a b ha hb =
    Byte_eq _ _
      (to_byte-num (add a b) (add-IsByte a b ha hb) ∙ rw (to_byte-num a ha, to_byte-num b hb) refl)

pub to_byte-mul : (a b : ℕ) → IsByte a → IsByte b → to_byte (mul a b) ≡ to_byte a ⊗ to_byte b
to_byte-mul a b ha hb =
    Byte_eq _ _
      (to_byte-num (mul a b) (mul-IsByte a b ha hb) ∙ rw (to_byte-num a ha, to_byte-num b hb) refl)

pub to_byte-zero : to_byte 0 ≡ zero_byte
to_byte-zero = Byte_eq _ _ (to_byte-num 0 (omega arith))

pub to_byte-one : to_byte 1 ≡ one_byte
to_byte-one = Byte_eq _ _ (to_byte-num 1 (omega arith))

-- Bytes are numbers.
pub to_byte-injective : (a b : ℕ) → IsByte a → IsByte b → to_byte a ≡ to_byte b → a ≡ b
to_byte-injective a b ha hb e = sym (to_byte-num a ha) ∙ ap (λ (x : Byte). x.0) e ∙ to_byte-num b hb

-- The matrix's entries.
unfoldable pub view : Matrix → ℕ → ℕ → Byte
view m r c = to_byte (entry m r c)

pub view-swap :
    {h w : ℕ} (pivot col : ℕ) (m : Matrix)
    → IsMatrix h w m
    → pivot < h
    → col < h
    → IsMatrix h w (swap_rows w pivot col m)
      × ((r c : ℕ) → c < w → view (swap_rows w pivot col m) r c ≡ view m (swapped pivot col r) c)
unfolding view
view-swap {h} {w} pivot col m valid hp hq =
    let (v, e) = swap_rows_lem pivot col m valid hp hq in
    (
      v,
      λ r c p.
          ap to_byte (e r c p ∙ (let inside : ltb c w ≡ true = ground arith in rw inside refl)),
    )

-- A row changed by itself and another.
view-change :
    (here : Bool) (c w x y : ℕ)
    → c < w
    → to_byte (if here && ltb c w then x else y) ≡ (if here then to_byte x else to_byte y)
view-change false c w x y h = refl
view-change true c w x y h = let inside : ltb c w ≡ true = ground arith in rw inside refl

pub inv_num_ne : (a : ℕ) → IsByte a → (a ≡ 0 → ⊥) → to_byte (inv a) ≡ zero_byte → ⊥
inv_num_ne a ha ne e =
    let nothing : inv a ≡ 0 =
      sym (to_byte-num (inv a) (inv-IsByte a ha)) ∙ ap (λ (b : Byte). b.0) e in
    let unit : mul a (inv a) ≡ 1 = (mul-inv a (ground (arith, ne)) ha).0 in
    omega (arith, sym unit ∙ ap (mul a) nothing ∙ mul-zero_right a)

-- An entry of a changed row, in other words.
pub if_row :
    {A : Type 0} (s q : ℕ) (x y z : A)
    → (s ≡ q → x ≡ z)
    → (if s == q then x else y) ≡ (if s == q then z else y)
if_row s q x y z e = elim (Bool-cases (s == q)) [
  | inl at ↦ rw at (e ((==_iff s q).0 at))
  | inr off ↦ rw off refl
]

pub if_row_same : {A : Type 0} (s q : ℕ) (y z : A) → (s ≡ q → y ≡ z) → y ≡ (if s == q then z else y)
if_row_same s q y z e = elim (Bool-cases (s == q)) [
  | inl at ↦ rw at (e ((==_iff s q).0 at))
  | inr off ↦ rw off refl
]

pub view-scale :
    {h w : ℕ} (col : ℕ) (m : Matrix)
    → IsMatrix h w m
    → col < h
    → IsMatrix h w (scale_row w col m)
      × ((r c : ℕ)
          → c < w
          → view (scale_row w col m) r c
            ≡ (if r == col then to_byte (inv (entry m col col)) ⊗ view m r c else view m r c))
unfolding scale_row view
view-scale {h} {w} col m valid hq =
    let pv = inv (entry m col col) in
    let hpv = inv-IsByte (entry m col col) (entry-IsByte m col col valid) in
    let (v, e) =
      change_row_lem col col (λ x y. mul x pv) m valid hq (λ x y hx hy. mul-IsByte x pv hx hpv) in
    (
      v,
      λ r c p.
          ap to_byte (e r c p)
          ∙ view-change (r == col) c w (mul (entry m col c) pv) (entry m r c) p
          ∙ if_row r col _ _ _ (λ at. rw at (
              ap to_byte (mul_comm (entry m col c) pv)
              ∙ to_byte-mul pv (entry m col c) hpv (entry-IsByte m col c valid))),
    )

to_byte-add_mul :
    (x f y : ℕ)
    → IsByte x
    → IsByte f
    → IsByte y
    → to_byte (add x (mul f y)) ≡ to_byte x ⊕ to_byte f ⊗ to_byte y
to_byte-add_mul x f y hx hf hy =
    to_byte-add x (mul f y) hx (mul-IsByte f y hf hy)
    ∙ ap (byte_field.add (to_byte x)) (to_byte-mul f y hf hy)

pub view-clear :
    {h w : ℕ} (col r : ℕ) (m : Matrix)
    → IsMatrix h w m
    → r < h
    → ((r == col) ≡ false)
    → IsMatrix h w (clear_row w col r m)
      × ((s c : ℕ)
          → c < w
          → view (clear_row w col r m) s c
            ≡ (if s == r then view m s c ⊕ view m r col ⊗ view m col c else view m s c))
unfolding clear_row view
view-clear {h} {w} col r m valid hr apart =
    let factor = entry m r col in
    let hf = entry-IsByte m r col valid in
    rw apart (elim (Bool-cases (factor == 0)) [
      | inl nothing ↦
          rw nothing
            (valid, λ s c p. if_row_same s r (view m s c) _ (λ at. sym (no_factor nothing s c)))
      | inr some_factor ↦
          let (v, e) =
            change_row_lem r col (λ x y. add x (mul factor y)) m valid hr
              (λ x y hx hy. add-IsByte x (mul factor y) hx (mul-IsByte factor y hf hy)) in
          rw some_factor (
            v,
            λ s c p.
                ap to_byte (e s c p)
                ∙ view-change (s == r) c w (add (entry m r c) (mul factor (entry m col c)))
                    (entry m s c) p
                ∙ if_row s r _ _ _ (λ at. rw at (
                    to_byte-add_mul (entry m r c) factor (entry m col c) (entry-IsByte m r c valid)
                      hf (entry-IsByte m col c valid))),
          )
    ])
  where
    no_factor :
        ((entry m r col == 0) ≡ true)
        → (s c : ℕ) → view m s c ⊕ view m r col ⊗ view m col c ≡ view m s c
    no_factor nothing s c =
        let e : entry m r col ≡ 0 = (==_iff (entry m r col) 0).0 nothing in
        let z : view m r col ≡ zero_byte = ap to_byte e ∙ to_byte-zero in
        ap (λ b. view m s c ⊕ b ⊗ view m col c) z
        ∙ ap (byte_field.add (view m s c)) (zero-mul (view m col c))
        ∙ byte_field.add-zero (view m s c)
