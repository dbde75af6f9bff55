-- ===== src/Matrix/Powers.antt =====
-- The Vandermonde matrix of `Matrix::vandermonde_systematic`: its entries, and that no vector but zero
-- is killed by `k` of its rows.
use shard_vault.Base.{
  ℕ, suc, ◌+◌, ◌%◌, ◌≤◌, ◌<◌, ◌≡◌, refl, sym, ap, ◌∙◌, Bool, true, false, ◌&&◌, Bool-cases, inl,
  inr, ◌==◌, ==_iff, ltb, if◌then◌else◌, for_range_inv, IsByte, arith,
}
use shard_vault.Gf.Tables.{mul}
use shard_vault.Gf.Field.{mul-IsByte}
use shard_vault.Gf.Bytes.{Byte, zero_byte, byte_field}
use shard_vault.Algebra.Field.{◌⊗◌}
use shard_vault.Algebra.Sum.{sum_congr}
use shard_vault.Algebra.Inverse.{apply}
use shard_vault.Algebra.Roots.{power, power_roots}
use shard_vault.Matrix.Dense.{Matrix, zeros, entry, set_entry}
use shard_vault.Matrix.Invert.{power_row, vandermonde}
use shard_vault.Matrix.Access.{IsMatrix, set_entry-IsMatrix, entry-set_entry, zeros-IsMatrix}
use shard_vault.Matrix.View.{view, to_byte, to_byte-num, to_byte-one, to_byte-mul}

-- An entry of the row that is written.
power_step :
    {A : Type 0} (here : Bool) (new : ℕ → A) (old : A) (c i : ℕ)
    → (if here && (c == i) then new i else if here && ltb c i then new c else old)
      ≡ (if here && ltb c (suc i) then new c else old)
power_step false new old c i = refl
power_step true new old c i = elim (Bool-cases (c == i)) [
  | inl at ↦
      let e : c ≡ i = (==_iff c i).0 at in
      let last : ltb i (suc i) ≡ true = ground arith in
      let here : (i == i) ≡ true = ground arith in rw (e, last, here) refl
  | inr off ↦ let e : ltb c (suc i) ≡ ltb c i = ground arith in rw (off, e) refl
]

ap-if :
    {A B : Type 0} (f : A → B) (b : Bool) (x y : A)
    → f (if b then x else y) ≡ (if b then f x else f y)
ap-if f false x y = refl
ap-if f true x y = refl

-- The columns before `c` of row `i` are written, and the power for the next is at hand.
abbrev Powers : ℕ → ℕ → ℕ → ℕ → Matrix → ℕ → Matrix × ℕ → Type 0
Powers h w i point m c (t, x) =
    IsMatrix h w t
    × IsByte x
    × (to_byte x ≡ power (to_byte point) c)
    × ((s d : ℕ)
        → d < w
        → view t s d ≡ (if (s == i) && ltb d c then power (to_byte point) d else view m s d))

pub power_row_lem :
    {h w : ℕ} (i point : ℕ) (m : Matrix)
    → IsMatrix h w m
    → i < h
    → IsByte point
    → IsMatrix h w (power_row w i point m)
      × ((s d : ℕ)
          → d < w
          → view (power_row w i point m) s d
            ≡ (if s == i then power (to_byte point) d else view m s d))
unfolding power_row view power
power_row_lem {h} {w} i point m valid hi hp =
    let (v, hx, ex, e) =
      for_range_inv (Powers h w i point m) w
        (λ c (s : Matrix × ℕ). (set_entry i c s.1 s.0, mul s.1 point)) (m, 1)
        (
          valid,
          omega arith,
          to_byte-one,
          λ s d p. let e : (s == i) && ltb d 0 ≡ false = ground arith in rw e refl,
        )
        (λ c s hc (tv, hx, ex, te). (
          set_entry-IsMatrix s.0 i c s.1 hx tv,
          mul-IsByte s.1 point hx hp,
          to_byte-mul s.1 point hx hp ∙ ap (λ b. b ⊗ to_byte point) ex,
          λ r d p.
              ap to_byte (entry-set_entry s.0 i c s.1 r d tv hi hc p)
              ∙ ap-if to_byte ((r == i) && (d == c)) s.1 (entry s.0 r d)
              ∙ rw (ex, te r d p) (power_step (r == i) (power (to_byte point)) (view m r d) d c),
        )) in
    (v, λ s d p. e s d p ∙ (let e : (s == i) && ltb d w ≡ (s == i) = ground arith in rw e refl))

row_step :
    {A : Type 0} (new : ℕ → A) (old : A) (s i : ℕ)
    → (if s == i then new i else if ltb s i then new s else old)
      ≡ (if ltb s (suc i) then new s else old)
row_step new old s i = elim (Bool-cases (s == i)) [
  | inl at ↦
      let e : s ≡ i = (==_iff s i).0 at in
      let last : ltb i (suc i) ≡ true = ground arith in
      let here : (i == i) ≡ true = ground arith in rw (e, last, here) refl
  | inr off ↦ let e : ltb s (suc i) ≡ ltb s i = ground arith in rw (off, e) refl
]

-- The point of a row.
abbrev pub point_of : ℕ → Byte
point_of r = to_byte (r % 256 + 1)

pub vandermonde_lem :
    (n k : ℕ)
    → n ≤ 255
    → IsMatrix n k (vandermonde n k)
      × ((r c : ℕ) → r < n → c < k → view (vandermonde n k) r c ≡ power (point_of r) c)
unfolding vandermonde
vandermonde_lem n k hn =
    let (v, e) =
      for_range_inv
        (λ i t.
          IsMatrix n k t
          × ((s c : ℕ)
              → c < k
              → view t s c ≡ (if ltb s i then power (point_of s) c else view (zeros n k) s c)))
        n (λ i t. power_row k i (i % 256 + 1) t) (zeros n k)
        (zeros-IsMatrix n k, λ s c p. let e : ltb s 0 ≡ false = ground arith in rw e refl)
        (λ i t hi (tv, te).
          let (uv, ue) = power_row_lem i (i % 256 + 1) t tv hi (omega arith) in
          (
            uv,
            λ s c p.
                ue s c p
                ∙ rw (te s c p) (row_step (λ r. power (point_of r) c) (view (zeros n k) s c) s i),
          )) in
    (v, λ r c p q. e r c q ∙ (let inside : ltb r n ≡ true = ground arith in rw inside refl))

-- The points of the rows differ.
points_apart : (r s : ℕ) → r < 255 → s < 255 → (r ≡ s → ⊥) → point_of r ≡ point_of s → ⊥
points_apart r s hr hs ne e =
    let same : r % 256 + 1 ≡ s % 256 + 1 =
      sym (to_byte-num (r % 256 + 1) (omega arith))
      ∙ ap (λ (b : Byte). b.0) e
      ∙ to_byte-num (s % 256 + 1) (omega arith) in
    ne (omega arith)

-- The rows that are chosen are rows of the matrix, and no two are the same.
pub record IsChoice (n k : ℕ) (rows : ℕ → ℕ) : Type 0 where
  pub within : (i : ℕ) → i < k → rows i < n
  pub apart : (i j : ℕ) → i < j → j < k → rows i ≡ rows j → ⊥

pub vandermonde_kernel :
    (n k : ℕ) (rows : ℕ → ℕ) (x : ℕ → Byte)
    → n ≤ 255
    → IsChoice n k rows
    → ((i : ℕ) → i < k → apply k (view (vandermonde n k)) x (rows i) ≡ zero_byte)
    → (c : ℕ) → c < k
    → x c ≡ zero_byte
vandermonde_kernel n k rows x hn choice kills =
    power_roots k x (λ i. point_of (rows i))
      (λ i j hij hj e.
        points_apart (rows i) (rows j) (bounded i (omega arith)) (bounded j hj)
          (choice.apart i j hij hj) e)
      (λ i hi.
        sum_congr k (λ c hc.
          ap (λ b. b ⊗ x c) (sym ((vandermonde_lem n k hn).1 (rows i) c (choice.within i hi) hc)))
        ∙ kills i hi)
  where
    bounded : (i : ℕ) → i < k → rows i < 255
    bounded i hi = let h = choice.within i hi in omega arith
