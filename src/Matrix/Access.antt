-- ===== src/Matrix/Access.antt =====
-- Reads behind writes, and the loops that write rows.
use shard_vault.Base.{
  ℕ, zero, suc, ◌+◌, ◌*◌, ◌/◌, ◌≤◌, ◌<◌, ◌≡◌, refl, sym, ap, ◌∙◌, Bool, true, false, ◌&&◌,
  Bool-cases, inl, inr, List, [], ◌∷◌, All, length, length-replicate, get_or, set, get_or-set,
  length-set, replicate, ◌==◌, ==_iff, ltb, if◌then◌else◌, for_range, for_range_inv, IsByte, arith,
}
use native.Mathlib.Nat.{mul-add-div_right, div-eq_of_lt}
use shard_vault.Matrix.Dense.{Matrix, zeros, entry, set_entry}

-- The sizes are right and every entry is a byte.
pub record IsMatrix (rows cols : ℕ) (m : Matrix) : Type 0 where
  pub height : m.rows ≡ rows
  pub width : m.cols ≡ cols
  pub size : length m.entries ≡ rows * cols
  pub bytes : All IsByte m.entries

set-IsByte : (xs : List ℕ) (i v : ℕ) → IsByte v → All IsByte xs → All IsByte (set xs i v)
set-IsByte [] i v hv h = tt
set-IsByte (x ∷ xs) zero v hv (h, hs) = (hv, hs)
set-IsByte (x ∷ xs) (suc i) v hv (h, hs) = (h, set-IsByte xs i v hv hs)

pub get_or-IsByte : (xs : List ℕ) (i : ℕ) → All IsByte xs → IsByte (get_or xs i 0)
get_or-IsByte [] i h = omega arith
get_or-IsByte (x ∷ xs) zero (h, hs) = h
get_or-IsByte (x ∷ xs) (suc i) (h, hs) = get_or-IsByte xs i hs

pub get_or-replicate : (n i : ℕ) → get_or {A = ℕ} (replicate n 0) i 0 ≡ 0
get_or-replicate zero i = refl
get_or-replicate (suc n) zero = refl
get_or-replicate (suc n) (suc i) = get_or-replicate n i

pub replicate-IsByte : (n : ℕ) → All IsByte (replicate n 0)
replicate-IsByte zero = tt
replicate-IsByte (suc n) = (omega arith, replicate-IsByte n)

place-lt : (h w r c : ℕ) → r < h → c < w → r * w + c < h * w
place-lt h w r c p q = grind arith

row_of_place : (w r c : ℕ) → c < w → (r * w + c) / w ≡ r
row_of_place w r c h = mul-add-div_right (omega arith) r c ∙ rw (div-eq_of_lt h) (omega arith)

-- Two places are the same only where their rows and columns are.
place_eq : (w r c s d : ℕ) → c < w → d < w → (r * w + c == s * w + d) ≡ (r == s) && (c == d)
place_eq w r c s d hc hd = elim (Bool-cases (r == s)) [
  | inl same ↦ let e = (==_iff r s).0 same in rw e (ground arith)
  | inr off ↦ elim (Bool-cases (r * w + c == s * w + d)) [
    | inl together ↦
        let e : r * w + c ≡ s * w + d = (==_iff (r * w + c) (s * w + d)).0 together in
        let rows : r ≡ s =
          sym (row_of_place w r c hc) ∙ ap (λ n. n / w) e ∙ row_of_place w s d hd in
        absurd (ground arith)
    | inr apart ↦ rw (apart, off) refl
  ]
]

pub entry-IsByte : {h w : ℕ} (m : Matrix) (r c : ℕ) → IsMatrix h w m → IsByte (entry m r c)
unfolding entry
entry-IsByte m r c v = get_or-IsByte m.entries (r * m.cols + c) v.bytes

pub set_entry-IsMatrix :
    {h w : ℕ} (m : Matrix) (r c v : ℕ)
    → IsByte v
    → IsMatrix h w m
    → IsMatrix h w (set_entry r c v m)
unfolding set_entry
set_entry-IsMatrix m r c v hv valid = record {
  height = valid.height;
  width = valid.width;
  size = length-set m.entries (r * m.cols + c) v ∙ valid.size;
  bytes = set-IsByte m.entries (r * m.cols + c) v hv valid.bytes;
}

pub entry-set_entry :
    {h w : ℕ} (m : Matrix) (r c v s d : ℕ)
    → IsMatrix h w m
    → r < h
    → c < w
    → d < w
    → entry (set_entry r c v m) s d ≡ (if (s == r) && (d == c) then v else entry m s d)
unfolding entry set_entry
entry-set_entry {h} {w} m r c v s d valid hr hc hd =
    let e = valid.width in
    let here : r * m.cols + c < length m.entries = rw (e, valid.size) (place-lt h w r c hr hc) in
    get_or-set m.entries (r * m.cols + c) (s * m.cols + d) v 0 here
    ∙ rw (e, place_eq w s d r c hd hc) refl

pub zeros-IsMatrix : (h w : ℕ) → IsMatrix h w (zeros h w)
unfolding zeros
zeros-IsMatrix h w = record {
  height = refl;
  width = refl;
  size = length-replicate (h * w) 0;
  bytes = replicate-IsByte (h * w);
}

pub entry-zeros : (h w r c : ℕ) → entry (zeros h w) r c ≡ 0
unfolding entry zeros
entry-zeros h w r c = get_or-replicate (h * w) (r * w + c)

-- One more column is written.
column_step :
    (here : Bool) (value : ℕ → ℕ) (old c i : ℕ)
    → (if here && (c == i) then value i else (if here && ltb c i then value c else old))
      ≡ (if here && ltb c (suc i) then value c else old)
column_step false value old c i = refl
column_step true value old c i = elim (Bool-cases (c == i)) [
  | inl at ↦ let e : c ≡ i = (==_iff c i).0 at in rw e (ground arith)
  | inr off ↦ ground arith
]

-- The columns before `i` of row `r` hold the values, everything else what it held in `m`.
abbrev pub RowDone : ℕ → ℕ → ℕ → (ℕ → ℕ) → Matrix → ℕ → Matrix → Type 0
RowDone h w r value m i t =
    IsMatrix h w t
    × ((s c : ℕ) → c < w → entry t s c ≡ (if (s == r) && ltb c i then value c else entry m s c))

-- A loop that writes the columns of a row from what it finds in them, or from elsewhere.
module _ {h w : ℕ} (n r : ℕ) (m : Matrix) (valid : IsMatrix h w m) (hr : r < h) (hn : n ≤ w) where
  pub row_loop_lem :
      (value : ℕ → ℕ) (write : ℕ → Matrix → ℕ)
      → ((c : ℕ) → c < n → IsByte (value c))
      → ((c : ℕ) (t : Matrix) → c < n → ((s : ℕ) → entry t s c ≡ entry m s c) → write c t ≡ value c)
      → RowDone h w r value m n (for_range n (λ c t. set_entry r c (write c t) t) m)
  row_loop_lem value write bytes reads =
      for_range_inv (RowDone h w r value m) n (λ c t. set_entry r c (write c t) t) m
        (valid, λ s c p. ground arith)
        (λ i t hi (tv, te).
          let untouched : (s : ℕ) → entry t s i ≡ entry m s i =
            λ s. te s i (omega arith) ∙ ground arith in
          let e : write i t ≡ value i = reads i t hi untouched in
          (
            set_entry-IsMatrix t r i (write i t) (rw e (bytes i hi)) tv,
            λ s c p.
                entry-set_entry t r i (write i t) s c tv hr (omega arith) p
                ∙ rw (te s c p, e) (column_step (s == r) value (entry m s c) c i),
          ))
