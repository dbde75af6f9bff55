-- ===== src/Stripe/Places.antt =====
-- What the data shards of a stripe hold, place by place. Behind the data a read gives 0, which is what
-- the shards are padded with.
use shard_vault.Base.{
  ℕ, zero, suc, ◌+◌, ◌-◌, ◌*◌, ◌≤◌, ◌<◌, min, ◌≡◌, refl, sym, ap, ◌∙◌, true, false, List, [], ◌∷◌,
  ◌++◌, length, length-append, length-drop, length-replicate, take, drop, replicate, get_or,
  get_or-append_left, get_or-append_right, ◌==◌, ltb, Bool-cases, inl, inr, if◌then◌else◌, le_bytes,
  length-le_bytes, arith,
}
use native.Mathlib.Nat.{lt-div-mul-add}
use shard_vault.Matrix.Access.{get_or-replicate}
use shard_vault.Node.Leader.{div_ceil}
use shard_vault.Stripe.Stripes.{copy_into, data_shard}

-- The shards are long enough for the data.
pub div_ceil-ge : (n d : ℕ) → 1 ≤ d → n ≤ div_ceil n d * d
div_ceil-ge n d h = let less = lt-div-mul-add {a = n + (d - 1)} {b = d} h in omega arith

pub get_or-take :
    (n i : ℕ) (xs : List ℕ) → get_or (take n xs) i 0 ≡ (if ltb i n then get_or xs i 0 else 0)
get_or-take zero i xs = let e : ltb i 0 ≡ false = ground arith in rw e refl
get_or-take (suc n) i [] = ground arith
get_or-take (suc n) zero (x ∷ xs) = let e : ltb 0 (suc n) ≡ true = ground arith in rw e refl
get_or-take (suc n) (suc i) (x ∷ xs) =
    let e : ltb (suc i) (suc n) ≡ ltb i n = ground arith in rw e (get_or-take n i xs)

pub get_or-drop : (n i : ℕ) (xs : List ℕ) → get_or (drop n xs) i 0 ≡ get_or xs (n + i) 0
get_or-drop zero i xs = let e : 0 + i ≡ i = omega arith in rw e refl
get_or-drop (suc n) i [] = refl
get_or-drop (suc n) i (x ∷ xs) =
    let e : suc n + i ≡ suc (n + i) = omega arith in rw e (get_or-drop n i xs)

get_or_beyond : (xs : List ℕ) (i : ℕ) → length xs ≤ i → get_or xs i 0 ≡ 0
get_or_beyond [] i h = refl
get_or_beyond (x ∷ xs) zero h = absurd (omega arith)
get_or_beyond (x ∷ xs) (suc i) h = get_or_beyond xs i (omega arith)

pub length-take : (n : ℕ) (xs : List ℕ) → length (take n xs) ≡ min n (length xs)
length-take zero xs = omega arith
length-take (suc n) [] = omega arith
length-take (suc n) (x ∷ xs) = omega (arith, length-take n xs)

pub get_or-append :
    (xs ys : List ℕ) (i : ℕ)
    → get_or (xs ++ ys) i 0
      ≡ (if ltb i (length xs) then get_or xs i 0 else get_or ys (i - length xs) 0)
get_or-append xs ys i = elim (Bool-cases (ltb i (length xs))) [
  | inl low ↦ rw low (get_or-append_left xs ys i 0 (ground arith))
  | inr high ↦
      let e : length xs + (i - length xs) ≡ i = ground arith in
      rw high
        (ap (λ j. get_or (xs ++ ys) j 0) (sym e) ∙ get_or-append_right xs ys (i - length xs) 0)
]

places :
    (offset n i old new : ℕ) (g : ℕ → ℕ)
    → old ≡ g i
    → (if ltb i offset
        then if ltb i offset then old else 0
        else if ltb (i - offset) n
        then new
        else g (offset + n + (i - offset - n)))
      ≡ (if ltb i offset then old else if ltb i (offset + n) then new else old)
places offset n i old new g e = elim (Bool-cases (ltb i offset)) [
  | inl before ↦ rw before refl
  | inr from ↦ elim (Bool-cases (ltb i (offset + n))) [
    | inl inside ↦ let f : ltb (i - offset) n ≡ true = ground arith in rw (from, inside, f) refl
    | inr behind ↦
        let f : ltb (i - offset) n ≡ false = ground arith in
        let place : offset + n + (i - offset - n) ≡ i = ground arith in
        rw (from, behind, f) (ap g place ∙ sym e)
  ]
]

length-copy_into :
    (offset : ℕ) (bytes shard : List ℕ)
    → offset + length bytes ≤ length shard
    → length (copy_into offset bytes shard) ≡ length shard
unfolding copy_into
length-copy_into offset bytes shard h =
    let a = length-append (take offset shard) (bytes ++ drop (offset + length bytes) shard) in
    let b = length-append bytes (drop (offset + length bytes) shard) in
    let c = length-take offset shard in
    let d = length-drop (offset + length bytes) shard in omega arith

get_or-copy_into :
    (offset : ℕ) (bytes shard : List ℕ) (i : ℕ)
    → offset + length bytes ≤ length shard
    → get_or (copy_into offset bytes shard) i 0 ≡ (
        if ltb i offset
        then get_or shard i 0
        else if ltb i (offset + length bytes)
        then get_or bytes (i - offset) 0
        else get_or shard i 0)
unfolding copy_into
get_or-copy_into offset bytes shard i h =
    let size : length (take offset shard) ≡ offset = length-take offset shard ∙ omega arith in
    get_or-append (take offset shard) (bytes ++ drop (offset + length bytes) shard) i
    ∙ rw
        (
          size,
          get_or-take offset i shard,
          get_or-append bytes (drop (offset + length bytes) shard) (i - offset),
          get_or-drop (offset + length bytes) (i - offset - length bytes) shard,
        )
        (places offset (length bytes) i (get_or shard i 0) (get_or bytes (i - offset) 0)
          (λ j. get_or shard j 0) refl)

-- The length and the data of the first shard, and the data of the others.
pub record IsPlaced (contents : List ℕ) (shard_len i : ℕ) (shard : List ℕ) : Type 0 where
  pub size : length shard ≡ shard_len + 8
  pub front :
      i ≡ 0 → (pos : ℕ) → pos < 8 → get_or shard pos 0 ≡ get_or (le_bytes 8 (length contents)) pos 0
  pub held :
      (pos : ℕ)
      → pos < shard_len
      → get_or shard (if i == 0 then 8 + pos else pos) 0 ≡ get_or contents (i * shard_len + pos) 0

length-piece :
    (contents : List ℕ) (start s : ℕ)
    → start ≤ length contents
    → length (take (min (length contents - start) s) (drop start contents))
      ≡ min (length contents - start) s
length-piece contents start s h =
    length-take (min (length contents - start) s) (drop start contents)
    ∙ (let e = length-drop start contents in omega arith)

-- A piece of the data, copied over zeros.
get_or-piece :
    (contents shard : List ℕ) (start s offset pos : ℕ)
    → start ≤ length contents
    → offset + s ≤ length shard
    → pos < s
    → get_or shard (offset + pos) 0 ≡ 0
    → get_or
        (copy_into offset (take (min (length contents - start) s) (drop start contents)) shard)
        (offset + pos)
        0
      ≡ get_or contents (start + pos) 0
get_or-piece contents shard start s offset pos hs h hp z =
    let n = min (length contents - start) s in
    let piece = take n (drop start contents) in
    let size = length-piece contents start s hs in
    let before : ltb (offset + pos) offset ≡ false = ground arith in
    let place : offset + pos - offset ≡ pos = omega arith in
    get_or-copy_into offset piece shard (offset + pos) (omega arith)
    ∙ rw
        (
          before,
          size,
          place,
          get_or-take n pos (drop start contents),
          get_or-drop start pos contents,
          z,
        )
        (elim (Bool-cases (ltb pos n)) [
          | inl inside ↦
              let e : ltb (offset + pos) (offset + n) ≡ true = ground arith in rw (e, inside) refl
          | inr behind ↦
              let e : ltb (offset + pos) (offset + n) ≡ false = ground arith in
              rw e (sym (get_or_beyond contents (start + pos) (ground arith)))
        ])

first-IsPlaced : (contents : List ℕ) (s : ℕ) → IsPlaced contents s 0 (data_shard contents s 0)
unfolding data_shard
first-IsPlaced contents s =
    let zeros : List ℕ = replicate (s + 8) 0 in
    let room : length zeros ≡ s + 8 = length-replicate (s + 8) 0 in
    let prefix = le_bytes 8 (length contents) in
    let width = length-le_bytes 8 (length contents) in
    let with_length = copy_into 0 prefix zeros in
    let size1 = length-copy_into 0 prefix zeros (omega arith) in
    let piece = take (min (length contents) s) contents in
    let size2 : length piece ≡ min (length contents) s =
      length-take (min (length contents) s) contents ∙ omega arith in
    record {
      size = length-copy_into 8 piece with_length (omega arith) ∙ size1 ∙ room;
      front = λ e pos p.
          let low : ltb pos 8 ≡ true = ground arith in
          let none_before : ltb pos 0 ≡ false = ground arith in
          let inside : ltb pos (0 + 8) ≡ true = ground arith in
          let place : pos - 0 ≡ pos = omega arith in
          get_or-copy_into 8 piece with_length pos (omega arith)
          ∙ rw low (
              get_or-copy_into 0 prefix zeros pos (omega arith)
              ∙ rw (none_before, width, inside, place) refl);
      held = λ pos p.
          let e : 0 * s + pos ≡ 0 + pos = omega arith in
          let d : length contents ≡ length contents - 0 = omega arith in
          let none_before : ltb (8 + pos) 0 ≡ false = ground arith in
          let behind : ltb (8 + pos) (0 + 8) ≡ false = ground arith in
          let z : get_or with_length (8 + pos) 0 ≡ 0 =
            get_or-copy_into 0 prefix zeros (8 + pos) (omega arith)
            ∙ rw (none_before, width, behind) (get_or-replicate (s + 8) (8 + pos)) in
          rw e (
            ap (λ l. get_or (copy_into 8 (take (min l s) contents) with_length) (8 + pos) 0) d
            ∙ get_or-piece contents with_length 0 s 8 pos (omega arith) (omega arith) p z);
    }

later-IsPlaced :
    (contents : List ℕ) (s i : ℕ) → IsPlaced contents s (suc i) (data_shard contents s (suc i))
unfolding data_shard
later-IsPlaced contents s i =
    let zeros : List ℕ = replicate (s + 8) 0 in
    let room : length zeros ≡ s + 8 = length-replicate (s + 8) 0 in
    let start = suc i * s in
    let off : (suc i == 0) ≡ false = ground arith in
    elim (Bool-cases (ltb start (length contents))) [
      | inl some_left ↦
          let hs : start ≤ length contents = ground arith in
          let size = length-piece contents start s hs in
          let piece = take (min (length contents - start) s) (drop start contents) in
          rw (off, some_left)
            (record {
              size = length-copy_into 0 piece zeros (omega arith) ∙ room;
              front = λ e pos p. absurd (omega arith);
              held = λ pos p.
                  let e : 0 + pos ≡ pos = omega arith in
                  rw off (
                    ap (λ j. get_or (copy_into 0 piece zeros) j 0) (sym e)
                    ∙ get_or-piece contents zeros start s 0 pos hs (omega arith) p
                        (get_or-replicate (s + 8) (0 + pos)));
            })
      | inr none_left ↦
          rw (off, none_left)
            (record {
              size = room;
              front = λ e pos p. absurd (omega arith);
              held = λ pos p. rw off (
                  get_or-replicate (s + 8) pos
                  ∙ sym (get_or_beyond contents (start + pos) (ground arith)));
            })
    ]

pub data_shard-IsPlaced :
    (contents : List ℕ) (s i : ℕ) → IsPlaced contents s i (data_shard contents s i)
data_shard-IsPlaced contents s zero = first-IsPlaced contents s
data_shard-IsPlaced contents s (suc i) = later-IsPlaced contents s i
