-- ===== src/Rollup/Prefixes.antt =====
-- `prefixes_of` of crates/shardvault-core/src/rollup.rs.
use shard_vault.Base.{
  ℕ, ◌≡◌, refl, Bool, true, false, List, [], ◌∷◌, ◌++◌, Text, text_eq, filter, ◌==◌, ◌||◌,
  if◌then◌else◌,
}

-- A byte before the parts of what follows it.
unfoldable pub begin_part : ℕ → List Text → List Text
begin_part c [] = []
begin_part c (part ∷ rest) = if c == b'/' then [] ∷ part ∷ rest else (c ∷ part) ∷ rest

-- `key.split('/')`: the parts between the slashes, one at least.
unfoldable pub split_slash : Text → List Text
unfolding begin_part
split_slash [] = [] ∷ []
split_slash (c ∷ s) = begin_part c (split_slash s)

abbrev pub is_empty : Text → Bool
is_empty [] = true
is_empty (c ∷ s) = false

-- `key.split('/').filter(|s| !s.is_empty())`
unfoldable pub parts_of : Text → List Text
unfolding split_slash
parts_of key = filter (λ s. if is_empty s then false else true) (split_slash key)

-- The `for` loop. `prefix` is what the rounds before have pushed, and `first` says that there was
-- none.
unfoldable pub prefix_loop : Bool → Text → List Text → List Text
prefix_loop first prefix [] = []
prefix_loop first prefix (part ∷ []) = []
prefix_loop first prefix (part ∷ (next ∷ rest)) =
    let longer = (if first then prefix else prefix ++ (b'/' ∷ [])) ++ part in
    longer ∷ prefix_loop false longer (next ∷ rest)

unfoldable pub prefixes_of : Text → List Text
unfolding parts_of prefix_loop
prefixes_of key = [] ∷ prefix_loop true [] (parts_of key)

abbrev pub member : Text → List Text → Bool
member p [] = false
member p (q ∷ qs) = text_eq q p || member p qs

two_prefixes :
    prefixes_of (b'a' ∷ b'/' ∷ b'b' ∷ b'/' ∷ b'c' ∷ [])
    ≡ [] ∷ (b'a' ∷ []) ∷ (b'a' ∷ b'/' ∷ b'b' ∷ []) ∷ []
unfolding prefixes_of
two_prefixes = refl

empty_segments : prefixes_of (b'a' ∷ b'/' ∷ b'/' ∷ b'b' ∷ []) ≡ [] ∷ (b'a' ∷ []) ∷ []
unfolding prefixes_of
empty_segments = refl
