-- ===== src/Rollup/Under.antt =====
-- Which prefixes a key lies under, by its segments: what crates/shardvault-core/src/rollup.rs says of
-- keys and prefixes, without its loops.
use shard_vault.Base.{
  ℕ, zero, suc, ◌≡◌, refl, sym, ap, ◌∙◌, Bool, true, false, Bool-cases, inl, inr, List, [], ◌∷◌,
  ◌++◌, append-nil, append_assoc, length-append, take-append_length, Text, text_eq, filter, take,
  length, ◌==◌, ◌||◌, if◌then◌else◌, arith,
}
use mathlib.Core.Path.{subst}
use shard_vault.Rollup.Prefixes.{
  is_empty, begin_part, split_slash, parts_of, prefix_loop, prefixes_of, member,
}

-- A segment that has ended; an empty one does not count.
abbrev close : Text → List Text → List Text
close [] rest = rest
close (c ∷ s) rest = (c ∷ s) ∷ rest

-- The segments of a key whose bytes since the last slash are `s`.
abbrev segments_from : Text → Text → List Text
segments_from s [] = close s []
segments_from s (c ∷ key) =
    let ended = segments_from [] key in
    let longer = segments_from (s ++ c ∷ []) key in if c == b'/' then close s ended else longer

abbrev pub segments : Text → List Text
segments key = segments_from [] key

-- The segments with a slash between any two.
abbrev pub path : List Text → Text
path [] = []
path (s ∷ []) = s
path (s ∷ (t ∷ rest)) = s ++ b'/' ∷ path (t ∷ rest)

-- Whether `p` is the path of fewer than `n` of the segments.
abbrev pub is_path_below : Text → ℕ → List Text → Bool
is_path_below p zero segs = false
is_path_below p (suc n) segs = text_eq (path (take n segs)) p || is_path_below p n segs

-- Whether a key lies under `p`: the root is above every key, and any other prefix is the path of
-- the key's first segments, but not of all.
unfoldable pub under : Text → Text → Bool
under p key = text_eq [] p || is_path_below p (length (segments key)) (segments key)

filter-cons :
    (s : Text) (ss : List Text)
    → filter (λ t. if is_empty t then false else true) (s ∷ ss)
      ≡ close s (filter (λ t. if is_empty t then false else true) ss)
filter-cons [] ss = refl
filter-cons (c ∷ s) ss = refl

-- The bytes `s` before the first part.
abbrev prepend : Text → List Text → List Text
prepend s [] = []
prepend s (part ∷ rest) = (s ++ part) ∷ rest

split_slash-cons :
    (key : Text) → (part : Text) × (rest : List Text) × (split_slash key ≡ part ∷ rest)
unfolding split_slash begin_part
split_slash-cons [] = ([], [], refl)
split_slash-cons (c ∷ key) =
    let (part, rest, is) = split_slash-cons key in
    elim (Bool-cases (c == b'/')) [
      | inl slash ↦ ([], part ∷ rest, rw (is, slash) refl)
      | inr other ↦ (c ∷ part, rest, rw (is, other) refl)
    ]

-- The segments are the parts that the code splits off and keeps.
segments_from-eq-filter :
    (s key : Text)
    → segments_from s key
      ≡ filter (λ t. if is_empty t then false else true) (prepend s (split_slash key))
unfolding split_slash begin_part
segments_from-eq-filter s [] = rw (append-nil s) (sym (filter-cons s []))
segments_from-eq-filter s (c ∷ key) =
    let (part, rest, is) = split_slash-cons key in
    let ended = segments_from-eq-filter [] key in
    let longer = segments_from-eq-filter (s ++ c ∷ []) key in
    elim (Bool-cases (c == b'/')) [
      | inl slash ↦
          rw (ended, is, begin_part, slash, append-nil s) (sym (filter-cons s (part ∷ rest)))
      | inr other ↦ rw (longer, is, begin_part, other, append_assoc s (c ∷ []) part) refl
    ]

path-snoc :
    (s : Text) (ss : List Text) (t : Text) → path ((s ∷ ss) ++ t ∷ []) ≡ path (s ∷ ss) ++ b'/' ∷ t
path-snoc s [] t = refl
path-snoc s (u ∷ ss) t =
    ap (λ r. s ++ b'/' ∷ r) (path-snoc u ss t)
    ∙ sym (append_assoc s (b'/' ∷ path (u ∷ ss)) (b'/' ∷ t))

move_front : (a b c : Bool) → ((a || b) || c) ≡ (b || (a || c))
move_front true true c = refl
move_front true false c = refl
move_front false b c = refl

-- The texts that the loop lists behind the segments `s ∷ ss`, of which the last one is `t`.
prefix_loop-is_path_below :
    (p s : Text) (ss : List Text) (t : Text) (rest : List Text)
    → (member p (prefix_loop false (path (s ∷ ss)) (t ∷ rest))
        || is_path_below p (suc (length (s ∷ ss))) ((s ∷ ss) ++ t ∷ rest))
      ≡ is_path_below p (length ((s ∷ ss) ++ t ∷ rest)) ((s ∷ ss) ++ t ∷ rest)
unfolding prefix_loop
prefix_loop-is_path_below p s ss t [] =
    let count : length ((s ∷ ss) ++ t ∷ []) ≡ suc (length (s ∷ ss)) =
      length-append (s ∷ ss) (t ∷ []) ∙ omega arith in
    ap (λ n. is_path_below p n ((s ∷ ss) ++ t ∷ [])) (sym count)
prefix_loop-is_path_below p s ss t (u ∷ rest) =
    let segs = (s ∷ ss) ++ t ∷ (u ∷ rest) in
    let longer : (path (s ∷ ss) ++ (b'/' ∷ [])) ++ t ≡ path (s ∷ (ss ++ t ∷ [])) =
      append_assoc (path (s ∷ ss)) (b'/' ∷ []) t ∙ sym (path-snoc s ss t) in
    let same : (s ∷ (ss ++ t ∷ [])) ++ u ∷ rest ≡ segs =
      append_assoc (s ∷ ss) (t ∷ []) (u ∷ rest) in
    let count : length (s ∷ (ss ++ t ∷ [])) ≡ suc (length (s ∷ ss)) =
      length-append (s ∷ ss) (t ∷ []) ∙ omega arith in
    let front : take (suc (length (s ∷ ss))) segs ≡ s ∷ (ss ++ t ∷ []) =
      subst (λ n. take n segs ≡ s ∷ (ss ++ t ∷ [])) count
        (subst (λ l. take (length (s ∷ (ss ++ t ∷ []))) l ≡ s ∷ (ss ++ t ∷ [])) same
          (take-append_length (s ∷ (ss ++ t ∷ [])) (u ∷ rest))) in
    let next : (member p (prefix_loop false (path (s ∷ (ss ++ t ∷ []))) (u ∷ rest))
          || (text_eq (path (s ∷ (ss ++ t ∷ []))) p
              || is_path_below p (suc (length (s ∷ ss))) segs))
        ≡ is_path_below p (length segs) segs =
      subst
        (λ l.
          (member p (prefix_loop false (path (s ∷ (ss ++ t ∷ []))) (u ∷ rest))
            || (text_eq (path l) p || is_path_below p (suc (length (s ∷ ss))) segs))
          ≡ is_path_below p (length segs) segs)
        front
        (subst
          (λ n.
            (member p (prefix_loop false (path (s ∷ (ss ++ t ∷ []))) (u ∷ rest))
              || is_path_below p (suc n) segs)
            ≡ is_path_below p (length segs) segs)
          count
          (subst
            (λ l.
              (member p (prefix_loop false (path (s ∷ (ss ++ t ∷ []))) (u ∷ rest))
                || is_path_below p (suc (length (s ∷ (ss ++ t ∷ [])))) l)
              ≡ is_path_below p (length l) l)
            same (prefix_loop-is_path_below p s (ss ++ t ∷ []) u rest))) in
    rw longer (
      move_front (text_eq (path (s ∷ (ss ++ t ∷ []))) p)
        (member p (prefix_loop false (path (s ∷ (ss ++ t ∷ []))) (u ∷ rest)))
        (is_path_below p (suc (length (s ∷ ss))) segs)
      ∙ next)

swap_root : (r a m b : Bool) → (m || (a || (r || false))) ≡ b → (r || (a || m)) ≡ (r || b)
swap_root true a m b h = refl
swap_root false true true b h = h
swap_root false true false b h = h
swap_root false false true b h = h
swap_root false false false b h = h

prefix_loop-root :
    (p : Text) (segs : List Text)
    → (text_eq [] p || member p (prefix_loop true [] segs))
      ≡ (text_eq [] p || is_path_below p (length segs) segs)
unfolding prefix_loop
prefix_loop-root p [] = refl
prefix_loop-root p (s ∷ []) = ground arith
prefix_loop-root p (s ∷ (t ∷ rest)) =
    swap_root (text_eq [] p) (text_eq s p) (member p (prefix_loop false s (t ∷ rest))) _
      (prefix_loop-is_path_below p s [] t rest)

-- The prefixes that the code lists for a key are those that the key lies under.
pub member-prefixes_of : (p key : Text) → member p (prefixes_of key) ≡ under p key
unfolding prefixes_of parts_of under
member-prefixes_of p key =
    let (part, rest, is) = split_slash-cons key in
    let same : parts_of key ≡ segments key =
      rw is (sym (segments_from-eq-filter [] key ∙ rw is refl)) in
    rw (parts_of, same) (prefix_loop-root p (segments key))
