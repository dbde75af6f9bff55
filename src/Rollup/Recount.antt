-- ===== src/Rollup/Recount.antt =====
-- The aggregates agree with a recount of the objects, modulo 2 ^ 64.
use shard_vault.Base.{
  ℕ, ◌+◌, ◌%◌, ◌<◌, ◌≡◌, refl, ap, ◌∙◌, Bool, true, false, Option, none, some, List, [], ◌∷◌, All,
  Text, text_eq, text_eq_iff, Map, lookup, insert, lookup-insert, Text-Key, add64, u64_mod,
  if◌then◌else◌, Bool-cases, inl, inr, arith, ◌||◌,
}
use mathlib.Core.Bool.{true≢false}
use mathlib.Core.Path.{subst}
use shard_vault.Rollup.Prefixes.{prefixes_of, member}
use shard_vault.Rollup.Under.{under, member-prefixes_of}
use shard_vault.Rollup.Distinct.{Distinct, prefixes_of-Distinct}
use shard_vault.Rollup.Aggregate.{
  Aggregate, Rollup, empty_rollup, or_default, put_delta, add_delta, bump_prefixes, record_put, get,
}

-- A recount over the sizes: how many keys lie under a prefix, by their segments, and their bytes.
abbrev pub objects_under : Text → Map Text ℕ → ℕ
objects_under p [] = 0
objects_under p ((key, len) ∷ m) = (if under p key then 1 else 0) + objects_under p m

abbrev pub bytes_under : Text → Map Text ℕ → ℕ
bytes_under p [] = 0
bytes_under p ((key, len) ∷ m) = (if under p key then len else 0) + bytes_under p m

abbrev bump_one : ℕ × ℕ → Text → Map Text Aggregate → Map Text Aggregate
bump_one delta q aggs = insert q (add_delta delta (or_default (lookup q aggs))) aggs

lookup-bump_prefixes :
    (delta : ℕ × ℕ) (p : Text) (qs : List Text) (aggs : Map Text Aggregate)
    → member p qs ≡ false
    → lookup p (bump_prefixes delta qs aggs) ≡ lookup p aggs
unfolding bump_prefixes
lookup-bump_prefixes delta p [] aggs h = refl
lookup-bump_prefixes delta p (q ∷ qs) aggs h = elim (Bool-cases (text_eq q p)) [
  | inl e ↦ absurd (true≢false (rw (e, ◌||◌) at h))
  | inr e ↦
      lookup-bump_prefixes delta p qs (bump_one delta q aggs) (rw (e, ◌||◌) at h)
      ∙ lookup-insert q p (add_delta delta (or_default (lookup q aggs))) aggs
      ∙ rw e
]

-- Each prefix of the list gets the delta once, and no other text does.
get-bump_prefixes :
    (delta : ℕ × ℕ) (p : Text) (qs : List Text) (aggs : Map Text Aggregate)
    → Distinct qs
    → or_default (lookup p (bump_prefixes delta qs aggs)) ≡ (
        if member p qs
        then add_delta delta (or_default (lookup p aggs))
        else or_default (lookup p aggs))
unfolding bump_prefixes
get-bump_prefixes delta p [] aggs d = refl
get-bump_prefixes delta p (q ∷ qs) aggs (fresh, d) = elim (Bool-cases (text_eq q p)) [
  | inl e ↦
      let same : q ≡ p = (text_eq_iff q p).0 e in
      let gone : member p qs ≡ false = subst (λ t. member t qs ≡ false) same fresh in
      let once : lookup p (bump_prefixes delta qs (bump_one delta q aggs))
          ≡ some (add_delta delta (or_default (lookup q aggs))) =
        lookup-bump_prefixes delta p qs (bump_one delta q aggs) gone
        ∙ lookup-insert q p (add_delta delta (or_default (lookup q aggs))) aggs
        ∙ rw e in
      rw (e, ◌||◌)
        (ap or_default once ∙ ap (λ t. add_delta delta (or_default (lookup t aggs))) same)
  | inr e ↦
      let kept : lookup p (bump_one delta q aggs) ≡ lookup p aggs =
        lookup-insert q p (add_delta delta (or_default (lookup q aggs))) aggs ∙ rw e in
      rw (e, ◌||◌) (get-bump_prefixes delta p qs (bump_one delta q aggs) d ∙ rw kept)
]

-- What one put adds to and takes from a recount.
objects_under-insert :
    (p key : Text) (len : ℕ) (m : Map Text ℕ)
    → objects_under p (insert key len m)
      ≡ (if under p key then (put_delta (lookup key m) len).0 else 0) + objects_under p m
unfolding insert lookup
objects_under-insert p key len [] = refl
objects_under-insert p key len ((j, old) ∷ m) =
    ground (arith, text_eq_iff j key, objects_under-insert p key len m)

old_size : Option ℕ → ℕ
old_size none = 0
old_size (some n) = n

bytes_under-insert :
    (p key : Text) (len : ℕ) (m : Map Text ℕ)
    → bytes_under p (insert key len m) + (if under p key then old_size (lookup key m) else 0)
      ≡ (if under p key then len else 0) + bytes_under p m
unfolding insert lookup old_size
bytes_under-insert p key len [] = ground arith
bytes_under-insert p key len ((j, old) ∷ m) =
    ground (arith, text_eq_iff j key, bytes_under-insert p key len m)

-- Every aggregate is the recount of the objects under its prefix, and the sizes are u64 values.
pub record IsRecounted (r : Rollup) : Type 0 where
  pub objects : (p : Text) → (get p r).object_count ≡ objects_under p r.sizes % u64_mod
  pub bytes : (p : Text) → (get p r).byte_count ≡ bytes_under p r.sizes % u64_mod
  pub sizes : (key : Text) (n : ℕ) → lookup key r.sizes ≡ some n → n < u64_mod

pub IsRecounted-empty : IsRecounted empty_rollup
unfolding get lookup
IsRecounted-empty = record {
  objects = λ p. refl;
  bytes = λ p. refl;
  sizes = λ key n h. absurd (cc);
}

get-record_put :
    (key : Text) (len : ℕ) (r : Rollup) (p : Text)
    → get p (record_put key len r)
      ≡ (if under p key then add_delta (put_delta (lookup key r.sizes) len) (get p r) else get p r)
unfolding get record_put
get-record_put key len r p = rw⁻¹ (member-prefixes_of p key) (
    get-bump_prefixes (put_delta (lookup key r.sizes) len) p (prefixes_of key) r.aggregates
      (prefixes_of-Distinct key))

if_field :
    (f : Aggregate → ℕ) (b : Bool) (x y : Aggregate)
    → f (if b then x else y) ≡ (if b then f x else f y)
if_field f true x y = refl
if_field f false x y = refl

-- The arithmetic of one prefix: whether it is one of the key's, and the size that the key had.
objects_step :
    (b : Bool) (old : Option ℕ) (len now before after : ℕ)
    → now ≡ before % u64_mod
    → after ≡ (if b then (put_delta old len).0 else 0) + before
    → (if b then add64 now (put_delta old len).0 else now) ≡ after % u64_mod
objects_step true (some n) len now before after e f = omega arith
objects_step true none len now before after e f = omega arith
objects_step false old len now before after e f = omega arith

bytes_step :
    (b : Bool) (old : Option ℕ) (len now before after : ℕ)
    → now ≡ before % u64_mod
    → ((n : ℕ) → old ≡ some n → n < u64_mod)
    → after + (if b then old_size old else 0) ≡ (if b then len else 0) + before
    → (if b then add64 now (put_delta old len).1 else now) ≡ after % u64_mod
unfolding old_size
bytes_step true (some n) len now before after e small f = let bound = small n refl in omega arith
bytes_step true none len now before after e small f = omega arith
bytes_step false old len now before after e small f = omega arith

-- A put of a u64 size keeps the aggregates equal to the recount, of a new key and of an old one.
pub record_put-IsRecounted :
    (key : Text) (len : ℕ) (r : Rollup)
    → IsRecounted r
    → len < u64_mod
    → IsRecounted (record_put key len r)
unfolding record_put
record_put-IsRecounted key len r h small = record {
  objects = λ p. rw (get-record_put key len r p) (
      if_field (λ a. a.object_count) (under p key) _ _
      ∙ objects_step (under p key) (lookup key r.sizes) len (get p r).object_count
          (objects_under p r.sizes) _ (h.objects p) (objects_under-insert p key len r.sizes));
  bytes = λ p. rw (get-record_put key len r p) (
      if_field (λ a. a.byte_count) (under p key) _ _
      ∙ bytes_step (under p key) (lookup key r.sizes) len (get p r).byte_count
          (bytes_under p r.sizes) _ (h.bytes p) (h.sizes key)
          (bytes_under-insert p key len r.sizes));
  sizes = λ j n e. ground (arith, lookup-insert key j len r.sizes, h.sizes j n);
}

unfoldable pub record_all : List (Text × ℕ) → Rollup → Rollup
record_all [] r = r
record_all ((key, len) ∷ puts) r = record_all puts (record_put key len r)

-- If every aggregate is the recount of the objects under its prefix, modulo 2 ^ 64, then so it is
-- after any puts of u64 sizes, in any order and with any overwrites. A key lies under the root and
-- under the path of its first segments, some but not all.
pub record_all-IsRecounted :
    (puts : List (Text × ℕ)) (r : Rollup)
    → IsRecounted r
    → All (λ p. p.1 < u64_mod) puts
    → IsRecounted (record_all puts r)
unfolding record_all
record_all-IsRecounted [] r h small = h
record_all-IsRecounted ((key, len) ∷ puts) r h (hl, small) =
    record_all-IsRecounted puts (record_put key len r) (record_put-IsRecounted key len r h hl) small
