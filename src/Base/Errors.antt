-- ===== src/Base/Errors.antt =====
-- crates/shardvault-core/src/error.rs: the store's errors, and results that carry one.
use Prim.Native.Nat.{ℕ}
use mathlib.Core.Logic.{◌⊎◌, inl, inr}
use mathlib.Core.Path.{◌≡◌, refl}
use mathlib.Core.Option.{Option, none, some}

-- The messages of `StoreError::Corrupt`, with the numbers that they print.
pub data Corruption : Type 0 where
  truncated_record invalid_utf8 : Corruption
  unknown_tag block_encode_failed : ℕ → Corruption
  segment_not_open short_segment_read : Corruption
  put_without_data put_length_mismatch : Corruption
  seal_mismatch : ℕ → ℕ → Corruption
  remap_without_swap remap_target_mismatch remap_source_mismatch : Corruption
  remap_source_missing no_put_at : ℕ → Corruption
  segment_missing segment_too_short : ℕ → Corruption
  short_compaction_read : Corruption
  torn_block empty_shard_file shard_missing shard_too_short stripe_length_out_of_range : Corruption
  shard_length_mismatch : Corruption
  block_decode_failed stripe_too_few_shards stripe_inconsistent_shards : ℕ → Corruption

pub data StoreError : Type 0 where
  io : StoreError
  corrupt : Corruption → StoreError
  record_too_large : StoreError

pub data Result {ℓ} (A : Type ℓ) : Type ℓ where
  ok : A → Result A
  err : StoreError → Result A

infixl 5 ◌>>=◌
abbrev pub ◌>>=◌ {ℓ κ} : {A : Type ℓ} {B : Type κ} → Result A → (A → Result B) → Result B
err error >>= next = err error
ok value >>= next = next value

-- A chain that returns has a first call that returned, and went on from its value.
pub >>=-eq-ok {ℓ κ} :
    {A : Type ℓ} {B : Type κ} {result : B} (call : Result A) (next : A → Result B)
    → (call >>= next) ≡ ok result
    → (value : A) × (call ≡ ok value) × (next value ≡ ok result)
>>=-eq-ok (err error) next returned = cc
>>=-eq-ok (ok value) next returned = (value, refl, returned)

-- `o.ok_or(e)`.
abbrev pub ok_or {ℓ} : {A : Type ℓ} → Option A → StoreError → Result A
ok_or none e = err e
ok_or (some a) e = ok a

pub ok-injective {ℓ} : {A : Type ℓ} {a b : A} → ok a ≡ ok b → a ≡ b
ok-injective h = cc

pub Result-cases {ℓ} :
    {A : Type ℓ} (r : Result A) → ((a : A) × (r ≡ ok a)) ⊎ ((e : StoreError) × (r ≡ err e))
Result-cases (ok a) = inl (a, refl)
Result-cases (err e) = inr (e, refl)
