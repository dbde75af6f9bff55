-- ===== src/Wal/Reader.antt =====
-- The reading helpers of crates/shardvault-core/src/wal.rs. A reader takes bytes off the front of
-- the slice that `p: &mut &[u8]` holds, or fails.
use shard_vault.Base.{
  ℕ, ◌<◌, ◌^◌, ◌≡◌, refl, true, List, [], ◌++◌, append_assoc, length, take, drop, ltb,
  if◌then◌else◌, arith, le_bytes, from_le, length-le_bytes, from_le-le_bytes, Text, is_utf8, Result,
  ok, err, corrupt, truncated_record, invalid_utf8, take-append_length, drop-append_length,
  length-append,
}

abbrev pub Reader : Type 0 → Type 0
Reader A = List ℕ → Result (A × List ℕ)

infixl 5 ◌>>=◌
abbrev pub ◌>>=◌ : {A B : Type 0} → Reader A → (A → Reader B) → Reader B
◌>>=◌ m f p = elim (m p) [ ok (a, rest) ↦ f a rest | err e ↦ err e ]

abbrev pub pure : {A : Type 0} → A → Reader A
pure a p = ok (a, p)

-- `take`
unfoldable pub take_bytes : ℕ → Reader (List ℕ)
take_bytes n p =
    if ltb (length p) n then err (corrupt truncated_record) else ok (take n p, drop n p)

unfoldable pub take_u64 : Reader ℕ
take_u64 = do bytes ← take_bytes 8; pure (from_le bytes)

unfoldable pub take_u32 : Reader ℕ
take_u32 = do bytes ← take_bytes 4; pure (from_le bytes)

unfoldable pub take_u16 : Reader ℕ
take_u16 = do bytes ← take_bytes 2; pure (from_le bytes)

from_utf8 : List ℕ → Reader Text
from_utf8 bytes p = if is_utf8 bytes then ok (bytes, p) else err (corrupt invalid_utf8)

unfoldable pub take_utf8 : ℕ → Reader Text
unfolding from_utf8
take_utf8 n = do bytes ← take_bytes n; from_utf8 bytes

-- `r` reads `a` off `bs`, and leaves whatever follows.
pub record Reads {A : Type 0} (r : Reader A) (bs : List ℕ) (a : A) : Type 0 where
  pub on : (rest : List ℕ) → r (bs ++ rest) ≡ ok (a, rest)

module _ {A B : Type 0} where
  pub Reads-bind :
      {r : Reader A} (f : A → Reader B) {bs cs : List ℕ} {a : A} {b : B}
      → Reads r bs a
      → Reads (f a) cs b
      → Reads (r >>= f) (bs ++ cs) b
  Reads-bind f {bs = bs} {cs = cs} h k = record {
    on = λ rest. rw (append_assoc bs cs rest) (rw (h.on (cs ++ rest), ◌>>=◌) (k.on rest));
  }

  -- The last reader of a chain.
  pub Reads-last :
      {r : Reader A} {bs : List ℕ} {a : A} (g : A → B)
      → Reads r bs a
      → Reads (r >>= λ x. pure (g x)) bs (g a)
  Reads-last g h = record { on = λ rest. rw (h.on rest, ◌>>=◌) }

pub Reads-pure : {A : Type 0} (a : A) → Reads (pure a) [] a
Reads-pure a = record { on = λ rest. refl }

pub Reads-take_bytes : (bs : List ℕ) → Reads (take_bytes (length bs)) bs bs
unfolding take_bytes
Reads-take_bytes bs = record {
  on = λ rest.
      ground (arith, take-append_length bs rest, drop-append_length bs rest, length-append bs rest);
}

module _ (w : ℕ) where
  take_le : Reader ℕ
  take_le = do bytes ← take_bytes w; pure (from_le bytes)

  Reads-take_le : (n : ℕ) → n < 256 ^ w → Reads take_le (le_bytes w n) n
  unfolding take_le
  Reads-take_le n h = record {
    on = λ rest.
        let taken = rw (length-le_bytes w n) at (Reads-take_bytes (le_bytes w n)) in
        rw (taken.on rest, ◌>>=◌) (rw (from_le-le_bytes w n h));
  }

pub Reads-take_u64 : (n : ℕ) → n < 2 ^ 64 → Reads take_u64 (le_bytes 8 n) n
unfolding take_u64 take_le
Reads-take_u64 n h = Reads-take_le 8 n h

pub Reads-take_u32 : (n : ℕ) → n < 2 ^ 32 → Reads take_u32 (le_bytes 4 n) n
unfolding take_u32 take_le
Reads-take_u32 n h = Reads-take_le 4 n h

pub Reads-take_u16 : (n : ℕ) → n < 65536 → Reads take_u16 (le_bytes 2 n) n
unfolding take_u16 take_le
Reads-take_u16 n h = Reads-take_le 2 n h

pub Reads-take_utf8 : (s : Text) → is_utf8 s ≡ true → Reads (take_utf8 (length s)) s s
unfolding take_utf8
Reads-take_utf8 s h = record { on = λ rest. rw ((Reads-take_bytes s).on rest, ◌>>=◌) (rw h) }
