-- ===== src/Block/Crc.antt =====
-- The CRC-32C of csrc/block.c. A table is a function of the byte that it is indexed with.
use shard_vault.Base.{
  ℕ, zero, suc, ◌-◌, ◌/◌, ◌%◌, ◌^◌, ◌≡◌, refl, bit_and, bit_xor, List, [], ◌∷◌, ◌==◌, if◌then◌else◌,
  from_le,
}

-- One step of the loop that fills the first table: `(r >> 1) ^ (POLY & (0 - (r & 1)))`.
crc_step : ℕ → ℕ
crc_step r = bit_xor (r / 2) (if r % 2 == 1 then 0x82F63B78 else 0)

-- `sv_crc_tables[0][b]`: eight steps.
first_table : ℕ → ℕ
unfolding crc_step
first_table b =
    crc_step (crc_step (crc_step (crc_step (crc_step (crc_step (crc_step (crc_step b)))))))

-- `sv_crc_tables[k][b]`
crc_table : ℕ → ℕ → ℕ
unfolding first_table
crc_table zero b = first_table b
crc_table (suc k) b = let r = crc_table k b in bit_xor (r / 256) (first_table (bit_and r 0xff))

-- Eight bytes at a time, then one at a time. The bytes of `w` do not overlap, so that `|` is `+`.
unfoldable pub crc_update : ℕ → List ℕ → ℕ
unfolding crc_table from_le
crc_update crc (a ∷ b ∷ c ∷ d ∷ e ∷ f ∷ g ∷ h ∷ buf) =
    let w = bit_xor crc (from_le (a ∷ b ∷ c ∷ d ∷ e ∷ f ∷ g ∷ h ∷ [])) in
    crc_update
      (bit_xor (crc_table 7 (bit_and w 0xff)) (
        bit_xor (crc_table 6 (bit_and (w / 2 ^ 8) 0xff)) (
          bit_xor (crc_table 5 (bit_and (w / 2 ^ 16) 0xff)) (
            bit_xor (crc_table 4 (bit_and (w / 2 ^ 24) 0xff)) (
              bit_xor (crc_table 3 (bit_and (w / 2 ^ 32) 0xff)) (
                bit_xor (crc_table 2 (bit_and (w / 2 ^ 40) 0xff)) (
                  bit_xor (crc_table 1 (bit_and (w / 2 ^ 48) 0xff))
                    (crc_table 0 (bit_and (w / 2 ^ 56) 0xff)))))))))
      buf
crc_update crc [] = crc
crc_update crc (b ∷ buf) =
    crc_update (bit_xor (crc_table 0 (bit_and (bit_xor crc b) 0xff)) (crc / 256)) buf

-- `~crc` on 32 bits.
abbrev pub not32 : ℕ → ℕ
not32 crc = 2 ^ 32 - 1 - crc

unfoldable pub crc32c : List ℕ → ℕ
crc32c buf = not32 (crc_update (not32 0) buf)

-- The check value of CRC-32C, over the digits 1 to 9.
crc32c_check :
    crc32c (b'1' ∷ b'2' ∷ b'3' ∷ b'4' ∷ b'5' ∷ b'6' ∷ b'7' ∷ b'8' ∷ b'9' ∷ []) ≡ 0xE3069283
unfolding crc32c crc_update
crc32c_check = refl
