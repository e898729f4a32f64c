-- ===== src/Crc.antt =====
-- The CRC-32 of src/crc.rs, bit by bit.
pub mod Laws
pub mod Bounds
use pico_10base_t_rs.Prelude.{
  ℕ, zero, suc, ◌/◌, ◌%◌, List, [], ◌∷◌, ◌==◌, not, if◌then◌else◌, bit_xor, bit_and,
}

-- The loop over the eight bits.
unfoldable pub step_bits : ℕ → ℕ → ℕ
step_bits zero crc = crc
step_bits (suc left) crc =
    step_bits left (if not (bit_and crc 1 == 0) then bit_xor (crc / 2) 0xEDB88320 else crc / 2)

unfoldable pub step_byte : ℕ → ℕ → ℕ
step_byte crc b = step_bits 8 (bit_xor crc b)

unfoldable pub update : ℕ → List ℕ → ℕ
update crc [] = crc
update crc (b ∷ bytes) = update (step_byte crc b) bytes

unfoldable pub finalize : ℕ → ℕ
finalize crc = bit_xor crc 0xFFFFFFFF

unfoldable pub crc32_ieee802_3 : List ℕ → ℕ
crc32_ieee802_3 bytes = finalize (update 0xFFFFFFFF bytes)

-- The loop over the padding.
unfoldable pub pad_zeros : ℕ → ℕ → ℕ
pad_zeros zero crc = crc
pad_zeros (suc left) crc = pad_zeros left (step_byte crc 0)

unfoldable pub crc32_ieee802_3_padded : List ℕ → ℕ → ℕ
crc32_ieee802_3_padded bytes pad_len = finalize (pad_zeros pad_len (update 0xFFFFFFFF bytes))
