-- ===== src/Crc/Bounds.antt =====
-- The width of the CRC of src/crc.rs.
use pico_10base_t_rs.Prelude.{
  ℕ, zero, suc, ◌/◌, ◌^◌, ◌<◌, List, [], ◌∷◌, arith, AreBytes, bit_xor, bit_xor_bounds,
}
use pico_10base_t_rs.Crc.{step_bits, step_byte, update, finalize, crc32_ieee802_3}

step_bits_bounds : (n crc : ℕ) → crc < 2 ^ 32 → step_bits n crc < 2 ^ 32
unfolding step_bits
step_bits_bounds zero crc h = h
step_bits_bounds (suc n) crc h =
    step_bits_bounds n _ (ground (arith, bit_xor_bounds 32 (crc / 2) 0xEDB88320))

update_bounds :
    (bytes : List ℕ) (crc : ℕ) → AreBytes bytes → crc < 2 ^ 32 → update crc bytes < 2 ^ 32
unfolding update step_byte
update_bounds [] crc hb h = h
update_bounds (b ∷ bytes) crc hb h =
    let small = hb 0 in
    update_bounds bytes (step_byte crc b) (λ i. hb (suc i))
      (step_bits_bounds 8 (bit_xor crc b) (bit_xor_bounds 32 crc b h (omega arith)))

pub crc32_ieee802_3_bounds : (bytes : List ℕ) → AreBytes bytes → crc32_ieee802_3 bytes < 2 ^ 32
unfolding crc32_ieee802_3 finalize
crc32_ieee802_3_bounds bytes hb =
    bit_xor_bounds 32 (update 0xFFFFFFFF bytes) 0xFFFFFFFF
      (update_bounds bytes 0xFFFFFFFF hb (omega arith)) (omega arith)
