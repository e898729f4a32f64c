-- ===== src/Crc/Laws.antt =====
-- The padded form of the CRC in src/crc.rs against the plain one.
use pico_10base_t_rs.Prelude.{ℕ, zero, suc, ◌≡◌, refl, ap, ◌∙◌, sym, List, [], ◌∷◌, ◌++◌, replicate}
use pico_10base_t_rs.Crc.{
  step_byte, update, finalize, crc32_ieee802_3, pad_zeros, crc32_ieee802_3_padded,
}

update-append : (crc : ℕ) (xs ys : List ℕ) → update crc (xs ++ ys) ≡ update (update crc xs) ys
unfolding update
update-append crc [] ys = refl
update-append crc (x ∷ xs) ys = update-append (step_byte crc x) xs ys

pad_zeros-replicate : (n crc : ℕ) → pad_zeros n crc ≡ update crc (replicate n 0)
unfolding pad_zeros update
pad_zeros-replicate zero crc = refl
pad_zeros-replicate (suc n) crc = pad_zeros-replicate n (step_byte crc 0)

-- The padded CRC of a body is the CRC of the body with as many zero bytes behind it.
pub crc32_ieee802_3_padded-replicate :
    (bytes : List ℕ) (n : ℕ)
    → crc32_ieee802_3_padded bytes n ≡ crc32_ieee802_3 (bytes ++ replicate n 0)
unfolding crc32_ieee802_3 crc32_ieee802_3_padded
crc32_ieee802_3_padded-replicate bytes n = ap finalize (
    pad_zeros-replicate n (update 0xFFFFFFFF bytes)
    ∙ sym (update-append 0xFFFFFFFF bytes (replicate n 0)))
