-- ===== src/Checksum.antt =====
-- The incremental internet checksum of src/conntrack.rs: `add1c`, `checksum_incr` and `addr_words`.
pub mod Update
mod Tests
use pico_10base_t_rs.Prelude.{ℕ, ◌+◌, ◌*◌, ◌/◌, ◌%◌, ◌^◌, List, [], ◌∷◌, u8, u16, not16, from_be16}

-- One's-complement addition with end-around carry. The sum is taken in `u32`.
unfoldable pub add1c : ℕ → ℕ → ℕ
add1c a b = let s = a + b in u16 (s % 2 ^ 16 + s / 2 ^ 16)

-- The loop over the changed words `(m, m')`.
unfoldable pub fold_changes : ℕ → List (ℕ × ℕ) → ℕ
fold_changes acc [] = acc
fold_changes acc ((m, m') ∷ changes) = fold_changes (add1c (add1c acc (not16 m)) m') changes

unfoldable pub checksum_incr : ℕ → List (ℕ × ℕ) → ℕ
unfolding fold_changes
checksum_incr old_check changes = not16 (fold_changes (not16 old_check) changes)

-- An address is the number of its four octets, the first the most significant.
abbrev pub octet : ℕ → ℕ → ℕ
octet ip k = u8 (ip / 2 ^ (8 * k))

unfoldable pub addr_words : ℕ → ℕ × ℕ
addr_words ip = (from_be16 (octet ip 3) (octet ip 2), from_be16 (octet ip 1) (octet ip 0))
