-- ===== src/Manchester/Code.antt =====
-- The Manchester code behind the table of src/manchester.rs: a bit is two half-bits of two bits each,
-- 01 for LOW and 10 for HIGH, the first one lowest.
use pico_10base_t_rs.Prelude.{
  ℕ, zero, suc, ◌+◌, ◌*◌, ◌/◌, ◌%◌, ◌^◌, ◌<◌, ◌≡◌, refl, ◌==◌, if◌then◌else◌, arith, get_or, ==_iff,
  all_below, all_below_lem, ◌∙◌, ap,
}
use pico_10base_t_rs.Manchester.{manchester_table}

-- LOW then HIGH for a 1, HIGH then LOW for a 0.
abbrev pub bit_code : ℕ → ℕ
bit_code bit = if bit == 1 then 1 + 4 * 2 else 2 + 4 * 1

-- The code of the lowest `n` bits, the lowest first.
abbrev pub code : ℕ → ℕ → ℕ
code zero b = 0
code (suc n) b = bit_code (b % 2) + 16 * code n (b / 2)

-- The bits of a word, by the second half-bit of each.
abbrev pub decode : ℕ → ℕ → ℕ
decode zero w = 0
decode (suc n) w = (if w / 4 % 4 == 2 then 1 else 0) + 2 * decode n (w / 16)

abbrev pub word : ℕ → ℕ
word b = get_or manchester_table b 0

pub word-code : (b : ℕ) → b < 256 → word b ≡ code 8 b
unfolding all_below
word-code b h =
    (==_iff (word b) (code 8 b)).0 (all_below_lem 256 (λ b. word b == code 8 b) b refl h)

decode-code : (n b : ℕ) → b < 2 ^ n → decode n (code n b) ≡ b
decode-code zero b h = omega arith
decode-code (suc n) b h =
    let twice : 2 ^ suc n ≡ 2 * 2 ^ n = omega arith in ground (arith, twice, decode-code n (b / 2))

-- Each entry of the table is the Manchester code of its index, and the index can be read back.
pub manchester_table-decode : (b : ℕ) → b < 256 → (word b ≡ code 8 b) × (decode 8 (word b) ≡ b)
manchester_table-decode b h =
    let coded = word-code b h in (coded, ap (decode 8) coded ∙ decode-code 8 b h)
