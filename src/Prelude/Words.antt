-- ===== src/Prelude/Words.antt =====
-- Machine words: the wrap of each width, big-endian pairs of bytes and IPv4 octets.
use Prim.Native.Nat.{ℕ, ◌+◌, ◌-◌, ◌*◌, ◌%◌, ◌^◌}

abbrev pub u8 : ℕ → ℕ
u8 n = n % 2 ^ 8

abbrev pub u16 : ℕ → ℕ
u16 n = n % 2 ^ 16

abbrev pub u32 : ℕ → ℕ
u32 n = n % 2 ^ 32

-- `!x` on a `u16`.
abbrev pub not16 : ℕ → ℕ
not16 x = 65535 - x

-- `u16::from_be_bytes([hi, lo])`.
abbrev pub from_be16 : ℕ → ℕ → ℕ
from_be16 hi lo = hi * 256 + lo

-- `fetch_add` and `fetch_sub` of an `AtomicU32`, which wrap.
abbrev pub wrapping_add32 : ℕ → ℕ → ℕ
wrapping_add32 a b = u32 (a + b)

abbrev pub wrapping_add16 : ℕ → ℕ → ℕ
wrapping_add16 a b = u16 (a + b)

abbrev pub wrapping_sub32 : ℕ → ℕ → ℕ
wrapping_sub32 a b = u32 (a + 2 ^ 32 - b)
