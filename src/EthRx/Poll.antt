-- ===== src/EthRx/Poll.antt =====
-- `poll_into` of src/eth_rx.rs.
pub mod Stream
pub mod Bounds
use pico_10base_t_rs.Prelude.{
  ℕ, zero, suc, ◌+◌, ◌-◌, Bool, true, false, not, ◌&&◌, ◌||◌, Option, none, some, List, [], ◌∷◌,
  ◌++◌, ltb, leb, ◌==◌, if◌then◌else◌, length, byte, take, drop, wrapping_add32,
}
use pico_10base_t_rs.EthMac.Images.{PollOutcome, nothing, image}

abbrev pub buf_words : ℕ
buf_words = 4096

abbrev pub buf_bytes : ℕ
buf_bytes = 16384

abbrev pub max_carry_bytes : ℕ
max_carry_bytes = 16384

abbrev pub stitch_buf_bytes : ℕ
stitch_buf_bytes = buf_bytes + max_carry_bytes

-- The carry of `EthRx` is kept as the bytes of it in use, so `carry_len` is its length.
pub record EthRx : Type 0 where
  pub carry : List ℕ
  pub carry_capped : ℕ

unfoldable pub take_carry_capped : EthRx → ℕ × EthRx
take_carry_capped rx = (rx.carry_capped, record rx { carry_capped = 0 })

-- A byte with an edge in it.
unfoldable pub is_active : ℕ → Bool
is_active b = not (b == 0) && not (b == 0xff)

-- The loop on `k`: the length of the leading active run.
unfoldable pub leading_run : List ℕ → ℕ
leading_run [] = 0
leading_run (b ∷ bytes) = let rest = leading_run bytes in if is_active b then suc rest else 0

-- The loop on `tail_start`, which goes down: where it ends, and whether the carry is capped.
unfoldable pub tail_loop : ℕ → List ℕ → ℕ → ℕ × Bool
tail_loop k bytes zero = (zero, false)
tail_loop k bytes (suc t) =
    let rest = tail_loop k bytes t in
    if leb (suc t) k
    then (suc t, false)
    else (if leb max_carry_bytes (buf_bytes - suc t)
        then (suc t, true)
        else (if not (is_active (byte bytes t)) then (suc t, false) else rest))

-- `slot[..n].copy_from_slice(bytes)`, with `n` bytes. `none` is its panic on a shorter slot.
unfoldable pub copy_front : List ℕ → List ℕ → Option (List ℕ)
copy_front bytes slot =
    if ltb (length slot) (length bytes) then none else some (bytes ++ drop (length bytes) slot)

unfoldable pub bump_capped : Bool → EthRx → EthRx
bump_capped true rx = record rx { carry_capped = wrapping_add32 rx.carry_capped 1 }
bump_capped false rx = rx

-- The branch for a half that is active throughout, with a carry in front.
unfoldable pub carry_whole : List ℕ → List ℕ → EthRx → PollOutcome × List ℕ × EthRx
carry_whole new_bytes slot rx =
    if leb (length rx.carry + buf_bytes) max_carry_bytes
    then (nothing, slot, record rx { carry = rx.carry ++ new_bytes })
    else (nothing, slot, record (bump_capped true rx) { carry = [] })

-- The image and the next carry.
unfoldable pub stitch : ℕ × Bool → List ℕ → List ℕ → EthRx → Option (PollOutcome × List ℕ × EthRx)
stitch (tail_start, capped) new_bytes slot rx =
    elim (copy_front (rx.carry ++ take tail_start new_bytes) slot) [
      | none ↦ none
      | some filled ↦ some (
        image (length rx.carry + tail_start) (length rx.carry),
        filled,
        record (bump_capped capped rx) { carry = drop tail_start new_bytes },
      )
    ]

-- `poll_into` with the finished half, if one is done. `none` is a panic.
unfoldable pub poll_into : Option (List ℕ) → List ℕ → EthRx → Option (PollOutcome × List ℕ × EthRx)
poll_into none slot rx = some (nothing, slot, rx)
poll_into (some new_bytes) slot rx =
    let k = if ltb 0 (length rx.carry) then leading_run new_bytes else 0 in
    if ltb 0 (length rx.carry) && k == buf_bytes
    then some (carry_whole new_bytes slot rx)
    else stitch (tail_loop k new_bytes buf_bytes) new_bytes slot rx
