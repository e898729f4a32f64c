-- ===== src/EthRx/Frames.antt =====
-- The length of a decoded frame and its check in src/eth_rx.rs.
pub mod Length
use pico_10base_t_rs.Prelude.{
  ℕ, ◌+◌, ◌*◌, ◌-◌, ◌^◌, Bool, false, ◌||◌, ◌&&◌, List, ltb, leb, ◌==◌, if◌then◌else◌, max, length,
  byte, take, rd16,
}
use pico_10base_t_rs.Crc.{crc32_ieee802_3}

unfoldable pub derive_frame_len : List ℕ → ℕ
derive_frame_len frame =
    if ltb (length frame) 18
    then length frame
    else (let etype = rd16 frame 12 in
        if etype == 0x0800
        then (let computed = max (14 + rd16 frame 16 + 4) 64 in
            if leb computed (length frame) then computed else length frame)
        else (if etype == 0x0806 && leb 64 (length frame) then 64 else length frame))

-- `u32::from_le_bytes` of the four bytes at `i`.
abbrev pub rd32_le : List ℕ → ℕ → ℕ
rd32_le frame i =
    byte frame i
    + byte frame (i + 1) * 2 ^ 8
    + byte frame (i + 2) * 2 ^ 16
    + byte frame (i + 3) * 2 ^ 24

unfoldable pub verify_fcs : List ℕ → ℕ → Bool
verify_fcs frame frame_len =
    if ltb frame_len (14 + 4) || ltb (length frame) frame_len
    then false
    else crc32_ieee802_3 (take (frame_len - 4) frame) == rd32_le frame (frame_len - 4)
