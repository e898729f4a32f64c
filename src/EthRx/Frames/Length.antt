-- ===== src/EthRx/Frames/Length.antt =====
-- What src/eth_rx.rs accepts as a frame.
use pico_10base_t_rs.Prelude.{
  ℕ, ◌+◌, ◌-◌, ◌≤◌, ◌≡◌, ◌↔◌, true, List, arith, length, take, rd16, max,
}
use pico_10base_t_rs.Crc.{crc32_ieee802_3}
use pico_10base_t_rs.EthRx.Frames.{derive_frame_len, rd32_le, verify_fcs}

-- The derived length never exceeds the frame, and a frame of 64 bytes or more has at least 64.
pub derive_frame_len_bounds :
    (frame : List ℕ)
    → (derive_frame_len frame ≤ length frame)
      × (64 ≤ length frame → 64 ≤ derive_frame_len frame)
      × (18 ≤ length frame
          → rd16 frame 12 ≡ 0x0800
          → 14 + rd16 frame 16 + 4 ≤ length frame
          → 64 ≤ length frame
          → derive_frame_len frame ≡ max (14 + rd16 frame 16 + 4) 64)
unfolding derive_frame_len
derive_frame_len_bounds frame = ground arith

-- A frame is accepted exactly when the length lies between header with FCS and the bytes there are,
-- and the last four bytes of it are the CRC of those before them.
pub verify_fcs_iff :
    (frame : List ℕ) (n : ℕ)
    → (verify_fcs frame n ≡ true) ↔ (
        (18 ≤ n)
        × (n ≤ length frame)
        × (crc32_ieee802_3 (take (n - 4) frame) ≡ rd32_le frame (n - 4)))
unfolding verify_fcs
verify_fcs_iff frame n = ground arith
