-- ===== src/EthRxDpll/Cap.antt =====
-- The length cap of src/eth_rx_dpll.rs as the frame grows.
use pico_10base_t_rs.Prelude.{
  ℕ, ◌+◌, ◌≤◌, ◌<◌, ◌≡◌, List, [], ◌∷◌, ◌++◌, leb, if◌then◌else◌, arith, length, rd16,
  get_or-append_left, length-append, lt→ltb,
}
use pico_10base_t_rs.EthRxDpll.{go, finished, header_cap, note_header, push_byte, max_frame_bytes}
use pico_10base_t_rs.EthRxDpll.Bytes.{at_edge}

-- The cap that holds once the bytes of `frame` are in.
abbrev pub frame_cap : List ℕ → ℕ
frame_cap frame = if leb 18 (length frame) then header_cap frame else max_frame_bytes

rd16-append : (got rest : List ℕ) (i : ℕ) → i + 1 < length got → rd16 (got ++ rest) i ≡ rd16 got i
rd16-append got rest i h =
    omega (
      arith,
      get_or-append_left got rest i 0 (omega arith),
      get_or-append_left got rest (i + 1) 0 h,
    )

pub header_cap-append :
    (got rest : List ℕ) → 18 ≤ length got → header_cap (got ++ rest) ≡ header_cap got
unfolding header_cap
header_cap-append got rest h =
    rw (rd16-append got rest 12 (omega arith), rd16-append got rest 16 (omega arith))

pub header_cap_bounds : (frame : List ℕ) → (64 ≤ header_cap frame) × (header_cap frame ≤ 1600)
unfolding header_cap
header_cap_bounds frame = (ground arith, ground arith)

-- The cap after one more byte.
note_header-cap :
    (tr b : ℕ) (got : List ℕ)
    → note_header (at_edge tr 0 0 (got ++ (b ∷ [])) (frame_cap got))
      ≡ at_edge tr 0 0 (got ++ (b ∷ [])) (frame_cap (got ++ (b ∷ [])))
unfolding note_header
note_header-cap tr b got =
    ground
      (arith, length-append got (b ∷ []), header_cap-append got (b ∷ []), header_cap_bounds got)

-- A byte is kept, and the frame is finished when the cap is reached.
pub push_byte-cap :
    (tr b : ℕ) (got : List ℕ)
    → length got < 1600
    → let got' = got ++ (b ∷ []) in
      push_byte (at_edge tr b 8 got (frame_cap got)) ≡ (
        if leb (frame_cap got') (length got')
        then finished got'
        else go (at_edge tr 0 0 got' (frame_cap got')))
unfolding push_byte
push_byte-cap tr b got h = rw (push_byte, lt→ltb (length got) 1600 h, note_header-cap tr b got)
