-- ===== src/EthRxDpll/Decode.antt =====
-- What the decoder of src/eth_rx_dpll.rs returns.
use pico_10base_t_rs.Prelude.{
  ℕ, ◌+◌, ◌*◌, ◌^◌, ◌≤◌, ◌<◌, ◌≡◌, refl, ap, ◌∙◌, some, List, [], ◌∷◌, arith, length, AreBytes,
}
use pico_10base_t_rs.Prelude.Checked.{ok}
use pico_10base_t_rs.EthRx.Peek.{sample_bit, find_first_falling_edge, find_sfd_end}
use pico_10base_t_rs.EthRxDpll.{rounds, start_at, decode_frame_edge_track}
use pico_10base_t_rs.EthRxDpll.Reference.{track, first_edge, decode_reference}
use pico_10base_t_rs.EthRxDpll.Rounds.{track_fuel}
use pico_10base_t_rs.EthRxDpll.Line.{IsTracked}
use pico_10base_t_rs.EthRxDpll.Cap.{frame_cap}
use pico_10base_t_rs.EthRxDpll.Prefix.{Extends}
use pico_10base_t_rs.EthRxDpll.Drift.{follow, rounds_for}
use pico_10base_t_rs.EthRxDpll.Equivalence.{decode_frame_edge_track-reference}

rounds_for_bounds : (frame : List ℕ) (more : ℕ) → more ≤ rounds_for frame more
rounds_for_bounds [] more = omega arith
rounds_for_bounds (b ∷ frame) more = omega (arith, rounds_for_bounds frame more)

-- In a buffer of bytes that is not empty and has fewer than 2^32 samples, let the search for the first
-- falling edge and for the end of the SFD succeed, and let the line from the edge found there carry the
-- bits of a frame that is not empty and no longer than the cap that its header sets. Each bit's edge is
-- six samples after the last, or five if the level after it holds for two samples, or seven if the
-- level before it holds for three, and the buffer has seven samples after each edge but the last. Then
-- the decoder returns a frame that starts with that one, and
-- exactly that one if its length is its cap.
pub decode_frame_edge_track-tracked :
    (buf : List ℕ) (f sfd : ℕ) (edges : ℕ → ℕ) (frame : List ℕ)
    → AreBytes buf
    → 0 < length buf
    → 8 * length buf < 2 ^ 32
    → find_first_falling_edge buf 0 (8 * length buf) ≡ some f
    → find_sfd_end buf 0 f (8 * length buf) 1600 ≡ some sfd
    → first_edge buf (f + (5 + 6 * (sfd + 1))) ≡ edges 0
    → IsTracked buf edges (sample_bit frame) (8 * length frame)
    → AreBytes frame
    → 1 ≤ length frame
    → length frame ≤ frame_cap frame
    → (out : List ℕ) × (decode_frame_edge_track buf ≡ ok (some out))
      × Extends frame out
      × (frame_cap frame ≡ length frame → out ≡ frame)
unfolding decode_reference start_at
decode_frame_edge_track-tracked buf f sfd edges frame hb filled small found ended anchored line hf
      due short =
    let s = start_at (edges 0) in
    let out = track buf (rounds buf) s in
    let decoded = follow buf edges frame line hf short [] frame (rounds buf) refl in
    let enough : out ≡ track buf (rounds_for frame (rounds buf)) s =
      track_fuel buf (rounds buf) (rounds_for frame (rounds buf)) s (omega arith)
        (omega (arith, rounds_for_bounds frame (rounds buf))) in
    let returned : decode_reference buf ≡ some out =
      rw (decode_reference, found, ended, anchored) in
    (
      out,
      decode_frame_edge_track-reference buf hb filled small ∙ ap ok returned,
      (decoded.0.0, enough ∙ decoded.0.1),
      λ exact. enough ∙ decoded.1 exact due,
    )
