-- ===== src/EthRxDpll/Tests.antt =====
-- Runs of the decoder of src/eth_rx_dpll.rs: a line that carries three bytes, with a clock that drifts.
use pico_10base_t_rs.Prelude.{
  ℕ, suc, ◌+◌, ◌-◌, ◌*◌, ◌<◌, ◌≡◌, refl, ◌⊎◌, Bool, true, not, ◌&&◌, ◌||◌, some, List, [], ◌∷◌, leb,
  ltb, ◌==◌, arith, length, get_or, all_bytes-AreBytes, all_below, all_below_lem,
}
use pico_10base_t_rs.Prelude.Checked.{ok}
use pico_10base_t_rs.EthRx.Peek.{
  sample_bit, find_first_falling_edge, find_sfd_end, falling_loop, sfd_loop, data_bit,
}
use pico_10base_t_rs.EthRxDpll.{decode_frame_edge_track}
use pico_10base_t_rs.EthRxDpll.Reference.{first_edge, edge_near, decode_reference}
use pico_10base_t_rs.EthRxDpll.Line.{IsTracked, IsEarly, IsLate}
use pico_10base_t_rs.EthRxDpll.Cap.{frame_cap}
use pico_10base_t_rs.EthRxDpll.Prefix.{Extends}
use pico_10base_t_rs.EthRxDpll.Equivalence.{decode_frame_edge_track-reference}
use pico_10base_t_rs.EthRxDpll.Decode.{decode_frame_edge_track-tracked}

abbrev line : List ℕ
line =
    0 ∷ 14 ∷ 252 ∷ 192 ∷ 15 ∷ 252 ∷ 192 ∷ 15 ∷ 252 ∷ 192 ∷ 15 ∷ 252 ∷ 192 ∷ 15 ∷ 252 ∷ 192 ∷ 15
    ∷ 252 ∷ 192 ∷ 15 ∷ 252 ∷ 192 ∷ 15 ∷ 252 ∷ 192 ∷ 15 ∷ 252 ∷ 192 ∷ 15 ∷ 252 ∷ 192 ∷ 15 ∷ 252 ∷ 192
    ∷ 15 ∷ 252 ∷ 192 ∷ 15 ∷ 252 ∷ 192 ∷ 15 ∷ 252 ∷ 192 ∷ 15 ∷ 252 ∷ 192 ∷ 15 ∷ 252 ∷ 56 ∷ 142 ∷ 7
    ∷ 198 ∷ 241 ∷ 3 ∷ 126 ∷ 142 ∷ 227 ∷ 241 ∷ 192 ∷ 24 ∷ 199 ∷ 113 ∷ 248 ∷ 113 ∷ 14 ∷ 252 ∷ 129 ∷ 3
    ∷ 0 ∷ []

abbrev sent : List ℕ
sent = 0xA3 ∷ 0x0F ∷ 0x5C ∷ []

abbrev sent_edges : List ℕ
sent_edges =
    396 ∷ 403 ∷ 409 ∷ 414 ∷ 420 ∷ 426 ∷ 433 ∷ 439 ∷ 444 ∷ 450 ∷ 457 ∷ 464 ∷ 470 ∷ 475 ∷ 480 ∷ 486
    ∷ 492 ∷ 499 ∷ 505 ∷ 511 ∷ 516 ∷ 522 ∷ 529 ∷ 535 ∷ []

abbrev edge_at : ℕ → ℕ
edge_at k = get_or sent_edges k 0

-- The conditions of IsTracked at a bit, as tests.
abbrev bit_test : List ℕ → (ℕ → ℕ) → (ℕ → ℕ) → ℕ → Bool
bit_test buf edges bits k =
    sample_bit buf (edges k - 1) == bits k
    && (not (sample_bit buf (edges k) == bits k)
        && (leb 1 (edges k) && leb (edges k) (8 * length buf)))

abbrev step_test : List ℕ → ℕ → ℕ → Bool
step_test buf from to =
    ltb (from + 7) (8 * length buf)
    && (to == from + 6
        || (to == from + 5 && sample_bit buf to == sample_bit buf (to + 1)
            || to == from + 7
              && (sample_bit buf (to - 3) == sample_bit buf (to - 2)
                  && sample_bit buf (to - 2) == sample_bit buf (to - 1))))

step_test_lem :
    (buf : List ℕ) (from to : ℕ)
    → step_test buf from to ≡ true
    → (from + 7 < 8 * length buf) × ((to ≡ from + 6) ⊎ IsEarly buf from to ⊎ IsLate buf from to)
step_test_lem buf from to h = ground arith

bits_test-IsTracked :
    (buf : List ℕ) (edges bits : ℕ → ℕ) (n : ℕ)
    → all_below n (bit_test buf edges bits) ≡ true
    → all_below (n - 1) (λ k. step_test buf (edges k) (edges (suc k))) ≡ true
    → IsTracked buf edges bits n
bits_test-IsTracked buf edges bits n h h' =
    let at = λ (k : ℕ). all_below_lem n (bit_test buf edges bits) k h in
    let next =
      λ (k : ℕ). all_below_lem (n - 1) (λ k. step_test buf (edges k) (edges (suc k))) k h' in
    record {
      bit = λ k lt. let t = at k lt in ground arith;
      flip = λ k lt e. let t = at k lt in ground arith;
      inside = λ k lt. let t = at k lt in ground arith;
      room = λ k lt. (step_test_lem buf (edges k) (edges (suc k)) (next k (omega arith))).0;
      step = λ k lt. (step_test_lem buf (edges k) (edges (suc k)) (next k (omega arith))).1;
    }

line-IsTracked : IsTracked line edge_at (sample_bit sent) 24
unfolding sample_bit all_below
line-IsTracked = bits_test-IsTracked line edge_at (sample_bit sent) 24 refl refl

decode_frame_edge_track-reference_example :
    decode_frame_edge_track line ≡ ok (decode_reference line)
decode_frame_edge_track-reference_example =
    decode_frame_edge_track-reference line (all_bytes-AreBytes line refl) (omega arith)
      (omega arith)

decode_frame_edge_track-tracked_example :
    (out : List ℕ) × (decode_frame_edge_track line ≡ ok (some out))
    × Extends sent out
    × (frame_cap sent ≡ length sent → out ≡ sent)
unfolding find_first_falling_edge find_sfd_end first_edge edge_near falling_loop sfd_loop data_bit
    sample_bit
decode_frame_edge_track-tracked_example =
    decode_frame_edge_track-tracked line 12 62 edge_at sent (all_bytes-AreBytes line refl)
      (omega arith) (omega arith) refl refl refl line-IsTracked (all_bytes-AreBytes sent refl)
      (omega arith) (omega arith)
