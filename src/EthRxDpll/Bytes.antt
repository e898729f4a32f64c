-- ===== src/EthRxDpll/Bytes.antt =====
-- A byte from eight rounds of the reference decoder for src/eth_rx_dpll.rs, on a line that it can
-- follow.
use pico_10base_t_rs.Prelude.{
  ℕ, suc, ◌+◌, ◌*◌, ◌/◌, ◌%◌, ◌^◌, ◌<◌, ◌≡◌, refl, ap, ◌∙◌, none, List, ◌==◌, false, arith, byte,
}
use pico_10base_t_rs.EthRx.Peek.{sample_bit}
use pico_10base_t_rs.EthRxDpll.{Dpll, go, take_bit, push_byte}
use pico_10base_t_rs.EthRxDpll.Reference.{track}
use pico_10base_t_rs.EthRxDpll.Rounds.{track_go}
use pico_10base_t_rs.EthRxDpll.Line.{IsTracked, next_edge-tracked}

-- The decoder at an edge, with no bit waiting.
abbrev pub at_edge : ℕ → ℕ → ℕ → List ℕ → ℕ → Dpll
at_edge tr byte bit_idx frame cap = record {
  tr = tr;
  byte = byte;
  bit_idx = bit_idx;
  frame = frame;
  cap_bytes = cap;
  pending = none;
}

take_bit_middle :
    (bit tr b j : ℕ) (frame : List ℕ) (cap : ℕ)
    → j < 7
    → take_bit bit (at_edge tr b j frame cap) ≡ go (at_edge tr (b + bit * 2 ^ j) (j + 1) frame cap)
unfolding take_bit
take_bit_middle bit tr b j frame cap h =
    let more : (j + 1 == 8) ≡ false = ground arith in rw (take_bit, more)

pub take_bit_last :
    (bit tr b : ℕ) (frame : List ℕ) (cap : ℕ)
    → take_bit bit (at_edge tr b 7 frame cap) ≡ push_byte (at_edge tr (b + bit * 2 ^ 7) 8 frame cap)
unfolding take_bit
take_bit_last bit tr b frame cap = refl

-- The bits of a frame, in the order of the line.
pub sample_bit-byte :
    (frame : List ℕ) (i j : ℕ) → j < 8 → sample_bit frame (8 * i + j) ≡ byte frame i / 2 ^ j % 2
unfolding sample_bit
sample_bit-byte frame i j h =
    let q : (8 * i + j) / 8 ≡ i = omega arith in
    let r : (8 * i + j) % 8 ≡ j = omega arith in rw (q, r)

module _ (buf : List ℕ) (edges : ℕ → ℕ) (frame : List ℕ) (n : ℕ)
    (line : IsTracked buf edges (sample_bit frame) n) where
  round :
      (k j b : ℕ) (got : List ℕ) (cap left : ℕ)
      → j < 7
      → suc k < n
      → track buf (suc left) (at_edge (edges k) b j got cap)
        ≡ track buf left (at_edge (edges (suc k)) (b + sample_bit frame k * 2 ^ j) (j + 1) got cap)
  round k j b got cap left h lt =
      let inside = line.inside k (omega arith) in
      track_go buf left (at_edge (edges k) b j got cap)
        (at_edge (edges k) (b + sample_bit frame k * 2 ^ j) (j + 1) got cap) (inside.0) (inside.1)
        (ap (λ bit. take_bit bit (at_edge (edges k) b j got cap)) (line.bit k (omega arith))
          ∙ take_bit_middle (sample_bit frame k) (edges k) b j got cap h)
      ∙ ap (λ tr. track buf left (at_edge tr (b + sample_bit frame k * 2 ^ j) (j + 1) got cap))
          (next_edge-tracked buf edges (sample_bit frame) n k line lt)

  -- The rounds of a byte up to its last bit.
  pub seven_rounds :
      (i : ℕ) (got : List ℕ) (cap left : ℕ)
      → 8 * i + 7 < n
      → track buf
          (suc (suc (suc (suc (suc (suc (suc left)))))))
          (at_edge (edges (8 * i)) 0 0 got cap)
        ≡ track buf left (at_edge (edges (8 * i + 7)) (byte frame i % 2 ^ 7) 7 got cap)
  seven_rounds i got cap left lt =
      ap
        (λ k.
          track buf (suc (suc (suc (suc (suc (suc (suc left))))))) (at_edge (edges k) 0 0 got cap))
        (from_zero i)
      ∙ step 0 0 (suc (suc (suc (suc (suc (suc left)))))) (omega arith)
      ∙ step 1 _ (suc (suc (suc (suc (suc left))))) (omega arith)
      ∙ step 2 _ (suc (suc (suc (suc left)))) (omega arith)
      ∙ step 3 _ (suc (suc (suc left))) (omega arith)
      ∙ step 4 _ (suc (suc left)) (omega arith)
      ∙ step 5 _ (suc left) (omega arith)
      ∙ step 6 _ left (omega arith)
      ∙ ap (λ b. track buf left (at_edge (edges (8 * i + 7)) b 7 got cap)) (low_bits (byte frame i))
    where
      from_zero : (i : ℕ) → 8 * i ≡ 8 * i + 0
      from_zero i = omega arith

      next : (j : ℕ) → suc (8 * i + j) ≡ 8 * i + (j + 1)
      next j = omega arith

      step :
          (j b l : ℕ)
          → j < 7
          → track buf (suc l) (at_edge (edges (8 * i + j)) b j got cap)
            ≡ track buf l (
                at_edge
                  (edges (8 * i + (j + 1)))
                  (b + byte frame i / 2 ^ j % 2 * 2 ^ j)
                  (j + 1)
                  got
                  cap)
      step j b l h =
          round (8 * i + j) j b got cap l h (omega arith)
          ∙ ap
              (λ k.
                track buf l
                  (at_edge (edges k) (b + sample_bit frame (8 * i + j) * 2 ^ j) (j + 1) got cap))
              (next j)
          ∙ ap
              (λ x. track buf l (at_edge (edges (8 * i + (j + 1))) (b + x * 2 ^ j) (j + 1) got cap))
              (sample_bit-byte frame i j (omega arith))

      low_bits :
          (x : ℕ)
          → 0
              + x / 2 ^ 0 % 2 * 2 ^ 0
              + x / 2 ^ 1 % 2 * 2 ^ 1
              + x / 2 ^ 2 % 2 * 2 ^ 2
              + x / 2 ^ 3 % 2 * 2 ^ 3
              + x / 2 ^ 4 % 2 * 2 ^ 4
              + x / 2 ^ 5 % 2 * 2 ^ 5
              + x / 2 ^ 6 % 2 * 2 ^ 6
            ≡ x % 2 ^ 7
      low_bits x = omega arith
