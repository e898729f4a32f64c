-- ===== src/EthRxDpll/Window.antt =====
-- The reads of src/eth_rx_dpll.rs inside the buffer, and the window of its fast path.
use pico_10base_t_rs.Prelude.{
  ℕ, zero, suc, ◌+◌, ◌-◌, ◌*◌, ◌/◌, ◌%◌, ◌^◌, ◌≤◌, ◌<◌, ◌≡◌, refl, ap, sym, ◌∙◌, some, List, ltb,
  ◌==◌, inl, inr, if◌then◌else◌, arith, length, get_or, byte, bit_and, bit_xor, bit_xor_step,
  bit_and_seven, AreBytes, get_elem?-eq-get_or, Bool-cases, if-false, leb, false,
}
use pico_10base_t_rs.Prelude.Checked.{ok}
use pico_10base_t_rs.EthRx.Peek.{sample_bit}
use pico_10base_t_rs.EthRxDpll.{
  get_unchecked, sample_bit_unchecked, choose_edge, edge_delta, Dpll, fast_resync, find_edge_w1,
}
use pico_10base_t_rs.EthRxDpll.Reference.{edge_near, next_edge}

pub get_unchecked-ok :
    (buf : List ℕ) (i : ℕ) → i < length buf → get_unchecked buf i ≡ ok (byte buf i)
unfolding get_unchecked
get_unchecked-ok buf i h = rw (get_unchecked, get_elem?-eq-get_or buf i 0 h)

pub sample_bit_unchecked-ok :
    (buf : List ℕ) (i : ℕ) → i < 8 * length buf → sample_bit_unchecked buf i ≡ ok (sample_bit buf i)
unfolding sample_bit_unchecked sample_bit
sample_bit_unchecked-ok buf i h =
    rw (sample_bit_unchecked, get_unchecked-ok buf (i / 8) (omega arith))

pub sample_bit_bounds : (buf : List ℕ) (i : ℕ) → sample_bit buf i < 2
unfolding sample_bit
sample_bit_bounds buf i = omega arith

pub find_edge_w1-ok :
    (buf : List ℕ) (center : ℕ)
    → center + 1 < 8 * length buf
    → find_edge_w1 buf center ≡ ok (edge_near buf center)
unfolding find_edge_w1 edge_near
find_edge_w1-ok buf center h = rw (
  sample_bit_unchecked-ok buf (center - 2) (omega arith),
  sample_bit_unchecked-ok buf (center - 1) (omega arith),
  sample_bit_unchecked-ok buf center (omega arith),
  sample_bit_unchecked-ok buf (center + 1) (omega arith),
)

-- Bit `c` of two bytes side by side.
abbrev pick : ℕ → ℕ → ℕ → ℕ
pick b0 b1 c = if ltb c 8 then b0 / 2 ^ c % 2 else b1 / 2 ^ (c - 8) % 2

window_bits :
    (b0 b1 r : ℕ)
    → b0 < 256
    → r < 8
    → let w = (b0 + b1 * 2 ^ 8) / 2 ^ r in
      (w % 2 ≡ pick b0 b1 r)
      × (w / 2 % 2 ≡ pick b0 b1 (r + 1))
      × (w / 2 / 2 % 2 ≡ pick b0 b1 (r + 2))
      × (w / 2 / 2 / 2 % 2 ≡ pick b0 b1 (r + 3))
window_bits b0 b1 zero p q = (omega arith, omega arith, omega arith, omega arith)
window_bits b0 b1 (suc zero) p q = (omega arith, omega arith, omega arith, omega arith)
window_bits b0 b1 (suc (suc zero)) p q = (omega arith, omega arith, omega arith, omega arith)
window_bits b0 b1 (suc (suc (suc zero))) p q = (omega arith, omega arith, omega arith, omega arith)
window_bits b0 b1 (suc (suc (suc (suc zero)))) p q =
    (omega arith, omega arith, omega arith, omega arith)
window_bits b0 b1 (suc (suc (suc (suc (suc zero))))) p q =
    (omega arith, omega arith, omega arith, omega arith)
window_bits b0 b1 (suc (suc (suc (suc (suc (suc zero)))))) p q =
    (omega arith, omega arith, omega arith, omega arith)
window_bits b0 b1 (suc (suc (suc (suc (suc (suc (suc zero))))))) p q =
    (omega arith, omega arith, omega arith, omega arith)
window_bits b0 b1 (suc (suc (suc (suc (suc (suc (suc (suc r)))))))) p q = absurd (omega arith)

sample_pick :
    (buf : List ℕ) (lo j : ℕ)
    → j < 4
    → sample_bit buf (lo + j) ≡ pick (byte buf (lo / 8)) (byte buf (lo / 8 + 1)) (lo % 8 + j)
unfolding sample_bit
sample_pick buf lo j h = elim (Bool-cases (ltb (lo % 8 + j) 8)) [
  | inl same ↦
      let q : (lo + j) / 8 ≡ lo / 8 = ground arith in
      let r : (lo + j) % 8 ≡ lo % 8 + j = ground arith in rw (same, q, r)
  | inr next ↦
      let q : (lo + j) / 8 ≡ lo / 8 + 1 = ground arith in
      let r : (lo + j) % 8 ≡ lo % 8 + j - 8 = ground arith in rw (next, q, r)
]

delta_at :
    (e : ℕ)
    → e < 8
    → get_or edge_delta e 0 ≡ (
        if e == 0
        then 1
        else (if e == 1 then 0 else (if e == 4 then 2 else (if e == 5 then 0 else 1))))
delta_at zero h = refl
delta_at (suc zero) h = refl
delta_at (suc (suc zero)) h = refl
delta_at (suc (suc (suc zero))) h = refl
delta_at (suc (suc (suc (suc zero)))) h = refl
delta_at (suc (suc (suc (suc (suc zero))))) h = refl
delta_at (suc (suc (suc (suc (suc (suc zero)))))) h = refl
delta_at (suc (suc (suc (suc (suc (suc (suc zero))))))) h = refl
delta_at (suc (suc (suc (suc (suc (suc (suc (suc r)))))))) h = absurd (omega arith)

-- The table against the comparisons.
edge_delta_lem :
    (s0 s1 s2 s3 lo : ℕ)
    → s0 < 2
    → s1 < 2
    → s2 < 2
    → s3 < 2
    → choose_edge (lo + 2) s0 s1 s2 s3
      ≡ lo + 1 + get_or edge_delta ((s0 + s1) % 2 + (s1 + s2) % 2 * 2 + (s2 + s3) % 2 * 4) 0
edge_delta_lem s0 s1 s2 s3 lo p q r t =
    ground (arith, delta_at ((s0 + s1) % 2 + (s1 + s2) % 2 * 2 + (s2 + s3) % 2 * 4))

-- The three difference bits of a window.
differences :
    (w : ℕ)
    → bit_and (bit_xor w (w / 2)) 7
      ≡ (w % 2 + w / 2 % 2) % 2
        + (w / 2 % 2 + w / 2 / 2 % 2) % 2 * 2
        + (w / 2 / 2 % 2 + w / 2 / 2 / 2 % 2) % 2 * 4
differences w = omega (
  arith,
  bit_and_seven (bit_xor w (w / 2)),
  bit_xor_step w (w / 2),
  bit_xor_step (w / 2) (w / 2 / 2),
  bit_xor_step (w / 2 / 2) (w / 2 / 2 / 2),
)

-- The word that the fast path loads.
abbrev window : List ℕ → ℕ → ℕ
window buf lo = (byte buf (lo / 8) + byte buf (lo / 8 + 1) * 2 ^ 8) / 2 ^ (lo % 8)

-- The edge that the table gives, less 4.
abbrev delta : ℕ → ℕ
delta w = get_or edge_delta (bit_and (bit_xor w (w / 2)) 7) 0

delta_bounds : (w : ℕ) → delta w ≤ 2
delta_bounds w =
    ground (arith, bit_and_seven (bit_xor w (w / 2)), delta_at (bit_and (bit_xor w (w / 2)) 7))

module _ (s : ℕ → ℕ) where
  -- The bit of a window at the chosen place.
  window_pick :
      (lo w d : ℕ)
      → w % 2 ≡ s lo
      → w / 2 % 2 ≡ s (lo + 1)
      → w / 2 / 2 % 2 ≡ s (lo + 2)
      → d ≤ 2
      → w / 2 ^ d % 2 ≡ s (lo + d)
  window_pick lo w zero h0 h1 h2 le =
      let from : lo + 0 ≡ lo = omega arith in omega (arith, ap s from)
  window_pick lo w (suc zero) h0 h1 h2 le = omega arith
  window_pick lo w (suc (suc zero)) h0 h1 h2 le = omega arith
  window_pick lo w (suc (suc (suc d))) h0 h1 h2 le = absurd (omega arith)

  -- A word whose bits are four samples leads to the edge among them.
  word-edge :
      (lo w : ℕ)
      → w % 2 ≡ s lo
      → w / 2 % 2 ≡ s (lo + 1)
      → w / 2 / 2 % 2 ≡ s (lo + 2)
      → w / 2 / 2 / 2 % 2 ≡ s (lo + 3)
      → (choose_edge (lo + 2) (s lo) (s (lo + 1)) (s (lo + 2)) (s (lo + 3)) ≡ lo + 1 + delta w)
        × (w / 2 ^ delta w % 2 ≡ s (lo + delta w))
  word-edge lo w h0 h1 h2 h3 = (
    rw (sym h0, sym h1, sym h2, sym h3, differences w)
        (edge_delta_lem (w % 2) (w / 2 % 2) (w / 2 / 2 % 2) (w / 2 / 2 / 2 % 2) lo (omega arith)
          (omega arith) (omega arith) (omega arith)),
    window_pick lo w (delta w) h0 h1 h2 (delta_bounds w),
  )

-- The table on a window is the search for an edge around its third sample.
window-edge :
    (buf : List ℕ) (lo : ℕ)
    → AreBytes buf
    → (edge_near buf (lo + 2) ≡ lo + 1 + delta (window buf lo))
      × (window buf lo / 2 ^ delta (window buf lo) % 2
          ≡ sample_bit buf (lo + delta (window buf lo)))
unfolding edge_near
window-edge buf lo hb =
    let w = window buf lo in
    let bits =
      window_bits (byte buf (lo / 8)) (byte buf (lo / 8 + 1)) (lo % 8) (hb (lo / 8))
        (omega arith) in
    let start : lo % 8 + 0 ≡ lo % 8 = omega arith in
    let from : lo + 0 ≡ lo = omega arith in
    let b0 : w % 2 ≡ sample_bit buf lo =
      bits.0
      ∙ sym (
          ap (sample_bit buf) (sym from)
          ∙ sample_pick buf lo 0 (omega arith)
          ∙ ap (pick (byte buf (lo / 8)) (byte buf (lo / 8 + 1))) start) in
    let b1 : w / 2 % 2 ≡ sample_bit buf (lo + 1) =
      bits.1 ∙ sym (sample_pick buf lo 1 (omega arith)) in
    let b2 : w / 2 / 2 % 2 ≡ sample_bit buf (lo + 2) =
      bits.2 ∙ sym (sample_pick buf lo 2 (omega arith)) in
    let b3 : w / 2 / 2 / 2 % 2 ≡ sample_bit buf (lo + 3) =
      bits.3 ∙ sym (sample_pick buf lo 3 (omega arith)) in
    let edge = word-edge (sample_bit buf) lo w b0 b1 b2 b3 in
    let around =
      ap
        (λ k.
          choose_edge (lo + 2) (sample_bit buf k) (sample_bit buf (lo + 2 - 1))
            (sample_bit buf (lo + 2)) (sample_bit buf (lo + 2 + 1)))
        (back_two lo)
      ∙ ap
          (λ k.
            choose_edge (lo + 2) (sample_bit buf lo) (sample_bit buf k) (sample_bit buf (lo + 2))
              (sample_bit buf (lo + 2 + 1)))
          (back_one lo)
      ∙ ap
          (λ k.
            choose_edge (lo + 2) (sample_bit buf lo) (sample_bit buf (lo + 1))
              (sample_bit buf (lo + 2)) (sample_bit buf k))
          (ahead_one lo) in
    (around ∙ edge.0, edge.1)
  where
    back_two : (lo : ℕ) → lo + 2 - 2 ≡ lo
    back_two lo = omega arith

    back_one : (lo : ℕ) → lo + 2 - 1 ≡ lo + 1
    back_one lo = omega arith

    ahead_one : (lo : ℕ) → lo + 2 + 1 ≡ lo + 3
    ahead_one lo = omega arith

-- What a round of the fast path does with the line.
pub fast_resync-ok :
    (buf : List ℕ) (s : Dpll)
    → AreBytes buf
    → s.tr + 20 ≤ 8 * length buf
    → fast_resync buf s
      ≡ ok (record s {
        tr = next_edge buf s.tr;
        pending = some (sample_bit buf (next_edge buf s.tr - 1));
      })
unfolding fast_resync next_edge
fast_resync-ok buf s hb le =
    let lo = s.tr + 4 in
    let d = delta (window buf lo) in
    let edge = window-edge buf lo hb in
    let center : s.tr + 6 ≡ lo + 2 = omega arith in
    let inside : leb (8 * length buf) (s.tr + 7) ≡ false = ground arith in
    let to : next_edge buf s.tr ≡ s.tr + 5 + d =
      if-false (leb (8 * length buf) (s.tr + 7)) (s.tr + 6) (edge_near buf (s.tr + 6)) inside
      ∙ ap (edge_near buf) center
      ∙ edge.0
      ∙ omega arith in
    let before : next_edge buf s.tr - 1 ≡ lo + d = omega (arith, to) in
    rw
      (get_unchecked-ok buf (lo / 8) (omega arith), get_unchecked-ok buf (lo / 8 + 1) (omega arith))
      (ap (λ t. ok (record s { tr = t; pending = some (window buf lo / 2 ^ d % 2) })) (sym to)
        ∙ ap (λ b. ok (record s { tr = next_edge buf s.tr; pending = some b }))
            (edge.1 ∙ ap (sample_bit buf) (sym before)))
