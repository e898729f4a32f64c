-- ===== src/EthRxDpll/Line.antt =====
-- A line that the decoder of src/eth_rx_dpll.rs can follow: six samples for each bit, and the edge in
-- the middle of a bit up to one sample off.
use pico_10base_t_rs.Prelude.{
  ℕ, suc, ◌+◌, ◌-◌, ◌*◌, ◌≤◌, ◌<◌, ◌≡◌, ◌≢◌, ◌∙◌, ap, sym, ◌⊎◌, inl, inr, false, List, leb, arith,
  length, if-false,
}
use pico_10base_t_rs.EthRx.Peek.{sample_bit}
use pico_10base_t_rs.EthRxDpll.{choose_edge}
use pico_10base_t_rs.EthRxDpll.Reference.{edge_near, next_edge}

-- An edge five samples after the last one has its level for two samples.
abbrev pub IsEarly : List ℕ → ℕ → ℕ → Type 0
IsEarly buf from to = (to ≡ from + 5) × (sample_bit buf to ≡ sample_bit buf (to + 1))

-- An edge seven samples after the last one has the level before it for three samples.
abbrev pub IsLate : List ℕ → ℕ → ℕ → Type 0
IsLate buf from to =
    (to ≡ from + 7)
    × (sample_bit buf (to - 3) ≡ sample_bit buf (to - 2))
    × (sample_bit buf (to - 2) ≡ sample_bit buf (to - 1))

-- The edges in the middle of the first `n` bits of a frame: a bit is the level in front of its edge.
pub record IsTracked (buf : List ℕ) (edges bits : ℕ → ℕ) (n : ℕ) : Type 0 where
  pub bit : (k : ℕ) → k < n → sample_bit buf (edges k - 1) ≡ bits k
  pub flip : (k : ℕ) → k < n → sample_bit buf (edges k) ≢ bits k
  pub inside : (k : ℕ) → k < n → (1 ≤ edges k) × (edges k ≤ 8 * length buf)
  pub room : (k : ℕ) → suc k < n → edges k + 7 < 8 * length buf
  pub step :
      (k : ℕ)
      → suc k < n
      → (edges (suc k) ≡ edges k + 6)
        ⊎ IsEarly buf (edges k) (edges (suc k))
        ⊎ IsLate buf (edges k) (edges (suc k))

choose_on_time : (c m2 m1 s p1 : ℕ) → m1 ≢ s → choose_edge c m2 m1 s p1 ≡ c
choose_on_time c m2 m1 s p1 h = ground arith

choose_early : (c m2 m1 s p1 : ℕ) → m1 ≡ s → m2 ≢ m1 → choose_edge c m2 m1 s p1 ≡ c - 1
choose_early c m2 m1 s p1 e h = ground arith

choose_late : (c m2 m1 s p1 : ℕ) → m1 ≡ s → m2 ≡ m1 → s ≢ p1 → choose_edge c m2 m1 s p1 ≡ c + 1
choose_late c m2 m1 s p1 e e' h = ground arith

module _ (buf : List ℕ) where
  edge_on_time :
      (from : ℕ)
      → sample_bit buf (from + 5) ≢ sample_bit buf (from + 6)
      → edge_near buf (from + 6) ≡ from + 6
  unfolding edge_near
  edge_on_time from h =
      let at : from + 6 - 1 ≡ from + 5 = omega arith in
      choose_on_time (from + 6) _ _ _ _ (λ e. h (ap (sample_bit buf) (sym at) ∙ e))

  edge_early :
      (from : ℕ)
      → sample_bit buf (from + 5) ≡ sample_bit buf (from + 6)
      → sample_bit buf (from + 4) ≢ sample_bit buf (from + 5)
      → edge_near buf (from + 6) ≡ from + 5
  unfolding edge_near
  edge_early from e h =
      let at1 : from + 6 - 1 ≡ from + 5 = omega arith in
      let at2 : from + 6 - 2 ≡ from + 4 = omega arith in
      choose_early (from + 6) _ _ _ _ (ap (sample_bit buf) at1 ∙ e)
        (λ d. h (ap (sample_bit buf) (sym at2) ∙ d ∙ ap (sample_bit buf) at1))
      ∙ omega arith

  edge_late :
      (from : ℕ)
      → sample_bit buf (from + 5) ≡ sample_bit buf (from + 6)
      → sample_bit buf (from + 4) ≡ sample_bit buf (from + 5)
      → sample_bit buf (from + 6) ≢ sample_bit buf (from + 7)
      → edge_near buf (from + 6) ≡ from + 7
  unfolding edge_near
  edge_late from e e' h =
      let at1 : from + 6 - 1 ≡ from + 5 = omega arith in
      let at2 : from + 6 - 2 ≡ from + 4 = omega arith in
      let at3 : from + 6 + 1 ≡ from + 7 = omega arith in
      choose_late (from + 6) _ _ _ _ (ap (sample_bit buf) at1 ∙ e)
        (ap (sample_bit buf) at2 ∙ e' ∙ ap (sample_bit buf) (sym at1))
        (λ d. h (d ∙ ap (sample_bit buf) at3))
      ∙ omega arith

  -- The decoder finds the next edge of such a line.
  pub next_edge-tracked :
      (edges bits : ℕ → ℕ) (n k : ℕ)
      → IsTracked buf edges bits n
      → suc k < n
      → next_edge buf (edges k) ≡ edges (suc k)
  unfolding next_edge
  next_edge-tracked edges bits n k line lt =
      let from = edges k in
      let to = edges (suc k) in
      let seen : sample_bit buf (to - 1) ≢ sample_bit buf to =
        λ e. line.flip (suc k) lt (sym e ∙ line.bit (suc k) lt) in
      let far : leb (8 * length buf) (from + 7) ≡ false =
        let room = line.room k lt in ground arith in
      if-false (leb (8 * length buf) (from + 7)) (from + 6) (edge_near buf (from + 6)) far
      ∙ elim (line.step k lt) [
        | inl on_time ↦
            edge_on_time from (λ e. seen (at (omega arith) ∙ e ∙ at (omega arith))) ∙ sym on_time
        | inr (inl early) ↦
            edge_early from (at (omega (arith, early.0)) ∙ early.1 ∙ at (omega (arith, early.0)))
              (λ e. seen (at (omega (arith, early.0)) ∙ e ∙ at (omega (arith, early.0))))
            ∙ sym (early.0)
        | inr (inr late) ↦
            edge_late from (at (omega (arith, late.0)) ∙ late.2 ∙ at (omega (arith, late.0)))
              (at (omega (arith, late.0)) ∙ late.1 ∙ at (omega (arith, late.0)))
              (λ e. seen (at (omega (arith, late.0)) ∙ e ∙ at (omega (arith, late.0))))
            ∙ sym (late.0)
      ]
    where
      at : {i j : ℕ} → i ≡ j → sample_bit buf i ≡ sample_bit buf j
      at e = ap (sample_bit buf) e
