-- ===== src/EthRxDpll/FastPath.antt =====
-- The two loops of src/eth_rx_dpll.rs, with their reads unchecked, against the one loop of the
-- reference.
use pico_10base_t_rs.Prelude.{
  ℕ, zero, suc, ◌+◌, ◌-◌, ◌*◌, ◌≤◌, ◌<◌, ◌^◌, ◌≡◌, refl, ap, sym, ◌∙◌, ◌⊎◌, inl, inr, true, false,
  ◌&&◌, ◌||◌, none, some, List, ltb, leb, ◌==◌, arith, length, AreBytes, Bool-cases,
}
use pico_10base_t_rs.Prelude.Checked.{Checked, ok, ◌>>=◌}
use pico_10base_t_rs.EthRx.Peek.{sample_bit}
use pico_10base_t_rs.EthRxDpll.{
  Dpll, Progress, go, take_bit, next_bit, fast_loop, fast_next, tail_end, tail_next, tail_resync,
  tail_loop, rounds, finish,
}
use pico_10base_t_rs.EthRxDpll.Reference.{next_edge, track}
use pico_10base_t_rs.EthRxDpll.Window.{sample_bit_unchecked-ok, find_edge_w1-ok, fast_resync-ok}
use pico_10base_t_rs.EthRxDpll.Rounds.{
  Progress-cases, next_edge_bounds, take_bit_keeps, forget, forget_progress, take_bit-forget,
  track-forget, track_stop, track_finished, track_go, track_fuel,
}

-- The bit that waits, if one does, is the sample in front of the edge.
abbrev IsReady : List ℕ → Dpll → Type 0
IsReady buf s = (s.pending ≡ none) ⊎ (s.pending ≡ some (sample_bit buf (s.tr - 1)))

next_bit-ok :
    (buf : List ℕ) (s : Dpll)
    → IsReady buf s
    → 1 ≤ s.tr
    → s.tr ≤ 8 * length buf
    → next_bit buf s ≡ ok (sample_bit buf (s.tr - 1))
unfolding next_bit
next_bit-ok buf s (inl e) h le =
    rw (next_bit, e) (sample_bit_unchecked-ok buf (s.tr - 1) (omega arith))
next_bit-ok buf s (inr e) h le = rw (next_bit, e)

tail_resync-ok :
    (buf : List ℕ) (s : Dpll)
    → 1 ≤ s.tr
    → s.tr ≤ 8 * length buf
    → 8 * length buf < 2 ^ 32
    → tail_resync buf s ≡ ok (go (record s { tr = next_edge buf s.tr }))
unfolding tail_resync next_edge
tail_resync-ok buf s h le small = elim (Bool-cases (leb (8 * length buf) (s.tr + 7))) [
  | inl near ↦
      let room : leb (2 ^ 32) (s.tr + 6) ≡ false = ground arith in
      let coast : (ltb (s.tr + 6) 2 || leb (8 * length buf) (s.tr + 6 + 1)) ≡ true = ground arith in
      rw (tail_resync, room, coast, near)
  | inr inside ↦
      let room : leb (2 ^ 32) (s.tr + 6) ≡ false = ground arith in
      let look : (ltb (s.tr + 6) 2 || leb (8 * length buf) (s.tr + 6 + 1)) ≡ false = ground arith in
      rw (tail_resync, room, look, inside, find_edge_w1-ok buf (s.tr + 6) (ground arith))
]

track_zero : (buf : List ℕ) (s : Dpll) → track buf 0 s ≡ s.frame
unfolding track
track_zero buf s = refl

tail_loop-ok :
    (buf : List ℕ) (left : ℕ) (s : Dpll)
    → IsReady buf s
    → 8 * length buf < 2 ^ 32
    → tail_loop buf left s ≡ ok (track buf left s)
unfolding tail_loop
tail_loop-ok buf zero s ready small = ap ok (sym (track_zero buf s))
tail_loop-ok buf (suc left) s ready small =
    elim (Bool-cases (s.tr == 0 || ltb (8 * length buf) s.tr)) [
      | inl out ↦ rw (tail_loop, out) (ap ok (sym (track_stop buf (suc left) s out)))
      | inr here ↦ elim (Progress-cases (take_bit (sample_bit buf (s.tr - 1)) (forget s))) [
        | inl (frame, e) ↦
            rw (tail_loop, here, next_bit-ok buf s ready (ground arith) (ground arith))
              (ap (tail_next buf (tail_loop buf left)) e
                ∙ ap ok (sym (track_finished buf left s frame (ground arith) (ground arith) e)))
        | inr (s', e) ↦
            let keeps = take_bit_keeps (sample_bit buf (s.tr - 1)) (forget s) s' e in
            let s'' : Dpll = record s' { tr = next_edge buf s'.tr } in
            rw (tail_loop, here, next_bit-ok buf s ready (ground arith) (ground arith))
              (ap (tail_next buf (tail_loop buf left)) e
                ∙ ap (λ (r : Checked Progress). r >>= tail_end (tail_loop buf left))
                    (tail_resync-ok buf s' (ground arith) (ground arith) small)
                ∙ tail_loop-ok buf left s'' (inl (keeps.1)) small
                ∙ ap ok (sym (track_go buf left s s' (ground arith) (ground arith) e)))
      ]
    ]

-- From a round of the fast path on, both loops together give the frame of the reference.
pub fast_loop-ok :
    (buf : List ℕ) (left l : ℕ) (s : Dpll)
    → AreBytes buf
    → 8 * length buf < 2 ^ 32
    → IsReady buf s
    → 8 * length buf < s.tr + l
    → (fast_loop buf left s >>= finish buf) ≡ ok (track buf l s)
unfolding fast_loop finish
fast_loop-ok buf zero l s hb small ready enough =
    tail_loop-ok buf (rounds buf) s ready small
    ∙ ap ok (track_fuel buf (rounds buf) l s (omega arith) enough)
fast_loop-ok buf (suc left) zero s hb small ready enough =
    let past : (leb 1 s.tr && leb (s.tr + 20) (8 * length buf)) ≡ false = ground arith in
    rw (fast_loop, past)
      (tail_loop-ok buf (rounds buf) s ready small
        ∙ ap ok (track_fuel buf (rounds buf) zero s (omega arith) enough))
fast_loop-ok buf (suc left) (suc l) s hb small ready enough =
    elim (Bool-cases (leb 1 s.tr && leb (s.tr + 20) (8 * length buf))) [
      | inr past ↦
          rw (fast_loop, past)
            (tail_loop-ok buf (rounds buf) s ready small
              ∙ ap ok (track_fuel buf (rounds buf) (suc l) s (omega arith) enough))
      | inl here ↦
          let bit = sample_bit buf (s.tr - 1) in
          elim (Progress-cases (take_bit bit s)) [
            | inl (frame, e) ↦
                rw (fast_loop, here, next_bit-ok buf s ready (ground arith) (ground arith))
                  (ap (λ p. fast_next buf (fast_loop buf left) p >>= finish buf) e
                    ∙ ap ok (
                        sym (
                          track_finished buf l s frame (ground arith) (ground arith)
                            (take_bit-forget bit s ∙ ap forget_progress e))))
            | inr (s', e) ↦
                let keeps = take_bit_keeps bit s s' e in
                let ahead = next_edge_bounds buf s'.tr in
                let s'' : Dpll = record s' {
                  tr = next_edge buf s'.tr;
                  pending = some (sample_bit buf (next_edge buf s'.tr - 1));
                } in
                rw (fast_loop, here, next_bit-ok buf s ready (ground arith) (ground arith))
                  (ap (λ p. fast_next buf (fast_loop buf left) p >>= finish buf) e
                    ∙ ap (λ (r : Checked Dpll). r >>= fast_loop buf left >>= finish buf)
                        (fast_resync-ok buf s' hb (ground arith))
                    ∙ fast_loop-ok buf left l s'' hb small (inr refl) (ground arith)
                    ∙ ap ok (
                        track-forget buf l (record s' { tr = next_edge buf s'.tr })
                          (some (sample_bit buf (next_edge buf s'.tr - 1)))
                        ∙ sym (track-forget buf l (record s' { tr = next_edge buf s'.tr }) none)
                        ∙ sym (
                            track_go buf l s (forget s') (ground arith) (ground arith)
                              (take_bit-forget bit s ∙ ap forget_progress e))))
          ]
    ]
