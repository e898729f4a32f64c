-- ===== src/EthRxDpll/Prefix.antt =====
-- The reference decoder for src/eth_rx_dpll.rs keeps the bytes that it has.
use pico_10base_t_rs.Prelude.{
  ℕ, zero, suc, ◌+◌, ◌^◌, ◌-◌, ◌*◌, ◌≡◌, ap, sym, ◌∙◌, inl, inr, ◌⊎◌, ◌||◌, ◌==◌, ltb, List, [],
  ◌∷◌, ◌++◌, arith, length, Bool-cases,
}
use mathlib.Core.List.{append-nil, append_assoc}
use pico_10base_t_rs.EthRx.Peek.{sample_bit}
use pico_10base_t_rs.EthRxDpll.{Dpll, Progress, go, finished, take_bit, push_byte, note_header}
use pico_10base_t_rs.EthRxDpll.Reference.{track, next_edge}
use pico_10base_t_rs.EthRxDpll.Rounds.{Progress-cases, forget, track_stop, track_go, track_finished}

abbrev pub Extends : List ℕ → List ℕ → Type 0
Extends xs ys = (more : List ℕ) × (ys ≡ xs ++ more)

pub Extends-refl : (xs : List ℕ) → Extends xs xs
Extends-refl xs = ([], sym (append-nil xs))

Extends-trans : (xs ys zs : List ℕ) → Extends xs ys → Extends ys zs → Extends xs zs
Extends-trans xs ys zs (a, p) (b, q) = (a ++ b, q ∙ ap (λ l. l ++ b) p ∙ append_assoc xs a b)

-- The frame of a state, or of a finished run.
abbrev frame_of : Progress → List ℕ
frame_of (finished frame) = frame
frame_of (go s) = s.frame

push_byte_frame :
    (s : Dpll)
    → (frame_of (push_byte s) ≡ s.frame) ⊎ (frame_of (push_byte s) ≡ s.frame ++ (s.byte ∷ []))
unfolding push_byte note_header
push_byte_frame s = ground arith

take_bit-Extends : (bit : ℕ) (s : Dpll) → Extends s.frame (frame_of (take_bit bit s))
unfolding take_bit
take_bit-Extends bit s = elim (Bool-cases (s.bit_idx + 1 == 8)) [
  | inl last ↦
      let s' : Dpll = record s { byte = s.byte + bit * 2 ^ s.bit_idx; bit_idx = s.bit_idx + 1 } in
      rw last (elim (push_byte_frame s') [
        | inl e ↦ ([], e ∙ sym (append-nil s.frame))
        | inr e ↦ (s'.byte ∷ [], e)
      ])
  | inr middle ↦ rw middle (Extends-refl s.frame)
]

pub track-Extends : (buf : List ℕ) (left : ℕ) (s : Dpll) → Extends s.frame (track buf left s)
unfolding track
track-Extends buf zero s = Extends-refl s.frame
track-Extends buf (suc left) s = elim (Bool-cases (s.tr == 0 || ltb (8 * length buf) s.tr)) [
  | inl out ↦ ([], track_stop buf (suc left) s out ∙ sym (append-nil s.frame))
  | inr here ↦
      let kept = take_bit-Extends (sample_bit buf (s.tr - 1)) (forget s) in
      elim (Progress-cases (take_bit (sample_bit buf (s.tr - 1)) (forget s))) [
        | inl (frame, e) ↦ (
          kept.0,
          track_finished buf left s frame (ground arith) (ground arith) e
              ∙ sym (ap frame_of e)
              ∙ kept.1,
        )
        | inr (s', e) ↦
            let rest = track-Extends buf left (record s' { tr = next_edge buf s'.tr }) in
            Extends-trans s.frame s'.frame (track buf (suc left) s)
              (kept.0, sym (ap frame_of e) ∙ kept.1)
              (rest.0, track_go buf left s s' (ground arith) (ground arith) e ∙ rest.1)
      ]
]
