-- ===== src/EthRxDpll/Drift.antt =====
-- The decoder of src/eth_rx_dpll.rs on a line whose clock drifts.
use pico_10base_t_rs.Prelude.{
  ℕ, suc, ◌+◌, ◌-◌, ◌*◌, ◌%◌, ◌^◌, ◌≤◌, ◌≡◌, refl, ap, sym, ◌∙◌, inl, inr, false, List, [], ◌∷◌,
  ◌++◌, leb, if◌then◌else◌, if-true, if-false, arith, length, byte, AreBytes, length-append,
  get_or-append_right, Bool-cases, leb→le, subst,
}
use mathlib.Core.List.{append-nil, append_assoc}
use pico_10base_t_rs.EthRx.Peek.{sample_bit}
use pico_10base_t_rs.EthRxDpll.{go, finished, take_bit, push_byte}
use pico_10base_t_rs.EthRxDpll.Reference.{track, next_edge}
use pico_10base_t_rs.EthRxDpll.Rounds.{track_go, track_finished}
use pico_10base_t_rs.EthRxDpll.Line.{IsTracked, next_edge-tracked}
use pico_10base_t_rs.EthRxDpll.Bytes.{at_edge, seven_rounds, take_bit_last, sample_bit-byte}
use pico_10base_t_rs.EthRxDpll.Cap.{frame_cap, push_byte-cap, header_cap-append, header_cap_bounds}
use pico_10base_t_rs.EthRxDpll.Prefix.{Extends, track-Extends}

-- Eight rounds for each byte, and some more.
abbrev pub rounds_for : List ℕ → ℕ → ℕ
rounds_for [] more = more
rounds_for (b ∷ rest) more = suc (suc (suc (suc (suc (suc (suc (suc (rounds_for rest more))))))))

byte_here : (got rest : List ℕ) (b : ℕ) → byte (got ++ (b ∷ rest)) (length got) ≡ b
byte_here got rest b =
    let at : length got ≡ length got + 0 = omega arith in
    ap (byte (got ++ (b ∷ rest))) at ∙ get_or-append_right got (b ∷ rest) 0 0

-- The cap of a frame that is longer than a part of it is not reached by that part before its end.
frame_cap_part :
    (got rest : List ℕ)
    → frame_cap got ≤ length got
    → length (got ++ rest) ≤ frame_cap (got ++ rest)
    → rest ≡ []
frame_cap_part got [] h k = refl
frame_cap_part got (b ∷ rest) h k =
    absurd (ground (arith, length-append got (b ∷ rest), header_cap-append got (b ∷ rest)))

module _ (buf : List ℕ) (edges : ℕ → ℕ) (frame : List ℕ)
    (line : IsTracked buf edges (sample_bit frame) (8 * length frame)) (hb : AreBytes frame)
    (short : length frame ≤ frame_cap frame) where
  -- A whole byte: it is pushed.
  byte_round :
      (got rest : List ℕ) (b : ℕ)
      → frame ≡ got ++ (b ∷ rest)
      → take_bit (sample_bit buf (edges (8 * length got + 7) - 1)) (
          at_edge
            (edges (8 * length got + 7))
            (byte frame (length got) % 2 ^ 7)
            7
            got
            (frame_cap got))
        ≡ (if leb (frame_cap (got ++ (b ∷ []))) (length (got ++ (b ∷ [])))
            then finished (got ++ (b ∷ []))
            else go (
                at_edge
                  (edges (8 * length got + 7))
                  0
                  0
                  (got ++ (b ∷ []))
                  (frame_cap (got ++ (b ∷ [])))))
  byte_round got rest b e =
      let i = length got in
      let long : length frame ≡ i + suc (length rest) =
        ap length e ∙ length-append got (b ∷ rest) in
      let here : byte frame i ≡ b = ap (λ l. byte l i) e ∙ byte_here got rest b in
      let value : byte frame i % 2 ^ 7 + sample_bit frame (8 * i + 7) * 2 ^ 7 ≡ b =
        omega (arith, sample_bit-byte frame i 7 (omega arith), hb i, here) in
      let cap = header_cap_bounds frame in
      ap
        (λ x. take_bit x (at_edge (edges (8 * i + 7)) (byte frame i % 2 ^ 7) 7 got (frame_cap got)))
        (line.bit (8 * i + 7) (omega (arith, long)))
      ∙ take_bit_last (sample_bit frame (8 * i + 7)) (edges (8 * i + 7)) (byte frame i % 2 ^ 7) got
          (frame_cap got)
      ∙ ap (λ x. push_byte (at_edge (edges (8 * i + 7)) x 8 got (frame_cap got))) value
      ∙ push_byte-cap (edges (8 * i + 7)) b got (ground (arith, long))

  -- What the decoder gives: the frame, and nothing behind it when its derived length is its length.
  abbrev pub IsDecoded : ℕ → List ℕ → Type 0
  IsDecoded due out = Extends frame out × (frame_cap frame ≡ length frame → 1 ≤ due → out ≡ frame)

  -- From the edge after a byte on, whether more bytes are due or not.
  after_byte :
      (got rest : List ℕ) (more tr : ℕ)
      → frame ≡ got ++ rest
      → leb (frame_cap got) (length got) ≡ false
      → (1 ≤ length rest → tr ≡ edges (8 * length got))
      → IsDecoded (length rest) (
          track buf
            (rounds_for rest more)
            (at_edge (edges (8 * length got)) 0 0 got (frame_cap got)))
      → IsDecoded 1 (track buf (rounds_for rest more) (at_edge tr 0 0 got (frame_cap got)))
  after_byte got [] more tr e below to rest_decoded =
      let whole : frame ≡ got = e ∙ append-nil got in
      let kept = track-Extends buf more (at_edge tr 0 0 got (frame_cap got)) in
      (
        (kept.0, kept.1 ∙ ap (λ l. l ++ kept.0) (sym whole)),
        λ exact due. absurd (ground (arith, subst (λ l. frame_cap l ≡ length l) whole exact)),
      )
  after_byte got (b ∷ rest) more tr e below to rest_decoded =
      let same =
        ap (λ t. track buf (rounds_for (b ∷ rest) more) (at_edge t 0 0 got (frame_cap got)))
          (to (omega arith)) in
      (
        (rest_decoded.0.0, same ∙ rest_decoded.0.1),
        λ exact due. same ∙ rest_decoded.1 exact (omega arith),
      )

  -- From a byte on.
  pub follow :
      (got rest : List ℕ) (more : ℕ)
      → frame ≡ got ++ rest
      → IsDecoded (length rest) (
          track buf
            (rounds_for rest more)
            (at_edge (edges (8 * length got)) 0 0 got (frame_cap got)))
  follow got [] more e =
      let s = at_edge (edges (8 * length got)) 0 0 got (frame_cap got) in
      let kept = track-Extends buf more s in
      (
        (kept.0, kept.1 ∙ ap (λ l. l ++ kept.0) (sym (e ∙ append-nil got))),
        λ exact none_due. absurd (omega arith),
      )
  follow got (b ∷ rest) more e =
      let i = length got in
      let got' = got ++ (b ∷ []) in
      let long : length frame ≡ i + suc (length rest) =
        ap length e ∙ length-append got (b ∷ rest) in
      let whole : frame ≡ got' ++ rest = e ∙ sym (append_assoc got (b ∷ []) rest) in
      let left = suc (rounds_for rest more) in
      let s = at_edge (edges (8 * i)) 0 0 got (frame_cap got) in
      let last = at_edge (edges (8 * i + 7)) (byte frame i % 2 ^ 7) 7 got (frame_cap got) in
      let inside = line.inside (8 * i + 7) (omega (arith, long)) in
      let seven =
        seven_rounds buf edges frame (8 * length frame) line i got (frame_cap got) left
          (omega (arith, long)) in
      elim (Bool-cases (leb (frame_cap got') (length got'))) [
        | inl full ↦
            let stop =
              byte_round got rest b e
              ∙ if-true (leb (frame_cap got') (length got')) (finished got') _ full in
            let nothing : rest ≡ [] =
              frame_cap_part got' rest (leb→le _ _ full)
                (subst (λ l. length l ≤ frame_cap l) whole short) in
            let is_frame : got' ≡ frame =
              sym (append-nil got') ∙ ap (λ l. got' ++ l) (sym nothing) ∙ sym whole in
            let out : track buf (rounds_for (b ∷ rest) more) s ≡ frame =
              seven
              ∙ track_finished buf (rounds_for rest more) last got' (inside.0) (inside.1) stop
              ∙ is_frame in
            (([], out ∙ sym (append-nil frame)), λ exact due. out)
        | inr below ↦
            let s' = at_edge (edges (8 * i + 7)) 0 0 got' (frame_cap got') in
            let on =
              byte_round got rest b e
              ∙ if-false (leb (frame_cap got') (length got')) (finished got') (go s') below in
            let out =
              seven ∙ track_go buf (rounds_for rest more) last s' (inside.0) (inside.1) on in
            let to : 1 ≤ length rest → next_edge buf (edges (8 * i + 7)) ≡ edges (8 * length got') =
              λ due.
                next_edge-tracked buf edges (sample_bit frame) (8 * length frame) (8 * i + 7) line
                  (omega (arith, long))
                ∙ ap edges (omega (arith, length-append got (b ∷ []))) in
            let decoded =
              after_byte got' rest more (next_edge buf (edges (8 * i + 7))) whole below to
                (follow got' rest more whole) in
            ((decoded.0.0, out ∙ decoded.0.1), λ exact due. out ∙ decoded.1 exact (omega arith))
      ]
