-- ===== src/EthMac/Scan/Edges.antt =====
-- The scan of src/eth_mac.rs with the decoder of src/eth_rx_dpll.rs.
use pico_10base_t_rs.Prelude.{
  ℕ, zero, suc, ◌+◌, ◌-◌, ◌*◌, ◌^◌, ◌≤◌, ◌<◌, ◌≡◌, refl, ap, ◌∙◌, inl, inr, not, Option, none, some,
  List, [], ◌∷◌, arith, length, slice, take, drop, AreBytes, drop-AreBytes, length-take,
  length-drop, Bool-cases, Option-cases,
}
use pico_10base_t_rs.Prelude.Checked.{Checked, ok, fault}
use pico_10base_t_rs.EthRx.Peek
use pico_10base_t_rs.EthRx.Runs.{find_active_run_from}
use pico_10base_t_rs.EthRx.Runs.Search.{find_active_run_from-IsFound}
use pico_10base_t_rs.EthRxDpll.{decode_frame_edge_track}
use pico_10base_t_rs.EthRxDpll.Reference.{decode_reference}
use pico_10base_t_rs.EthRxDpll.Equivalence.{decode_frame_edge_track-reference}
use pico_10base_t_rs.EthMac.Scan.{
  Decoder, ScanState, mac_accept, take_frame, decode_run, scan_run, scan_loop, scan_runs,
}

-- A frame of the decoder, none where it finds none. A fault would end the program.
abbrev pub frame_or_fault : Checked (Option (List ℕ)) → Option (List ℕ)
frame_or_fault (ok frame) = frame
frame_or_fault fault = none

-- The decoder that the firmware is built with.
abbrev pub edge_track : Decoder
edge_track = record {
  peek_dst_mac = Peek.peek_dst_mac;
  decode_frame = λ run. frame_or_fault (decode_frame_edge_track run);
}

-- The same with the reference decoder, which cannot fault.
abbrev pub reference : Decoder
reference = record { peek_dst_mac = Peek.peek_dst_mac; decode_frame = decode_reference }

take-AreBytes : (n : ℕ) (xs : List ℕ) → AreBytes xs → AreBytes (take n xs)
take-AreBytes zero xs h i = omega arith
take-AreBytes (suc n) [] h i = h i
take-AreBytes (suc n) (x ∷ xs) h zero = h zero
take-AreBytes (suc n) (x ∷ xs) h (suc i) = take-AreBytes n xs (λ j. h (suc j)) i

module _ (our_mac bytes : List ℕ) (cl : Option ℕ) (hb : AreBytes bytes)
    (short : 8 * length bytes < 2 ^ 32) where
  -- No run of the image makes the decoder read outside it.
  slice_decodes :
      (off len : ℕ)
      → 1 ≤ len
      → off + len ≤ length bytes
      → decode_frame_edge_track (slice bytes off (off + len))
        ≡ ok (decode_reference (slice bytes off (off + len)))
  slice_decodes off len some_bytes inside =
      let run = slice bytes off (off + len) in
      let size : length run ≡ len =
        omega (arith, length-take (off + len - off) (drop off bytes), length-drop off bytes) in
      decode_frame_edge_track-reference run
        (take-AreBytes (off + len - off) (drop off bytes) (drop-AreBytes off bytes hb))
        (omega (arith, size)) (omega (arith, size))

  decode_run-reference :
      (off len : ℕ) (s : ScanState)
      → 1 ≤ len
      → off + len ≤ length bytes
      → decode_run edge_track our_mac bytes cl off len s
        ≡ decode_run reference our_mac bytes cl off len s
  unfolding decode_run
  decode_run-reference off len s some_bytes inside =
      ap (λ (r : Option (List ℕ)). elim r [ none ↦ s | some frame ↦ take_frame cl frame s ])
        (ap frame_or_fault (slice_decodes off len some_bytes inside))

  scan_run-reference :
      (off len : ℕ) (s : ScanState)
      → 1 ≤ len
      → off + len ≤ length bytes
      → scan_run edge_track our_mac bytes cl off len s
        ≡ scan_run reference our_mac bytes cl off len s
  unfolding scan_run
  scan_run-reference off len s some_bytes inside =
      elim (Option-cases (Peek.peek_dst_mac bytes off len)) [
        | inl unclear ↦ rw (scan_run, unclear)
        | inr (dst, e) ↦ elim (Bool-cases (not (mac_accept dst our_mac))) [
          | inl foreign ↦ rw (scan_run, e, foreign)
          | inr ours ↦ rw (scan_run, e, ours) (decode_run-reference off len s some_bytes inside)
        ]
      ]

  scan_loop-reference :
      (fuel cursor : ℕ) (s : ScanState)
      → cursor ≤ length bytes
      → scan_loop edge_track our_mac bytes cl fuel cursor s
        ≡ scan_loop reference our_mac bytes cl fuel cursor s
  unfolding scan_loop
  scan_loop-reference zero cursor s le = refl
  scan_loop-reference (suc fuel) cursor s le =
      elim (Option-cases (find_active_run_from bytes cursor 100)) [
        | inl done ↦ rw (scan_loop, done)
        | inr ((off, len), e) ↦
            let found = rw e at (find_active_run_from-IsFound bytes 100 (omega arith) cursor) in
            let run = found.0 in
            rw (scan_loop, e)
              (ap (λ t. scan_loop edge_track our_mac bytes cl fuel (off + len) t)
                  (scan_run-reference off len s run.nonempty run.in_bytes)
                ∙ scan_loop-reference fuel (off + len)
                    (scan_run reference our_mac bytes cl off len s) run.in_bytes)
      ]

  -- On an image of bytes with less than 2^32 samples, the scan with the edge-track decoder hands it only
  -- runs that it decodes without a fault, and does what the scan with the reference decoder does.
  pub scan_runs-reference :
      (s : ScanState)
      → ((cursor off len : ℕ)
          → find_active_run_from bytes cursor 100 ≡ some (off, len)
          → (frame : Option (List ℕ)) × (decode_frame_edge_track (slice bytes off (off + len))
              ≡ ok frame))
        × (scan_runs edge_track our_mac bytes cl s ≡ scan_runs reference our_mac bytes cl s)
  unfolding scan_runs
  scan_runs-reference s = (
    λ cursor off len e.
        let found = rw e at (find_active_run_from-IsFound bytes 100 (omega arith) cursor) in
        let run = found.0 in
        (
          decode_reference (slice bytes off (off + len)),
          slice_decodes off len run.nonempty run.in_bytes,
        ),
    scan_loop-reference (suc (length bytes)) 0 s (omega arith),
  )
