-- ===== src/EthMac/Scan/Checked.antt =====
-- Every frame that a scan of src/eth_mac.rs publishes has passed its check, and the scan ends.
use pico_10base_t_rs.Prelude.{
  ℕ, zero, suc, ◌+◌, ◌-◌, ◌%◌, ◌^◌, ◌≤◌, ◌<◌, ◌≡◌, refl, ap, ◌∙◌, Bool, true, false, not, Option,
  none, some, List, [], ◌∷◌, ◌++◌, arith, min, length, length-append, length-take, length-drop,
  slice, take, drop, get_or-take, Bool-cases, Option-cases, inl, inr, ◌==◌,
}
use pico_10base_t_rs.Crc.{crc32_ieee802_3}
use pico_10base_t_rs.EthRx.Runs.{find_active_run_from}
use pico_10base_t_rs.EthRx.Runs.Search.{find_active_run_from-IsFound}
use pico_10base_t_rs.EthRx.Frames.{derive_frame_len, verify_fcs}
use pico_10base_t_rs.EthRx.Frames.Length.{derive_frame_len_bounds, verify_fcs_iff}
use pico_10base_t_rs.EthMac.Inbox.{inbox_slots, RxShared, make_room, push_back, publish}
use pico_10base_t_rs.EthMac.Scan.{
  Decoder, ScanState, mac_accept, note_decode, note_stitch, take_frame, decode_run, scan_run,
  scan_loop, scan_runs,
}

-- Every frame of the list carries its own right check sequence.
abbrev pub AreChecked : List (List ℕ) → Type 0
AreChecked [] = Unit
AreChecked (frame ∷ frames) = (verify_fcs frame (length frame) ≡ true) × AreChecked frames

-- The inbox holds at most four frames, all checked, and each decode is counted as right or wrong.
pub record IsSound (s : ScanState) : Type 0 where
  pub small : length s.shared.inbox ≤ inbox_slots
  pub checked : AreChecked s.shared.inbox
  pub counted : s.acc.decoded ≡ (s.acc.ok + s.acc.fail) % 2 ^ 32

take-take : (m n : ℕ) (xs : List ℕ) → m ≤ n → take m (take n xs) ≡ take m xs
take-take zero n xs le = refl
take-take (suc m) zero xs le = absurd (omega arith)
take-take (suc m) (suc n) [] le = refl
take-take (suc m) (suc n) (x ∷ xs) le = ap (λ (l : List ℕ). x ∷ l) (take-take m n xs (omega arith))

-- A frame cut to its length has the same check.
cut-checked :
    (frame : List ℕ) (n : ℕ)
    → verify_fcs frame n ≡ true
    → verify_fcs (take n frame) (length (take n frame)) ≡ true
cut-checked frame n ok =
    let (long, fits, right) = (verify_fcs_iff frame n).0 ok in
    let size : length (take n frame) ≡ n = omega (arith, length-take n frame) in
    rw size (
      (verify_fcs_iff (take n frame) n).1 (
        long,
        omega arith,
        ap crc32_ieee802_3 (take-take (n - 4) n frame (omega arith))
            ∙ right
            ∙ rw
                (
                  get_or-take n frame (n - 4) 0 (omega arith),
                  get_or-take n frame (n - 4 + 1) 0 (omega arith),
                  get_or-take n frame (n - 4 + 2) 0 (omega arith),
                  get_or-take n frame (n - 4 + 3) 0 (omega arith),
                )
                refl,
      ))

drop-AreChecked : (n : ℕ) (frames : List (List ℕ)) → AreChecked frames → AreChecked (drop n frames)
drop-AreChecked zero frames c = c
drop-AreChecked (suc n) [] c = tt
drop-AreChecked (suc n) (x ∷ xs) c = drop-AreChecked n xs c.1

append-AreChecked :
    (frames : List (List ℕ)) (frame : List ℕ)
    → AreChecked frames
    → verify_fcs frame (length frame) ≡ true
    → AreChecked (frames ++ (frame ∷ []))
append-AreChecked [] frame c ok = (ok, tt)
append-AreChecked (x ∷ xs) frame c ok = (c.0, append-AreChecked xs frame c.1 ok)

-- The inbox after a frame: the last four of the old inbox and the frame.
pub publish_lem :
    (frame : List ℕ) (s : RxShared)
    → length s.inbox ≤ inbox_slots
    → (publish frame s).inbox ≡ drop (length s.inbox - 3) s.inbox ++ (frame ∷ [])
unfolding publish make_room push_back
publish_lem frame s small = elim (Bool-cases (length s.inbox == inbox_slots)) [
  | inl full ↦ let one : length s.inbox - 3 ≡ 1 = ground arith in rw (full, one) refl
  | inr room ↦ let none_out : length s.inbox - 3 ≡ 0 = ground arith in rw (room, none_out) refl
]

length-publish :
    (frame : List ℕ) (s : RxShared)
    → length s.inbox ≤ inbox_slots
    → length (publish frame s).inbox ≤ inbox_slots
length-publish frame s small = rw (publish_lem frame s small) (
    omega (
      arith,
      length-append (drop (length s.inbox - 3) s.inbox) (frame ∷ []),
      length-drop (length s.inbox - 3) s.inbox,
    ))

note_stitch-IsSound :
    (cl : Option ℕ) (ok : Bool) (s : ScanState) → IsSound s → IsSound (note_stitch cl ok s)
unfolding note_stitch
note_stitch-IsSound none ok s w = w
note_stitch-IsSound (some cl) ok s w = record {
  small = w.small;
  checked = w.checked;
  counted = w.counted;
}

note_decode-IsSound :
    (frame : List ℕ) (n : ℕ) (ok : Bool) (s : ScanState)
    → IsSound s
    → IsSound (record s { acc = note_decode frame n ok s.acc })
unfolding note_decode
note_decode-IsSound frame n true s w = record {
  small = w.small;
  checked = w.checked;
  counted = omega (arith, w.counted);
}
note_decode-IsSound frame n false s w = record {
  small = w.small;
  checked = w.checked;
  counted = omega (arith, w.counted);
}

publish-IsSound :
    (frame : List ℕ) (s : ScanState)
    → verify_fcs frame (length frame) ≡ true
    → IsSound s
    → IsSound (record s { shared = publish frame s.shared })
publish-IsSound frame s ok w = record {
  small = length-publish frame s.shared w.small;
  checked = rw (publish_lem frame s.shared w.small) (
      append-AreChecked (drop (length s.shared.inbox - 3) s.shared.inbox) frame
        (drop-AreChecked (length s.shared.inbox - 3) s.shared.inbox w.checked) ok);
  counted = w.counted;
}

take_frame-IsSound :
    (cl : Option ℕ) (frame : List ℕ) (s : ScanState) → IsSound s → IsSound (take_frame cl frame s)
unfolding take_frame
take_frame-IsSound cl frame s w =
    let flen = derive_frame_len frame in
    let n = min flen (length frame) in
    let n_is : n ≡ flen = omega (arith, derive_frame_len_bounds frame) in
    let noted : IsSound (
        note_stitch cl (verify_fcs frame flen)
          (record s { acc = note_decode frame n (verify_fcs frame flen) s.acc })) =
      note_stitch-IsSound cl (verify_fcs frame flen) _
        (note_decode-IsSound frame n (verify_fcs frame flen) s w) in
    elim (Bool-cases (verify_fcs frame flen)) [
      | inl right ↦
          let good : verify_fcs frame n ≡ true = ap (verify_fcs frame) n_is ∙ right in
          rw right (publish-IsSound (take n frame) _ (cut-checked frame n good) (rw right at noted))
      | inr wrong ↦ rw wrong (rw wrong at noted)
    ]

module _ (d : Decoder) (our_mac : List ℕ) (bytes : List ℕ) (cl : Option ℕ) where
  decode_run-IsSound :
      (off len : ℕ) (s : ScanState) → IsSound s → IsSound (decode_run d our_mac bytes cl off len s)
  unfolding decode_run
  decode_run-IsSound off len s w =
      elim (Option-cases (d.decode_frame (slice bytes off (off + len)))) [
        | inl gone ↦ rw (gone, decode_run) w
        | inr (frame, e) ↦ rw (e, decode_run) (take_frame-IsSound cl frame s w)
      ]

  scan_run-IsSound :
      (off len : ℕ) (s : ScanState) → IsSound s → IsSound (scan_run d our_mac bytes cl off len s)
  unfolding scan_run
  scan_run-IsSound off len s w = elim (Option-cases (d.peek_dst_mac bytes off len)) [
    | inl unclear ↦ rw (unclear, scan_run) w
    | inr (dst, e) ↦ elim (Bool-cases (not (mac_accept dst our_mac))) [
      | inl foreign ↦
          rw (e, scan_run, foreign)
            record { small = w.small; checked = w.checked; counted = w.counted }
      | inr ours ↦ rw (e, scan_run, ours) (decode_run-IsSound off len s w)
    ]
  ]

  scan_loop-IsSound :
      (fuel cursor : ℕ) (s : ScanState)
      → length bytes < cursor + fuel
      → cursor ≤ length bytes
      → IsSound s
      → (s' : ScanState) × (scan_loop d our_mac bytes cl fuel cursor s ≡ some s') × IsSound s'
  unfolding scan_loop
  scan_loop-IsSound zero cursor s enough le w = absurd (omega arith)
  scan_loop-IsSound (suc fuel) cursor s enough le w =
      elim (Option-cases (find_active_run_from bytes cursor 100)) [
        | inl done ↦ (s, rw (done, scan_loop) refl, w)
        | inr ((off, len), e) ↦
            let found = rw e at (find_active_run_from-IsFound bytes 100 (omega arith) cursor) in
            let run = found.0 in
            let (s', ends, w') =
              scan_loop-IsSound fuel (off + len) (scan_run d our_mac bytes cl off len s)
                (omega (arith, run.from_start, run.nonempty)) run.in_bytes
                (scan_run-IsSound off len s w) in
            (s', rw (e, scan_loop) ends, w')
      ]

  -- A scan ends, and with an inbox of at most four frames that carry their own right check sequence,
  -- if the inbox was such before. Modulo 2^32, each frame decoded is counted as right or as wrong.
  pub scan_runs-IsSound :
      (s : ScanState)
      → IsSound s
      → (s' : ScanState) × (scan_runs d our_mac bytes cl s ≡ some s') × IsSound s'
  unfolding scan_runs
  scan_runs-IsSound s w = scan_loop-IsSound (suc (length bytes)) 0 s (omega arith) (omega arith) w
