-- ===== src/EthMac/Scan.antt =====
-- `scan_runs` of src/eth_mac.rs: the runs of an image are decoded, checked and published. The peek at
-- the destination and the decoder are an interface of this module.
pub mod Checked
pub mod Edges
use pico_10base_t_rs.Prelude.{
  ℕ, zero, suc, ◌+◌, Bool, true, false, not, ◌||◌, Option, none, some, List, [], ◌∷◌, ◌++◌, ◌==◌,
  if◌then◌else◌, min, length, byte, slice, take, drop, bytes_eq, bit_and, wrapping_add32,
}
use pico_10base_t_rs.EthRx.Runs.{find_active_run_from}
use pico_10base_t_rs.EthRx.Frames.{derive_frame_len, verify_fcs}
use pico_10base_t_rs.EthMac.Inbox.{StatsDelta, RxShared, publish}

pub record Decoder : Type 0 where
  pub peek_dst_mac : List ℕ → ℕ → ℕ → Option (List ℕ)
  pub decode_frame : List ℕ → Option (List ℕ)

-- What a scan changes: its own delta, RX_SHARED, STITCH_DEC and STITCH_FAIL.
pub record ScanState : Type 0 where
  pub acc : StatsDelta
  pub shared : RxShared
  pub stitch_dec : ℕ
  pub stitch_fail : ℕ

unfoldable pub mac_accept : List ℕ → List ℕ → Bool
mac_accept dst our = bytes_eq dst our || not (bit_and (byte dst 0) 0x01 == 0)

-- The counts of a decode, and the snapshot of the frame.
unfoldable pub note_decode : List ℕ → ℕ → Bool → StatsDelta → StatsDelta
note_decode frame n ok acc =
    let snap_n = min n (length acc.last_snap) in
    record acc {
      decoded = wrapping_add32 acc.decoded 1;
      ok = if ok then wrapping_add32 acc.ok 1 else acc.ok;
      fail = if ok then acc.fail else wrapping_add32 acc.fail 1;
      last_snap = take snap_n frame ++ drop snap_n acc.last_snap;
      last_snap_len = snap_n;
      last_len = n;
      last_ok = ok;
      have_last = true;
    }

-- The counts of an image with a carry in front.
unfoldable pub note_stitch : Option ℕ → Bool → ScanState → ScanState
note_stitch none ok s = s
note_stitch (some cl) ok s = record s {
  stitch_dec = wrapping_add32 s.stitch_dec 1;
  stitch_fail = if ok then s.stitch_fail else wrapping_add32 s.stitch_fail 1;
}

-- What follows the decoder: length, check, counts, and the publication of a frame that is right.
unfoldable pub take_frame : Option ℕ → List ℕ → ScanState → ScanState
take_frame stitch_cl frame s =
    let flen = derive_frame_len frame in
    let ok = verify_fcs frame flen in
    let n = min flen (length frame) in
    let s' = note_stitch stitch_cl ok (record s { acc = note_decode frame n ok s.acc }) in
    if ok then record s' { shared = publish (take n frame) s'.shared } else s'

module _ (d : Decoder) (our_mac : List ℕ) (bytes : List ℕ) (stitch_cl : Option ℕ) where
  open d use {peek_dst_mac, decode_frame}

  -- A run to an address that is accepted.
  unfoldable pub decode_run : ℕ → ℕ → ScanState → ScanState
  decode_run off len s = elim (decode_frame (slice bytes off (off + len))) [
    | none ↦ s
    | some frame ↦ take_frame stitch_cl frame s
  ]

  unfoldable pub scan_run : ℕ → ℕ → ScanState → ScanState
  scan_run off len s = elim (peek_dst_mac bytes off len) [
    | none ↦ s
    | some dst ↦
        if not (mac_accept dst our_mac)
        then record s { acc = record (s.acc) { filtered = wrapping_add32 s.acc.filtered 1 } }
        else decode_run off len s
  ]

  -- `none` is the end of the fuel.
  unfoldable pub scan_loop : ℕ → ℕ → ScanState → Option ScanState
  scan_loop zero cursor s = none
  scan_loop (suc fuel) cursor s = elim (find_active_run_from bytes cursor 100) [
    | none ↦ some s
    | some (off, len) ↦ scan_loop fuel (off + len) (scan_run off len s)
  ]

  -- Each run passes at least one byte.
  unfoldable pub scan_runs : ScanState → Option ScanState
  scan_runs s = scan_loop (suc (length bytes)) 0 s
