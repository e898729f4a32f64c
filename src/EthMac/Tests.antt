-- ===== src/EthMac/Tests.antt =====
-- The scan and the transmit token of src/eth_mac.rs at concrete inputs.
use pico_10base_t_rs.Prelude.{
  ℕ, ◌+◌, ◌≡◌, refl, none, some, List, [], ◌∷◌, arith, replicate, slice, Option, all_bytes-AreBytes,
}
use pico_10base_t_rs.EthMac.Inbox.{new_stats, new_delta}
use pico_10base_t_rs.EthMac.Scan.{Decoder, ScanState, scan_runs}
use pico_10base_t_rs.EthMac.Scan.Checked.{IsSound, scan_runs-IsSound}
use pico_10base_t_rs.EthMac.Images.{ImgRing, image, boot_ring, enqueue, front}
use pico_10base_t_rs.EthMac.Images.Fifo.{boot_ring-IsValid, enqueue-IsValid}
use pico_10base_t_rs.EthMac.Engine.{Engine, drain_rx_images}
use pico_10base_t_rs.EthMac.Engine.Drain.{IsServed, drain_rx_images-IsServed}
use pico_10base_t_rs.Prelude.Checked.{ok}
use pico_10base_t_rs.EthRx.Runs.{find_active_run_from}
use pico_10base_t_rs.EthRxDpll.{decode_frame_edge_track}
use pico_10base_t_rs.EthMac.Scan.Edges.{edge_track, reference, scan_runs-reference}

-- A decoder that takes the run for the frame.
abbrev plain : Decoder
plain = record {
  peek_dst_mac = λ bytes off len. some (replicate 6 255);
  decode_frame = λ run. some run;
}

abbrev idle : ScanState
idle = record {
  acc = new_delta;
  shared = record { inbox = []; stats = new_stats };
  stitch_dec = 0;
  stitch_fail = 0;
}

idle-IsSound : IsSound idle
idle-IsSound = record { small = omega arith; checked = tt; counted = refl }

abbrev noisy : List ℕ
noisy = 0 ∷ 0x66 ∷ 0x99 ∷ 0 ∷ replicate 120 0x66

scan_runs-IsSound_example :
    (s' : ScanState) × (scan_runs plain (replicate 6 2) noisy none idle ≡ some s') × IsSound s'
scan_runs-IsSound_example = scan_runs-IsSound plain (replicate 6 2) noisy none idle idle-IsSound

-- One image waits.
abbrev one_image : ImgRing
one_image = enqueue (image 124 0) noisy (boot_ring 124)

abbrev waiting : Engine ℕ
waiting = record {
  engine = some (0, replicate 6 2);
  ring = one_image;
  discard_slot = [];
  shared = record { inbox = []; stats = new_stats };
  stitch_dec = 0;
  stitch_fail = 0;
  rxstall_halves = 0;
}

drain_rx_images-IsServed_example :
    (e' : Engine ℕ) × (drain_rx_images plain 2 waiting ≡ some e')
    × IsServed e'.shared
    × (front e'.ring ≡ none)
    × (e'.ring.img_r ≡ waiting.ring.img_w)
unfolding enqueue boot_ring
drain_rx_images-IsServed_example =
    drain_rx_images-IsServed plain 2 waiting
      (enqueue-IsValid (image 124 0) noisy (boot_ring 124) (boot_ring-IsValid 124) (omega arith)
        (omega arith))
      (omega arith) record { small = omega arith; checked = tt }

scan_runs-reference_example :
    ((cursor off len : ℕ)
      → find_active_run_from noisy cursor 100 ≡ some (off, len)
      → (frame : Option (List ℕ)) × (decode_frame_edge_track (slice noisy off (off + len))
          ≡ ok frame))
    × (scan_runs edge_track (replicate 6 2) noisy none idle
        ≡ scan_runs reference (replicate 6 2) noisy none idle)
scan_runs-reference_example =
    scan_runs-reference (replicate 6 2) noisy none (all_bytes-AreBytes noisy refl) (omega arith)
      idle
