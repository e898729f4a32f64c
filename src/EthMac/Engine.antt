-- ===== src/EthMac/Engine.antt =====
-- Core 1 of src/eth_mac.rs as a whole: the engine and its installation, the DMA interrupt, and the
-- loop over the images that wait. The scan and the receiver are those of the sibling modules.
pub mod Drain
use pico_10base_t_rs.Prelude.{
  ℕ, zero, suc, Bool, true, false, Option, none, some, List, [], ◌∷◌, ltb, ◌==◌, if◌then◌else◌,
  replicate, wrapping_add32,
}
use pico_10base_t_rs.EthMac.Images.{
  ImgRing, Receiver, Image, process_completed_half, front, release,
}
use pico_10base_t_rs.EthMac.Inbox.{RxShared, StatsDelta, new_delta, merge_stats}
use pico_10base_t_rs.EthMac.Scan.{Decoder, ScanState, scan_runs}

-- RX_ENGINE with the receiver and our MAC, the ring with its discard slot, RX_SHARED and the counters.
pub record Engine (Rx : Type 0) : Type 0 where
  pub engine : Option (Rx × List ℕ)
  pub ring : ImgRing
  pub discard_slot : List ℕ
  pub shared : RxShared
  pub stitch_dec : ℕ
  pub stitch_fail : ℕ
  pub rxstall_halves : ℕ

-- Whether the engine was free, and the state.
unfoldable pub install_rx : {Rx : Type 0} → Rx → List ℕ → Engine Rx → Bool × Engine Rx
install_rx rx our_mac e = elim e.engine [
  | some installed ↦ (false, e)
  | none ↦ (true, record e { engine = some (rx, our_mac) })
]

abbrev pub our_mac_of : {Rx : Type 0} → Engine Rx → List ℕ
our_mac_of e = elim e.engine [ none ↦ replicate 6 0 | some installed ↦ installed.1 ]

unfoldable pub merge_capped : ℕ → RxShared → RxShared
merge_capped capped s = if capped == 0 then s else record s {
  stats = record (s.stats) { carry_capped = wrapping_add32 s.stats.carry_capped capped };
}

module _ (v : Receiver) where
  -- `stalled` is the overflow flag of the FIFO, which the handler clears.
  unfoldable pub complete_half : Bool → v.Rx → List ℕ → Engine v.Rx → Engine v.Rx
  complete_half stalled rx our_mac e =
      let (ring, slot, capped, rx') = process_completed_half v e.discard_slot rx e.ring in
      record e {
        engine = some (rx', our_mac);
        ring = ring;
        discard_slot = slot;
        shared = merge_capped capped e.shared;
        rxstall_halves = if stalled then wrapping_add32 e.rxstall_halves 1 else e.rxstall_halves;
      }

  unfoldable pub dma_irq_0 : Bool → Engine v.Rx → Engine v.Rx
  dma_irq_0 stalled e = elim e.engine [
    | none ↦ e
    | some installed ↦ complete_half stalled (installed.0) (installed.1) e
  ]

module _ (d : Decoder) {Rx : Type 0} where
  -- One iteration: the scan of an image, the merge, and the release. `none` is a scan out of fuel.
  unfoldable pub drain_image : Image → Engine Rx → Option (Engine Rx)
  drain_image i e =
      let s : ScanState = record {
        acc = new_delta;
        shared = e.shared;
        stitch_dec = e.stitch_dec;
        stitch_fail = e.stitch_fail;
      } in
      elim (scan_runs d (our_mac_of e) i.bytes (if ltb 0 i.carry then some i.carry else none) s) [
        | none ↦ none
        | some s' ↦ some (record e {
          shared = merge_stats s'.acc s'.shared;
          stitch_dec = s'.stitch_dec;
          stitch_fail = s'.stitch_fail;
          ring = release e.ring;
        })
      ]

  -- `none` is the end of the fuel.
  unfoldable pub drain_rx_images : ℕ → Engine Rx → Option (Engine Rx)
  drain_rx_images zero e = none
  drain_rx_images (suc fuel) e = elim (front e.ring) [
    | none ↦ some e
    | some i ↦ elim (drain_image i e) [ none ↦ none | some e' ↦ drain_rx_images fuel e' ]
  ]
