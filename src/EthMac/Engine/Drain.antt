-- ===== src/EthMac/Engine/Drain.antt =====
-- The loop `drain_rx_images` of src/eth_mac.rs: it ends, and what it leaves.
use pico_10base_t_rs.Prelude.{
  ℕ, zero, suc, ◌+◌, ◌≤◌, ◌<◌, ◌≡◌, refl, sym, ◌∙◌, inl, inr, none, some, arith, length, ltb,
  if◌then◌else◌, Option-cases, subst,
}
use pico_10base_t_rs.EthMac.Images.{Image, ImgRing, front, release}
use pico_10base_t_rs.EthMac.Images.Fifo.{IsValid, front_iff, release-IsValid}
use pico_10base_t_rs.EthMac.Inbox.{RxShared, new_delta, merge_stats, inbox_slots}
use pico_10base_t_rs.EthMac.Scan.{Decoder, ScanState}
use pico_10base_t_rs.EthMac.Scan.Checked.{AreChecked, scan_runs-IsSound}
use pico_10base_t_rs.EthMac.Engine.{Engine, our_mac_of, drain_image, drain_rx_images}

-- The inbox holds at most four frames, all checked.
pub record IsServed (s : RxShared) : Type 0 where
  pub small : length s.inbox ≤ inbox_slots
  pub checked : AreChecked s.inbox

front-none : (g : ImgRing) → IsValid g → front g ≡ none → g.img_r ≡ g.img_w
unfolding front
front-none g v h = ground arith

release_moves :
    (g : ImgRing)
    → IsValid g
    → g.img_r < g.img_w
    → ((release g).img_w ≡ g.img_w) × ((release g).img_r ≡ g.img_r + 1)
unfolding release
release_moves g v lt = let low = v.unwrapped in (refl, omega arith)

module _ (d : Decoder) {Rx : Type 0} where
  drain_image-IsServed :
      (i : Image) (e : Engine Rx)
      → IsServed e.shared
      → (e' : Engine Rx) × (drain_image d i e ≡ some e')
        × IsServed e'.shared
        × (e'.ring ≡ release e.ring)
  unfolding drain_image merge_stats
  drain_image-IsServed i e w =
      let s : ScanState = record {
        acc = new_delta;
        shared = e.shared;
        stitch_dec = e.stitch_dec;
        stitch_fail = e.stitch_fail;
      } in
      let scanned =
        scan_runs-IsSound d (our_mac_of e) i.bytes (if ltb 0 i.carry then some i.carry else none) s
          record { small = w.small; checked = w.checked; counted = refl } in
      let sound = scanned.2 in
      let s' = scanned.0 in
      let e' : Engine Rx = record e {
        shared = merge_stats s'.acc s'.shared;
        stitch_dec = s'.stitch_dec;
        stitch_fail = s'.stitch_fail;
        ring = release e.ring;
      } in
      (
        e',
        rw (drain_image, scanned.1) refl,
        record { small = sound.small; checked = sound.checked },
        refl,
      )

  -- With the images of the ring as its backlog, the loop of `drain_rx_images` ends when all of them are
  -- scanned, so that the ring is empty, and it leaves an inbox of at most four frames that all carry
  -- their own right check sequence, if the inbox was such before.
  pub drain_rx_images-IsServed :
      (fuel : ℕ) (e : Engine Rx)
      → IsValid e.ring
      → e.ring.img_w < e.ring.img_r + fuel
      → IsServed e.shared
      → (e' : Engine Rx) × (drain_rx_images d fuel e ≡ some e')
        × IsServed e'.shared
        × (front e'.ring ≡ none)
        × (e'.ring.img_r ≡ e.ring.img_w)
  unfolding drain_rx_images
  drain_rx_images-IsServed zero e v enough w = let le = v.ordered in absurd (omega arith)
  drain_rx_images-IsServed (suc fuel) e v enough w = elim (Option-cases (front e.ring)) [
    | inl empty ↦ (e, rw (drain_rx_images, empty) refl, w, empty, front-none e.ring v empty)
    | inr (i, here) ↦
        let lt = ((front_iff e.ring i v).0 here).0 in
        let (e1, ran, w1, released) = drain_image-IsServed i e w in
        let v1 : IsValid e1.ring = subst IsValid (sym released) (release-IsValid e.ring v lt) in
        let moved : (e1.ring.img_w ≡ e.ring.img_w) × (e1.ring.img_r ≡ e.ring.img_r + 1) =
          subst (λ (g : ImgRing). (g.img_w ≡ e.ring.img_w) × (g.img_r ≡ e.ring.img_r + 1))
            (sym released) (release_moves e.ring v lt) in
        let rest = drain_rx_images-IsServed fuel e1 v1 (omega (arith, moved)) w1 in
        (rest.0, rw (drain_rx_images, here, ran) (rest.1), rest.2, rest.3, rest.4 ∙ moved.0)
  ]
