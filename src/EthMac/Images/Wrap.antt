-- ===== src/EthMac/Images/Wrap.antt =====
-- The image ring of src/eth_mac.rs where IMG_W wraps: 2^32 is no multiple of the six slots.
use pico_10base_t_rs.Prelude.{
  ℕ, ◌-◌, ◌^◌, ◌≡◌, false, some, List, [], arith, length, take, u32, get_or-set_self,
}
use pico_10base_t_rs.EthMac.Images.{img_slots, ImgRing, image, is_full, enqueue, front}

-- With IMG_W wrapped to 0 and four images waiting, the ring does not count as full, and the next
-- image goes into the slot of the oldest one that waits: the thread reads the new image in its place.
pub front-enqueue_wrapped :
    (len cl : ℕ) (slot : List ℕ) (g : ImgRing)
    → length g.slots ≡ img_slots
    → length g.lens ≡ img_slots
    → length g.cls ≡ img_slots
    → g.img_w ≡ 0
    → g.img_r ≡ 2 ^ 32 - 4
    → (is_full g ≡ false)
      × (front (enqueue (image len cl) slot g)
          ≡ some (record { bytes = take (u32 len) slot; carry = u32 cl }))
unfolding is_full enqueue front
front-enqueue_wrapped len cl slot g hs hl hc w r = (
  ground arith,
  rw (
    w,
    r,
    get_or-set_self g.slots 0 slot [] (omega arith),
    get_or-set_self g.lens 0 (u32 len) 0 (omega arith),
    get_or-set_self g.cls 0 (u32 cl) 0 (omega arith),
  ),
)
