-- ===== src/EthMac/Images.antt =====
-- The image ring of src/eth_mac.rs: the DMA interrupt writes, the thread of core 1 reads.
pub mod Fifo
pub mod Steps
pub mod Wrap
mod Tests
use pico_10base_t_rs.Prelude.{
  ℕ, zero, suc, ◌+◌, ◌%◌, Bool, true, false, Option, none, some, List, [], ◌∷◌, leb, ◌==◌,
  if◌then◌else◌, get_or, set, replicate, take, u32, wrapping_add32, wrapping_sub32, ltb,
}

abbrev pub img_slots : ℕ
img_slots = 6

-- IMG_RING, IMG_LEN, IMG_CL, the sequence numbers IMG_W and IMG_R, and IMG_DROP.
pub record ImgRing : Type 0 where
  pub slots : List (List ℕ)
  pub lens : List ℕ
  pub cls : List ℕ
  pub img_w : ℕ
  pub img_r : ℕ
  pub img_drop : ℕ

-- The ring at boot, with slots of `bytes` bytes.
unfoldable pub boot_ring : ℕ → ImgRing
boot_ring bytes = record {
  slots = replicate img_slots (replicate bytes 0);
  lens = replicate img_slots 0;
  cls = replicate img_slots 0;
  img_w = 0;
  img_r = 0;
  img_drop = 0;
}

pub data PollOutcome : Type 0 where
  nothing : PollOutcome
  image : ℕ → ℕ → PollOutcome

-- What the interrupt asks of the receiver: `poll_into` fills the slot that it is given.
pub record Receiver : Type 1 where
  pub Rx : Type 0
  pub poll_into : List ℕ → Rx → PollOutcome × List ℕ × Rx
  pub take_carry_capped : Rx → ℕ × Rx

-- An image as its reader sees it: the bytes up to its length, and the length of its carry.
pub record Image : Type 0 where
  pub bytes : List ℕ
  pub carry : ℕ

-- The image with the sequence number `seq`.
abbrev pub image_at : ImgRing → ℕ → Image
image_at g seq = record {
  bytes = take (get_or g.lens (seq % img_slots) 0) (get_or g.slots (seq % img_slots) []);
  carry = get_or g.cls (seq % img_slots) 0;
}

unfoldable pub is_full : ImgRing → Bool
is_full g = leb img_slots (wrapping_sub32 g.img_w g.img_r)

-- The ring when `poll_into` has filled the slot of IMG_W.
unfoldable pub enqueue : PollOutcome → List ℕ → ImgRing → ImgRing
enqueue nothing slot g = record g { slots = set g.slots (g.img_w % img_slots) slot }
enqueue (image len cl) slot g =
    let idx = g.img_w % img_slots in
    record g {
      slots = set g.slots idx slot;
      lens = set g.lens idx (u32 len);
      cls = set g.cls idx (u32 cl);
      img_w = wrapping_add32 g.img_w 1;
    }

-- A full ring drops the image.
unfoldable pub discard : PollOutcome → ImgRing → ImgRing
discard nothing g = g
discard (image len cl) g = record g { img_drop = wrapping_add32 g.img_drop 1 }

module _ (v : Receiver) where
  open v use {Rx, poll_into, take_carry_capped}

  -- `process_completed_half` from the load of IMG_W on: the ring, the discard slot, the receiver and
  -- the count of `take_carry_capped`.
  unfoldable pub process_completed_half : List ℕ → Rx → ImgRing → ImgRing × List ℕ × ℕ × Rx
  process_completed_half discard_slot rx g =
      if is_full g
      then (let (out, slot, rx') = poll_into discard_slot rx in (discard out g, slot, 0, rx'))
      else (let (out, slot, rx') = poll_into (get_or g.slots (g.img_w % img_slots) []) rx in
          let (capped, rx'') = take_carry_capped rx' in
          (enqueue out slot g, discard_slot, capped, rx''))

-- The image that an iteration of `drain_rx_images` reads.
unfoldable pub front : ImgRing → Option Image
front g = if g.img_r == g.img_w then none else some (image_at g g.img_r)

-- The store to IMG_R that ends the iteration.
unfoldable pub release : ImgRing → ImgRing
release g = record g { img_r = wrapping_add32 g.img_r 1 }
