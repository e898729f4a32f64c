-- ===== src/EthMac/Images/Tests.antt =====
-- The image ring of src/eth_mac.rs at concrete images.
use pico_10base_t_rs.Prelude.{
  ℕ, suc, ◌<◌, ◌^◌, ◌-◌, ◌≡◌, refl, false, some, [], ◌∷◌, arith, length, take, u32,
}
use pico_10base_t_rs.EthMac.Images.{
  ImgRing, boot_ring, image, Receiver, is_full, enqueue, process_completed_half, front,
}
use pico_10base_t_rs.EthMac.Images.Steps.{
  Core1, interrupt, start, Reaches, here, then_step, on_interrupt, booted, IsCoherent,
  Reaches-IsCoherent,
}
use pico_10base_t_rs.EthMac.Images.Wrap.{front-enqueue_wrapped}

-- A receiver that always has the same image of two bytes.
abbrev steady : Receiver
steady = record {
  Rx = ℕ;
  poll_into = λ slot n. (image 2 0, 7 ∷ 8 ∷ [], suc n);
  take_carry_capped = λ n. (0, n);
}

abbrev at_boot : Core1 steady
at_boot = booted steady 2 0 []

-- The thread begins with the image of the first interrupt, and a second interrupt comes meanwhile.
abbrev one_image : Core1 steady
one_image = on_interrupt steady at_boot

abbrev begun : Core1 steady
begun = record one_image { reading = some (record { bytes = 7 ∷ 8 ∷ []; carry = 0 }) }

first_waits : front one_image.ring ≡ some (record { bytes = 7 ∷ 8 ∷ []; carry = 0 })
unfolding front process_completed_half is_full enqueue boot_ring
first_waits = refl

two_images : Reaches steady at_boot (on_interrupt steady begun)
two_images =
    then_step begun (on_interrupt steady begun)
      (then_step one_image begun (then_step at_boot one_image here (interrupt at_boot))
        (start one_image (record { bytes = 7 ∷ 8 ∷ []; carry = 0 }) refl first_waits))
      (interrupt begun)

few : length (on_interrupt steady begun).accepted < 2 ^ 32
unfolding process_completed_half is_full enqueue boot_ring
few = omega arith

Reaches-IsCoherent_example : IsCoherent steady (on_interrupt steady begun)
Reaches-IsCoherent_example =
    Reaches-IsCoherent steady 2 0 [] (on_interrupt steady begun) two_images few

abbrev wrapped : ImgRing
wrapped = record {
  slots = (1 ∷ []) ∷ (2 ∷ []) ∷ (3 ∷ []) ∷ (4 ∷ []) ∷ (5 ∷ []) ∷ (6 ∷ []) ∷ [];
  lens = 1 ∷ 1 ∷ 1 ∷ 1 ∷ 1 ∷ 1 ∷ [];
  cls = 0 ∷ 0 ∷ 0 ∷ 0 ∷ 0 ∷ 0 ∷ [];
  img_w = 0;
  img_r = 2 ^ 32 - 4;
  img_drop = 0;
}

front-enqueue_wrapped_example :
    (is_full wrapped ≡ false)
    × (front (enqueue (image 1 0) (9 ∷ []) wrapped)
        ≡ some (record { bytes = take (u32 1) (9 ∷ []); carry = u32 0 }))
front-enqueue_wrapped_example = front-enqueue_wrapped 1 0 (9 ∷ []) wrapped refl refl refl refl refl
