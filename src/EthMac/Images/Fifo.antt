-- ===== src/EthMac/Images/Fifo.antt =====
-- The image ring of src/eth_mac.rs as a queue: however the interrupt and the thread interleave.
use pico_10base_t_rs.Prelude.{
  ℕ, zero, suc, ◌+◌, ◌-◌, ◌%◌, ◌^◌, ◌≤◌, ◌<◌, ◌≡◌, ◌≢◌, ◌↔◌, refl, sym, ap, ◌∙◌, false, some, List,
  [], ◌∷◌, ◌++◌, arith, length, get_or, take, get_or-set_self, get_or-set_ne, length-set,
  wrapping_add32, u32,
}
use mathlib.Core.List.{append-nil}
use pico_10base_t_rs.EthMac.Images.{
  img_slots, ImgRing, boot_ring, PollOutcome, nothing, image, Image, image_at, is_full, enqueue,
  discard, front, release,
}

-- Before the sequence numbers wrap: at most six images wait.
pub record IsValid (g : ImgRing) : Type 0 where
  pub slots_size : length g.slots ≡ img_slots
  pub lens_size : length g.lens ≡ img_slots
  pub cls_size : length g.cls ≡ img_slots
  pub ordered : g.img_r ≤ g.img_w
  pub bounded : g.img_w ≤ g.img_r + img_slots
  pub unwrapped : g.img_w < 2 ^ 32

-- `n` images from the sequence number `seq` on.
abbrev pub images_from : ImgRing → ℕ → ℕ → List Image
images_from g seq zero = []
images_from g seq (suc n) = image_at g seq ∷ images_from g (seq + 1) n

-- The images that wait, the oldest first.
abbrev pub queued : ImgRing → List Image
queued g = images_from g g.img_r (g.img_w - g.img_r)

-- The image that the interrupt writes, if any: `poll_into` gives the length and the slot.
abbrev pub written : PollOutcome → List ℕ → List Image
written nothing slot = []
written (image len cl) slot = record { bytes = take (u32 len) slot; carry = u32 cl } ∷ []

pub images_from-same :
    (g g' : ImgRing) (seq n : ℕ)
    → ((k : ℕ) → seq ≤ k → k < seq + n → image_at g' k ≡ image_at g k)
    → images_from g' seq n ≡ images_from g seq n
images_from-same g g' seq zero same = refl
images_from-same g g' seq (suc n) same =
    let head : image_at g' seq ≡ image_at g seq = same seq (omega arith) (omega arith) in
    let tail : images_from g' (seq + 1) n ≡ images_from g (seq + 1) n =
      images_from-same g g' (seq + 1) n (λ k p q. same k (omega arith) (omega arith)) in
    rw (head, tail)

images_from-snoc :
    (g : ImgRing) (seq n : ℕ)
    → images_from g seq (suc n) ≡ images_from g seq n ++ (image_at g (seq + n) ∷ [])
images_from-snoc g seq zero = ap (λ (k : ℕ). image_at g k ∷ []) (omega arith)
images_from-snoc g seq (suc n) =
    ap (λ (l : List Image). image_at g seq ∷ l)
      (images_from-snoc g (seq + 1) n
        ∙ ap (λ (k : ℕ). images_from g (seq + 1) n ++ (image_at g k ∷ [])) (omega arith))

-- A write to the slot of IMG_W leaves the images that wait as they are.
pub enqueue-others :
    (out : PollOutcome) (slot : List ℕ) (g : ImgRing) (k : ℕ)
    → g.img_r ≤ k
    → k < g.img_w
    → g.img_w < g.img_r + img_slots
    → image_at (enqueue out slot g) k ≡ image_at g k
unfolding enqueue
enqueue-others nothing slot g k p q room =
    let apart : g.img_w % img_slots ≢ k % img_slots = λ e. absurd (omega arith) in
    ap
      (λ (b : List ℕ). record {
        bytes = take (get_or g.lens (k % img_slots) 0) b;
        carry = get_or g.cls (k % img_slots) 0;
      })
      (get_or-set_ne g.slots (g.img_w % img_slots) (k % img_slots) slot [] apart)
enqueue-others (image len cl) slot g k p q room =
    let apart : g.img_w % img_slots ≢ k % img_slots = λ e. absurd (omega arith) in
    rw (
      get_or-set_ne g.slots (g.img_w % img_slots) (k % img_slots) slot [] apart,
      get_or-set_ne g.lens (g.img_w % img_slots) (k % img_slots) (u32 len) 0 apart,
      get_or-set_ne g.cls (g.img_w % img_slots) (k % img_slots) (u32 cl) 0 apart,
    )

enqueue-last :
    (len cl : ℕ) (slot : List ℕ) (g : ImgRing)
    → IsValid g
    → image_at (enqueue (image len cl) slot g) g.img_w
      ≡ record { bytes = take (u32 len) slot; carry = u32 cl }
unfolding enqueue
enqueue-last len cl slot g v =
    let idx : ℕ = g.img_w % img_slots in
    rw (
      get_or-set_self g.slots idx slot [] (omega (arith, v.slots_size)),
      get_or-set_self g.lens idx (u32 len) 0 (omega (arith, v.lens_size)),
      get_or-set_self g.cls idx (u32 cl) 0 (omega (arith, v.cls_size)),
    )

pub boot_ring-IsValid : (bytes : ℕ) → IsValid (boot_ring bytes)
unfolding boot_ring
boot_ring-IsValid bytes = record {
  slots_size = refl;
  lens_size = refl;
  cls_size = refl;
  ordered = omega arith;
  bounded = omega arith;
  unwrapped = omega arith;
}

pub enqueue-IsValid :
    (out : PollOutcome) (slot : List ℕ) (g : ImgRing)
    → IsValid g
    → g.img_w < g.img_r + img_slots
    → g.img_w + length (written out slot) < 2 ^ 32
    → IsValid (enqueue out slot g)
unfolding enqueue
enqueue-IsValid nothing slot g v room low = record {
  slots_size = length-set g.slots _ slot ∙ v.slots_size;
  lens_size = v.lens_size;
  cls_size = v.cls_size;
  ordered = v.ordered;
  bounded = v.bounded;
  unwrapped = v.unwrapped;
}
enqueue-IsValid (image len cl) slot g v room low = record {
  slots_size = length-set g.slots _ slot ∙ v.slots_size;
  lens_size = length-set g.lens _ (u32 len) ∙ v.lens_size;
  cls_size = length-set g.cls _ (u32 cl) ∙ v.cls_size;
  ordered = omega (arith, v.ordered);
  bounded = omega arith;
  unwrapped = omega arith;
}

-- The images that wait after a write: those before it, and the one written.
pub queued-enqueue :
    (out : PollOutcome) (slot : List ℕ) (g : ImgRing)
    → IsValid g
    → g.img_w < g.img_r + img_slots
    → g.img_w + length (written out slot) < 2 ^ 32
    → queued (enqueue out slot g) ≡ queued g ++ written out slot
unfolding enqueue
queued-enqueue nothing slot g v room low =
    images_from-same g (enqueue nothing slot g) g.img_r (g.img_w - g.img_r)
      (λ k p q. enqueue-others nothing slot g k p (omega (arith, v.ordered)) room)
    ∙ sym (append-nil (queued g))
queued-enqueue (image len cl) slot g v room low =
    let g' : ImgRing = enqueue (image len cl) slot g in
    let one : g'.img_w - g.img_r ≡ suc (g.img_w - g.img_r) = omega (arith, v.ordered) in
    let last : g.img_r + (g.img_w - g.img_r) ≡ g.img_w = omega (arith, v.ordered) in
    let before : images_from g' g.img_r (g.img_w - g.img_r) ≡ queued g =
      images_from-same g g' g.img_r (g.img_w - g.img_r)
        (λ k p q. enqueue-others (image len cl) slot g k p (omega (arith, v.ordered)) room) in
    ap (images_from g' g.img_r) one
    ∙ images_from-snoc g' g.img_r (g.img_w - g.img_r)
    ∙ ap (λ (l : List Image). l ++ (image_at g' (g.img_r + (g.img_w - g.img_r)) ∷ [])) before
    ∙ ap (λ (k : ℕ). queued g ++ (image_at g' k ∷ [])) last
    ∙ ap (λ (i : Image). queued g ++ (i ∷ [])) (enqueue-last len cl slot g v)

pub release-IsValid : (g : ImgRing) → IsValid g → g.img_r < g.img_w → IsValid (release g)
unfolding release
release-IsValid g v lt = record {
  slots_size = v.slots_size;
  lens_size = v.lens_size;
  cls_size = v.cls_size;
  ordered = omega (arith, v.unwrapped);
  bounded = omega (arith, v.bounded, v.unwrapped);
  unwrapped = v.unwrapped;
}

-- The images that wait are the one that is read and those after its release.
pub queued-release :
    (g : ImgRing)
    → IsValid g
    → g.img_r < g.img_w
    → queued g ≡ image_at g g.img_r ∷ queued (release g)
unfolding release
queued-release g v lt =
    let rest : g.img_w - g.img_r ≡ suc (g.img_w - (g.img_r + 1)) = omega arith in
    let next : wrapping_add32 g.img_r 1 ≡ g.img_r + 1 = omega (arith, v.unwrapped) in
    let same : images_from (release g) (g.img_r + 1) (g.img_w - (g.img_r + 1))
        ≡ images_from g (g.img_r + 1) (g.img_w - (g.img_r + 1)) =
      images_from-same g (release g) (g.img_r + 1) (g.img_w - (g.img_r + 1)) (λ k p q. refl) in
    ap (images_from g g.img_r) rest
    ∙ ap (λ (l : List Image). image_at g g.img_r ∷ l)
        (sym same ∙ ap (λ (k : ℕ). images_from (release g) k (g.img_w - k)) (sym next))

pub is_full-false : (g : ImgRing) → IsValid g → is_full g ≡ false → g.img_w < g.img_r + img_slots
unfolding is_full
is_full-false g v e = ground (arith, v.ordered, v.unwrapped)

pub discard-IsValid : (out : PollOutcome) (g : ImgRing) → IsValid g → IsValid (discard out g)
unfolding discard
discard-IsValid nothing g v = v
discard-IsValid (image len cl) g v = record {
  slots_size = v.slots_size;
  lens_size = v.lens_size;
  cls_size = v.cls_size;
  ordered = v.ordered;
  bounded = v.bounded;
  unwrapped = v.unwrapped;
}

pub queued-discard : (out : PollOutcome) (g : ImgRing) → queued (discard out g) ≡ queued g
unfolding discard
queued-discard nothing g = refl
queued-discard (image len cl) g =
    images_from-same g (discard (image len cl) g) g.img_r (g.img_w - g.img_r) (λ k p q. refl)

-- The thread finds an image exactly where one waits, and then the oldest.
pub front_iff :
    (g : ImgRing) (i : Image)
    → IsValid g
    → (front g ≡ some i) ↔ ((g.img_r < g.img_w) × (image_at g g.img_r ≡ i))
unfolding front
front_iff g i v = ground (arith, v.ordered)

pub front-discard : (out : PollOutcome) (g : ImgRing) → front (discard out g) ≡ front g
unfolding discard front
front-discard nothing g = refl
front-discard (image len cl) g = refl

pub discard_stays : (out : PollOutcome) (g : ImgRing) → (discard out g).img_w ≡ g.img_w
unfolding discard
discard_stays nothing g = refl
discard_stays (image len cl) g = refl

-- The sequence numbers after a write.
pub enqueue_moves :
    (out : PollOutcome) (slot : List ℕ) (g : ImgRing)
    → g.img_w + length (written out slot) < 2 ^ 32
    → ((enqueue out slot g).img_r ≡ g.img_r)
      × ((enqueue out slot g).img_w ≡ g.img_w + length (written out slot))
unfolding enqueue
enqueue_moves nothing slot g low = (refl, omega arith)
enqueue_moves (image len cl) slot g low = (refl, omega arith)

pub front-enqueue :
    (out : PollOutcome) (slot : List ℕ) (g : ImgRing) (i : Image)
    → IsValid g
    → g.img_w < g.img_r + img_slots
    → g.img_w + length (written out slot) < 2 ^ 32
    → front g ≡ some i
    → front (enqueue out slot g) ≡ some i
front-enqueue out slot g i v room low e =
    let v' = enqueue-IsValid out slot g v room low in
    let (lt, same) = (front_iff g i v).0 e in
    let (r_is, w_is) = enqueue_moves out slot g low in
    (front_iff (enqueue out slot g) i v').1 (
      omega arith,
      ap (image_at (enqueue out slot g)) r_is
          ∙ enqueue-others out slot g g.img_r (omega arith) lt room
          ∙ same,
    )
