-- ===== src/EthMac/Images/Steps.antt =====
-- The interrupt and the thread of core 1 in src/eth_mac.rs as steps on one state. The interrupt can
-- come at any point of an iteration of `drain_rx_images`, also while an image is decoded.
use pico_10base_t_rs.Prelude.{
  ℕ, ◌+◌, ◌%◌, ◌^◌, ◌≤◌, ◌<◌, ◌≡◌, refl, sym, ap, ◌∙◌, true, false, Option, none, some, List, [],
  ◌∷◌, ◌++◌, arith, inl, inr, length, length-append, get_or, Bool-cases, if◌then◌else◌,
}
use mathlib.Core.List.{append-nil, append_assoc}
use pico_10base_t_rs.EthMac.Images.{
  img_slots, ImgRing, boot_ring, PollOutcome, Receiver, Image, is_full, process_completed_half,
  front, release,
}
use pico_10base_t_rs.EthMac.Images.Fifo.{
  IsValid, queued, written, boot_ring-IsValid, enqueue-IsValid, queued-enqueue, release-IsValid,
  queued-release, is_full-false, discard-IsValid, queued-discard, front_iff, front-discard,
  front-enqueue, enqueue_moves, discard_stays,
}

-- The state of core 1, with the image that the thread decodes, if any, and two lists of its history:
-- the images that the interrupt has put in the ring, and those that the thread has finished.
pub record Core1 (v : Receiver) : Type 0 where
  pub ring : ImgRing
  pub rx : v.Rx
  pub discard_slot : List ℕ
  pub reading : Option Image
  pub accepted : List Image
  pub consumed : List Image

module _ (v : Receiver) where
  -- The image that the interrupt puts in the ring.
  abbrev pub added : Core1 v → List Image
  added s =
      if is_full s.ring
      then []
      else (let (out, slot, rx') =
            v.poll_into (get_or s.ring.slots (s.ring.img_w % img_slots) []) s.rx in
          written out slot)

  abbrev pub on_interrupt : Core1 v → Core1 v
  on_interrupt s =
      let (g, slot, capped, rx') = process_completed_half v s.discard_slot s.rx s.ring in
      record s { ring = g; discard_slot = slot; rx = rx'; accepted = s.accepted ++ added s }

  pub data Step : Core1 v → Core1 v → Type 0 where
    interrupt : (s : Core1 v) → Step s (on_interrupt s)
    start :
        (s : Core1 v) (i : Image)
        → s.reading ≡ none
        → front s.ring ≡ some i
        → Step s (record s { reading = some i })
    finish :
        (s : Core1 v) (i : Image)
        → s.reading ≡ some i
        → Step s
            (record s { ring = release s.ring; reading = none; consumed = s.consumed ++ (i ∷ []) })

  -- What holds in every state: the images accepted are those finished and those that wait, in order,
  -- and the slot that the thread decodes from still holds the image that it began with.
  pub record IsCoherent (s : Core1 v) : Type 0 where
    pub valid : IsValid s.ring
    pub count : s.ring.img_w ≡ length s.accepted
    pub in_order : s.accepted ≡ s.consumed ++ queued s.ring
    pub intact : (i : Image) → s.reading ≡ some i → front s.ring ≡ some i

  finish-IsCoherent :
      (s : Core1 v) (i : Image)
      → s.reading ≡ some i
      → IsCoherent s
      → IsCoherent
          (record s { ring = release s.ring; reading = none; consumed = s.consumed ++ (i ∷ []) })
  finish-IsCoherent s i e c =
      let (lt, same) = (front_iff s.ring i c.valid).0 (c.intact i e) in
      record {
        valid = release-IsValid s.ring c.valid lt;
        count = unfold release in c.count;
        in_order =
            c.in_order
            ∙ ap (λ (l : List Image). s.consumed ++ l) (queued-release s.ring c.valid lt)
            ∙ ap (λ (j : Image). s.consumed ++ (j ∷ queued (release s.ring))) same
            ∙ sym (append_assoc s.consumed (i ∷ []) (queued (release s.ring)));
        intact = λ j gone. absurd (cc);
      }

  start-IsCoherent :
      (s : Core1 v) (i : Image)
      → front s.ring ≡ some i
      → IsCoherent s
      → IsCoherent (record s { reading = some i })
  start-IsCoherent s i e c = record {
    valid = c.valid;
    count = c.count;
    in_order = c.in_order;
    intact = λ j begun. e ∙ begun;
  }

  interrupt_full :
      (s : Core1 v) → is_full s.ring ≡ true → IsCoherent s → IsCoherent (on_interrupt s)
  unfolding process_completed_half
  interrupt_full s full c = rw full (
      let out : PollOutcome = (v.poll_into s.discard_slot s.rx).0 in
      record {
        valid = discard-IsValid out s.ring c.valid;
        count = discard_stays out s.ring ∙ c.count ∙ ap length (sym (append-nil s.accepted));
        in_order =
            append-nil s.accepted
            ∙ c.in_order
            ∙ ap (λ (l : List Image). s.consumed ++ l) (sym (queued-discard out s.ring));
        intact = λ i e. front-discard out s.ring ∙ c.intact i e;
      })

  interrupt_room :
      (s : Core1 v)
      → is_full s.ring ≡ false
      → length (s.accepted ++ added s) < 2 ^ 32
      → IsCoherent s
      → IsCoherent (on_interrupt s)
  unfolding process_completed_half
  interrupt_room s room low c =
      let filled = v.poll_into (get_or s.ring.slots (s.ring.img_w % img_slots) []) s.rx in
      let out : PollOutcome = filled.0 in
      let slot : List ℕ = filled.1 in
      let lt = is_full-false s.ring c.valid room in
      let fits : s.ring.img_w + length (written out slot) < 2 ^ 32 =
        omega (arith, c.count, rw (room, length-append s.accepted (written out slot)) at low) in
      let more = queued-enqueue out slot s.ring c.valid lt fits in
      rw room record {
        valid = enqueue-IsValid out slot s.ring c.valid lt fits;
        count =
            (enqueue_moves out slot s.ring fits).1
            ∙ ap (λ (n : ℕ). n + length (written out slot)) c.count
            ∙ sym (length-append s.accepted (written out slot));
        in_order =
            ap (λ (l : List Image). l ++ written out slot) c.in_order
            ∙ append_assoc s.consumed (queued s.ring) (written out slot)
            ∙ ap (λ (l : List Image). s.consumed ++ l) (sym more);
        intact = λ i e. front-enqueue out slot s.ring i c.valid lt fits (c.intact i e);
      }

  step-IsCoherent :
      (s t : Core1 v) → Step s t → length t.accepted < 2 ^ 32 → IsCoherent s → IsCoherent t
  step-IsCoherent _ _ (interrupt s) low c = elim (Bool-cases (is_full s.ring)) [
    | inl full ↦ interrupt_full s full c
    | inr room ↦ interrupt_room s room low c
  ]
  step-IsCoherent _ _ (start s i idle e) low c = start-IsCoherent s i e c
  step-IsCoherent _ _ (finish s i e) low c = finish-IsCoherent s i e c

  -- The states that steps reach from `s`.
  pub data Reaches (s : Core1 v) : Core1 v → Type 0 where
    here : Reaches s s
    then_step : (t u : Core1 v) → Reaches s t → Step t u → Reaches s u

  abbrev pub booted : ℕ → v.Rx → List ℕ → Core1 v
  booted bytes rx slot = record {
    ring = boot_ring bytes;
    rx = rx;
    discard_slot = slot;
    reading = none;
    accepted = [];
    consumed = [];
  }

  -- The history only grows.
  step_grows : (s t : Core1 v) → Step s t → length s.accepted ≤ length t.accepted
  step_grows _ _ (interrupt s) = omega (arith, length-append s.accepted (added s))
  step_grows _ _ (start s i idle e) = omega arith
  step_grows _ _ (finish s i e) = omega arith

  booted-IsCoherent : (bytes : ℕ) (rx : v.Rx) (slot : List ℕ) → IsCoherent (booted bytes rx slot)
  unfolding boot_ring front
  booted-IsCoherent bytes rx slot = record {
    valid = boot_ring-IsValid bytes;
    count = refl;
    in_order = refl;
    intact = λ i e. absurd (cc);
  }

  -- Whatever the receiver captures, and however the interrupt and the thread interleave: as long as
  -- fewer than 2^32 images have been accepted, the images accepted are those finished and those that
  -- wait, in order, at most six wait, and the image that the thread decodes is still unchanged in its
  -- slot.
  pub Reaches-IsCoherent :
      (bytes : ℕ) (rx : v.Rx) (slot : List ℕ) (s : Core1 v)
      → Reaches (booted bytes rx slot) s
      → length s.accepted < 2 ^ 32
      → IsCoherent s
  Reaches-IsCoherent bytes rx slot _ here low = booted-IsCoherent bytes rx slot
  Reaches-IsCoherent bytes rx slot _ (then_step t s before last) low =
      let grown = step_grows t s last in
      step-IsCoherent t s last low (Reaches-IsCoherent bytes rx slot t before (omega arith))
