-- ===== src/EthRx/Poll/Stream.antt =====
-- `poll_into` of src/eth_rx.rs loses no sample and splits no run of activity.
use pico_10base_t_rs.Prelude.{
  ℕ, zero, suc, ◌+◌, ◌-◌, ◌≤◌, ◌<◌, ◌≡◌, ◌⊎◌, inl, inr, refl, ap, ◌∙◌, Bool, true, false, some,
  List, [], ◌∷◌, ◌++◌, arith, length, length-append, length-take, length-drop, take-append,
  take-append-drop, get_or-append_left, get_or-append_right, get_or-take, get_or-drop, byte, take,
  drop, ltb, leb, ◌==◌, Bool-cases, if-false,
}
use mathlib.Core.List.{append_assoc}
use pico_10base_t_rs.EthMac.Images.{PollOutcome, image}
use pico_10base_t_rs.EthRx.Poll.{
  buf_bytes, max_carry_bytes, stitch_buf_bytes, EthRx, is_active, leading_run, tail_loop,
  copy_front, bump_capped, stitch, poll_into,
}

leading_run_lem :
    (bytes : List ℕ)
    → (leading_run bytes ≤ length bytes)
      × (leading_run bytes < length bytes → is_active (byte bytes (leading_run bytes)) ≡ false)
      × ((u : ℕ) → u < leading_run bytes → is_active (byte bytes u) ≡ true)
unfolding leading_run
leading_run_lem [] = (omega arith, λ lt. absurd (omega arith), λ u lt. absurd (omega arith))
leading_run_lem (b ∷ bytes) = elim (Bool-cases (is_active b)) [
  | inl on ↦
      let rest = leading_run_lem bytes in
      rw on (omega (arith, rest), λ lt. rest.1 (omega arith), λ u lt. inside rest.2 on u lt)
  | inr off ↦ rw off (omega arith, λ lt. off, λ u lt. absurd (omega arith))
]
  where
    inside :
        ((u : ℕ) → u < leading_run bytes → is_active (byte bytes u) ≡ true)
        → is_active b ≡ true
        → (u : ℕ) → u < suc (leading_run bytes)
        → is_active (byte (b ∷ bytes) u) ≡ true
    inside rest on zero lt = on
    inside rest on (suc u) lt = rest u (omega arith)

abbrev AllActive : List ℕ → ℕ → Type 0
AllActive bytes t = (j : ℕ) → t ≤ j → j < buf_bytes → is_active (byte bytes j) ≡ true

-- What the loop on `tail_start` is to give.
record IsTail (k : ℕ) (bytes : List ℕ) (out : ℕ × Bool) : Type 0 where
  above : k ≤ out.0
  below : out.0 ≤ buf_bytes
  uncapped : out.1 ≡ false
  active_tail : AllActive bytes out.0
  boundary : (out.0 ≡ k) ⊎ ((u : ℕ) × (suc u ≡ out.0) × (is_active (byte bytes u) ≡ false))

module _ (k : ℕ) (bytes : List ℕ) (t : ℕ) where
  tail_stop : leb (suc t) k ≡ true → tail_loop k bytes (suc t) ≡ (suc t, false)
  unfolding tail_loop
  tail_stop e = rw e refl

  tail_quiet :
      leb (suc t) k ≡ false
      → leb max_carry_bytes (buf_bytes - suc t) ≡ false
      → is_active (byte bytes t) ≡ false
      → tail_loop k bytes (suc t) ≡ (suc t, false)
  unfolding tail_loop
  tail_quiet e room quiet = rw (e, room, quiet) refl

  tail_on :
      leb (suc t) k ≡ false
      → leb max_carry_bytes (buf_bytes - suc t) ≡ false
      → is_active (byte bytes t) ≡ true
      → tail_loop k bytes (suc t) ≡ tail_loop k bytes t
  unfolding tail_loop
  tail_on e room on = rw (e, room, on) refl

tail_loop-IsTail :
    (k : ℕ) (bytes : List ℕ) (t : ℕ)
    → k ≤ t
    → t ≤ buf_bytes
    → AllActive bytes t
    → IsTail k bytes (tail_loop k bytes t)
unfolding tail_loop
tail_loop-IsTail k bytes zero kt tb all = record {
  above = kt;
  below = tb;
  uncapped = refl;
  active_tail = all;
  boundary = inl (omega arith);
}
tail_loop-IsTail k bytes (suc t) kt tb all = elim (Bool-cases (leb (suc t) k)) [
  | inl stop ↦ rw (tail_stop k bytes t stop) record {
    above = kt;
    below = tb;
    uncapped = refl;
    active_tail = all;
    boundary = inl (ground arith);
  }
  | inr more ↦
      let room : leb max_carry_bytes (buf_bytes - suc t) ≡ false = ground arith in
      elim (Bool-cases (is_active (byte bytes t))) [
        | inr quiet ↦ rw (tail_quiet k bytes t more room quiet) record {
          above = kt;
          below = tb;
          uncapped = refl;
          active_tail = all;
          boundary = inr (t, refl, quiet);
        }
        | inl on ↦ rw (tail_on k bytes t more room on) (
            tail_loop-IsTail k bytes t (ground arith) (omega arith) (λ j p q.
              elim (Bool-cases (t == j)) [
                | inl same ↦ ap (λ (i : ℕ). is_active (byte bytes i)) (ground arith) ∙ on
                | inr later ↦ all j (ground arith) q
              ]))
      ]
]

-- A half that gave an image: no sample of the carry and the half is lost, the image ends at a byte
-- without an edge (or is empty), and all that goes into the next carry is active.
pub record IsStitched (half : List ℕ) (rx : EthRx) (out : PollOutcome × List ℕ × EthRx)
    : Type 0 where
  pub len : ℕ
  pub is_image : out.0 ≡ image len (length rx.carry)
  pub samples : take len out.1 ++ out.2.carry ≡ rx.carry ++ half
  pub ends_quiet : (len ≡ 0) ⊎ ((u : ℕ) × (suc u ≡ len) × (is_active (byte out.1 u) ≡ false))
  pub carry_active : (i : ℕ) → i < length out.2.carry → is_active (byte out.2.carry i) ≡ true
  pub uncapped : out.2.carry_capped ≡ rx.carry_capped

-- The bytes that the copy leaves in a slot.
abbrev pub over : List ℕ → List ℕ → List ℕ
over bytes slot = bytes ++ drop (length bytes) slot

copy_front-some :
    (bytes slot : List ℕ)
    → length bytes ≤ length slot
    → copy_front bytes slot ≡ some (over bytes slot)
unfolding copy_front
copy_front-some bytes slot fits = if-false (ltb (length slot) (length bytes)) _ _ (ground arith)

-- Where the slot has room, the copy does not panic.
pub stitch-some :
    (t : ℕ) (capped : Bool) (half slot : List ℕ) (rx : EthRx)
    → length (rx.carry ++ take t half) ≤ length slot
    → stitch (t, capped) half slot rx
      ≡ some (
        image (length rx.carry + t) (length rx.carry),
        over (rx.carry ++ take t half) slot,
        record (bump_capped capped rx) { carry = drop t half },
      )
unfolding stitch
stitch-some t capped half slot rx fits =
    rw (copy_front-some (rx.carry ++ take t half) slot fits, stitch) refl

module _ (half slot : List ℕ) (rx : EthRx) (size : length half ≡ buf_bytes)
    (carried_few : length rx.carry ≤ max_carry_bytes) (room : stitch_buf_bytes ≤ length slot) where
  quiet_end :
      (k t : ℕ)
      → IsTail k half (t, false)
      → ((k ≡ 0) × (length rx.carry ≡ 0)) ⊎ ((k < buf_bytes) × (is_active (byte half k) ≡ false))
      → let filled = over (rx.carry ++ take t half) slot in
        (length rx.carry + t ≡ 0)
        ⊎ ((u : ℕ) × (suc u ≡ length rx.carry + t) × (is_active (byte filled u) ≡ false))
  quiet_end k t tail edge =
      let front : List ℕ = rx.carry ++ take t half in
      let n = length-append rx.carry (take t half) in
      let m = length-take t half in
      elim tail.boundary [
        | inr (u, e, q) ↦ inr (
          length rx.carry + u,
          omega arith,
          ap is_active (
                get_or-append_left front (drop (length front) slot) (length rx.carry + u) 0
                  (omega (arith, tail.below))
                ∙ get_or-append_right rx.carry (take t half) u 0
                ∙ get_or-take t half u 0 (omega arith))
              ∙ q,
        )
        | inl same ↦ elim edge [
          | inl start ↦ inl (omega arith)
          | inr (lt, q) ↦ let on = tail.active_tail k (omega arith) lt in absurd (cc)
        ]
      ]

  stitch-IsStitched :
      (k : ℕ) (tail : ℕ × Bool)
      → IsTail k half tail
      → ((k ≡ 0) × (length rx.carry ≡ 0)) ⊎ ((k < buf_bytes) × (is_active (byte half k) ≡ false))
      → (out : PollOutcome × List ℕ × EthRx) × (stitch tail half slot rx ≡ some out)
        × IsStitched half rx out
  unfolding bump_capped
  stitch-IsStitched k (t, true) tail edge = absurd (let e = tail.uncapped in cc)
  stitch-IsStitched k (t, false) tail edge =
      let front : List ℕ = rx.carry ++ take t half in
      let n : length rx.carry + t ≡ length front =
        omega (arith, length-append rx.carry (take t half), length-take t half, tail.below) in
      let rest : length (drop t half) ≡ length half - t = length-drop t half in
      (
        _,
        stitch-some t false half slot rx (omega (arith, tail.below)),
        record {
          len = length rx.carry + t;
          is_image = refl;
          samples =
              ap (λ (k : ℕ). take k (over front slot) ++ drop t half) n
              ∙ ap (λ (l : List ℕ). l ++ drop t half) (take-append front (drop (length front) slot))
              ∙ append_assoc rx.carry (take t half) (drop t half)
              ∙ ap (λ (l : List ℕ). rx.carry ++ l) (take-append-drop t half);
          ends_quiet = quiet_end k t tail edge;
          carry_active = λ i lt.
              ap is_active (get_or-drop t half i 0)
              ∙ tail.active_tail (t + i) (omega arith) (omega arith);
          uncapped = refl;
        },
      )

  -- On a finished half of 16384 bytes, with a slot of 32768 bytes or more, a carry of at most 16384,
  -- and no carry or a byte without an edge in the half, `poll_into` does not panic and gives an
  -- image, of which it keeps all samples: image and new carry are the old carry and the half. The
  -- image is empty or ends at a byte without an edge, so that no run is split, the new carry is
  -- active throughout, and the carry is not capped.
  pub poll_into-IsStitched :
      (length rx.carry ≡ 0) ⊎ ((u : ℕ) × (u < buf_bytes) × (is_active (byte half u) ≡ false))
      → (out : PollOutcome × List ℕ × EthRx) × (poll_into (some half) slot rx ≡ some out)
        × IsStitched half rx out
  unfolding poll_into
  poll_into-IsStitched ends = elim (Bool-cases (ltb 0 (length rx.carry))) [
    | inr fresh ↦ rw fresh (
        stitch-IsStitched 0 (tail_loop 0 half buf_bytes) (tail_of 0 (omega arith))
          (inl (refl, ground arith)))
    | inl carried ↦
        let (below, quiet, on) = leading_run_lem half in
        let short : leading_run half < buf_bytes = run_ends ends carried in
        let other : leading_run half == buf_bytes ≡ false = ground arith in
        rw (carried, other)
          (stitch-IsStitched (leading_run half) (tail_loop (leading_run half) half buf_bytes)
            (tail_of (leading_run half) (omega arith)) (inr (short, quiet (omega arith))))
  ]
    where
      tail_of : (k : ℕ) → k ≤ buf_bytes → IsTail k half (tail_loop k half buf_bytes)
      tail_of k le =
          tail_loop-IsTail k half buf_bytes le (omega arith) (λ j p q. absurd (omega arith))

      run_ends :
          (length rx.carry ≡ 0) ⊎ ((u : ℕ) × (u < buf_bytes) × (is_active (byte half u) ≡ false))
          → ltb 0 (length rx.carry) ≡ true
          → leading_run half < buf_bytes
      run_ends (inl gone) carried = absurd (ground arith)
      run_ends (inr (u, lt, q)) carried = elim (Bool-cases (ltb (leading_run half) buf_bytes)) [
        | inl short ↦ ground arith
        | inr long ↦ let on = (leading_run_lem half).2 u (ground arith) in absurd (cc)
      ]
