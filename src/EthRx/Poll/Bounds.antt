-- ===== src/EthRx/Poll/Bounds.antt =====
-- `poll_into` of src/eth_rx.rs stays inside its buffers.
use pico_10base_t_rs.Prelude.{
  Option, ◌∙◌, inl, inr, ℕ, zero, suc, ◌+◌, ◌-◌, ◌≤◌, ◌≡◌, refl, Bool, not, ◌&&◌, some, List, ◌++◌,
  arith, length, length-append, length-take, length-drop, byte, take, drop, ltb, leb, ◌==◌,
  if◌then◌else◌, Bool-cases, if-true, if-false,
}
use pico_10base_t_rs.EthMac.Images.{PollOutcome, nothing, image}
use pico_10base_t_rs.EthRx.Poll.{
  buf_bytes, max_carry_bytes, stitch_buf_bytes, EthRx, is_active, leading_run, tail_loop,
  carry_whole, stitch, poll_into,
}
use pico_10base_t_rs.EthRx.Poll.Stream.{stitch-some}

-- An image lies in a slot of `stitch_buf_bytes`, and its carry in the image.
abbrev pub Lies : PollOutcome → Type 0
Lies nothing = Unit
Lies (image len prefix) = (prefix ≤ len) × (len ≤ stitch_buf_bytes)

-- What a poll leaves: the carry fits its buffer, the slot keeps its size, and an image lies in it.
pub record IsBounded (slot : List ℕ) (out : PollOutcome × List ℕ × EthRx) : Type 0 where
  pub carry_fits : length out.2.carry ≤ max_carry_bytes
  pub slot_same : length out.1 ≡ length slot
  pub image_lies : Lies out.0

tail_loop_bounds : (k : ℕ) (bytes : List ℕ) (t : ℕ) → (tail_loop k bytes t).0 ≤ t
unfolding tail_loop
tail_loop_bounds k bytes zero = omega arith
tail_loop_bounds k bytes (suc t) =
    let rest = tail_loop_bounds k bytes t in
    elim (Bool-cases (leb (suc t) k)) [
      | inl stop ↦ rw stop (omega arith)
      | inr on ↦ elim (Bool-cases (leb max_carry_bytes (buf_bytes - suc t))) [
        | inl full ↦ rw (on, full) (omega arith)
        | inr room ↦ elim (Bool-cases (not (is_active (byte bytes t)))) [
          | inl quiet ↦ rw (on, room, quiet) (omega arith)
          | inr busy ↦ rw (on, room, busy) (omega arith)
        ]
      ]
    ]

module _ (half slot : List ℕ) (rx : EthRx) (size : length half ≡ buf_bytes)
    (carried_few : length rx.carry ≤ max_carry_bytes) (room : stitch_buf_bytes ≤ length slot) where
  abbrev Polled : Option (PollOutcome × List ℕ × EthRx) → Type 0
  Polled got = (out : PollOutcome × List ℕ × EthRx) × (got ≡ some out) × IsBounded slot out

  carry_whole-IsBounded : IsBounded slot (carry_whole half slot rx)
  unfolding carry_whole
  carry_whole-IsBounded = elim (Bool-cases (leb (length rx.carry + buf_bytes) max_carry_bytes)) [
    | inl fits ↦ rw fits record {
      carry_fits = ground (arith, length-append rx.carry half);
      slot_same = refl;
      image_lies = tt;
    }
    | inr over_budget ↦
        rw over_budget record { carry_fits = omega arith; slot_same = refl; image_lies = tt }
  ]

  stitch-IsBounded : (tail : ℕ × Bool) → tail.0 ≤ buf_bytes → Polled (stitch tail half slot rx)
  stitch-IsBounded (t, capped) below =
      let front : List ℕ = rx.carry ++ take t half in
      let n = length-append rx.carry (take t half) in
      let m = length-take t half in
      let rest = length-drop t half in
      let filled = length-append front (drop (length front) slot) in
      let left = length-drop (length front) slot in
      (
        _,
        stitch-some t capped half slot rx (omega arith),
        record {
          carry_fits = omega arith;
          slot_same = omega arith;
          image_lies = (omega arith, omega arith);
        },
      )

  -- On every finished half of 16384 bytes, with a slot of 32768 bytes or more and a carry of at most
  -- 16384, `poll_into` does not panic. The next carry is again at most 16384 bytes, the slot keeps its
  -- size, and an image has at most 32768 bytes, its carry among them.
  pub poll_into-IsBounded :
      (out : PollOutcome × List ℕ × EthRx) × (poll_into (some half) slot rx ≡ some out)
      × IsBounded slot out
  unfolding poll_into
  poll_into-IsBounded =
      let k = if ltb 0 (length rx.carry) then leading_run half else 0 in
      elim (Bool-cases (ltb 0 (length rx.carry) && k == buf_bytes)) [
        | inl whole ↦ (
          carry_whole half slot rx,
          if-true (ltb 0 (length rx.carry) && k == buf_bytes) _ _ whole,
          carry_whole-IsBounded,
        )
        | inr ends ↦
            let (out, e, bounded) =
              stitch-IsBounded (tail_loop k half buf_bytes) (tail_loop_bounds k half buf_bytes) in
            (out, if-false (ltb 0 (length rx.carry) && k == buf_bytes) _ _ ends ∙ e, bounded)
      ]
