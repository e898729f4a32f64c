-- ===== src/EthRxDpll/Equivalence.antt =====
-- The decoder of src/eth_rx_dpll.rs against its reference.
use pico_10base_t_rs.Prelude.{
  ℕ, zero, suc, ◌+◌, ◌-◌, ◌*◌, ◌≤◌, ◌<◌, ◌^◌, ◌≡◌, refl, ap, ◌∙◌, inl, inr, true, false, ◌&&◌, some,
  List, ltb, leb, ◌==◌, arith, length, AreBytes, Bool-cases, if◌then◌else◌, Option-cases,
}
use pico_10base_t_rs.Prelude.Checked.{Checked, ok, ◌>>=◌, bind_assoc}
use pico_10base_t_rs.EthRx.Peek
use pico_10base_t_rs.EthRx.Peek.{
  sample_bit, falling_loop, find_first_falling_edge, data_bit, find_sfd_end,
}
use pico_10base_t_rs.EthRxDpll
use pico_10base_t_rs.EthRxDpll.{
  f_loop, find_f, read_data, find_sfd, fast_loop, rounds, start_at, finish, find_edge_w1,
  decode_from, decode_frame_edge_track,
}
use pico_10base_t_rs.EthRxDpll.Reference.{track, first_edge, decode_reference}
use pico_10base_t_rs.EthRxDpll.Window.{sample_bit_unchecked-ok, find_edge_w1-ok}
use pico_10base_t_rs.EthRxDpll.FastPath.{fast_loop-ok}

sample_bit-ok :
    (buf : List ℕ) (i : ℕ) → i < 8 * length buf → EthRxDpll.sample_bit buf i ≡ ok (sample_bit buf i)
unfolding EthRxDpll.sample_bit
sample_bit-ok buf i h = sample_bit_unchecked-ok buf i h

f_loop-ok :
    (buf : List ℕ) (left i prev : ℕ)
    → i + left ≤ 8 * length buf
    → f_loop buf left i prev ≡ ok (falling_loop buf 0 left i prev)
unfolding f_loop falling_loop
f_loop-ok buf zero i prev h = refl
f_loop-ok buf (suc left) i prev h =
    let s = sample_bit buf i in
    let at : 0 + i ≡ i = omega arith in
    rw (f_loop, falling_loop, at, sample_bit-ok buf i (omega arith))
      (elim (Bool-cases (prev == 1 && s == 0)) [
        | inl edge ↦ rw edge
        | inr flat ↦ rw flat (f_loop-ok buf left (i + 1) s (omega arith))
      ])

find_f-ok :
    (buf : List ℕ)
    → 0 < length buf
    → find_f buf (8 * length buf) ≡ ok (find_first_falling_edge buf 0 (8 * length buf))
unfolding find_f find_first_falling_edge
find_f-ok buf h =
    rw (find_f, sample_bit-ok buf 0 (omega arith))
      (f_loop-ok buf (8 * length buf - 1) 1 (sample_bit buf 0) (omega arith))

read_data-ok :
    (buf : List ℕ) (f k : ℕ)
    → read_data buf (8 * length buf) f k ≡ ok (data_bit buf 0 f k (8 * length buf))
unfolding read_data data_bit
read_data-ok buf f k = elim (Bool-cases (ltb (f + 4 + 6 * k) (8 * length buf))) [
  | inl inside ↦
      let other : leb (8 * length buf) (f + 4 + 6 * k) ≡ false = ground arith in
      let at : 0 + (f + 4 + 6 * k) ≡ f + 4 + 6 * k = omega arith in
      rw (read_data, data_bit, inside, other, at, sample_bit-ok buf (f + 4 + 6 * k) (ground arith))
  | inr outside ↦
      let other : leb (8 * length buf) (f + 4 + 6 * k) ≡ true = ground arith in
      rw (read_data, data_bit, outside, other)
]

sfd_loop-ok :
    (buf : List ℕ) (f left k prev : ℕ)
    → EthRxDpll.sfd_loop buf (8 * length buf) f left k prev
      ≡ ok (Peek.sfd_loop buf 0 f (8 * length buf) left k prev)
unfolding EthRxDpll.sfd_loop Peek.sfd_loop
sfd_loop-ok buf f zero k prev = refl
sfd_loop-ok buf f (suc left) k prev = elim (Option-cases (data_bit buf 0 f k (8 * length buf))) [
  | inl e ↦ rw (EthRxDpll.sfd_loop, Peek.sfd_loop, read_data-ok buf f k, e)
  | inr (c, e) ↦ elim (Bool-cases (c == 1 && prev == 1)) [
    | inl here ↦ rw (EthRxDpll.sfd_loop, Peek.sfd_loop, read_data-ok buf f k, e) (ground arith)
    | inr on ↦
        rw (EthRxDpll.sfd_loop, Peek.sfd_loop, read_data-ok buf f k, e)
          (ground (arith, sfd_loop-ok buf f left (k + 1) c))
  ]
]

find_sfd-ok :
    (buf : List ℕ) (f : ℕ)
    → find_sfd buf (8 * length buf) f ≡ ok (find_sfd_end buf 0 f (8 * length buf) 1600)
unfolding find_sfd find_sfd_end
find_sfd-ok buf f = elim (Option-cases (data_bit buf 0 f 0 (8 * length buf))) [
  | inl e ↦ rw (find_sfd, find_sfd_end, read_data-ok buf f 0, e)
  | inr (c, e) ↦ rw (find_sfd, find_sfd_end, read_data-ok buf f 0, e) (sfd_loop-ok buf f 1599 1 c)
]

-- The bit where the search ends lies in the buffer.
data_bit_inside :
    (buf : List ℕ) (f k ns c : ℕ) → data_bit buf 0 f k ns ≡ some c → f + 4 + 6 * k < ns
unfolding data_bit
data_bit_inside buf f k ns c h = ground arith

sfd_loop_inside :
    (buf : List ℕ) (f ns left k prev sfd : ℕ)
    → Peek.sfd_loop buf 0 f ns left k prev ≡ some sfd
    → f + 4 + 6 * sfd < ns
unfolding Peek.sfd_loop
sfd_loop_inside buf f ns zero k prev sfd h = ground arith
sfd_loop_inside buf f ns (suc left) k prev sfd h = elim (Option-cases (data_bit buf 0 f k ns)) [
  | inl e ↦ ground (arith, e)
  | inr (c, e) ↦
      ground (arith, e, data_bit_inside buf f k ns c, sfd_loop_inside buf f ns left (k + 1) c sfd)
]

find_sfd_end_inside :
    (buf : List ℕ) (f ns sfd : ℕ) → find_sfd_end buf 0 f ns 1600 ≡ some sfd → f + 4 + 6 * sfd < ns
unfolding find_sfd_end
find_sfd_end_inside buf f ns sfd h = elim (Option-cases (data_bit buf 0 f 0 ns)) [
  | inl e ↦ ground (arith, e)
  | inr (c, e) ↦ ground (arith, e, sfd_loop_inside buf f ns 1599 1 c sfd)
]

-- The first edge, from its reads unchecked.
anchor-ok :
    (buf : List ℕ) (center : ℕ)
    → (if leb 2 center && ltb (center + 1) (8 * length buf)
        then find_edge_w1 buf center
        else ok center)
      ≡ ok (first_edge buf center)
unfolding first_edge
anchor-ok buf center = elim (Bool-cases (leb 2 center && ltb (center + 1) (8 * length buf))) [
  | inl inside ↦ rw (first_edge, inside, find_edge_w1-ok buf center (ground arith))
  | inr outside ↦ rw (first_edge, outside)
]

decode_from-ok :
    (buf : List ℕ) (center : ℕ)
    → AreBytes buf
    → 8 * length buf < 2 ^ 32
    → center < 2 ^ 32
    → decode_from buf center ≡ ok (some (track buf (rounds buf) (start_at (first_edge buf center))))
unfolding decode_from start_at
decode_from-ok buf center hb small near =
    let fits : leb (2 ^ 32) center ≡ false = ground arith in
    let tr = first_edge buf center in
    rw (decode_from, fits, anchor-ok buf center)
      (bind_assoc (fast_loop buf (rounds buf) (start_at tr)) (finish buf) (λ frame. ok (some frame))
        ∙ ap (λ (r : Checked (List ℕ)). r >>= λ frame. ok (some frame))
            (fast_loop-ok buf (rounds buf) (rounds buf) (start_at tr) hb small (inl refl)
              (omega arith)))

-- On a buffer of bytes that is not empty and has less than 2^32 samples, the decoder reads nothing
-- outside the buffer and gives what the reference gives.
pub decode_frame_edge_track-reference :
    (buf : List ℕ)
    → AreBytes buf
    → 0 < length buf
    → 8 * length buf < 2 ^ 32
    → decode_frame_edge_track buf ≡ ok (decode_reference buf)
unfolding decode_frame_edge_track decode_reference
decode_frame_edge_track-reference buf hb filled small =
    let fits : leb (2 ^ 32) (8 * length buf) ≡ false = ground arith in
    elim (Option-cases (find_first_falling_edge buf 0 (8 * length buf))) [
      | inl e ↦ rw (decode_frame_edge_track, decode_reference, fits, find_f-ok buf filled, e)
      | inr (f, e) ↦ elim (Option-cases (find_sfd_end buf 0 f (8 * length buf) 1600)) [
        | inl e' ↦
            rw (decode_frame_edge_track, decode_reference, fits, find_f-ok buf filled, e)
              (rw (find_sfd-ok buf f, e'))
        | inr (sfd, e') ↦
            rw (decode_frame_edge_track, decode_reference, fits, find_f-ok buf filled, e)
              (rw (find_sfd-ok buf f, e')
                (decode_from-ok buf (f + (5 + 6 * (sfd + 1))) hb small
                  (omega (arith, find_sfd_end_inside buf f (8 * length buf) sfd e'))))
      ]
    ]
