-- ===== src/EthRxDpll/Rounds.antt =====
-- A round of the reference decoder for src/eth_rx_dpll.rs.
use pico_10base_t_rs.Prelude.{
  ℕ, zero, suc, ◌+◌, ◌-◌, ◌*◌, ◌≤◌, ◌<◌, ◌^◌, ◌≡◌, refl, sym, ◌∙◌, ◌⊎◌, inl, inr, true, false, ◌&&◌,
  ◌||◌, Option, none, List, ltb, leb, ◌==◌, arith, length, Bool-cases,
}
use pico_10base_t_rs.EthRx.Peek.{sample_bit}
use pico_10base_t_rs.EthRxDpll.{Dpll, Progress, go, finished, note_header, push_byte, take_bit}
use pico_10base_t_rs.EthRxDpll.Reference.{edge_near, next_edge, track}

pub Progress-cases : (p : Progress) → ((f : List ℕ) × (p ≡ finished f)) ⊎ ((s : Dpll) × (p ≡ go s))
Progress-cases (finished f) = inl (f, refl)
Progress-cases (go s) = inr (s, refl)

-- The edge moves forward by five samples or more.
pub next_edge_bounds : (buf : List ℕ) (tr : ℕ) → tr + 5 ≤ next_edge buf tr
unfolding next_edge edge_near
next_edge_bounds buf tr = ground arith

-- A round's bit changes neither the place of the decoder nor the bit that waits.
push_byte_keeps :
    (s : Dpll) (s' : Dpll) → push_byte s ≡ go s' → (s'.tr ≡ s.tr) × (s'.pending ≡ s.pending)
unfolding push_byte note_header
push_byte_keeps s s' h = ground arith

pub take_bit_keeps :
    (bit : ℕ) (s s' : Dpll) → take_bit bit s ≡ go s' → (s'.tr ≡ s.tr) × (s'.pending ≡ s.pending)
unfolding take_bit
take_bit_keeps bit s s' h = ground (
  arith,
  push_byte_keeps (record s { byte = s.byte + bit * 2 ^ s.bit_idx; bit_idx = s.bit_idx + 1 }) s',
)

abbrev pub forget : Dpll → Dpll
forget s = record s { pending = none }

abbrev pub forget_progress : Progress → Progress
forget_progress (finished frame) = finished frame
forget_progress (go s) = go (forget s)

push_byte-forget : (s : Dpll) → push_byte (forget s) ≡ forget_progress (push_byte s)
unfolding push_byte note_header
push_byte-forget s = ground arith

pub take_bit-forget :
    (bit : ℕ) (s : Dpll) → take_bit bit (forget s) ≡ forget_progress (take_bit bit s)
unfolding take_bit
take_bit-forget bit s = ground (
  arith,
  push_byte-forget (record s { byte = s.byte + bit * 2 ^ s.bit_idx; bit_idx = s.bit_idx + 1 }),
)

pub track-forget :
    (buf : List ℕ) (left : ℕ) (s : Dpll) (p : Option ℕ)
    → track buf left (record s { pending = p }) ≡ track buf left s
unfolding track
track-forget buf zero s p = refl
track-forget buf (suc left) s p = refl

pub track_stop :
    (buf : List ℕ) (left : ℕ) (s : Dpll)
    → (s.tr == 0 || ltb (8 * length buf) s.tr) ≡ true
    → track buf left s ≡ s.frame
unfolding track
track_stop buf zero s h = refl
track_stop buf (suc left) s h = rw (track, h)

pub track_out :
    (buf : List ℕ) (left : ℕ) (s : Dpll) → 8 * length buf < s.tr → track buf left s ≡ s.frame
track_out buf left s h = track_stop buf left s (ground arith)

pub track_finished :
    (buf : List ℕ) (left : ℕ) (s : Dpll) (frame : List ℕ)
    → 1 ≤ s.tr
    → s.tr ≤ 8 * length buf
    → take_bit (sample_bit buf (s.tr - 1)) (forget s) ≡ finished frame
    → track buf (suc left) s ≡ frame
unfolding track
track_finished buf left s frame h le e =
    let inside : (s.tr == 0 || ltb (8 * length buf) s.tr) ≡ false = ground arith in
    rw (track, inside, e)

pub track_go :
    (buf : List ℕ) (left : ℕ) (s s' : Dpll)
    → 1 ≤ s.tr
    → s.tr ≤ 8 * length buf
    → take_bit (sample_bit buf (s.tr - 1)) (forget s) ≡ go s'
    → track buf (suc left) s ≡ track buf left (record s' { tr = next_edge buf s'.tr })
unfolding track
track_go buf left s s' h le e =
    let inside : (s.tr == 0 || ltb (8 * length buf) s.tr) ≡ false = ground arith in
    rw (track, inside, e)

-- A round for each sample that is left is enough.
pub track_fuel :
    (buf : List ℕ) (l1 l2 : ℕ) (s : Dpll)
    → 8 * length buf < s.tr + l1
    → 8 * length buf < s.tr + l2
    → track buf l1 s ≡ track buf l2 s
track_fuel buf zero l2 s h1 h2 =
    track_out buf zero s (omega arith) ∙ sym (track_out buf l2 s (omega arith))
track_fuel buf (suc l1) zero s h1 h2 =
    track_out buf (suc l1) s (omega arith) ∙ sym (track_out buf zero s (omega arith))
track_fuel buf (suc l1) (suc l2) s h1 h2 =
    elim (Bool-cases (leb 1 s.tr && leb s.tr (8 * length buf))) [
      | inl here ↦ elim (Progress-cases (take_bit (sample_bit buf (s.tr - 1)) (forget s))) [
        | inl (frame, e) ↦
            track_finished buf l1 s frame (ground arith) (ground arith) e
            ∙ sym (track_finished buf l2 s frame (ground arith) (ground arith) e)
        | inr (s', e) ↦
            let keeps = take_bit_keeps (sample_bit buf (s.tr - 1)) (forget s) s' e in
            let ahead = next_edge_bounds buf s'.tr in
            track_go buf l1 s s' (ground arith) (ground arith) e
            ∙ track_fuel buf l1 l2 (record s' { tr = next_edge buf s'.tr }) (omega arith)
                (omega arith)
            ∙ sym (track_go buf l2 s s' (ground arith) (ground arith) e)
      ]
      | inr there ↦
          track_stop buf (suc l1) s (ground arith) ∙ sym (track_stop buf (suc l2) s (ground arith))
    ]
