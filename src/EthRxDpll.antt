-- ===== src/EthRxDpll.antt =====
-- The edge-track decoder of src/eth_rx_dpll.rs. A read outside the buffer, which panics or is
-- undefined there, is a fault here.
pub mod Reference
pub mod Window
pub mod Rounds
pub mod FastPath
pub mod Equivalence
pub mod Line
pub mod Bytes
pub mod Cap
pub mod Prefix
pub mod Drift
pub mod Decode
mod Tests
use pico_10base_t_rs.Prelude.{
  ℕ, zero, suc, ◌+◌, ◌-◌, ◌*◌, ◌/◌, ◌%◌, ◌^◌, Bool, not, ◌&&◌, ◌||◌, Option, none, some, List, [],
  ◌∷◌, ◌++◌, ltb, leb, ◌==◌, if◌then◌else◌, min, max, length, get_elem?, get_or, rd16, bit_and,
  bit_xor,
}
use pico_10base_t_rs.Prelude.Checked.{Checked, ok, fault, ◌>>=◌}

abbrev pub max_frame_bytes : ℕ
max_frame_bytes = 1600

unfoldable pub get_unchecked : List ℕ → ℕ → Checked ℕ
get_unchecked buf i = elim (get_elem? buf i) [ none ↦ fault | some b ↦ ok b ]

unfoldable pub sample_bit_unchecked : List ℕ → ℕ → Checked ℕ
sample_bit_unchecked buf off = do b ← get_unchecked buf (off / 8); ok (b / 2 ^ (off % 8) % 2)

-- The same read, with the index checked.
unfoldable pub sample_bit : List ℕ → ℕ → Checked ℕ
sample_bit buf off = sample_bit_unchecked buf off

-- The loop of `find_f` from sample `i` on, with its rounds left and the sample before.
unfoldable pub f_loop : List ℕ → ℕ → ℕ → ℕ → Checked (Option ℕ)
f_loop buf zero i prev = ok none
f_loop buf (suc left) i prev = do
  s ← sample_bit buf i
  let rest = f_loop buf left (i + 1) s
  if prev == 1 && s == 0 then ok (some i) else rest

unfoldable pub find_f : List ℕ → ℕ → Checked (Option ℕ)
find_f buf ns = do prev ← sample_bit buf 0; f_loop buf (ns - 1) 1 prev

-- The closure `read` of `find_sfd`.
unfoldable pub read_data : List ℕ → ℕ → ℕ → ℕ → Checked (Option ℕ)
read_data buf ns f k =
    let idx = f + 4 + 6 * k in
    if ltb idx ns then (sample_bit buf idx >>= λ b. ok (some b)) else ok none

unfoldable pub sfd_loop : List ℕ → ℕ → ℕ → ℕ → ℕ → ℕ → Checked (Option ℕ)
sfd_loop buf ns f zero k prev = ok none
sfd_loop buf ns f (suc left) k prev = do
  got ← read_data buf ns f k
  elim got [
    | none ↦ ok none
    | some c ↦ if c == 1 && prev == 1 then ok (some k) else sfd_loop buf ns f left (k + 1) c
  ]

unfoldable pub find_sfd : List ℕ → ℕ → ℕ → Checked (Option ℕ)
find_sfd buf ns f = do
  got ← read_data buf ns f 0
  elim got [ none ↦ ok none | some prev ↦ sfd_loop buf ns f 1599 1 prev ]

-- The choice among the four samples around `center`.
abbrev pub choose_edge : ℕ → ℕ → ℕ → ℕ → ℕ → ℕ
choose_edge center s_m2 s_m1 s_0 s_p1 =
    if not (s_m1 == s_0)
    then center
    else (if not (s_m2 == s_m1)
        then center - 1
        else (if not (s_0 == s_p1) then center + 1 else center))

unfoldable pub find_edge_w1 : List ℕ → ℕ → Checked ℕ
find_edge_w1 buf center = do
  s_m2 ← sample_bit_unchecked buf (center - 2)
  s_m1 ← sample_bit_unchecked buf (center - 1)
  s_0 ← sample_bit_unchecked buf center
  s_p1 ← sample_bit_unchecked buf (center + 1)
  ok (choose_edge center s_m2 s_m1 s_0 s_p1)

-- EDGE_DELTA, with 1 added to each entry.
abbrev pub edge_delta : List ℕ
edge_delta = 1 ∷ 0 ∷ 1 ∷ 1 ∷ 2 ∷ 0 ∷ 1 ∷ 1 ∷ []

-- The variables of the two loops.
pub record Dpll : Type 0 where
  pub tr : ℕ
  pub byte : ℕ
  pub bit_idx : ℕ
  pub frame : List ℕ
  pub cap_bytes : ℕ
  pub pending : Option ℕ

-- A round goes on, or the frame is finished.
pub data Progress : Type 0 where
  go : Dpll → Progress
  finished : List ℕ → Progress

-- The length cap, once the header is in.
unfoldable pub header_cap : List ℕ → ℕ
header_cap frame =
    if rd16 frame 12 == 0x0800
    then min (max (14 + rd16 frame 16 + 4) 64) max_frame_bytes
    else max_frame_bytes

unfoldable pub note_header : Dpll → Dpll
note_header s =
    if length s.frame == 18 && s.cap_bytes == max_frame_bytes
    then record s { cap_bytes = header_cap s.frame }
    else s

unfoldable pub push_byte : Dpll → Progress
push_byte s =
    if ltb (length s.frame) max_frame_bytes
    then (let s' =
          note_header (record s { frame = s.frame ++ (s.byte ∷ []); byte = 0; bit_idx = 0 }) in
        if leb s'.cap_bytes (length s'.frame) then finished s'.frame else go s')
    else finished s.frame

-- The bits above `bit_idx` are still 0, so that the sum is the `|=` of the code.
unfoldable pub take_bit : ℕ → Dpll → Progress
take_bit bit s =
    let s' : Dpll = record s { byte = s.byte + bit * 2 ^ s.bit_idx; bit_idx = s.bit_idx + 1 } in
    if s'.bit_idx == 8 then push_byte s' else go s'

unfoldable pub next_bit : List ℕ → Dpll → Checked ℕ
next_bit buf s = elim s.pending [ some b ↦ ok b | none ↦ sample_bit_unchecked buf (s.tr - 1) ]

-- The window of the fast path: the new edge, and the data bit in front of it.
unfoldable pub fast_resync : List ℕ → Dpll → Checked Dpll
fast_resync buf s = do
  let lo = s.tr + 4
  b0 ← get_unchecked buf (lo / 8)
  b1 ← get_unchecked buf (lo / 8 + 1)
  let w = (b0 + b1 * 2 ^ 8) / 2 ^ (lo % 8)
  let d = get_or edge_delta (bit_and (bit_xor w (w / 2)) 7) 0
  ok (record s { tr = s.tr + 5 + d; pending = some (w / 2 ^ d % 2) })

-- The rest of the fast path, after a round's bit.
abbrev pub fast_next : List ℕ → (Dpll → Checked Progress) → Progress → Checked Progress
fast_next buf rest (finished frame) = ok (finished frame)
fast_next buf rest (go s) = fast_resync buf s >>= rest

unfoldable pub fast_loop : List ℕ → ℕ → Dpll → Checked Progress
fast_loop buf zero s = ok (go s)
fast_loop buf (suc left) s =
    if leb 1 s.tr && leb (s.tr + 20) (8 * length buf)
    then (next_bit buf s >>= λ bit. fast_next buf (fast_loop buf left) (take_bit bit s))
    else ok (go s)

-- The next edge in the tail: near the end it coasts.
unfoldable pub tail_resync : List ℕ → Dpll → Checked Progress
tail_resync buf s =
    if leb (2 ^ 32) (s.tr + 6)
    then ok (finished s.frame)
    else (if ltb (s.tr + 6) 2 || leb (8 * length buf) (s.tr + 6 + 1)
        then ok (go (record s { tr = s.tr + 6 }))
        else (find_edge_w1 buf (s.tr + 6) >>= λ c. ok (go (record s { tr = c }))))

abbrev pub tail_end : (Dpll → Checked (List ℕ)) → Progress → Checked (List ℕ)
tail_end rest (finished frame) = ok frame
tail_end rest (go s) = rest s

-- The rest of the tail, after a round's bit.
abbrev pub tail_next : List ℕ → (Dpll → Checked (List ℕ)) → Progress → Checked (List ℕ)
tail_next buf rest (finished frame) = ok frame
tail_next buf rest (go s) = tail_resync buf s >>= tail_end rest

unfoldable pub tail_loop : List ℕ → ℕ → Dpll → Checked (List ℕ)
tail_loop buf zero s = ok s.frame
tail_loop buf (suc left) s =
    if s.tr == 0 || ltb (8 * length buf) s.tr
    then ok s.frame
    else (next_bit buf s >>= λ bit.
        tail_next buf (tail_loop buf left) (take_bit bit (record s { pending = none })))

-- Each round of either loop moves `tr` by five samples or more, so one for each sample is enough.
abbrev pub rounds : List ℕ → ℕ
rounds buf = suc (8 * length buf)

unfoldable pub start_at : ℕ → Dpll
start_at tr = record {
  tr = tr;
  byte = 0;
  bit_idx = 0;
  frame = [];
  cap_bytes = max_frame_bytes;
  pending = none;
}

unfoldable pub finish : List ℕ → Progress → Checked (List ℕ)
finish buf (finished frame) = ok frame
finish buf (go s) = tail_loop buf (rounds buf) s

-- From the anchor on.
unfoldable pub decode_from : List ℕ → ℕ → Checked (Option (List ℕ))
decode_from buf center = if leb (2 ^ 32) center then ok none else (do
  tr ←
      if leb 2 center && ltb (center + 1) (8 * length buf)
      then find_edge_w1 buf center
      else ok center
  p ← fast_loop buf (rounds buf) (start_at tr)
  frame ← finish buf p
  ok (some frame))

unfoldable pub decode_frame_edge_track : List ℕ → Checked (Option (List ℕ))
decode_frame_edge_track buf =
    let ns_full = 8 * length buf in
    if leb (2 ^ 32) ns_full then ok none else (do
      got_f ← find_f buf ns_full
      elim got_f [
        | none ↦ ok none
        | some f ↦ find_sfd buf ns_full f >>= λ got_sfd. elim got_sfd [
          | none ↦ ok none
          | some sfd ↦ decode_from buf (f + (5 + 6 * (sfd + 1)))
        ]
      ])
