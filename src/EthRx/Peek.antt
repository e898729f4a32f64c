-- ===== src/EthRx/Peek.antt =====
-- The open-loop read of a destination MAC in src/eth_rx.rs (`peek_dst_mac`), at 60 MHz: six samples
-- for each bit. A sample is a bit of the bytes, the lowest first.
use pico_10base_t_rs.Prelude.{
  ℕ, zero, suc, ◌+◌, ◌-◌, ◌*◌, ◌/◌, ◌%◌, ◌^◌, ◌&&◌, Option, none, some, List, [], ◌∷◌, ltb, leb,
  ◌==◌, if◌then◌else◌, byte,
}

abbrev samples_per_bit : ℕ
samples_per_bit = 6

abbrev hb1_center_offset : ℕ
hb1_center_offset = 4

unfoldable pub sample_bit : List ℕ → ℕ → ℕ
sample_bit bytes bit_offset = byte bytes (bit_offset / 8) / 2 ^ (bit_offset % 8) % 2

-- The loop from sample `i` on, with its rounds left and the sample before.
unfoldable pub falling_loop : List ℕ → ℕ → ℕ → ℕ → ℕ → Option ℕ
falling_loop bytes base_bit zero i prev = none
falling_loop bytes base_bit (suc left) i prev =
    let s = sample_bit bytes (base_bit + i) in
    let rest = falling_loop bytes base_bit left (i + 1) s in
    if prev == 1 && s == 0 then some i else rest

unfoldable pub find_first_falling_edge : List ℕ → ℕ → ℕ → Option ℕ
find_first_falling_edge bytes base_bit nsamples =
    falling_loop bytes base_bit (nsamples - 1) 1 (sample_bit bytes base_bit)

unfoldable pub data_bit : List ℕ → ℕ → ℕ → ℕ → ℕ → Option ℕ
data_bit bytes base_bit f k nsamples =
    let idx = f + hb1_center_offset + samples_per_bit * k in
    if leb nsamples idx then none else some (sample_bit bytes (base_bit + idx))

-- The loop from bit `k` on, with its rounds left and the bit before.
unfoldable pub sfd_loop : List ℕ → ℕ → ℕ → ℕ → ℕ → ℕ → ℕ → Option ℕ
sfd_loop bytes base_bit f nsamples zero k prev = none
sfd_loop bytes base_bit f nsamples (suc left) k prev = elim (data_bit bytes base_bit f k nsamples) [
  | none ↦ none
  | some cur ↦
      if cur == 1 && prev == 1 then some k else sfd_loop bytes base_bit f nsamples left (k + 1) cur
]

unfoldable pub find_sfd_end : List ℕ → ℕ → ℕ → ℕ → ℕ → Option ℕ
find_sfd_end bytes base_bit f nsamples max_bits = elim (data_bit bytes base_bit f 0 nsamples) [
  | none ↦ none
  | some prev ↦ sfd_loop bytes base_bit f nsamples (max_bits - 1) 1 prev
]

-- The loop over the bits of a byte, from bit `j` on: the first bit is the lowest.
unfoldable pub read_byte : List ℕ → ℕ → ℕ → ℕ → ℕ → ℕ → Option ℕ
read_byte bytes base_bit f nsamples zero k = some 0
read_byte bytes base_bit f nsamples (suc left) k = elim (data_bit bytes base_bit f k nsamples) [
  | none ↦ none
  | some b ↦ elim (read_byte bytes base_bit f nsamples left (k + 1)) [
    | none ↦ none
    | some high ↦ some (b + 2 * high)
  ]
]

-- The loop over the bytes of the MAC.
unfoldable pub read_bytes : List ℕ → ℕ → ℕ → ℕ → ℕ → ℕ → Option (List ℕ)
read_bytes bytes base_bit f nsamples zero k = some []
read_bytes bytes base_bit f nsamples (suc left) k = elim (read_byte bytes base_bit f nsamples 8 k) [
  | none ↦ none
  | some b ↦ elim (read_bytes bytes base_bit f nsamples left (k + 8)) [
    | none ↦ none
    | some rest ↦ some (b ∷ rest)
  ]
]

abbrev max_bits : ℕ
max_bits = 200

unfoldable pub peek_dst_mac : List ℕ → ℕ → ℕ → Option (List ℕ)
peek_dst_mac bytes base nbytes = elim (find_first_falling_edge bytes (base * 8) (nbytes * 8)) [
  | none ↦ none
  | some f ↦ elim (find_sfd_end bytes (base * 8) f (nbytes * 8) max_bits) [
    | none ↦ none
    | some sfd_end ↦
        if ltb max_bits (sfd_end + 1 + 48)
        then none
        else read_bytes bytes (base * 8) f (nbytes * 8) 6 (sfd_end + 1)
  ]
]
