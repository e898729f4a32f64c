-- ===== src/EthRx/Tests.antt =====
-- The receiver of src/eth_rx.rs at concrete samples.
use pico_10base_t_rs.Prelude.{
  ℕ, ◌≡◌, inr, refl, false, none, some, List, [], ◌∷◌, arith, length-replicate, replicate, byte,
}
use pico_10base_t_rs.Crc.{crc32_ieee802_3, update, step_byte, step_bits, finalize}
use pico_10base_t_rs.EthMac.Images.{PollOutcome}
use pico_10base_t_rs.EthRx.Poll.{EthRx, is_active, poll_into}
use pico_10base_t_rs.EthRx.Poll.Stream.{IsStitched, poll_into-IsStitched}
use pico_10base_t_rs.EthRx.Poll.Bounds.{IsBounded, poll_into-IsBounded}
use pico_10base_t_rs.EthRx.Runs.{find_active_run_from, find_loop, span_end}
use pico_10base_t_rs.EthRx.Runs.Search.{IsFound, find_active_run_from-IsFound}
use pico_10base_t_rs.EthRx.Peek.{
  sample_bit, falling_loop, find_first_falling_edge, find_sfd_end, data_bit, sfd_loop, read_byte,
  read_bytes, peek_dst_mac,
}

-- The check value of CRC-32: the digits 1 to 9.
check_value :
    crc32_ieee802_3 (0x31 ∷ 0x32 ∷ 0x33 ∷ 0x34 ∷ 0x35 ∷ 0x36 ∷ 0x37 ∷ 0x38 ∷ 0x39 ∷ []) ≡ 0xCBF43926
unfolding crc32_ieee802_3 update step_byte step_bits finalize
check_value = refl

-- A half without an edge, and one that is active throughout.
abbrev silence : List ℕ
silence = replicate 16384 0

abbrev noise : List ℕ
noise = replicate 16384 0x66

abbrev slot : List ℕ
slot = replicate 32768 0

abbrev one_byte : EthRx
one_byte = record { carry = 0x66 ∷ []; carry_capped = 3 }

silence_quiet : is_active (byte silence 0) ≡ false
unfolding is_active
silence_quiet = refl

poll_into-IsStitched_example :
    (out : PollOutcome × List ℕ × EthRx) × (poll_into (some silence) slot one_byte ≡ some out)
    × IsStitched silence one_byte out
poll_into-IsStitched_example =
    poll_into-IsStitched silence slot one_byte (length-replicate {A = ℕ} 16384 0) (omega arith)
      (omega (arith, length-replicate {A = ℕ} 32768 0)) (inr (0, omega arith, silence_quiet))

poll_into-IsBounded_example :
    (out : PollOutcome × List ℕ × EthRx) × (poll_into (some noise) slot one_byte ≡ some out)
    × IsBounded slot out
poll_into-IsBounded_example =
    poll_into-IsBounded noise slot one_byte (length-replicate {A = ℕ} 16384 0x66) (omega arith)
      (omega (arith, length-replicate {A = ℕ} 32768 0))

abbrev blip : List ℕ
blip = 0 ∷ 0x66 ∷ 0 ∷ 0x66 ∷ 0x99 ∷ 0x96 ∷ 255 ∷ []

second_run : find_active_run_from blip 0 2 ≡ some (3, 3)
unfolding find_active_run_from find_loop span_end is_active
second_run = refl

find_active_run_from-IsFound_example : IsFound blip 0 2 (find_active_run_from blip 0 2)
find_active_run_from-IsFound_example = find_active_run_from-IsFound blip 2 (omega arith) 0

-- The bits 1, 1 as six samples each, low before high, behind a falling edge; one sample of 1 in front.
abbrev two_ones : List ℕ
two_ones = 0xF1 ∷ 0x38 ∷ 0 ∷ []

edge_first : find_first_falling_edge two_ones 0 24 ≡ some 1
unfolding find_first_falling_edge falling_loop sample_bit
edge_first = refl

pair_found : find_sfd_end two_ones 0 1 24 200 ≡ some 1
unfolding find_sfd_end sfd_loop data_bit sample_bit
pair_found = refl

no_room_for_mac : peek_dst_mac two_ones 0 3 ≡ none
unfolding peek_dst_mac find_first_falling_edge falling_loop find_sfd_end sfd_loop data_bit
    sample_bit read_bytes read_byte
no_room_for_mac = refl
