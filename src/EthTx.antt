-- ===== src/EthTx.antt =====
-- The transmit path of src/eth_tx.rs. The line is the list of the words that the FIFO of the PIO took:
-- the writes are tried again until it does. `carrier` gives the readings of the carrier flag in their order.
pub mod Send
pub mod Udp
pub mod Carrier
mod Tests
use pico_10base_t_rs.Prelude.{
  ℕ, zero, suc, ◌+◌, ◌-◌, ◌*◌, ◌/◌, ◌%◌, ◌^◌, Bool, not, List, [], ◌∷◌, ◌++◌, ◌==◌, if◌then◌else◌,
  bit_and, bit_xor,
}

abbrev pub carrier_wait_spins : ℕ
carrier_wait_spins = 200000

abbrev pub csma_slot_cycles : ℕ
csma_slot_cycles = 240

abbrev pub csma_backoff_mask : ℕ
csma_backoff_mask = 0x0F

abbrev pub csma_max_attempts : ℕ
csma_max_attempts = 10

-- The state of the generator, the readings of the carrier so far, the delays in cycles, the words
-- sent, and the identifier of the next IP packet.
pub record EthTx : Type 0 where
  pub ip_identifier : ℕ
  pub lfsr : ℕ
  pub readings : ℕ
  pub delays : List ℕ
  pub line : List ℕ

abbrev pub xor_shl : ℕ → ℕ → ℕ
xor_shl x k = bit_xor x (x * 2 ^ k % 2 ^ 32)

abbrev pub xor_shr : ℕ → ℕ → ℕ
xor_shr x k = bit_xor x (x / 2 ^ k)

unfoldable pub next_rand : ℕ → ℕ
next_rand lfsr = xor_shl (xor_shr (xor_shl lfsr 13) 17) 5

-- The loop of `wait_carrier_idle`: the spins, from `spins` on.
unfoldable pub wait_loop : (ℕ → Bool) → ℕ → ℕ → ℕ → ℕ
wait_loop carrier zero now spins = spins
wait_loop carrier (suc left) now spins =
    let rest = wait_loop carrier left (now + 1) (spins + 1) in if carrier now then rest else spins

-- The spins until the wire is idle or the cap is hit. Below the cap one more reading finds it idle.
unfoldable pub wait_carrier_idle : (ℕ → Bool) → ℕ → ℕ
wait_carrier_idle carrier now = wait_loop carrier carrier_wait_spins now 0

unfoldable pub after_wait : (ℕ → Bool) → ℕ → ℕ
after_wait carrier now =
    let spins = wait_carrier_idle carrier now in
    if spins == carrier_wait_spins then now + spins else now + spins + 1

-- One attempt: wait, step the generator, and back off.
unfoldable pub back_off : (ℕ → Bool) → EthTx → EthTx
back_off carrier s =
    let x = next_rand s.lfsr in
    let slots = bit_and x csma_backoff_mask in
    record s {
      lfsr = x;
      readings = after_wait carrier s.readings;
      delays = if slots == 0 then s.delays else s.delays ++ (slots * csma_slot_cycles ∷ []);
    }

unfoldable pub csma_loop : (ℕ → Bool) → ℕ → EthTx → EthTx
csma_loop carrier zero s = s
csma_loop carrier (suc left) s =
    let s' : EthTx = back_off carrier s in
    let sensed : EthTx = record s' { readings = s'.readings + 1 } in
    let rest = csma_loop carrier left sensed in if not (carrier s'.readings) then sensed else rest

unfoldable pub csma_acquire : (ℕ → Bool) → EthTx → EthTx
csma_acquire carrier s = csma_loop carrier csma_max_attempts s

unfoldable pub write_words : List ℕ → EthTx → EthTx
write_words words s = record s { line = s.line ++ words }
