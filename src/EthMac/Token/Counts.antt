-- ===== src/EthMac/Token/Counts.antt =====
-- Each frame sent by src/eth_mac.rs is in one category.
use pico_10base_t_rs.Prelude.{
  ℕ, ◌+◌, ◌%◌, ◌^◌, ◌≤◌, ◌≡◌, List, arith, min, length, length-take, take, drop, wrapping_add32,
  length-append, length-drop,
}
use pico_10base_t_rs.EthMac.Token.{EthMacStats, bump_icmp, bump_ipv4, categorize, consume}

-- The frames that have a category.
abbrev pub categorized : EthMacStats → ℕ
categorized s = s.tx_arp + s.tx_icmp + s.tx_udp + s.tx_other

categorize-categorized :
    (frame : List ℕ) (s : EthMacStats)
    → 14 ≤ length frame
    → (categorized (categorize frame s) % 2 ^ 32 ≡ (categorized s + 1) % 2 ^ 32)
      × ((categorize frame s).tx_consumed ≡ s.tx_consumed)
unfolding categorize bump_ipv4 bump_icmp
categorize-categorized frame s long = ground arith

module _ {Tx : Type 0} (send_raw_frame : List ℕ → Tx → Tx) (fill : List ℕ → List ℕ) (len : ℕ)
    (tx_buf : List ℕ) (same_length : (b : List ℕ) → length (fill b) ≡ length b) where
  -- For a frame of 14 bytes or more, with room for them in the buffer, `consume` counts one frame
  -- more as consumed and one more in the categories together, modulo 2^32. The buffer keeps its size
  -- for every length.
  pub consume_lem :
      (tx : Tx) (s : EthMacStats)
      → 14 ≤ len
      → 14 ≤ length tx_buf
      → let (buf', tx', s') = consume send_raw_frame fill len tx_buf (tx, s) in
        (categorized s' % 2 ^ 32 ≡ (categorized s + 1) % 2 ^ 32)
        × (s'.tx_consumed ≡ wrapping_add32 s.tx_consumed 1)
        × (length buf' ≡ length tx_buf)
  unfolding consume
  consume_lem tx s long room =
      let n = min len (length tx_buf) in
      let frame = fill (take n tx_buf) in
      let size : length frame ≡ n =
        omega (arith, same_length (take n tx_buf), length-take n tx_buf) in
      let (counted, kept) = categorize-categorized frame s (omega arith) in
      (
        counted,
        omega arith,
        omega (arith, length-append frame (drop n tx_buf), length-drop n tx_buf),
      )
