-- ===== src/EthMac/Token.antt =====
-- The transmit side of `EthMac` in src/eth_mac.rs: the counters of `EthMacStats`, and `consume` of the
-- transmit token. What `send_raw_frame` puts on the wire is a parameter here.
pub mod Counts
use pico_10base_t_rs.Prelude.{
  ℕ, ◌+◌, Bool, ◌&&◌, List, ◌++◌, ltb, leb, ◌==◌, if◌then◌else◌, min, length, byte, rd16, take,
  drop, u16, wrapping_add32,
}

abbrev pub max_frame_bytes : ℕ
max_frame_bytes = 1600

pub record EthMacStats : Type 0 where
  pub rx_handed_out : ℕ
  pub tx_handed_out : ℕ
  pub tx_consumed : ℕ
  pub tx_arp : ℕ
  pub tx_icmp : ℕ
  pub tx_udp : ℕ
  pub tx_other : ℕ
  pub last_tx_len : ℕ
  pub last_tx : List ℕ

abbrev pub bump_other : EthMacStats → EthMacStats
bump_other s = record s { tx_other = wrapping_add32 s.tx_other 1 }

-- The arm for ICMP, with its snapshot of the frame.
unfoldable pub bump_icmp : List ℕ → EthMacStats → EthMacStats
bump_icmp frame s =
    let snap_n = min (length frame) (length s.last_tx) in
    record s {
      tx_icmp = wrapping_add32 s.tx_icmp 1;
      last_tx = take snap_n frame ++ drop snap_n s.last_tx;
      last_tx_len = u16 (length frame);
    }

unfoldable pub bump_ipv4 : List ℕ → EthMacStats → EthMacStats
bump_ipv4 frame s =
    if byte frame 23 == 1
    then bump_icmp frame s
    else (if byte frame 23 == 17
        then record s { tx_udp = wrapping_add32 s.tx_udp 1 }
        else bump_other s)

-- The category of a frame.
unfoldable pub categorize : List ℕ → EthMacStats → EthMacStats
categorize frame s =
    if ltb (length frame) 14
    then s
    else (let ethertype = rd16 frame 12 in
        if ethertype == 0x0806
        then record s { tx_arp = wrapping_add32 s.tx_arp 1 }
        else (if ethertype == 0x0800 && leb 24 (length frame)
            then bump_ipv4 frame s
            else bump_other s))

module _ {Tx : Type 0} (send_raw_frame : List ℕ → Tx → Tx) where
  -- `fill` writes the frame into the first bytes of the transmit buffer.
  unfoldable pub consume :
      (List ℕ → List ℕ) → ℕ → List ℕ → Tx × EthMacStats → List ℕ × Tx × EthMacStats
  consume fill len tx_buf (tx, s) =
      let n = min len (length tx_buf) in
      let frame = fill (take n tx_buf) in
      let s' = categorize frame s in
      (
        frame ++ drop n tx_buf,
        send_raw_frame frame tx,
        record s' { tx_consumed = wrapping_add32 s'.tx_consumed 1 },
      )
