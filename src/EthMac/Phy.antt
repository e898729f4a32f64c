-- ===== src/EthMac/Phy.antt =====
-- `EthMac` of src/eth_mac.rs as a phy on core 0: its transmit side, the pop from the inbox that core 1
-- fills, and the counts of what it hands out.
use pico_10base_t_rs.Prelude.{ℕ, Bool, Option, none, some, List, wrapping_add32}
use pico_10base_t_rs.EthTx.{EthTx}
use pico_10base_t_rs.EthTx.Send.{send_raw_frame}
use pico_10base_t_rs.EthMac.Inbox.{RxShared, pop_front}
use pico_10base_t_rs.EthMac.Token.{EthMacStats, consume}

pub record EthMac : Type 0 where
  pub tx : EthTx
  pub tx_buf : List ℕ
  pub stats : EthMacStats

-- The frame of the receive token, if there is one.
unfoldable pub receive : RxShared → EthMac → Option (List ℕ) × RxShared × EthMac
receive shared m =
    let (got, shared') = pop_front shared in
    elim got [
      | none ↦ (none, shared', m)
      | some buf ↦ (
        some buf,
        shared',
        record m {
          stats = record (m.stats) { rx_handed_out = wrapping_add32 m.stats.rx_handed_out 1 };
        },
      )
    ]

unfoldable transmit : EthMac → EthMac
transmit m = record m {
  stats = record (m.stats) { tx_handed_out = wrapping_add32 m.stats.tx_handed_out 1 };
}

-- `consume` of the transmit token that `receive` and `transmit` hand out.
unfoldable consume_token : Bool → (ℕ → Bool) → (List ℕ → List ℕ) → ℕ → EthMac → EthMac
consume_token full_duplex carrier fill len m =
    let (tx_buf, tx, stats) =
      consume (send_raw_frame full_duplex carrier) fill len m.tx_buf (m.tx, m.stats) in
    record { tx = tx; tx_buf = tx_buf; stats = stats }
