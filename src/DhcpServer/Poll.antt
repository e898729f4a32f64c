-- ===== src/DhcpServer/Poll.antt =====
-- The loop of src/dhcp_server.rs over its UDP socket, which is a parameter.
pub mod Keeps
use pico_10base_t_rs.Prelude.{
  ℕ, zero, suc, Bool, Option, none, some, List, if◌then◌else◌, wrapping_add32,
}
use pico_10base_t_rs.DhcpServer.{Leases, Codec, build_reply}

-- `recv_slice` gives a datagram or fails, and `send_slice` says whether it took the datagram for the
-- broadcast address and the client port.
pub record Socket : Type 1 where
  pub S : Type 0
  pub is_open : S → Bool
  pub bind : S → S
  pub recv_slice : S → Option (List ℕ) × S
  pub send_slice : List ℕ → S → Bool × S

-- The socket, the leases, and DHCP_TX.
pub record Server (S : Type 0) : Type 0 where
  pub socket : S
  pub leases : Leases
  pub dhcp_tx : ℕ

module _ (c : Codec) (dns : ℕ) (k : Socket) where
  unfoldable pub send_reply : Option (List ℕ) → Server k.S → Server k.S
  send_reply none s = s
  send_reply (some reply) s =
      let (sent, socket) = k.send_slice reply s.socket in
      record s { socket = socket; dhcp_tx = if sent then wrapping_add32 s.dhcp_tx 1 else s.dhcp_tx }

  unfoldable pub answer_request : List ℕ → Server k.S → Server k.S
  answer_request req s =
      let (reply, leases) = build_reply c dns req s.leases in
      send_reply reply (record s { leases = leases })

  unfoldable pub poll_loop : ℕ → Server k.S → Server k.S
  poll_loop zero s = s
  poll_loop (suc left) s =
      let (got, socket) = k.recv_slice s.socket in
      elim got [
        | none ↦ record s { socket = socket }
        | some req ↦ poll_loop left (answer_request req (record s { socket = socket }))
      ]

  -- At most four requests for each call.
  unfoldable pub poll : Server k.S → Server k.S
  poll s = poll_loop 4 (if k.is_open s.socket then s else record s { socket = k.bind s.socket })
