-- ===== src/Forward/Napt/Parse.antt =====
-- `parse_l4` of src/forward.rs reads inside the frame, and the fields it names lie inside it.
use pico_10base_t_rs.Prelude.{
  ℕ, ◌+◌, ◌≤◌, ◌≡◌, ◌⊎◌, not, ◌||◌, some, List, arith, ltb, ◌==◌, length, byte, rd16, Bool-cases,
  inl, inr,
}
use mathlib.Core.Path.{subst}
use pico_10base_t_rs.Conntrack.{Proto, tcp, udp, icmp_echo}
use pico_10base_t_rs.Forward.Config.{ethertype_ipv4}
use pico_10base_t_rs.Forward.Napt.{
  L4, parse_l4, parse_transport, ihl_of, is_tcp, is_udp, is_echo, tcp_l4, udp_l4, echo_l4,
}

-- What each protocol's header has, and where.
abbrev pub HasShape : List ℕ → L4 → Proto → Type 0
HasShape frame l4 tcp =
    (byte frame 23 ≡ 6)
    × (l4.l4_off + 20 ≤ length frame)
    × (l4.csum_off ≡ l4.l4_off + 16)
    × (l4.src_id ≡ rd16 frame l4.l4_off)
    × (l4.dst_id ≡ rd16 frame (l4.l4_off + 2))
    × (l4.tcp_flags ≡ byte frame (l4.l4_off + 13))
HasShape frame l4 udp =
    (byte frame 23 ≡ 17)
    × (l4.l4_off + 8 ≤ length frame)
    × (l4.csum_off ≡ l4.l4_off + 6)
    × (l4.src_id ≡ rd16 frame l4.l4_off)
    × (l4.dst_id ≡ rd16 frame (l4.l4_off + 2))
    × (l4.tcp_flags ≡ 0)
HasShape frame l4 icmp_echo =
    (byte frame 23 ≡ 1)
    × (l4.l4_off + 8 ≤ length frame)
    × (l4.csum_off ≡ l4.l4_off + 2)
    × (l4.src_id ≡ rd16 frame (l4.l4_off + 4))
    × (l4.dst_id ≡ 0)
    × (l4.tcp_flags ≡ 0)
    × ((byte frame l4.l4_off ≡ 0) ⊎ (byte frame l4.l4_off ≡ 8))

-- A frame that carries the transport header that `l4` describes.
pub record IsL4 (frame : List ℕ) (l4 : L4) : Type 0 where
  pub long : 34 ≤ length frame
  pub is_ipv4 : rd16 frame 12 ≡ ethertype_ipv4
  pub offset : l4.l4_off ≡ 14 + ihl_of frame
  pub header : 20 ≤ ihl_of frame
  pub shape : HasShape frame l4 l4.proto

abbrev Parsed : List ℕ → ℕ → L4 → Type 0
Parsed frame off l4 = (l4.l4_off ≡ off) × HasShape frame l4 l4.proto

parse_transport_sound :
    (frame : List ℕ) (off : ℕ) (l4 : L4)
    → parse_transport frame off (byte frame 23) ≡ some l4
    → Parsed frame off l4
unfolding parse_transport
parse_transport_sound frame off l4 h = elim (Bool-cases (is_tcp frame off (byte frame 23))) [
  | inl tcp_fits ↦
      let e : tcp_l4 frame off ≡ l4 = ground arith in subst (Parsed frame off) e (ground arith)
  | inr not_tcp ↦ elim (Bool-cases (is_udp frame off (byte frame 23))) [
    | inl udp_fits ↦
        let e : udp_l4 frame off ≡ l4 = ground arith in subst (Parsed frame off) e (ground arith)
    | inr not_udp ↦ elim (Bool-cases (is_echo frame off (byte frame 23))) [
      | inl echo_fits ↦
          let e : echo_l4 frame off ≡ l4 = ground arith in subst (Parsed frame off) e (ground arith)
      | inr not_echo ↦ absurd (ground arith)
    ]
  ]
]

-- What `parse_l4` returns describes the transport header of the frame: an IPv4 frame with a header
-- length of at least 20 bytes, the protocol and its ids and flags, all of the header inside the frame.
pub parse_l4-IsL4 : (frame : List ℕ) (l4 : L4) → parse_l4 frame ≡ some l4 → IsL4 frame l4
unfolding parse_l4
parse_l4-IsL4 frame l4 h =
    elim (Bool-cases (ltb (length frame) (14 + 20) || not (rd16 frame 12 == ethertype_ipv4))) [
      | inl bad ↦ absurd (let e = rw (bad, parse_l4) at h in cc)
      | inr good ↦ elim (Bool-cases (ltb (ihl_of frame) 20)) [
        | inl runt ↦ absurd (let e = rw (good, runt, parse_l4) at h in cc)
        | inr full ↦
            let parsed =
              parse_transport_sound frame (14 + ihl_of frame) l4 (rw (good, full, parse_l4) at h) in
            record {
              long = ground arith;
              is_ipv4 = ground arith;
              offset = parsed.0;
              header = ground arith;
              shape = parsed.1;
            }
      ]
    ]
