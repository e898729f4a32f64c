-- ===== src/Forward/Napt.antt =====
-- NAPT on frames in src/forward.rs: `parse_l4` and the two rewrites. Each read stands behind the
-- length test of the code (`Parse` proves it), so its default is never seen.
pub mod Parse
pub mod Fields
pub mod Rewrite
use pico_10base_t_rs.Prelude.{
  ℕ, ◌+◌, ◌*◌, ◌%◌, Bool, not, ◌&&◌, ◌||◌, Option, none, some, List, [], ◌∷◌, ltb, leb, ◌==◌,
  if◌then◌else◌, length, byte, rd16, rd32, wr16, wr32,
}
use pico_10base_t_rs.Checksum.{addr_words, checksum_incr}
use pico_10base_t_rs.Conntrack.{Proto, tcp, udp, icmp_echo, proto_eq}
use pico_10base_t_rs.Forward.Config.{ethertype_ipv4}

abbrev pub ipproto_icmp : ℕ
ipproto_icmp = 1

abbrev pub ipproto_tcp : ℕ
ipproto_tcp = 6

abbrev pub ipproto_udp : ℕ
ipproto_udp = 17

pub record L4 : Type 0 where
  pub proto : Proto
  pub l4_off : ℕ
  pub src_id : ℕ
  pub dst_id : ℕ
  pub csum_off : ℕ
  pub tcp_flags : ℕ

-- The header at offset `l4`, by protocol.
abbrev pub tcp_l4 : List ℕ → ℕ → L4
tcp_l4 frame l4 = record {
  proto = tcp;
  l4_off = l4;
  src_id = rd16 frame l4;
  dst_id = rd16 frame (l4 + 2);
  csum_off = l4 + 16;
  tcp_flags = byte frame (l4 + 13);
}

abbrev pub udp_l4 : List ℕ → ℕ → L4
udp_l4 frame l4 = record {
  proto = udp;
  l4_off = l4;
  src_id = rd16 frame l4;
  dst_id = rd16 frame (l4 + 2);
  csum_off = l4 + 6;
  tcp_flags = 0;
}

abbrev pub echo_l4 : List ℕ → ℕ → L4
echo_l4 frame l4 = record {
  proto = icmp_echo;
  l4_off = l4;
  src_id = rd16 frame (l4 + 4);
  dst_id = 0;
  csum_off = l4 + 2;
  tcp_flags = 0;
}

-- The guards of the match on the protocol number.
abbrev pub is_tcp : List ℕ → ℕ → ℕ → Bool
is_tcp frame l4 number = number == ipproto_tcp && leb (l4 + 20) (length frame)

abbrev pub is_udp : List ℕ → ℕ → ℕ → Bool
is_udp frame l4 number = number == ipproto_udp && leb (l4 + 8) (length frame)

abbrev pub is_echo : List ℕ → ℕ → ℕ → Bool
is_echo frame l4 number =
    number == ipproto_icmp
    && (leb (l4 + 8) (length frame) && (byte frame l4 == 0 || byte frame l4 == 8))

unfoldable pub parse_transport : List ℕ → ℕ → ℕ → Option L4
parse_transport frame l4 number =
    if is_tcp frame l4 number
    then some (tcp_l4 frame l4)
    else (if is_udp frame l4 number
        then some (udp_l4 frame l4)
        else (if is_echo frame l4 number then some (echo_l4 frame l4) else none))

-- `frame[14] & 0x0f` is the remainder by 16.
abbrev pub ihl_of : List ℕ → ℕ
ihl_of frame = byte frame 14 % 16 * 4

unfoldable pub parse_l4 : List ℕ → Option L4
unfolding parse_transport
parse_l4 frame =
    if ltb (length frame) (14 + 20) || not (rd16 frame 12 == ethertype_ipv4)
    then none
    else (if ltb (ihl_of frame) 20
        then none
        else parse_transport frame (14 + ihl_of frame) (byte frame (14 + 9)))

-- The checksum field of TCP and UDP after a change of address and port. A UDP checksum of 0 stays.
unfoldable pub fix_csum : List ℕ → L4 → ℕ → ℕ → ℕ → ℕ → List ℕ
fix_csum frame l4 old_ip new_ip old_port new_id =
    let old_csum = rd16 frame l4.csum_off in
    if not (proto_eq l4.proto udp && old_csum == 0)
    then (let (oh, ol) = addr_words old_ip in
        let (nh, nl) = addr_words new_ip in
        wr16 frame l4.csum_off
          (checksum_incr old_csum ((oh, nh) ∷ (ol, nl) ∷ (old_port, new_id) ∷ [])))
    else frame

-- The checksum field of an ICMP echo after a change of its id.
unfoldable pub fix_echo_csum : List ℕ → L4 → ℕ → ℕ → List ℕ
fix_echo_csum frame l4 old_id new_id =
    wr16 frame l4.csum_off (checksum_incr (rd16 frame l4.csum_off) ((old_id, new_id) ∷ []))

-- The part of both rewrites that the protocol chooses, with the offset of the port to change.
unfoldable pub rewrite_id : Proto → List ℕ → L4 → ℕ → ℕ → ℕ → ℕ → List ℕ
rewrite_id icmp_echo frame l4 port_off old_ip new_ip new_id =
    wr16 (fix_echo_csum frame l4 (rd16 frame (l4.l4_off + 4)) new_id) (l4.l4_off + 4) new_id
rewrite_id _ frame l4 port_off old_ip new_ip new_id =
    wr16 (fix_csum frame l4 old_ip new_ip (rd16 frame port_off) new_id) port_off new_id

unfoldable pub napt_rewrite_src : List ℕ → L4 → ℕ → ℕ → List ℕ
napt_rewrite_src frame l4 new_ip new_id =
    wr32 (rewrite_id l4.proto frame l4 l4.l4_off (rd32 frame 26) new_ip new_id) 26 new_ip

unfoldable pub napt_rewrite_dst : List ℕ → L4 → ℕ → ℕ → List ℕ
napt_rewrite_dst frame l4 new_ip new_id =
    wr32 (rewrite_id l4.proto frame l4 (l4.l4_off + 2) (rd32 frame 30) new_ip new_id) 30 new_ip
