-- ===== src/Forward/Device/Tests.antt =====
-- The device of src/forward.rs at concrete frames, over a phy that is a list of frames, a channel of
-- depth four, and the IPv4 header as RFC 791 lays it out.
use pico_10base_t_rs.Prelude.{
  ℕ, write_at, suc, ◌+◌, ◌*◌, ◌≤◌, ◌≡◌, refl, sym, true, false, Option, none, some, List, [], ◌∷◌,
  ◌++◌, arith, length, byte, set, rd16, rd32, wr16, not16, ltb, leb, if◌then◌else◌,
  all_bytes-AreBytes,
}
use pico_10base_t_rs.Checksum.{add1c}
use pico_10base_t_rs.Conntrack.{
  Proto, udp, proto_eq, Nat, no_counts, outbound, inbound, open_flow, claim, refresh_first, is_flow,
  alloc_id, probe, id_in_use, next_cursor, pick_slot, position, entry_of, touch, next_tcp_state,
  is_reply, timeout_ms,
}
use pico_10base_t_rs.Conntrack
use pico_10base_t_rs.Conntrack.Invariant.{new-IsValid}
use pico_10base_t_rs.Forward.Neighbor
use pico_10base_t_rs.Forward.Config
use pico_10base_t_rs.Forward.Config.{Class, transit, wan, IfaceCfg, ipv4_dst}
use pico_10base_t_rs.Forward.Napt.{
  L4, udp_l4, parse_l4, parse_transport, napt_rewrite_src, napt_rewrite_dst, rewrite_id,
  fix_echo_csum,
}
use pico_10base_t_rs.Forward.Napt.Rewrite.{src_id_off, napt_rewrite_src-IsNat}
use pico_10base_t_rs.Forward.Tests.{
  router_mac, query, in_net, lan_cfg, query_l4, query-parses, query-IsL4,
}
use pico_10base_t_rs.Forward.Device.Interfaces.{Phy, Channel, Ipv4Wire, Host}
use pico_10base_t_rs.Forward.Device.Stats.{no_stats}
use pico_10base_t_rs.Forward.Device.{
  Router, classify_frame, napt_out, receive_loop, translate, tuple_of, remote_id, wan_id, restore,
  is_for_nat,
}
use pico_10base_t_rs.Forward.Device.Transit.{IsForNat, classify_frame-long}
use pico_10base_t_rs.Forward.Device.Journey.{Answers, reply_reaches_client}
use pico_10base_t_rs.Forward.Device.Skim.{IsQueue, IsSkim, receive_loop-IsSkim}

abbrev pop_frame : ℕ → List (List ℕ) → Option (List ℕ) × List (List ℕ)
pop_frame ts [] = (none, [])
pop_frame ts (b ∷ bs) = (some b, bs)

abbrev list_phy : Phy
list_phy = record {
  State = List (List ℕ);
  receive = pop_frame;
  transmit = λ now s. (true, s);
  consume = λ frame s. s;
}

abbrev four_deep : Channel
four_deep = record {
  Chan = List (List ℕ);
  try_send = λ frame q. if ltb (length q) 4 then some (q ++ (frame ∷ [])) else none;
  len = λ q. length q;
}

abbrev sum_words : List ℕ → ℕ
sum_words (a ∷ b ∷ rest) = add1c (a * 256 + b) (sum_words rest)
sum_words _ = 0

abbrev rfc_wire : Ipv4Wire
rfc_wire = record {
  new_checked = λ ip. leb 20 (length ip);
  hop_limit = λ ip. byte ip 8;
  set_hop_limit = λ ttl ip. set ip 8 ttl;
  fill_checksum = λ ip. let z = wr16 ip 10 0 in wr16 z 10 (not16 (sum_words z));
  dst_addr = λ ip. rd32 ip 16;
}

abbrev pico : Host
pico = record {
  Cidr = ℕ;
  contains_addr = in_net;
  address = λ net. net * 256 + 1;
  wire = rfc_wire;
  phy = list_phy;
  channel = four_deep;
}

-- 203.0.113.10, on the WAN.
abbrev wan_ip : ℕ
wan_ip = 3405803786

abbrev wan_router : Router pico
wan_router = record {
  inner = [];
  cfg = record {
    iface = wan;
    our_mac = router_mac;
    our_ip = wan_ip;
    subnet = 13303921;
    gateway = some 3405803777;
    accept_dst = some 12625924;
  };
  nat = true;
  neighs = record { lan_neigh = Neighbor.new; wan_neigh = Neighbor.new };
  ct = record { ct = Conntrack.new; counts = no_counts };
  stats = no_stats;
  queue = [];
}

abbrev lan_router : Router pico
lan_router = record wan_router { inner = query ∷ query ∷ []; cfg = lan_cfg; nat = false }

abbrev sent : List ℕ
sent = napt_rewrite_src query query_l4 wan_ip 49152

-- Port 53 of the peer answers to port 49152 of the router.
abbrev answer : List ℕ
answer =
    2 ∷ 0 ∷ 0 ∷ 0 ∷ 0 ∷ 1 ∷ 2 ∷ 0 ∷ 0 ∷ 0 ∷ 0 ∷ 99 ∷ 8 ∷ 0 ∷ 0x45 ∷ 0 ∷ 0 ∷ 28 ∷ 0 ∷ 0 ∷ 0 ∷ 0 ∷ 64
    ∷ 17 ∷ 0 ∷ 0 ∷ 1 ∷ 1 ∷ 1 ∷ 1 ∷ 203 ∷ 0 ∷ 113 ∷ 10 ∷ 0 ∷ 53 ∷ 192 ∷ 0 ∷ 0 ∷ 8 ∷ 0 ∷ 0 ∷ []

abbrev answer_l4 : L4
answer_l4 = udp_l4 answer 34

answer-parses : parse_l4 answer ≡ some answer_l4
unfolding parse_l4 parse_transport
answer-parses = refl

query_leaves : (napt_out pico query 1000 wan_router).0 ≡ some sent
unfolding napt_out translate tuple_of parse_l4 parse_transport outbound open_flow claim
    Conntrack.new refresh_first is_flow alloc_id probe id_in_use next_cursor pick_slot position
    entry_of touch next_tcp_state
query_leaves = refl

abbrev later : Router pico
later = record wan_router { ct = (napt_out pico query 1000 wan_router).1.ct }

sent_id : rd16 sent 34 ≡ 49152
sent_id =
    (napt_rewrite_src-IsNat query query_l4 wan_ip 49152 (all_bytes-AreBytes query refl) query-IsL4
      (omega arith) (omega arith)).fields.id_is

answer-IsForNat : IsForNat pico answer 2000 later
unfolding ipv4_dst
answer-IsForNat = record {
  nat_on = refl;
  has_ip = λ e. absurd (omega arith);
  long = omega arith;
  to_us = refl;
  to_ip = refl;
}

answer-Answers : Answers query query_l4 (rd16 sent (src_id_off query_l4 udp)) answer answer_l4
answer-Answers = record {
  header = answer-parses;
  same_proto = refl;
  from_peer = refl;
  ids = (refl, sym sent_id);
}

reply_reaches_client_example :
    let (class, back, r'') = classify_frame pico answer 2000 later in
    (rd32 sent 26 ≡ wan_ip)
    × (class ≡ transit)
    × (rd32 back 30 ≡ rd32 query 26)
    × (rd16 back 36 ≡ 4000)
reply_reaches_client_example =
    reply_reaches_client pico query sent answer query_l4 answer_l4 1000 2000 wan_router later refl
      new-IsValid (all_bytes-AreBytes query refl) (all_bytes-AreBytes answer refl) (omega arith)
      query-parses query_leaves refl (omega arith) answer-IsForNat answer-Answers

-- 192.168.4.10 pings 1.1.1.1 with the echo id 7, and 1.1.1.1 answers to the id 49152.
abbrev ping : List ℕ
ping =
    2 ∷ 0 ∷ 0 ∷ 0 ∷ 0 ∷ 1 ∷ 2 ∷ 0 ∷ 0 ∷ 0 ∷ 0 ∷ 10 ∷ 8 ∷ 0 ∷ 0x45 ∷ 0 ∷ 0 ∷ 28 ∷ 0 ∷ 0 ∷ 0 ∷ 0 ∷ 64
    ∷ 1 ∷ 0 ∷ 0 ∷ 192 ∷ 168 ∷ 4 ∷ 10 ∷ 1 ∷ 1 ∷ 1 ∷ 1 ∷ 8 ∷ 0 ∷ 0 ∷ 0 ∷ 0 ∷ 7 ∷ 0 ∷ 1 ∷ []

abbrev pong : List ℕ
pong =
    2 ∷ 0 ∷ 0 ∷ 0 ∷ 0 ∷ 1 ∷ 2 ∷ 0 ∷ 0 ∷ 0 ∷ 0 ∷ 99 ∷ 8 ∷ 0 ∷ 0x45 ∷ 0 ∷ 0 ∷ 28 ∷ 0 ∷ 0 ∷ 0 ∷ 0 ∷ 64
    ∷ 1 ∷ 0 ∷ 0 ∷ 1 ∷ 1 ∷ 1 ∷ 1 ∷ 203 ∷ 0 ∷ 113 ∷ 10 ∷ 0 ∷ 0 ∷ 0 ∷ 0 ∷ 192 ∷ 0 ∷ 0 ∷ 1 ∷ []

abbrev pinged : Router pico
pinged = record wan_router { ct = (napt_out pico ping 1000 wan_router).1.ct }

pong_reaches_client :
    let (class, back, r'') = classify_frame pico pong 2000 pinged in
    (class ≡ transit) × (rd32 back 30 ≡ rd32 ping 26) × (rd16 back 38 ≡ 7)
unfolding napt_out translate tuple_of remote_id wan_id parse_l4 parse_transport outbound open_flow
    claim Conntrack.new refresh_first is_flow alloc_id probe id_in_use next_cursor pick_slot
    position entry_of touch next_tcp_state classify_frame is_for_nat ipv4_dst restore inbound
    is_reply timeout_ms napt_rewrite_dst rewrite_id write_at fix_echo_csum
pong_reaches_client = (refl, refl, refl)

query_transits : (classify_frame pico query 1000 lan_router).0 ≡ transit
unfolding classify_frame is_for_nat Config.classify Config.accept ipv4_dst
query_transits = refl

classify_frame-long_example : 34 ≤ length (classify_frame pico query 1000 lan_router).1
classify_frame-long_example = classify_frame-long pico query 1000 lan_router query_transits

list_phy-IsQueue : IsQueue pico length
list_phy-IsQueue = record { takes_one = one; ends_empty = none_left }
  where
    one :
        (ts : ℕ) (s : List (List ℕ)) (b : List ℕ)
        → (pop_frame ts s).0 ≡ some b
        → length s ≡ suc (length (pop_frame ts s).1)
    one ts [] b e = absurd (cc)
    one ts (x ∷ xs) b e = refl

    none_left :
        (ts : ℕ) (s : List (List ℕ))
        → (pop_frame ts s).0 ≡ none
        → (length s ≡ 0) × (length (pop_frame ts s).1 ≡ 0)
    none_left ts [] e = (refl, refl)
    none_left ts (x ∷ xs) e = absurd (cc)

receive_loop-IsSkim_example : IsSkim pico length lan_router (receive_loop pico 3 1000 lan_router)
receive_loop-IsSkim_example =
    receive_loop-IsSkim pico length list_phy-IsQueue 1000 3 lan_router (omega arith)
