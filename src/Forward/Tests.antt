-- ===== src/Forward/Tests.antt =====
-- The tables, the classification and NAPT of src/forward.rs at concrete frames.
use pico_10base_t_rs.Prelude.{
  ℕ, inr, ◌+◌, ◌*◌, ◌<◌, ◌≡◌, ◌≢◌, ◌⊎◌, ◌↔◌, refl, Bool, true, false, ◌&&◌, none, some, List, [],
  ◌∷◌, arith, leb, rd32, all_bytes-AreBytes,
}
use pico_10base_t_rs.Forward.Neighbor.{
  NeighborTable, Mac, new, insert, lookup, find_ip, take_slot, store,
}
use pico_10base_t_rs.Forward.Neighbor.Laws.{IsValid, new-IsValid, insert-IsValid}
use pico_10base_t_rs.Forward.Config.{
  lan, Neighs, neigh, IfaceCfg, Class, local, transit, classify, learn,
}
use pico_10base_t_rs.Forward.Config.Routed.{IsRouted, classify_iff}
use pico_10base_t_rs.Forward.Config.Learn.{AreValid, Shows, lookup-learn, learn_sound}
use pico_10base_t_rs.Forward.Napt.{
  L4, udp_l4, parse_l4, parse_transport, napt_rewrite_src, napt_rewrite_dst,
}
use pico_10base_t_rs.Forward.Napt.Parse.{IsL4, parse_l4-IsL4}
use pico_10base_t_rs.Forward.Napt.Rewrite.{IsNat, napt_rewrite_src-IsNat, napt_rewrite_dst-IsNat}

-- 192.168.4.10, 192.168.4.11 and 1.1.1.1.
abbrev pub client : ℕ
client = 3232236554

abbrev client2 : ℕ
client2 = 3232236555

abbrev pub peer : ℕ
peer = 16843009

abbrev pub client_mac : Mac
client_mac = 2 ∷ 0 ∷ 0 ∷ 0 ∷ 0 ∷ 10 ∷ []

abbrev pub router_mac : Mac
router_mac = 2 ∷ 0 ∷ 0 ∷ 0 ∷ 0 ∷ 1 ∷ []

-- A UDP packet of the client's port 4000 to port 53 of the peer.
abbrev pub query : List ℕ
query =
    2 ∷ 0 ∷ 0 ∷ 0 ∷ 0 ∷ 1 ∷ 2 ∷ 0 ∷ 0 ∷ 0 ∷ 0 ∷ 10 ∷ 8 ∷ 0 ∷ 0x45 ∷ 0 ∷ 0 ∷ 28 ∷ 0 ∷ 0 ∷ 0 ∷ 0 ∷ 64
    ∷ 17 ∷ 0 ∷ 0 ∷ 192 ∷ 168 ∷ 4 ∷ 10 ∷ 1 ∷ 1 ∷ 1 ∷ 1 ∷ 15 ∷ 160 ∷ 0 ∷ 53 ∷ 0 ∷ 8 ∷ 0x12 ∷ 0x34 ∷ []

-- A subnet as its first 24 bits.
abbrev pub in_net : ℕ → ℕ → Bool
in_net net ip = leb (net * 256) ip && leb ip (net * 256 + 255)

abbrev pub lan_cfg : IfaceCfg ℕ
lan_cfg = record {
  iface = lan;
  our_mac = router_mac;
  our_ip = 3232236545;
  subnet = 12625924;
  gateway = none;
  accept_dst = none;
}

abbrev one_client : NeighborTable
one_client = insert client client_mac new

one_client-IsValid : IsValid one_client
one_client-IsValid = insert-IsValid client client_mac new new-IsValid

room : one_client.used < 8
unfolding insert new find_ip take_slot store
room = omega arith

classify_iff_example :
    ((classify in_net lan_cfg query ≢ local) ↔ IsRouted lan_cfg query)
    × (IsRouted lan_cfg query → lan_cfg.accept_dst ≡ none → classify in_net lan_cfg query ≡ transit)
    × ((net : ℕ)
        → IsRouted lan_cfg query
        → lan_cfg.accept_dst ≡ some net
        → ((classify in_net lan_cfg query ≡ transit) ↔ (in_net net (rd32 query 30) ≡ true))
          × ((classify in_net lan_cfg query ≡ Class.drop) ↔ (in_net net (rd32 query 30) ≡ false)))
classify_iff_example = classify_iff in_net lan_cfg query

query-IsRouted : IsRouted lan_cfg query
query-IsRouted = record {
  has_ip = λ e. absurd (omega arith);
  to_us = refl;
  long = omega arith;
  is_ipv4 = refl;
  dst_ne = λ e. absurd (omega arith);
}

abbrev empty_tables : Neighs
empty_tables = record { lan_neigh = new; wan_neigh = new }

empty-AreValid : AreValid empty_tables
empty-AreValid = record { lan_valid = new-IsValid; wan_valid = new-IsValid }

query-Shows : Shows in_net lan_cfg query client client_mac
query-Shows = (
  omega arith,
  λ e. absurd (omega arith),
  inr record { ethertype = refl; long = omega arith; source_ip = refl; source_mac = refl },
  refl,
)

lookup-learn_example :
    lookup (neigh lan (learn in_net lan_cfg query empty_tables)) client ≡ some client_mac
lookup-learn_example =
    lookup-learn in_net lan_cfg query empty_tables client client_mac empty-AreValid query-Shows

learn_sound_example :
    (lookup (neigh lan empty_tables) client ≡ some client_mac)
    ⊎ ((lan_cfg.iface ≡ lan) × Shows in_net lan_cfg query client client_mac)
learn_sound_example =
    learn_sound in_net lan_cfg query empty_tables lan client client_mac empty-AreValid
      (lookup-learn in_net lan_cfg query empty_tables client client_mac empty-AreValid query-Shows)

abbrev pub query_l4 : L4
query_l4 = udp_l4 query 34

pub query-parses : parse_l4 query ≡ some query_l4
unfolding parse_l4 parse_transport
query-parses = refl

pub query-IsL4 : IsL4 query query_l4
query-IsL4 = parse_l4-IsL4 query query_l4 query-parses

parse_l4-IsL4_example : IsL4 query query_l4
parse_l4-IsL4_example = parse_l4-IsL4 query query_l4 query-parses

napt_rewrite_src-IsNat_example :
    IsNat query (napt_rewrite_src query query_l4 3405803786 49152) query_l4 34 26 49152 3405803786
napt_rewrite_src-IsNat_example =
    napt_rewrite_src-IsNat query query_l4 3405803786 49152 (all_bytes-AreBytes query refl)
      query-IsL4 (omega arith) (omega arith)

napt_rewrite_dst-IsNat_example :
    IsNat query (napt_rewrite_dst query query_l4 client 4000) query_l4 36 30 4000 client
napt_rewrite_dst-IsNat_example =
    napt_rewrite_dst-IsNat query query_l4 client 4000 (all_bytes-AreBytes query refl) query-IsL4
      (omega arith) (omega arith)
