-- ===== src/Forward/Config.antt =====
-- The configuration of an interface in src/forward.rs, the classification of a frame, and what is
-- learnt from its source. The subnet type of smoltcp is a parameter, with the one test that the
-- code calls.
pub mod Routed
pub mod Source
pub mod Learn
use pico_10base_t_rs.Prelude.{
  ℕ, ◌+◌, ◌-◌, ◌≡◌, Bool, true, false, not, ◌&&◌, ◌||◌, Option, none, some, List, [], ◌∷◌, ◌++◌,
  ltb, leb, ◌==◌, if◌then◌else◌, length, slice, rd16, rd32, bytes_eq, be16, be32, write_at,
  replicate,
}
use pico_10base_t_rs.Forward.Neighbor.{NeighborTable, Mac, lookup}
use pico_10base_t_rs.Forward.Neighbor

pub data Iface : Type 0 where
  lan wan : Iface

-- The static tables LAN_NEIGH and WAN_NEIGH.
pub record Neighs : Type 0 where
  pub lan_neigh : NeighborTable
  pub wan_neigh : NeighborTable

unfoldable pub neigh : Iface → Neighs → NeighborTable
neigh lan n = n.lan_neigh
neigh wan n = n.wan_neigh

unfoldable pub with_neigh : Iface → NeighborTable → Neighs → Neighs
with_neigh lan t n = record n { lan_neigh = t }
with_neigh wan t n = record n { wan_neigh = t }

pub record IfaceCfg (Cidr : Type 0) : Type 0 where
  pub iface : Iface
  pub our_mac : Mac
  pub our_ip : ℕ
  pub subnet : Cidr
  pub gateway : Option ℕ
  pub accept_dst : Option Cidr

pub data Class : Type 0 where
  local transit drop : Class

abbrev pub ethertype_ipv4 : ℕ
ethertype_ipv4 = 0x0800

abbrev pub ethertype_arp : ℕ
ethertype_arp = 0x0806

abbrev pub arp_eth_ipv4_prefix : List ℕ
arp_eth_ipv4_prefix = 0x00 ∷ 0x01 ∷ 0x08 ∷ 0x00 ∷ 0x06 ∷ 0x04 ∷ []

unfoldable pub ipv4_dst : List ℕ → Option ℕ
ipv4_dst frame =
    if ltb (length frame) (14 + 20) || not (rd16 frame 12 == ethertype_ipv4)
    then none
    else some (rd32 frame 30)

-- The broadcast ARP request for `tpa`.
unfoldable pub build_arp_request : Mac → ℕ → ℕ → List ℕ
build_arp_request our_mac spa tpa =
    let f = replicate 42 0 in
    let f = write_at f 0 (replicate 6 0xff) in
    let f = write_at f 6 our_mac in
    let f = write_at f 12 (be16 ethertype_arp) in
    let f = write_at f 14 arp_eth_ipv4_prefix in
    let f = write_at f 20 (be16 1) in
    let f = write_at f 22 our_mac in let f = write_at f 28 (be32 spa) in write_at f 38 (be32 tpa)

unfoldable pub wan_neigh_known : ℕ → Neighs → Bool
wan_neigh_known ip n = elim (lookup n.wan_neigh ip) [ some m ↦ true | none ↦ false ]

-- What a frame says of its source: the address and the MAC.
unfoldable pub source_of : List ℕ → Option (ℕ × Mac)
source_of frame =
    let etype = rd16 frame 12 in
    if etype == ethertype_arp
      && (leb (14 + 28) (length frame) && bytes_eq (slice frame 14 20) arp_eth_ipv4_prefix)
    then some (rd32 frame 28, slice frame 22 28)
    else (if etype == ethertype_ipv4 && leb (14 + 20) (length frame)
        then some (rd32 frame 26, slice frame 6 12)
        else none)

module _ {Cidr : Type 0} (contains_addr : Cidr → ℕ → Bool) where
  -- The ingress filter on a transit frame's destination.
  unfoldable pub accept : Option Cidr → ℕ → Class
  accept none dst = transit
  accept (some net) dst = if contains_addr net dst then transit else drop

  unfoldable pub classify : IfaceCfg Cidr → List ℕ → Class
  classify cfg frame =
      if ltb (length frame) 14 || cfg.our_ip == 0
      then local
      else (if not (bytes_eq (slice frame 0 6) cfg.our_mac) then local else (elim (ipv4_dst frame) [
        | none ↦ local
        | some dst ↦ if dst == cfg.our_ip then local else accept cfg.accept_dst dst
      ]))

  unfoldable pub learn : IfaceCfg Cidr → List ℕ → Neighs → Neighs
  learn cfg frame n =
      if ltb (length frame) 14 || cfg.our_ip == 0 then n else (elim (source_of frame) [
        | none ↦ n
        | some (src_ip, src_mac) ↦
            if not (contains_addr cfg.subnet src_ip)
            then n
            else with_neigh cfg.iface (Neighbor.insert src_ip src_mac (neigh cfg.iface n)) n
      ])

  unfoldable pub nexthop : ℕ → Cidr → Option ℕ → Option ℕ
  nexthop dst subnet gateway = if contains_addr subnet dst then some dst else gateway
