-- ===== src/Forward/Device.antt =====
-- `ForwardingDevice` of src/forward.rs. What it calls and does not implement is a parameter: the
-- phy that it wraps (smoltcp's `Device`), the channel of embassy that it diverts to, and the IPv4
-- header of smoltcp. The statics that it touches stand beside its fields in one state. The cycle
-- counting of `CycleSpan` reads a hardware counter and is left out.
pub mod Interfaces
pub mod Stats
pub mod Account
pub mod Transit
pub mod Skim
pub mod Journey
mod Tests
use Interfaces.{Host}
use Stats.{
  FwdStats, DropReason, qfull, nonh, nat_full, txbusy, other, count_drop, count_sent,
  count_diverted,
}
use pico_10base_t_rs.Prelude.{
  ℕ, zero, suc, ◌+◌, ◌-◌, Bool, true, false, not, ◌&&◌, ◌||◌, Option, none, some, List, [], ◌∷◌,
  ◌++◌, ltb, leb, ◌==◌, if◌then◌else◌, length, byte, slice, take, drop, rd32, bytes_eq, write_at,
}
use pico_10base_t_rs.Conntrack.{Proto, icmp_echo, proto_eq, Tuple, Nat, outbound, inbound}
use pico_10base_t_rs.Forward.Neighbor.{lookup}
use pico_10base_t_rs.Forward.Config.{
  Iface, lan, wan, Neighs, neigh, IfaceCfg, Class, local, transit, classify, learn, nexthop,
  ipv4_dst, build_arp_request,
}
use pico_10base_t_rs.Forward.Config
use pico_10base_t_rs.Forward.Napt.{L4, parse_l4, napt_rewrite_src, napt_rewrite_dst}

abbrev pub frame_cap : ℕ
frame_cap = 1600

-- The fields of the device, and the statics LAN_NEIGH and WAN_NEIGH, WAN_CT, the counters and the
-- channel that it diverts to.
pub record Fwd (S Cidr Q : Type 0) : Type 0 where
  pub inner : S
  pub cfg : IfaceCfg Cidr
  pub nat : Bool
  pub neighs : Neighs
  pub ct : Nat
  pub stats : FwdStats
  pub queue : Q

-- How the search of `receive` for a local frame ends. `stuck` is the end of the fuel.
pub data Skimmed : Type 0 where
  found : List ℕ → Skimmed
  empty stuck : Skimmed

-- The flow of a frame that leaves for the WAN.
unfoldable pub tuple_of : List ℕ → L4 → Tuple
tuple_of frame l4 = record {
  proto = l4.proto;
  src_ip = rd32 frame 26;
  src_id = l4.src_id;
  dst_ip = rd32 frame 30;
  dst_id = if proto_eq l4.proto icmp_echo then 0 else l4.dst_id;
}

-- The peer's id and ours, as an ingress frame shows them.
unfoldable pub remote_id : L4 → ℕ
remote_id l4 = if proto_eq l4.proto icmp_echo then 0 else l4.src_id

unfoldable pub wan_id : L4 → ℕ
wan_id l4 = if proto_eq l4.proto icmp_echo then l4.src_id else l4.dst_id

module _ (h : Host) where
  open h use {Cidr, contains_addr, address, wire, phy, channel}
  open phy use {State}
  open channel use {Chan}

  abbrev pub Router : Type 0
  Router = Fwd State Cidr Chan

  unfoldable pub dropped : DropReason → Router → Router
  dropped reason r = record r { stats = count_drop reason r.stats }

  unfoldable pub set_lease : Cidr → Option ℕ → Router → Router
  set_lease cidr gateway r = record r {
    cfg = record (r.cfg) { our_ip = address cidr; subnet = cidr; gateway = gateway };
  }

  -- `inner.transmit` and, if it gives a token, its `consume`.
  unfoldable pub try_transmit : ℕ → List ℕ → State → Bool × State
  try_transmit now frame s =
      let (ready, s') = phy.transmit now s in (ready, if ready then phy.consume frame s' else s')

  unfoldable pub arp_gateway : ℕ → Router → Router
  arp_gateway now r = elim (r.cfg.gateway) [
    | none ↦ r
    | some gw ↦ if r.cfg.our_ip == 0 then r else record r {
      inner = (try_transmit now (build_arp_request r.cfg.our_mac r.cfg.our_ip gw) r.inner).1;
    }
  ]

  -- What follows `outbound` in the NAPT step of `egress`. `none` is a frame dropped.
  unfoldable pub translate : List ℕ → L4 → Router → Option ℕ × Nat → Option (List ℕ) × Router
  translate frame l4 r (some id, ct') =
      (some (napt_rewrite_src frame l4 r.cfg.our_ip id), record r { ct = ct' })
  translate frame l4 r (none, ct') = (none, dropped nat_full (record r { ct = ct' }))

  unfoldable pub napt_out : List ℕ → ℕ → Router → Option (List ℕ) × Router
  napt_out frame now r =
      if r.nat
      then (elim (parse_l4 frame) [
        | none ↦ (some frame, r)
        | some l4 ↦ translate frame l4 r (outbound (tuple_of frame l4) l4.tcp_flags now r.ct)
      ])
      else (some frame, r)

  -- The last step of `egress`: the two MACs, and the transmission.
  unfoldable pub send : List ℕ → List ℕ → ℕ → Router → Router
  send dmac frame now r =
      let frame' = write_at (write_at frame 0 dmac) 6 r.cfg.our_mac in
      let (ready, s) = try_transmit now frame' r.inner in
      if ready
      then record r { inner = s; stats = count_sent r.cfg.iface (length frame') r.stats }
      else dropped txbusy (record r { inner = s })

  -- From the destination to the MAC of the next hop.
  unfoldable pub forward_to : ℕ → List ℕ → ℕ → Router → Router
  forward_to dst frame now r = elim (nexthop contains_addr dst r.cfg.subnet r.cfg.gateway) [
    | none ↦ dropped nonh r
    | some nh ↦ elim (lookup (neigh r.cfg.iface r.neighs) nh) [
      | none ↦ dropped nonh r
      | some dmac ↦ send dmac frame now r
    ]
  ]

  -- The IPv4 step of `egress` on the bytes `ip` behind the 14 of L2: TTL and header checksum, in place.
  unfoldable pub route_ip : List ℕ → List ℕ → ℕ → Router → Router
  route_ip l2 ip now r =
      if not (wire.new_checked ip) || leb (wire.hop_limit ip) 1
      then dropped other r
      else (let ip' = wire.fill_checksum (wire.set_hop_limit (wire.hop_limit ip - 1) ip) in
          forward_to (wire.dst_addr ip') (l2 ++ ip') now r)

  -- `none` is the panic of the slice `frame[14..]` on a frame of fewer bytes.
  unfoldable pub route : List ℕ → ℕ → Router → Option Router
  route frame now r =
      if ltb (length frame) 14 then none else some (route_ip (take 14 frame) (drop 14 frame) now r)

  unfoldable pub after_napt : ℕ → Option (List ℕ) × Router → Option Router
  after_napt now (none, r) = some r
  after_napt now (some frame, r) = route frame now r

  -- `none` is a panic.
  unfoldable pub egress : List ℕ → ℕ → Router → Option Router
  unfolding after_napt
  egress frame now r = after_napt now (napt_out frame now r)

  -- The guard of the NAPT lookup on ingress.
  unfoldable pub is_for_nat : List ℕ → Router → Bool
  is_for_nat frame r =
      r.nat
      && (not (r.cfg.our_ip == 0)
          && (leb (14 + 20) (length frame)
              && (bytes_eq (slice frame 0 6) r.cfg.our_mac
                  && (elim (ipv4_dst frame) [ none ↦ false | some dst ↦ dst == r.cfg.our_ip ]))))

  -- What follows `inbound` in `classify_frame`.
  unfoldable pub restore : List ℕ → L4 → Router → Option (ℕ × ℕ) × Nat → Class × List ℕ × Router
  restore frame l4 r (some (lan_ip, lan_id), ct') =
      (transit, napt_rewrite_dst frame l4 lan_ip lan_id, record r { ct = ct' })
  restore frame l4 r (none, ct') =
      (classify contains_addr r.cfg frame, frame, record r { ct = ct' })

  unfoldable pub classify_frame : List ℕ → ℕ → Router → Class × List ℕ × Router
  classify_frame frame ts r =
      if is_for_nat frame r
      then (elim (parse_l4 frame) [
        | none ↦ (classify contains_addr r.cfg frame, frame, r)
        | some l4 ↦
            restore frame l4 r
              (inbound l4.proto (rd32 frame 26) (remote_id l4) (wan_id l4) l4.tcp_flags ts r.ct)
      ])
      else (classify contains_addr r.cfg frame, frame, r)

  -- A transit frame goes to the channel, or is dropped when that is full.
  unfoldable pub divert : List ℕ → Router → Router
  divert frame r = elim (channel.try_send frame r.queue) [
    | none ↦ dropped qfull r
    | some q ↦ record r { queue = q; stats = count_diverted r.cfg.iface (channel.len q) r.stats }
  ]

  -- One frame off the inner phy, up to the decision about it.
  unfoldable pub take_in : List ℕ → ℕ → Router → Class × List ℕ × Router
  take_in buf ts r =
      let frame = take frame_cap buf in
      classify_frame frame ts (record r { neighs = learn contains_addr r.cfg frame r.neighs })

  -- The match on the class: a local frame ends the loop, any other goes on to `rest`.
  unfoldable pub decide : (Router → Skimmed × Router) → Class × List ℕ × Router → Skimmed × Router
  decide rest (local, frame, r) = (found frame, r)
  decide rest (transit, frame, r) = rest (divert frame r)
  decide rest (Class.drop, frame, r) = rest (dropped other r)

  unfoldable pub receive_loop : ℕ → ℕ → Router → Skimmed × Router
  unfolding decide
  receive_loop zero ts r = (stuck, r)
  receive_loop (suc fuel) ts r =
      let (got, s) = phy.receive ts r.inner in
      elim got [
        | none ↦ (empty, record r { inner = s })
        | some buf ↦ decide (receive_loop fuel ts) (take_in buf ts (record r { inner = s }))
      ]

  -- A local frame is handed on if the inner phy has a token for the answer; if not, it is lost.
  unfoldable pub hand_on : ℕ → Skimmed × Router → Option (List ℕ) × Router
  hand_on ts (found frame, r) =
      let (ready, s) = phy.transmit ts r.inner in
      (if ready then some frame else none, record r { inner = s })
  hand_on ts (empty, r) = (none, r)
  hand_on ts (stuck, r) = (none, r)

  unfoldable pub receive : ℕ → ℕ → Router → Option (List ℕ) × Router
  unfolding hand_on
  receive fuel ts r = hand_on ts (receive_loop fuel ts r)
