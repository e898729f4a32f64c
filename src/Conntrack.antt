-- ===== src/Conntrack.antt =====
-- The NAPT connection-tracking table of src/conntrack.rs: `Conntrack` with its operations, and the
-- telemetry counters that they bump. An address is the number of its four octets, a timestamp is in
-- milliseconds, and `-` on them is the saturating subtraction of the code.
pub mod Alloc
pub mod Slots
pub mod Steps
pub mod Invariant
pub mod Flows
pub mod Isolation
pub mod Reap
pub mod Refresh
mod Tests
use pico_10base_t_rs.Prelude.{
  ℕ, zero, suc, ◌+◌, ◌-◌, ◌≡◌, Bool, true, false, not, ◌&&◌, Option, none, some, List, [], ◌∷◌,
  bit_and, bit_or, ltb, leb, ◌==◌, if◌then◌else◌, length, get_or, set, replicate, wrapping_add32,
  wrapping_sub32,
}

pub data Proto : Type 0 where
  tcp udp icmp_echo : Proto

-- `==` of the derived `PartialEq`.
abbrev pub proto_eq : Proto → Proto → Bool
proto_eq tcp tcp = true
proto_eq udp udp = true
proto_eq icmp_echo icmp_echo = true
proto_eq _ _ = false

-- The 5-tuple on the LAN side.
pub record Tuple : Type 0 where
  pub proto : Proto
  pub src_ip : ℕ
  pub src_id : ℕ
  pub dst_ip : ℕ
  pub dst_id : ℕ

abbrev pub nat_lo : ℕ
nat_lo = 49152

abbrev pub nat_hi : ℕ
nat_hi = 65535

abbrev pub ct_cap : ℕ
ct_cap = 64

abbrev pub t_tcp_est : ℕ
t_tcp_est = 60_000

abbrev pub t_tcp_trans : ℕ
t_tcp_trans = 10_000

abbrev pub t_udp : ℕ
t_udp = 30_000

abbrev pub t_icmp : ℕ
t_icmp = 10_000

abbrev pub tcp_fin : ℕ
tcp_fin = 0x01

abbrev pub tcp_syn : ℕ
tcp_syn = 0x02

abbrev pub tcp_rst : ℕ
tcp_rst = 0x04

pub data TcpState : Type 0 where
  fresh established closing : TcpState

pub record Entry : Type 0 where
  pub used : Bool
  pub proto : Proto
  pub lan_ip : ℕ
  pub lan_id : ℕ
  pub remote_ip : ℕ
  pub remote_id : ℕ
  pub wan_id : ℕ
  pub last_seen : ℕ
  pub tcp_state : TcpState

abbrev pub empty_entry : Entry
empty_entry = record {
  used = false;
  proto = udp;
  lan_ip = 0;
  lan_id = 0;
  remote_ip = 0;
  remote_id = 0;
  wan_id = 0;
  last_seen = 0;
  tcp_state = fresh;
}

unfoldable tcp_timeout : TcpState → ℕ
tcp_timeout established = t_tcp_est
tcp_timeout _ = t_tcp_trans

unfoldable proto_timeout : Proto → TcpState → ℕ
unfolding tcp_timeout
proto_timeout udp s = t_udp
proto_timeout icmp_echo s = t_icmp
proto_timeout tcp s = tcp_timeout s

unfoldable pub timeout_ms : Entry → ℕ
unfolding proto_timeout
timeout_ms s = proto_timeout s.proto s.tcp_state

-- `now_ms.saturating_sub(s.last_seen) >= s.timeout_ms()`.
unfoldable pub is_expired : ℕ → Entry → Bool
is_expired now s = leb (timeout_ms s) (now - s.last_seen)

-- The branch on SYN, which keeps a closing flow closing.
unfoldable syn_state : TcpState → TcpState
syn_state closing = closing
syn_state _ = fresh

unfoldable pub next_tcp_state : TcpState → ℕ → TcpState
unfolding syn_state
next_tcp_state cur flags =
    if not (bit_and flags (bit_or tcp_fin tcp_rst) == 0)
    then closing
    else (if not (bit_and flags tcp_syn == 0) then syn_state cur else established)

pub record Conntrack : Type 0 where
  pub slots : List Entry
  pub cursor : ℕ

-- The statics NAT_OUT, NAT_IN, NAT_NEW, NAT_EVICT, NAT_DROP and NAT_LIVE.
pub record Counters : Type 0 where
  pub nat_out : ℕ
  pub nat_in : ℕ
  pub nat_new : ℕ
  pub nat_evict : ℕ
  pub nat_drop : ℕ
  pub nat_live : ℕ

abbrev pub no_counts : Counters
no_counts = record {
  nat_out = 0;
  nat_in = 0;
  nat_new = 0;
  nat_evict = 0;
  nat_drop = 0;
  nat_live = 0;
}

pub record Nat : Type 0 where
  pub ct : Conntrack
  pub counts : Counters

unfoldable pub new : Conntrack
new = record { slots = replicate ct_cap empty_entry; cursor = nat_lo }

-- The fields that a hit refreshes.
unfoldable pub touch : ℕ → ℕ → Entry → Entry
touch now flags s = record s { last_seen = now; tcp_state = next_tcp_state s.tcp_state flags }

-- The test of the search loop of `outbound`.
unfoldable pub is_flow : Tuple → Entry → Bool
is_flow t s =
    s.used
    && (proto_eq s.proto t.proto
        && (s.lan_ip == t.src_ip
            && (s.lan_id == t.src_id && (s.remote_ip == t.dst_ip && s.remote_id == t.dst_id))))

-- A loop that refreshes the first slot passing a test and returns it with the new slots.
unfoldable pub refresh_first : (Entry → Bool) → ℕ → ℕ → List Entry → Option (Entry × List Entry)
refresh_first test now flags [] = none
refresh_first test now flags (s ∷ rest) =
    if test s
    then some (s, touch now flags s ∷ rest)
    else (elim (refresh_first test now flags rest) [
      | none ↦ none
      | some (hit, rest') ↦ some (hit, s ∷ rest')
    ])

unfoldable pub id_in_use : List Entry → ℕ → Bool
id_in_use [] id = false
id_in_use (s ∷ rest) id = if s.used && s.wan_id == id then true else id_in_use rest id

unfoldable pub next_cursor : ℕ → ℕ
next_cursor cursor = if cursor == nat_hi then nat_lo else cursor + 1

-- The loop of `alloc_id` with its rounds left: the id found, and the cursor after it.
unfoldable pub probe : ℕ → List Entry → ℕ → Option ℕ × ℕ
probe zero slots cursor = (none, cursor)
probe (suc left) slots cursor =
    let rest = probe left slots (next_cursor cursor) in
    if not (id_in_use slots cursor) then (some cursor, next_cursor cursor) else rest

abbrev pub span : ℕ
span = nat_hi - nat_lo + 1

unfoldable pub alloc_id : Conntrack → Option ℕ × Conntrack
alloc_id c = let (id, cursor') = probe span c.slots c.cursor in (id, record c { cursor = cursor' })

unfoldable pub position : (Entry → Bool) → List Entry → Option ℕ
position test [] = none
position test (s ∷ rest) =
    if test s then some 0 else (elim (position test rest) [ none ↦ none | some i ↦ some (i + 1) ])

abbrev pub last_seen_at : List Entry → ℕ → ℕ
last_seen_at slots i = (get_or slots i empty_entry).last_seen

-- The loop `for i in 1..CT_CAP` at index `i`, with its rounds left.
unfoldable pub lru_loop : List Entry → ℕ → ℕ → ℕ → ℕ
lru_loop slots zero i best = best
lru_loop slots (suc left) i best =
    lru_loop slots left (i + 1)
      (if ltb (last_seen_at slots i) (last_seen_at slots best) then i else best)

unfoldable pub pick_slot : List Entry → ℕ → ℕ
pick_slot slots now = elim (position (λ s. not s.used) slots) [
  | some i ↦ i
  | none ↦ elim (position (is_expired now) slots) [
    | some i ↦ i
    | none ↦ lru_loop slots (ct_cap - 1) 1 0
  ]
]

-- The entry of a new flow.
unfoldable pub entry_of : Tuple → ℕ → ℕ → ℕ → Entry
entry_of t wan_id flags now = record {
  used = true;
  proto = t.proto;
  lan_ip = t.src_ip;
  lan_id = t.src_id;
  remote_ip = t.dst_ip;
  remote_id = t.dst_id;
  wan_id = wan_id;
  last_seen = now;
  tcp_state = next_tcp_state fresh flags;
}

-- The rest of `outbound` once an id is found: a slot is filled and counted.
unfoldable pub claim : Tuple → ℕ → ℕ → ℕ → Conntrack → Counters → Option ℕ × Nat
claim t id flags now c n =
    let idx = pick_slot c.slots now in
    let n' : Counters =
      if not (get_or c.slots idx empty_entry).used
      then record n { nat_live = wrapping_add32 n.nat_live 1 }
      else record n { nat_evict = wrapping_add32 n.nat_evict 1 } in
    (
      some id,
      record {
        ct = record c { slots = set c.slots idx (entry_of t id flags now) };
        counts = record n' {
          nat_new = wrapping_add32 n'.nat_new 1;
          nat_out = wrapping_add32 n'.nat_out 1;
        };
      },
    )

-- The miss path of `outbound`, after `alloc_id` and before it.
unfoldable pub open_with : Tuple → ℕ → ℕ → Counters → Option ℕ × Conntrack → Option ℕ × Nat
open_with t flags now n (none, c) =
    (none, record { ct = c; counts = record n { nat_drop = wrapping_add32 n.nat_drop 1 } })
open_with t flags now n (some id, c) = claim t id flags now c n

unfoldable pub open_flow : Tuple → ℕ → ℕ → Nat → Option ℕ × Nat
unfolding open_with
open_flow t flags now w = open_with t flags now w.counts (alloc_id w.ct)

unfoldable pub outbound : Tuple → ℕ → ℕ → Nat → Option ℕ × Nat
outbound t flags now w = elim (refresh_first (is_flow t) now flags w.ct.slots) [
  | some (s, slots') ↦ (
    some s.wan_id,
    record {
      ct = record (w.ct) { slots = slots' };
      counts = record (w.counts) { nat_out = wrapping_add32 w.counts.nat_out 1 };
    },
  )
  | none ↦ open_flow t flags now w
]

-- The test of the search loop of `inbound`.
unfoldable pub is_reply : Proto → ℕ → ℕ → ℕ → ℕ → Entry → Bool
is_reply proto remote_ip remote_id wan_id now s =
    s.used
    && (proto_eq s.proto proto
        && (s.wan_id == wan_id
            && (s.remote_ip == remote_ip
                && (s.remote_id == remote_id && ltb (now - s.last_seen) (timeout_ms s)))))

unfoldable pub inbound : Proto → ℕ → ℕ → ℕ → ℕ → ℕ → Nat → Option (ℕ × ℕ) × Nat
inbound proto remote_ip remote_id wan_id flags now w =
    elim (refresh_first (is_reply proto remote_ip remote_id wan_id now) now flags w.ct.slots) [
      | some (s, slots') ↦ (
        some (s.lan_ip, s.lan_id),
        record {
          ct = record (w.ct) { slots = slots' };
          counts = record (w.counts) { nat_in = wrapping_add32 w.counts.nat_in 1 };
        },
      )
      | none ↦ (none, w)
    ]

-- The sweep of `reap` over the slots, with the counters that it bumps.
unfoldable pub reap_slots : ℕ → List Entry → Counters → List Entry × Counters
reap_slots now [] n = ([], n)
reap_slots now (s ∷ rest) n =
    let stale : Bool = s.used && is_expired now s in
    let s' : Entry = if stale then record s { used = false } else s in
    let n' : Counters =
      if stale
      then record n {
        nat_live = wrapping_sub32 n.nat_live 1;
        nat_evict = wrapping_add32 n.nat_evict 1;
      }
      else n in
    let (rest', n'') = reap_slots now rest n' in (s' ∷ rest', n'')

unfoldable pub reap : ℕ → Nat → Nat
reap now w =
    let (slots', n) = reap_slots now w.ct.slots w.counts in
    record { ct = record (w.ct) { slots = slots' }; counts = n }
