-- ===== src/Wan.antt =====
-- The WAN client of src/wan.rs. The interface and the sockets of smoltcp are a parameter, with what
-- they do to the addresses, the default route and the DNS servers of the interface as laws.
pub mod Mirror
pub mod Steps
mod Tests
use pico_10base_t_rs.Prelude.{
  ℕ, zero, suc, ◌<◌, ◌≤◌, ◌≡◌, Bool, true, false, not, ◌&&◌, ◌||◌, Option, none, some, List, [],
  ◌∷◌, if◌then◌else◌, ◌==◌, take, wrapping_add16, wrapping_add32,
}

pub record Ipv4Cidr : Type 0 where
  pub address : ℕ
  pub prefix_len : ℕ

abbrev pub ping_target : ℕ
ping_target = 0x08080808

abbrev pub icmp_ident : ℕ
icmp_ident = 0x42

pub record Config : Type 0 where
  pub address : Ipv4Cidr
  pub router : Option ℕ
  pub dns_servers : List ℕ

-- What `poll` of the DHCP socket reports.
pub data Event : Type 0 where
  deconfigured : Event
  configured : Config → Event

pub data QueryResult : Type 0 where
  answers : List ℕ → QueryResult
  pending failed : QueryResult

-- A parsed ICMP message: an echo reply with its identifier, or another one.
pub data Icmp : Type 0 where
  echo_reply : ℕ → Icmp
  other : Icmp

pub record View : Type 0 where
  pub addrs : List Ipv4Cidr
  pub route : Option ℕ
  pub servers : List ℕ

-- The calls of smoltcp. A Boolean result says that the call did not fail.
pub record Net : Type 1 where
  pub S : Type 0
  pub Handle : Type 0
  pub view : S → View
  pub update_ip_addrs : (List Ipv4Cidr → List Ipv4Cidr) → S → S
  pub remove_default_ipv4_route : S → S
  pub add_default_ipv4_route : ℕ → S → S
  pub update_servers : List ℕ → S → S
  pub start_query : S → Option Handle × S
  pub get_query_result : Handle → S → QueryResult × S
  pub is_open : S → Bool
  pub bind : ℕ → S → Bool × S
  pub can_send : S → Bool
  pub send_echo : ℕ → ℕ → ℕ → S → Bool × S
  pub can_recv : S → Bool
  pub recv : S → Option (List ℕ) × S
  pub new_checked : List ℕ → Bool
  pub parse : List ℕ → Option Icmp

-- What the code relies on: each call changes what it names and nothing else that can be seen, the
-- route table has room for one default route, and a receive takes a packet from the backlog. The DNS
-- socket keeps the servers up to DNS_MAX_SERVER_COUNT, which the build of smoltcp sets.
pub record NetLaws (n : Net) : Type 0 where
  pub backlog : n.S → ℕ
  pub dns_max_server_count : ℕ
  pub some_server : 1 ≤ dns_max_server_count
  pub view-update_ip_addrs :
      (f : List Ipv4Cidr → List Ipv4Cidr) (s : n.S)
      → n.view (n.update_ip_addrs f s) ≡ record (n.view s) { addrs = f ((n.view s).addrs) }
  pub view-remove :
      (s : n.S) → n.view (n.remove_default_ipv4_route s) ≡ record (n.view s) { route = none }
  pub view-add :
      (gw : ℕ) (s : n.S)
      → (n.view s).route ≡ none
      → n.view (n.add_default_ipv4_route gw s) ≡ record (n.view s) { route = some gw }
  pub view-update_servers :
      (l : List ℕ) (s : n.S)
      → n.view (n.update_servers l s) ≡ record (n.view s) { servers = take dns_max_server_count l }
  pub view-start_query : (s : n.S) → n.view ((n.start_query s).1) ≡ n.view s
  pub view-get_query_result :
      (h : n.Handle) (s : n.S) → n.view ((n.get_query_result h s).1) ≡ n.view s
  pub view-bind : (ident : ℕ) (s : n.S) → n.view ((n.bind ident s).1) ≡ n.view s
  pub view-send_echo :
      (ident seq target : ℕ) (s : n.S) → n.view ((n.send_echo ident seq target s).1) ≡ n.view s
  pub view-recv : (s : n.S) → n.view ((n.recv s).1) ≡ n.view s
  pub backlog-can_recv : (s : n.S) → backlog s ≡ 0 → n.can_recv s ≡ false
  pub backlog-recv : (s : n.S) → n.can_recv s ≡ true → backlog ((n.recv s).1) < backlog s

pub record WanState (Handle : Type 0) : Type 0 where
  pub addr : Option Ipv4Cidr
  pub gw : Option ℕ
  pub dns0 : Option ℕ
  pub ping_seq : ℕ
  pub ping_sent : ℕ
  pub ping_ok : ℕ
  pub dns_query : Option Handle
  pub resolved : Option ℕ

abbrev pub new_wan : {Handle : Type 0} → WanState Handle
new_wan = record {
  addr = none;
  gw = none;
  dns0 = none;
  ping_seq = 0;
  ping_sent = 0;
  ping_ok = 0;
  dns_query = none;
  resolved = none;
}

-- `first().copied()`.
abbrev pub first : List ℕ → Option ℕ
first [] = none
first (x ∷ xs) = some x

module _ (n : Net) where
  open n use {
    S, Handle, update_ip_addrs, remove_default_ipv4_route, add_default_ipv4_route, update_servers,
    start_query, get_query_result, is_open, bind, can_send, send_echo, can_recv, recv, new_checked,
    parse,
  }

  -- The default route of a lease, if it names a router.
  unfoldable pub add_router : Option ℕ → S → S
  add_router none s = s
  add_router (some gw) s = add_default_ipv4_route gw s

  -- At most four servers fit.
  unfoldable pub configure : Config → S → WanState Handle → S × WanState Handle
  configure cfg s wan = (
    update_servers (take 4 cfg.dns_servers) (
        add_router cfg.router
          (remove_default_ipv4_route (update_ip_addrs (λ addrs. cfg.address ∷ []) s))),
    record wan {
      addr = some cfg.address;
      gw = cfg.router;
      dns0 = first cfg.dns_servers;
      dns_query = none;
    },
  )

  unfoldable pub dhcp_apply : Option Event → S → WanState Handle → S × WanState Handle
  dhcp_apply none s wan = (s, wan)
  dhcp_apply (some deconfigured) s wan =
      (update_servers [] (remove_default_ipv4_route (update_ip_addrs (λ addrs. []) s)), new_wan)
  dhcp_apply (some (configured cfg)) s wan = configure cfg s wan

  unfoldable pub send_ping : S → WanState Handle → S × WanState Handle
  send_ping s wan =
      if can_send s
      then (let (sent, s') = send_echo icmp_ident wan.ping_seq ping_target s in
          (
            s',
            if sent
                then record wan {
                  ping_seq = wrapping_add16 wan.ping_seq 1;
                  ping_sent = wrapping_add32 wan.ping_sent 1;
                }
                else wan,
          ))
      else (s, wan)

  -- A socket that is not open is bound first, and a bind that fails ends the call.
  unfoldable pub ping_send : S → WanState Handle → S × WanState Handle
  ping_send s wan =
      if is_open s
      then send_ping s wan
      else (let (bound, s') = bind icmp_ident s in if bound then send_ping s' wan else (s', wan))

  -- A reply counts if it has our identifier.
  unfoldable pub count_reply : List ℕ → WanState Handle → WanState Handle
  count_reply payload wan =
      if new_checked payload
      then (elim (parse payload) [
        | some (echo_reply ident) ↦
            if ident == icmp_ident
            then record wan { ping_ok = wrapping_add32 wan.ping_ok 1 }
            else wan
        | some other ↦ wan
        | none ↦ wan
      ])
      else wan

  -- `none` is the end of the fuel.
  unfoldable pub ping_drain : ℕ → S → WanState Handle → Option (S × WanState Handle)
  ping_drain zero s wan = none
  ping_drain (suc fuel) s wan =
      if can_recv s
      then (let (got, s') = recv s in
          elim got [
            | none ↦ some (s', wan)
            | some payload ↦ ping_drain fuel s' (count_reply payload wan)
          ])
      else some (s, wan)

  unfoldable pub query : S → WanState Handle → S × WanState Handle
  query s wan =
      let (started, s') = start_query s in
      (s', elim started [ some handle ↦ record wan { dns_query = some handle } | none ↦ wan ])

  unfoldable pub dns_start : S → WanState Handle → S × WanState Handle
  dns_start s wan = elim wan.dns_query [
    | some handle ↦ (s, wan)
    | none ↦ elim wan.dns0 [ none ↦ (s, wan) | some server ↦ query s wan ]
  ]

  unfoldable pub note_result : QueryResult → WanState Handle → WanState Handle
  note_result (answers addrs) wan = record wan { dns_query = none; resolved = first addrs }
  note_result pending wan = wan
  note_result failed wan = record wan { dns_query = none }

  unfoldable pub dns_harvest : S → WanState Handle → S × WanState Handle
  dns_harvest s wan = elim wan.dns_query [
    | none ↦ (s, wan)
    | some handle ↦ (let (result, s') = get_query_result handle s in (s', note_result result wan))
  ]
