-- ===== src/Wan/Mirror.antt =====
-- The lease of src/wan.rs against the interface that it configures.
use pico_10base_t_rs.Prelude.{
  ℕ, zero, suc, ◌<◌, ◌≤◌, ◌≡◌, refl, ap, ◌∙◌, inl, inr, Option, none, some, List, [], ◌∷◌, take,
  arith, Bool-cases, Option-cases, ◌==◌,
}
use pico_10base_t_rs.Wan.{
  Ipv4Cidr, Config, Event, deconfigured, configured, QueryResult, answers, pending, failed,
  echo_reply, other, View, Net, NetLaws, WanState, first, add_router, configure, dhcp_apply,
  send_ping, ping_send, count_reply, ping_drain, query, dns_start, note_result, dns_harvest,
  icmp_ident, ping_target,
}

abbrev pub as_list : Option Ipv4Cidr → List Ipv4Cidr
as_list none = []
as_list (some c) = c ∷ []

-- What the interface has is what the lease gives, and nothing is left of a lease that is gone.
pub record IsMirrored (n : Net) (s : n.S) (wan : WanState n.Handle) : Type 0 where
  pub address : (n.view s).addrs ≡ as_list wan.addr
  pub route : (n.view s).route ≡ wan.gw
  pub server : first ((n.view s).servers) ≡ wan.dns0
  pub unleased : wan.addr ≡ none → (wan.gw ≡ none) × (wan.dns0 ≡ none)
  pub idle : wan.dns0 ≡ none → wan.dns_query ≡ none

first-take : (k : ℕ) (l : List ℕ) → 1 ≤ k → first (take k l) ≡ first l
first-take zero l h = absurd (omega arith)
first-take (suc k) [] h = refl
first-take (suc k) (x ∷ l) h = refl

module _ (n : Net) (laws : NetLaws n) where
  open n use {S, Handle, view}

  -- A call that cannot be seen keeps the mirror.
  unseen :
      (s s' : S) (wan : WanState Handle)
      → view s' ≡ view s
      → IsMirrored n s wan
      → IsMirrored n s' wan
  unseen s s' wan e w = record {
    address = ap (λ (v : View). v.addrs) e ∙ w.address;
    route = ap (λ (v : View). v.route) e ∙ w.route;
    server = ap (λ (v : View). first v.servers) e ∙ w.server;
    unleased = w.unleased;
    idle = w.idle;
  }

  add_router-view :
      (router : Option ℕ) (s : S)
      → (view s).route ≡ none
      → view (add_router n router s) ≡ record (view s) { route = router }
  unfolding add_router
  add_router-view none s e = ap (λ r. record (view s) { route = r }) e
  add_router-view (some gw) s e = laws.view-add gw s e

  -- The interface with new addresses and no route.
  cleared-view :
      (addrs : List Ipv4Cidr) (s : S)
      → view (n.remove_default_ipv4_route (n.update_ip_addrs (λ old. addrs) s))
        ≡ record { addrs = addrs; route = none; servers = (view s).servers }
  cleared-view addrs s =
      laws.view-remove (n.update_ip_addrs (λ old. addrs) s)
      ∙ ap (λ (v : View). record v { route = none }) (laws.view-update_ip_addrs (λ old. addrs) s)

  configure-view :
      (cfg : Config) (s : S) (wan : WanState Handle)
      → view ((configure n cfg s wan).0) ≡ record {
        addrs = cfg.address ∷ [];
        route = cfg.router;
        servers = take laws.dns_max_server_count (take 4 cfg.dns_servers);
      }
  unfolding configure
  configure-view cfg s wan =
      let clear = cleared-view (cfg.address ∷ []) s in
      laws.view-update_servers (take 4 cfg.dns_servers) _
      ∙ ap
          (λ (v : View). record v {
            servers = take laws.dns_max_server_count (take 4 cfg.dns_servers);
          })
          (add_router-view cfg.router _ (ap (λ (v : View). v.route) clear)
            ∙ ap (λ (v : View). record v { route = cfg.router }) clear)

  pub dhcp_apply-IsMirrored :
      (event : Option Event) (s : S) (wan : WanState Handle)
      → IsMirrored n s wan
      → IsMirrored n ((dhcp_apply n event s wan).0) ((dhcp_apply n event s wan).1)
  unfolding dhcp_apply configure
  dhcp_apply-IsMirrored none s wan w = w
  dhcp_apply-IsMirrored (some deconfigured) s wan w =
      let seen =
        laws.view-update_servers [] _
        ∙ ap (λ (v : View). record v { servers = take laws.dns_max_server_count [] })
            (cleared-view [] s) in
      record {
        address = ap (λ (v : View). v.addrs) seen;
        route = ap (λ (v : View). v.route) seen;
        server =
            ap (λ (v : View). first v.servers) seen
            ∙ first-take laws.dns_max_server_count [] laws.some_server;
        unleased = λ e. (refl, refl);
        idle = λ e. refl;
      }
  dhcp_apply-IsMirrored (some (configured cfg)) s wan w =
      let seen = configure-view cfg s wan in
      record {
        address = ap (λ (v : View). v.addrs) seen;
        route = ap (λ (v : View). v.route) seen;
        server =
            ap (λ (v : View). first v.servers) seen
            ∙ first-take laws.dns_max_server_count (take 4 cfg.dns_servers) laws.some_server
            ∙ first-take 4 cfg.dns_servers (omega arith);
        unleased = λ e. absurd (ground (arith, e));
        idle = λ e. refl;
      }

  send_ping-IsMirrored :
      (s : S) (wan : WanState Handle)
      → IsMirrored n s wan
      → IsMirrored n ((send_ping n s wan).0) ((send_ping n s wan).1)
  unfolding send_ping
  send_ping-IsMirrored s wan w = elim (Bool-cases (n.can_send s)) [
    | inr full ↦ rw full w
    | inl room ↦
        let (sent, s') = n.send_echo icmp_ident wan.ping_seq ping_target s in
        let kept = unseen s s' wan (laws.view-send_echo icmp_ident wan.ping_seq ping_target s) w in
        rw room (elim (Bool-cases sent) [
          | inl done ↦ rw done record {
            address = kept.address;
            route = kept.route;
            server = kept.server;
            unleased = kept.unleased;
            idle = kept.idle;
          }
          | inr refused ↦ rw refused kept
        ])
  ]

  pub ping_send-IsMirrored :
      (s : S) (wan : WanState Handle)
      → IsMirrored n s wan
      → IsMirrored n ((ping_send n s wan).0) ((ping_send n s wan).1)
  unfolding ping_send
  ping_send-IsMirrored s wan w = elim (Bool-cases (n.is_open s)) [
    | inl open_now ↦ rw open_now (send_ping-IsMirrored s wan w)
    | inr shut ↦
        let (bound, s') = n.bind icmp_ident s in
        let kept = unseen s s' wan (laws.view-bind icmp_ident s) w in
        rw shut (elim (Bool-cases bound) [
          | inl done ↦ rw done (send_ping-IsMirrored s' wan kept)
          | inr refused ↦ rw refused kept
        ])
  ]

  count_reply-IsMirrored :
      (payload : List ℕ) (s : S) (wan : WanState Handle)
      → IsMirrored n s wan
      → IsMirrored n s (count_reply n payload wan)
  unfolding count_reply
  count_reply-IsMirrored payload s wan w = elim (Bool-cases (n.new_checked payload)) [
    | inr broken ↦ rw (count_reply, broken) w
    | inl whole ↦ elim (Option-cases (n.parse payload)) [
      | inl unclear ↦ rw (count_reply, whole, unclear) w
      | inr (other, e) ↦ rw (count_reply, whole, e) w
      | inr (echo_reply ident, e) ↦ elim (Bool-cases (ident == icmp_ident)) [
        | inr foreign ↦ rw (count_reply, whole, e, foreign) w
        | inl ours ↦
            rw (count_reply, whole, e, ours)
              record {
                address = w.address;
                route = w.route;
                server = w.server;
                unleased = w.unleased;
                idle = w.idle;
              }
      ]
    ]
  ]

  -- A drain ends when the fuel exceeds the backlog.
  pub ping_drain-IsMirrored :
      (fuel : ℕ) (s : S) (wan : WanState Handle)
      → IsMirrored n s wan
      → laws.backlog s < fuel
      → (s' : S) × (wan' : WanState Handle) × (ping_drain n fuel s wan ≡ some (s', wan'))
        × IsMirrored n s' wan'
  unfolding ping_drain
  ping_drain-IsMirrored zero s wan w enough = absurd (omega arith)
  ping_drain-IsMirrored (suc fuel) s wan w enough = elim (Bool-cases (n.can_recv s)) [
    | inr drained ↦ (s, wan, rw (ping_drain, drained) refl, w)
    | inl more ↦
        let s' = (n.recv s).1 in
        let kept = unseen s s' wan (laws.view-recv s) w in
        let less = laws.backlog-recv s more in
        elim (Option-cases ((n.recv s).0)) [
          | inl broken ↦ (s', wan, rw (ping_drain, more, broken) refl, kept)
          | inr (payload, e) ↦
              let rest =
                ping_drain-IsMirrored fuel s' (count_reply n payload wan)
                  (count_reply-IsMirrored payload s' wan kept) (omega arith) in
              (rest.0, rest.1, rw (ping_drain, more, e) (rest.2), rest.3)
        ]
  ]

  pub dns_start-IsMirrored :
      (s : S) (wan : WanState Handle)
      → IsMirrored n s wan
      → IsMirrored n ((dns_start n s wan).0) ((dns_start n s wan).1)
  unfolding dns_start query
  dns_start-IsMirrored s wan w = elim (Option-cases wan.dns_query) [
    | inr (handle, e) ↦ rw (dns_start, e) w
    | inl none_yet ↦ elim (Option-cases wan.dns0) [
      | inl unknown ↦ rw (dns_start, none_yet, unknown) w
      | inr (server, e) ↦
          let (started, s') = n.start_query s in
          let kept = unseen s s' wan (laws.view-start_query s) w in
          rw (dns_start, none_yet, e)
            (elim (Option-cases started) [
              | inl refused ↦ rw (query, refused) kept
              | inr (handle, e') ↦
                  rw (query, e')
                    record {
                      address = kept.address;
                      route = kept.route;
                      server = kept.server;
                      unleased = kept.unleased;
                      idle = λ gone. absurd (ground (arith, e, gone));
                    }
            ])
    ]
  ]

  note_result-IsMirrored :
      (result : QueryResult) (s : S) (wan : WanState Handle)
      → IsMirrored n s wan
      → IsMirrored n s (note_result n result wan)
  unfolding note_result
  note_result-IsMirrored (answers addrs) s wan w = record {
    address = w.address;
    route = w.route;
    server = w.server;
    unleased = w.unleased;
    idle = λ e. refl;
  }
  note_result-IsMirrored pending s wan w = w
  note_result-IsMirrored failed s wan w = record {
    address = w.address;
    route = w.route;
    server = w.server;
    unleased = w.unleased;
    idle = λ e. refl;
  }

  pub dns_harvest-IsMirrored :
      (s : S) (wan : WanState Handle)
      → IsMirrored n s wan
      → IsMirrored n ((dns_harvest n s wan).0) ((dns_harvest n s wan).1)
  unfolding dns_harvest
  dns_harvest-IsMirrored s wan w = elim (Option-cases wan.dns_query) [
    | inl none_yet ↦ rw (dns_harvest, none_yet) w
    | inr (handle, e) ↦
        let s' = (n.get_query_result handle s).1 in
        let kept = unseen s s' wan (laws.view-get_query_result handle s) w in
        rw (dns_harvest, e) (note_result-IsMirrored ((n.get_query_result handle s).0) s' wan kept)
  ]
