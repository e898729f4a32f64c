-- ===== src/Wan/Tests.antt =====
-- A run of the client of src/wan.rs over an interface that keeps what it is told, but only one DNS
-- server, and never receives.
use pico_10base_t_rs.Prelude.{ℕ, take, ◌≡◌, refl, true, false, none, some, [], ◌∷◌, arith}
use pico_10base_t_rs.Wan.{
  Config, configured, answers, View, Net, NetLaws, WanState, new_wan, dhcp_apply, dns_start,
  dns_harvest, configure, add_router, query, note_result,
}
use pico_10base_t_rs.Wan.Mirror.{IsMirrored}
use pico_10base_t_rs.Wan.Steps.{lease, ask, harvest, Reaches, start, next, Reaches-IsMirrored}

abbrev net : Net
net = record {
  S = View;
  Handle = ℕ;
  view = λ s. s;
  update_ip_addrs = λ f s. record s { addrs = f s.addrs };
  remove_default_ipv4_route = λ s. record s { route = none };
  add_default_ipv4_route = λ gw s. record s { route = some gw };
  update_servers = λ l s. record s { servers = take 1 l };
  start_query = λ s. (some 0, s);
  get_query_result = λ h s. (answers (0x5DB8D822 ∷ []), s);
  is_open = λ s. true;
  bind = λ ident s. (true, s);
  can_send = λ s. true;
  send_echo = λ ident seq target s. (true, s);
  can_recv = λ s. false;
  recv = λ s. (none, s);
  new_checked = λ payload. true;
  parse = λ payload. none;
}

net_laws : NetLaws net
net_laws = record {
  backlog = λ s. 0;
  dns_max_server_count = 1;
  some_server = omega arith;
  view-update_ip_addrs = λ f s. refl;
  view-remove = λ s. refl;
  view-add = λ gw s e. refl;
  view-update_servers = λ l s. refl;
  view-start_query = λ s. refl;
  view-get_query_result = λ h s. refl;
  view-bind = λ ident s. refl;
  view-send_echo = λ ident seq target s. refl;
  view-recv = λ s. refl;
  backlog-can_recv = λ s e. refl;
  backlog-recv = λ s e. absurd (ground (arith, e));
}

abbrev boot : View
boot = record { addrs = []; route = none; servers = [] }

abbrev offer : Config
offer = record {
  address = record { address = 0x0A000002; prefix_len = 24 };
  router = some 0x0A000001;
  dns_servers = 0x01010101 ∷ 0x08080808 ∷ [];
}

-- The lease, and a query that is answered.
abbrev leased : View × WanState ℕ
leased = dhcp_apply net (some (configured offer)) boot new_wan

abbrev asked : View × WanState ℕ
asked = dns_start net (leased.0) (leased.1)

abbrev resolved : View × WanState ℕ
resolved = dns_harvest net (asked.0) (asked.1)

run : Reaches net net_laws boot (resolved.0) (resolved.1)
run =
    next (asked.0) (asked.1) _ _
      (next (leased.0) (leased.1) _ _
        (next boot new_wan _ _ start (lease (some (configured offer)) boot new_wan))
        (ask (leased.0) (leased.1)))
      (harvest (asked.0) (asked.1))

Reaches-IsMirrored_example : IsMirrored net (resolved.0) (resolved.1)
Reaches-IsMirrored_example = Reaches-IsMirrored net net_laws boot (resolved.0) (resolved.1) refl run

run_resolves : resolved.1.resolved ≡ some 0x5DB8D822
unfolding dhcp_apply configure add_router dns_start query dns_harvest note_result
run_resolves = refl
