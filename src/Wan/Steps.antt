-- ===== src/Wan/Steps.antt =====
-- The steps of the client of src/wan.rs, and what holds after any of them.
use pico_10base_t_rs.Prelude.{
  suc, ◌≡◌, refl, ap, sym, ◌∙◌, Option, none, some, [], arith, subst, some_inj,
}
use pico_10base_t_rs.Wan.{
  Event, View, Net, NetLaws, WanState, new_wan, first, dhcp_apply, ping_send, ping_drain, dns_start,
  dns_harvest,
}
use pico_10base_t_rs.Wan.Mirror.{
  IsMirrored, dhcp_apply-IsMirrored, ping_send-IsMirrored, ping_drain-IsMirrored,
  dns_start-IsMirrored, dns_harvest-IsMirrored,
}

module _ (n : Net) (laws : NetLaws n) where
  open n use {S, Handle, view}

  -- A step of the client: an event of the DHCP socket or none, a ping, a drain that ends, the start of
  -- a query, or a look at its result.
  pub data Step : S → WanState Handle → S → WanState Handle → Type 0 where
    lease :
        (event : Option Event) (s : S) (wan : WanState Handle)
        → Step s wan ((dhcp_apply n event s wan).0) ((dhcp_apply n event s wan).1)
    ping :
        (s : S) (wan : WanState Handle) → Step s wan ((ping_send n s wan).0) ((ping_send n s wan).1)
    drain :
        (s : S) (wan : WanState Handle) (s' : S) (wan' : WanState Handle)
        → ping_drain n (suc (laws.backlog s)) s wan ≡ some (s', wan')
        → Step s wan s' wan'
    ask :
        (s : S) (wan : WanState Handle) → Step s wan ((dns_start n s wan).0) ((dns_start n s wan).1)
    harvest :
        (s : S) (wan : WanState Handle)
        → Step s wan ((dns_harvest n s wan).0) ((dns_harvest n s wan).1)

  pub data Reaches (s : S) : S → WanState Handle → Type 0 where
    start : Reaches s s new_wan
    next :
        (s1 : S) (wan1 : WanState Handle) (s2 : S) (wan2 : WanState Handle)
        → Reaches s s1 wan1
        → Step s1 wan1 s2 wan2
        → Reaches s s2 wan2

  step-IsMirrored :
      (s : S) (wan : WanState Handle) (s' : S) (wan' : WanState Handle)
      → Step s wan s' wan'
      → IsMirrored n s wan
      → IsMirrored n s' wan'
  step-IsMirrored _ _ _ _ (lease event s wan) w = dhcp_apply-IsMirrored n laws event s wan w
  step-IsMirrored _ _ _ _ (ping s wan) w = ping_send-IsMirrored n laws s wan w
  step-IsMirrored _ _ _ _ (drain s wan s' wan' e) w =
      let drained = ping_drain-IsMirrored n laws (suc (laws.backlog s)) s wan w (omega arith) in
      subst (λ (p : S × WanState Handle). IsMirrored n (p.0) (p.1)) (some_inj (sym (drained.2) ∙ e))
        (drained.3)
  step-IsMirrored _ _ _ _ (ask s wan) w = dns_start-IsMirrored n laws s wan w
  step-IsMirrored _ _ _ _ (harvest s wan) w = dns_harvest-IsMirrored n laws s wan w

  -- From an interface without addresses, route and servers, after any steps of the client: the
  -- interface has the address, the default route and the first DNS server of the lease that the client
  -- state shows, nothing of them without a lease, and no query is in flight without a server.
  pub Reaches-IsMirrored :
      (boot s : S) (wan : WanState Handle)
      → view boot ≡ record { addrs = []; route = none; servers = [] }
      → Reaches boot s wan
      → IsMirrored n s wan
  Reaches-IsMirrored boot _ _ e start = record {
    address = ap (λ (v : View). v.addrs) e;
    route = ap (λ (v : View). v.route) e;
    server = ap (λ (v : View). first v.servers) e;
    unleased = λ z. (refl, refl);
    idle = λ z. refl;
  }
  Reaches-IsMirrored boot _ _ e (next s1 wan1 s2 wan2 reached step) =
      step-IsMirrored s1 wan1 s2 wan2 step (Reaches-IsMirrored boot s1 wan1 e reached)
