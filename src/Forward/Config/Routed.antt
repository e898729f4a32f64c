-- ===== src/Forward/Config/Routed.antt =====
-- Which frames src/forward.rs forwards.
use pico_10base_t_rs.Prelude.{
  ℕ, ◌≤◌, ◌≡◌, ◌≢◌, ◌↔◌, refl, Bool, true, false, none, some, List, arith, length, slice, rd16,
  rd32, bytes_eq, bytes_eq→eq, bytes_eq_refl, Bool-cases, Option-cases, inl, inr, ap, ◌∙◌,
}
use pico_10base_t_rs.Forward.Config.{
  IfaceCfg, local, transit, drop, accept, classify, ipv4_dst, ethertype_ipv4,
}

pub ipv4_dst_iff :
    (frame : List ℕ) (dst : ℕ)
    → (ipv4_dst frame ≡ some dst)
      ↔ ((34 ≤ length frame) × (rd16 frame 12 ≡ ethertype_ipv4) × (rd32 frame 30 ≡ dst))
unfolding ipv4_dst
ipv4_dst_iff frame dst = ground arith

-- A frame for the router: unicast IPv4 to the MAC of an interface that has an address, but not to
-- that address.
pub record IsRouted {Cidr : Type 0} (cfg : IfaceCfg Cidr) (frame : List ℕ) : Type 0 where
  pub has_ip : cfg.our_ip ≢ 0
  pub to_us : slice frame 0 6 ≡ cfg.our_mac
  pub long : 34 ≤ length frame
  pub is_ipv4 : rd16 frame 12 ≡ ethertype_ipv4
  pub dst_ne : rd32 frame 30 ≢ cfg.our_ip

module _ {Cidr : Type 0} (contains_addr : Cidr → ℕ → Bool) (cfg : IfaceCfg Cidr)
    (frame : List ℕ) where
  mac_test : (bytes_eq (slice frame 0 6) cfg.our_mac ≡ true) ↔ (slice frame 0 6 ≡ cfg.our_mac)
  mac_test = (
    bytes_eq→eq _ _,
    λ e. ap (λ (b : List ℕ). bytes_eq b cfg.our_mac) e ∙ bytes_eq_refl cfg.our_mac,
  )

  classify-routed :
      IsRouted cfg frame
      → classify contains_addr cfg frame ≡ accept contains_addr cfg.accept_dst (rd32 frame 30)
  unfolding classify
  classify-routed r =
      ground (
        arith,
        mac_test.1 r.to_us,
        (ipv4_dst_iff frame (rd32 frame 30)).1 (r.long, r.is_ipv4, refl),
      )

  classify-not_local : classify contains_addr cfg frame ≢ local → IsRouted cfg frame
  unfolding classify
  classify-not_local h = elim (Option-cases (ipv4_dst frame)) [
    | inl none_found ↦ absurd (h (ground arith))
    | inr (dst, e) ↦
        let d = (ipv4_dst_iff frame dst).0 e in
        record {
          has_ip = λ z. h (ground arith);
          to_us = elim (Bool-cases (bytes_eq (slice frame 0 6) cfg.our_mac)) [
            | inl same ↦ mac_test.0 same
            | inr differs ↦ absurd (h (ground arith))
          ];
          long = d.0;
          is_ipv4 = d.1;
          dst_ne = λ same. h (ground (arith, d.2));
        }
  ]

  -- A frame is not left to the local stack exactly when it is for the router. It is then forwarded
  -- if there is no filter or the filter's subnet has its destination, and dropped if not.
  pub classify_iff :
      ((classify contains_addr cfg frame ≢ local) ↔ IsRouted cfg frame)
      × (IsRouted cfg frame → cfg.accept_dst ≡ none → classify contains_addr cfg frame ≡ transit)
      × ((net : Cidr)
          → IsRouted cfg frame
          → cfg.accept_dst ≡ some net
          → ((classify contains_addr cfg frame ≡ transit)
              ↔ (contains_addr net (rd32 frame 30) ≡ true))
            × ((classify contains_addr cfg frame ≡ drop)
                ↔ (contains_addr net (rd32 frame 30) ≡ false)))
  unfolding accept
  classify_iff = (
    (classify-not_local, λ r. routed_not_local r),
    λ r e. ground (arith, classify-routed r),
    λ net r e. ground (arith, classify-routed r),
  )
    where
      routed_not_local : IsRouted cfg frame → classify contains_addr cfg frame ≢ local
      routed_not_local r = ground (arith, classify-routed r)
