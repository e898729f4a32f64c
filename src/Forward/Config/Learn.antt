-- ===== src/Forward/Config/Learn.antt =====
-- What src/forward.rs learns from the source of a frame.
use pico_10base_t_rs.Prelude.{
  ℕ, ◌≤◌, ◌≡◌, ◌≢◌, ◌⊎◌, refl, Bool, true, ◌||◌, some, List, arith, ltb, ◌==◌, length, Bool-cases,
  Option-cases, inl, inr, sym, ap, ◌∙◌, some_inj, subst,
}
use pico_10base_t_rs.Forward.Neighbor.{NeighborTable, Mac, insert, lookup}
use pico_10base_t_rs.Forward.Neighbor.Laws.{IsValid, insert-IsValid, lookup-insert}
use pico_10base_t_rs.Forward.Neighbor.Sound.{lookup-insert_sound}
use pico_10base_t_rs.Forward.Config.Source.{IsSource, source_of-IsSource, IsSource-source_of}
use pico_10base_t_rs.Forward.Config.{
  Iface, lan, wan, Neighs, neigh, with_neigh, IfaceCfg, source_of, learn,
}

pub record AreValid (n : Neighs) : Type 0 where
  pub lan_valid : IsValid n.lan_neigh
  pub wan_valid : IsValid n.wan_neigh

pub neigh-IsValid : (i : Iface) (n : Neighs) → AreValid n → IsValid (neigh i n)
unfolding neigh
neigh-IsValid lan n v = v.lan_valid
neigh-IsValid wan n v = v.wan_valid

pub neigh-with_neigh :
    (i j : Iface) (t : NeighborTable) (n : Neighs)
    → (neigh i (with_neigh i t n) ≡ t) × (i ≢ j → neigh j (with_neigh i t n) ≡ neigh j n)
unfolding neigh with_neigh
neigh-with_neigh lan lan t n = (refl, λ ne. absurd (ne refl))
neigh-with_neigh lan wan t n = (refl, λ ne. refl)
neigh-with_neigh wan lan t n = (refl, λ ne. refl)
neigh-with_neigh wan wan t n = (refl, λ ne. absurd (ne refl))

with_neigh-AreValid :
    (i : Iface) (t : NeighborTable) (n : Neighs)
    → AreValid n
    → IsValid t
    → AreValid (with_neigh i t n)
unfolding with_neigh
with_neigh-AreValid lan t n v w = record { lan_valid = w; wan_valid = v.wan_valid }
with_neigh-AreValid wan t n v w = record { lan_valid = v.lan_valid; wan_valid = w }

Iface-cases : (i j : Iface) → (i ≡ j) ⊎ (i ≢ j)
Iface-cases lan lan = inl refl
Iface-cases lan wan = inr (λ e. cc)
Iface-cases wan lan = inr (λ e. cc)
Iface-cases wan wan = inl refl

module _ {Cidr : Type 0} (contains_addr : Cidr → ℕ → Bool) (cfg : IfaceCfg Cidr)
    (frame : List ℕ) where
  -- The interface has an address, and the frame shows a source on its subnet, in an ARP packet or as
  -- an IPv4 packet.
  abbrev pub Shows : ℕ → Mac → Type 0
  Shows ip mac =
      (14 ≤ length frame)
      × (cfg.our_ip ≢ 0)
      × IsSource frame ip mac
      × (contains_addr cfg.subnet ip ≡ true)

  learn-shown :
      (n : Neighs) (ip : ℕ) (mac : Mac)
      → Shows ip mac
      → learn contains_addr cfg frame n ≡ with_neigh cfg.iface (insert ip mac (neigh cfg.iface n)) n
  unfolding learn
  learn-shown n ip mac (long, has_ip, source, on) =
      let shown = IsSource-source_of frame ip mac source in ground arith

  learn_cases :
      (n : Neighs) → (learn contains_addr cfg frame n ≡ n) ⊎ ((ip : ℕ) × (mac : Mac) × Shows ip mac)
  unfolding learn
  learn_cases n = elim (Option-cases (source_of frame)) [
    | inl silent ↦ inl (ground arith)
    | inr ((ip, mac), e) ↦ elim (Bool-cases (contains_addr cfg.subnet ip)) [
      | inr off ↦ inl (ground arith)
      | inl on ↦ elim (Bool-cases (ltb (length frame) 14 || cfg.our_ip == 0)) [
        | inl early ↦ inl (ground arith)
        | inr late ↦
            inr (ip, mac, (ground arith, ground arith, source_of-IsSource frame ip mac e, on))
      ]
    ]
  ]

  -- If both tables are maps of at most eight addresses, the source that an ARP or an IPv4 packet shows,
  -- on the subnet of an interface that has an address, is looked up afterwards with the MAC it shows.
  pub lookup-learn :
      (n : Neighs) (ip : ℕ) (mac : Mac)
      → AreValid n
      → Shows ip mac
      → lookup (neigh cfg.iface (learn contains_addr cfg frame n)) ip ≡ some mac
  lookup-learn n ip mac v s =
      rw
        (
          learn-shown n ip mac s,
          (neigh-with_neigh cfg.iface cfg.iface (insert ip mac (neigh cfg.iface n)) n).0,
        )
        (lookup-insert ip mac (neigh cfg.iface n) (neigh-IsValid cfg.iface n v))

  shown_same :
      (n : Neighs) (src ip : ℕ) (src_mac mac : Mac)
      → src ≡ ip
      → AreValid n
      → Shows src src_mac
      → lookup (insert src src_mac (neigh cfg.iface n)) ip ≡ some mac
      → Shows ip mac
  shown_same n src ip src_mac mac e v s h =
      let known = lookup-insert src src_mac (neigh cfg.iface n) (neigh-IsValid cfg.iface n v) in
      let same_mac : src_mac ≡ mac =
        some_inj (sym known ∙ ap (lookup (insert src src_mac (neigh cfg.iface n))) e ∙ h) in
      subst (λ (a : ℕ). Shows a mac) e (subst (λ (m : Mac). Shows src m) same_mac s)

  -- If both tables are maps of at most eight addresses: whatever a table answers after a frame it
  -- answered before it, unless the frame shows just that address and MAC, as an ARP packet or an IPv4
  -- packet, on the subnet of the interface, and the table is that interface's.
  pub learn_sound :
      (n : Neighs) (i : Iface) (ip : ℕ) (mac : Mac)
      → AreValid n
      → lookup (neigh i (learn contains_addr cfg frame n)) ip ≡ some mac
      → (lookup (neigh i n) ip ≡ some mac) ⊎ ((cfg.iface ≡ i) × Shows ip mac)
  learn_sound n i ip mac v h = elim (learn_cases n) [
    | inl same ↦ inl (rw same at h)
    | inr (src, src_mac, s) ↦
        let t' = insert src src_mac (neigh cfg.iface n) in
        let tables = neigh-with_neigh cfg.iface i t' n in
        let h' = rw (learn-shown n src src_mac s) at h in
        elim (Iface-cases cfg.iface i) [
          | inr other ↦ inl (rw (tables.1 other) at h')
          | inl here ↦
              let at_i : lookup t' ip ≡ some mac =
                rw
                  (
                    ap (λ (j : Iface). neigh j (with_neigh cfg.iface t' n)) (sym here),
                    (neigh-with_neigh cfg.iface cfg.iface t' n).0,
                  )
                  at h' in
              elim (Bool-cases (src == ip)) [
                | inl same ↦ inr (here, shown_same n src ip src_mac mac (ground arith) v s at_i)
                | inr differs ↦ inl (
                    rw (← here) (
                      lookup-insert_sound src ip src_mac mac (neigh cfg.iface n)
                        (neigh-IsValid cfg.iface n v) (ground arith) at_i))
              ]
        ]
  ]

  -- Learning keeps both tables maps of at most eight addresses.
  pub learn-AreValid : (n : Neighs) → AreValid n → AreValid (learn contains_addr cfg frame n)
  learn-AreValid n v = elim (learn_cases n) [
    | inl same ↦ rw same v
    | inr (ip, mac, s) ↦ rw (learn-shown n ip mac s) (
        with_neigh-AreValid cfg.iface _ n v (insert-IsValid ip mac _ (neigh-IsValid cfg.iface n v)))
  ]
