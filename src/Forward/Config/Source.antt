-- ===== src/Forward/Config/Source.antt =====
-- The source that a frame shows, as src/forward.rs reads it.
use pico_10base_t_rs.Prelude.{
  ℕ, ◌+◌, ◌≤◌, ◌≡◌, ◌⊎◌, Bool, true, ◌&&◌, some, none, List, [], ◌∷◌, arith, leb, ◌==◌, length,
  Bool-cases, inl, inr, sym, ap, ◌∙◌, rd16, rd32, slice, bytes_eq, bytes_eq→eq, bytes_eq_refl,
  some_inj, if-true, if-false,
}
use pico_10base_t_rs.Forward.Neighbor.{Mac}
use pico_10base_t_rs.Forward.Config.{source_of, ethertype_arp, ethertype_ipv4, arp_eth_ipv4_prefix}

-- The ARP packet over Ethernet and IPv4 in a frame names its sender: address and MAC.
pub record IsArpSender (frame : List ℕ) (ip : ℕ) (mac : Mac) : Type 0 where
  pub ethertype : rd16 frame 12 ≡ 0x0806
  pub long : 42 ≤ length frame
  pub header : slice frame 14 20 ≡ 0x00 ∷ 0x01 ∷ 0x08 ∷ 0x00 ∷ 0x06 ∷ 0x04 ∷ []
  pub sender_ip : ip ≡ rd32 frame 28
  pub sender_mac : mac ≡ slice frame 22 28

-- The IPv4 packet in a frame names its source, and the frame the MAC.
pub record IsIpv4Source (frame : List ℕ) (ip : ℕ) (mac : Mac) : Type 0 where
  pub ethertype : rd16 frame 12 ≡ 0x0800
  pub long : 34 ≤ length frame
  pub source_ip : ip ≡ rd32 frame 26
  pub source_mac : mac ≡ slice frame 6 12

abbrev pub IsSource : List ℕ → ℕ → Mac → Type 0
IsSource frame ip mac = IsArpSender frame ip mac ⊎ IsIpv4Source frame ip mac

abbrev is_arp : List ℕ → Bool
is_arp frame =
    rd16 frame 12 == ethertype_arp
    && (leb (14 + 28) (length frame) && bytes_eq (slice frame 14 20) arp_eth_ipv4_prefix)

source_of-arp :
    (frame : List ℕ)
    → is_arp frame ≡ true
    → source_of frame ≡ some (rd32 frame 28, slice frame 22 28)
unfolding source_of
source_of-arp frame e = if-true (is_arp frame) _ _ e

pub source_of-IsSource :
    (frame : List ℕ) (ip : ℕ) (mac : Mac) → source_of frame ≡ some (ip, mac) → IsSource frame ip mac
unfolding source_of
source_of-IsSource frame ip mac e = elim (Bool-cases (is_arp frame)) [
  | inl arp ↦
      let pair = some_inj (sym (source_of-arp frame arp) ∙ e) in
      inl record {
        ethertype = ground arith;
        long = ground arith;
        header = bytes_eq→eq _ _ (ground arith);
        sender_ip = sym (ap (λ (p : ℕ × Mac). p.0) pair);
        sender_mac = sym (ap (λ (p : ℕ × Mac). p.1) pair);
      }
  | inr plain ↦
      elim (Bool-cases (rd16 frame 12 == ethertype_ipv4 && leb (14 + 20) (length frame))) [
        | inl ipv4 ↦
            let shown : source_of frame ≡ some (rd32 frame 26, slice frame 6 12) =
              if-false (is_arp frame) _ _ plain
              ∙ if-true (rd16 frame 12 == ethertype_ipv4 && leb (14 + 20) (length frame)) _ _
                  ipv4 in
            let pair = some_inj (sym shown ∙ e) in
            inr record {
              ethertype = ground arith;
              long = ground arith;
              source_ip = sym (ap (λ (p : ℕ × Mac). p.0) pair);
              source_mac = sym (ap (λ (p : ℕ × Mac). p.1) pair);
            }
        | inr other ↦
            let silent : source_of frame ≡ none =
              if-false (is_arp frame) _ _ plain
              ∙ if-false (rd16 frame 12 == ethertype_ipv4 && leb (14 + 20) (length frame)) _ _
                  other in
            absurd (cc)
      ]
]

pub IsSource-source_of :
    (frame : List ℕ) (ip : ℕ) (mac : Mac) → IsSource frame ip mac → source_of frame ≡ some (ip, mac)
unfolding source_of
IsSource-source_of frame ip mac (inl s) =
    let same : bytes_eq (slice frame 14 20) arp_eth_ipv4_prefix ≡ true =
      ap (λ (b : List ℕ). bytes_eq b arp_eth_ipv4_prefix) s.header
      ∙ bytes_eq_refl arp_eth_ipv4_prefix in
    let kind = s.ethertype in
    let long = s.long in
    source_of-arp frame (ground arith)
    ∙ ap (λ (p : ℕ × Mac). some p)
        (sym (ap (λ (k : ℕ). (k, slice frame 22 28)) s.sender_ip)
          ∙ sym (ap (λ (m : Mac). (ip, m)) s.sender_mac))
IsSource-source_of frame ip mac (inr s) =
    let kind = s.ethertype in
    let long = s.long in
    if-false (is_arp frame) _ _ (ground arith)
    ∙ if-true (rd16 frame 12 == ethertype_ipv4 && leb (14 + 20) (length frame)) _ _ (ground arith)
    ∙ ap (λ (p : ℕ × Mac). some p)
        (sym (ap (λ (k : ℕ). (k, slice frame 6 12)) s.source_ip)
          ∙ sym (ap (λ (m : Mac). (ip, m)) s.source_mac))
