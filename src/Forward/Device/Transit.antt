-- ===== src/Forward/Device/Transit.antt =====
-- What `classify_frame` of src/forward.rs calls transit, and that `egress` can take it: the slices of
-- L2 and IPv4 lie inside the frame.
use pico_10base_t_rs.Prelude.{
  ℕ, ◌+◌, ◌≤◌, ◌≡◌, ◌≢◌, inl, inr, refl, ap, ◌∙◌, true, false, not, ◌&&◌, Option, none, some, List,
  arith, length, length-write_at, be16, be32, Bool-cases, Option-cases, if-true, if-false, slice,
  rd16, rd32, ◌==◌, bytes_eq, bytes_eq_refl, bytes_eq→eq,
}
use pico_10base_t_rs.Conntrack.{Proto, tcp, udp, icmp_echo, proto_eq, Nat, inbound}
use pico_10base_t_rs.Forward.Config.{Class, transit, classify, ipv4_dst}
use pico_10base_t_rs.Forward.Config.Routed.{classify_iff}
use pico_10base_t_rs.Forward.Napt.{
  L4, parse_l4, fix_csum, fix_echo_csum, rewrite_id, napt_rewrite_src, napt_rewrite_dst,
}
use pico_10base_t_rs.Forward.Device.Interfaces.{Host}
use pico_10base_t_rs.Forward.Device.{Router, is_for_nat, remote_id, wan_id, restore, classify_frame}

length-fix_csum : (f : List ℕ) (l4 : L4) (a b c d : ℕ) → length (fix_csum f l4 a b c d) ≡ length f
unfolding fix_csum
length-fix_csum f l4 a b c d =
    elim (Bool-cases (not (proto_eq l4.proto udp && rd16 f l4.csum_off == 0))) [
      | inl on ↦ rw on (length-write_at f l4.csum_off _)
      | inr off ↦ rw off
    ]

length-rewrite_id :
    (p : Proto) (f : List ℕ) (l4 : L4) (port a b id : ℕ)
    → length (rewrite_id p f l4 port a b id) ≡ length f
unfolding rewrite_id fix_echo_csum
length-rewrite_id tcp f l4 port a b id =
    length-write_at _ port (be16 id) ∙ length-fix_csum f l4 a b _ id
length-rewrite_id udp f l4 port a b id =
    length-write_at _ port (be16 id) ∙ length-fix_csum f l4 a b _ id
length-rewrite_id icmp_echo f l4 port a b id =
    length-write_at _ (l4.l4_off + 4) (be16 id) ∙ length-write_at f l4.csum_off _

length-napt_rewrite_dst :
    (f : List ℕ) (l4 : L4) (ip id : ℕ) → length (napt_rewrite_dst f l4 ip id) ≡ length f
unfolding napt_rewrite_dst
length-napt_rewrite_dst f l4 ip id =
    length-write_at _ 30 (be32 ip)
    ∙ length-rewrite_id l4.proto f l4 (l4.l4_off + 2) (rd32 f 30) ip id

pub length-napt_rewrite_src :
    (f : List ℕ) (l4 : L4) (ip id : ℕ) → length (napt_rewrite_src f l4 ip id) ≡ length f
unfolding napt_rewrite_src
length-napt_rewrite_src f l4 ip id =
    length-write_at _ 26 (be32 ip) ∙ length-rewrite_id l4.proto f l4 l4.l4_off (rd32 f 26) ip id

module _ (h : Host) (frame : List ℕ) (ts : ℕ) (r : Router h) where
  -- A frame to the MAC and the address of a WAN device that has one.
  pub record IsForNat : Type 0 where
    pub nat_on : r.nat ≡ true
    pub has_ip : r.cfg.our_ip ≢ 0
    pub long : 34 ≤ length frame
    pub to_us : slice frame 0 6 ≡ r.cfg.our_mac
    pub to_ip : ipv4_dst frame ≡ some r.cfg.our_ip

  pub is_for_nat-IsForNat : is_for_nat h frame r ≡ true → IsForNat
  unfolding is_for_nat
  is_for_nat-IsForNat e = elim (Option-cases (ipv4_dst frame)) [
    | inl gone ↦ absurd (ground arith)
    | inr (dst, found) ↦ record {
      nat_on = ground arith;
      has_ip = ground arith;
      long = ground arith;
      to_us = bytes_eq→eq _ _ (ground arith);
      to_ip = ground arith;
    }
  ]

  pub is_for_nat-true : IsForNat → is_for_nat h frame r ≡ true
  unfolding is_for_nat
  is_for_nat-true n =
      let same : bytes_eq (slice frame 0 6) r.cfg.our_mac ≡ true =
        ap (λ (b : List ℕ). bytes_eq b r.cfg.our_mac) n.to_us ∙ bytes_eq_refl r.cfg.our_mac in
      ground (arith, n.to_ip)

  abbrev pub Outcome : Type 0
  Outcome = Class × List ℕ × Router h

  abbrev pub unchanged : Outcome
  unchanged = (classify h.contains_addr r.cfg frame, frame, r)

  pub restore-none :
      (l4 : L4) (out : Option (ℕ × ℕ) × Nat)
      → out.0 ≡ none
      → restore h frame l4 r out
        ≡ (classify h.contains_addr r.cfg frame, frame, record r { ct = out.1 })
  unfolding restore
  restore-none l4 (none, ct') e = refl
  restore-none l4 (some p, ct') e = absurd (cc)

  pub restore-some :
      (l4 : L4) (out : Option (ℕ × ℕ) × Nat) (ip id : ℕ)
      → out.0 ≡ some (ip, id)
      → restore h frame l4 r out
        ≡ (transit, napt_rewrite_dst frame l4 ip id, record r { ct = out.1 })
  unfolding restore
  restore-some l4 (none, ct') ip id e = absurd (cc)
  restore-some l4 (some (ip', id'), ct') ip id e =
      ap (λ (p : Option (ℕ × ℕ)). restore h frame l4 r (p, ct')) e

  abbrev pub by_header : Option L4 → Outcome
  by_header parsed = elim parsed [
    | none ↦ unchanged
    | some l4 ↦
        restore h frame l4 r
          (inbound l4.proto (rd32 frame 26) (remote_id l4) (wan_id l4) l4.tcp_flags ts r.ct)
  ]

  pub classify_frame-plain : is_for_nat h frame r ≡ false → classify_frame h frame ts r ≡ unchanged
  unfolding classify_frame
  classify_frame-plain e = if-false (is_for_nat h frame r) _ _ e

  pub classify_frame-no_header :
      is_for_nat h frame r ≡ true → parse_l4 frame ≡ none → classify_frame h frame ts r ≡ unchanged
  unfolding classify_frame
  classify_frame-no_header nat e = if-true (is_for_nat h frame r) _ _ nat ∙ ap by_header e

  pub classify_frame-nat :
      (l4 : L4)
      → IsForNat
      → parse_l4 frame ≡ some l4
      → classify_frame h frame ts r
        ≡ restore h frame l4 r
            (inbound l4.proto (rd32 frame 26) (remote_id l4) (wan_id l4) l4.tcp_flags ts r.ct)
  unfolding classify_frame
  classify_frame-nat l4 n e =
      if-true (is_for_nat h frame r) _ _ (is_for_nat-true n) ∙ ap by_header e

  classify-long : classify h.contains_addr r.cfg frame ≡ transit → 34 ≤ length frame
  classify-long e = ((classify_iff h.contains_addr r.cfg frame).0.0 (λ l. cc)).long

  restore-long :
      (l4 : L4) (out : Option (ℕ × ℕ) × Nat)
      → IsForNat
      → (restore h frame l4 r out).0 ≡ transit
      → 34 ≤ length (restore h frame l4 r out).1
  unfolding restore
  restore-long l4 (none, ct') n e = n.long
  restore-long l4 (some (ip, id), ct') n e = rw (length-napt_rewrite_dst frame l4 ip id) n.long

  -- A frame that `classify_frame` calls transit is at least 34 bytes long, also after a rewrite: the
  -- slices that `egress` takes of L2 and of the IPv4 header lie inside it.
  pub classify_frame-long :
      (classify_frame h frame ts r).0 ≡ transit → 34 ≤ length (classify_frame h frame ts r).1
  classify_frame-long = elim (Bool-cases (is_for_nat h frame r)) [
    | inr plain ↦ rw (classify_frame-plain plain) classify-long
    | inl nat ↦ elim (Option-cases (parse_l4 frame)) [
      | inl none_found ↦ rw (classify_frame-no_header nat none_found) classify-long
      | inr (l4, e) ↦
          let n = is_for_nat-IsForNat nat in rw (classify_frame-nat l4 n e) (restore-long l4 _ n)
    ]
  ]
