-- ===== src/Forward/Device/Journey.antt =====
-- The way of a packet through the router of src/forward.rs and back: `egress` gives a LAN client's
-- packet the router's address and an id, and `classify_frame` sends the peer's answer to that id back
-- to the client.
use pico_10base_t_rs.Prelude.{
  ℕ, ◌+◌, ◌<◌, ◌^◌, ◌≡◌, refl, sym, ap, ◌∙◌, true, Option, none, some, List, arith, rd16, rd32,
  AreBytes, some_inj,
}
use mathlib.Core.Path.{subst}
use pico_10base_t_rs.Conntrack.{Proto, tcp, udp, icmp_echo, Nat, outbound, inbound}
use pico_10base_t_rs.Conntrack.Invariant.{IsValid}
use pico_10base_t_rs.Conntrack.Flows.{outbound-Opened, inbound-outbound}
use pico_10base_t_rs.Forward.Config.{Class, transit}
use pico_10base_t_rs.Forward.Napt.{L4, parse_l4, napt_rewrite_src}
use pico_10base_t_rs.Forward.Napt.Parse.{HasShape, parse_l4-IsL4}
use pico_10base_t_rs.Forward.Napt.Rewrite.{
  src_id_off, dst_id_off, napt_rewrite_src-IsNat, napt_rewrite_dst-IsNat,
}
use pico_10base_t_rs.Forward.Device.Interfaces.{Host}
use pico_10base_t_rs.Forward.Device.{
  Router, tuple_of, translate, napt_out, remote_id, wan_id, classify_frame,
}
use pico_10base_t_rs.Forward.Device.Account.{napt_out-l4}
use pico_10base_t_rs.Forward.Device.Transit.{IsForNat, restore-some, classify_frame-nat}

module _ (h : Host) where
  translate-some :
      (frame : List ℕ) (l4 : L4) (r : Router h) (out : Option ℕ × Nat) (id : ℕ)
      → out.0 ≡ some id
      → translate h frame l4 r out
        ≡ (some (napt_rewrite_src frame l4 r.cfg.our_ip id), record r { ct = out.1 })
  unfolding translate
  translate-some frame l4 r (none, ct') id e = absurd (cc)
  translate-some frame l4 r (some id', ct') id e =
      ap (λ (o : Option ℕ). translate h frame l4 r (o, ct')) e

  -- With a valid table the NAPT step of `egress` drops nothing: a frame with a transport header
  -- leaves with the id that `outbound` has for its flow.
  pub napt_out-Opened :
      (frame : List ℕ) (now : ℕ) (r : Router h) (l4 : L4)
      → r.nat ≡ true
      → IsValid r.ct
      → parse_l4 frame ≡ some l4
      → let out = outbound (tuple_of frame l4) l4.tcp_flags now r.ct in
        (id : ℕ) × (out.0 ≡ some id)
        × (id < 2 ^ 16)
        × (napt_out h frame now r
            ≡ (some (napt_rewrite_src frame l4 r.cfg.our_ip id), record r { ct = out.1 }))
  napt_out-Opened frame now r l4 on v e =
      let o = outbound-Opened (tuple_of frame l4) l4.tcp_flags now r.ct v in
      (
        o.id,
        o.returns,
        omega (arith, o.in_range),
        napt_out-l4 h frame now r l4 on e ∙ translate-some frame l4 r _ o.id o.returns,
      )

-- The ids in a packet `g` that answers `f`: a TCP or UDP segment comes from the port that `f` goes to,
-- and goes to the port `id`; an ICMP echo has the identifier `id`.
abbrev pub AnswersIds : Proto → List ℕ → L4 → ℕ → List ℕ → L4 → Type 0
AnswersIds tcp f l4 id g m =
    (rd16 g m.l4_off ≡ rd16 f (l4.l4_off + 2)) × (rd16 g (m.l4_off + 2) ≡ id)
AnswersIds udp f l4 id g m =
    (rd16 g m.l4_off ≡ rd16 f (l4.l4_off + 2)) × (rd16 g (m.l4_off + 2) ≡ id)
AnswersIds icmp_echo f l4 id g m = rd16 g (m.l4_off + 4) ≡ id

-- The packet `g` with the header `m` answers `f` with the header `l4`: it has the protocol of `f`,
-- comes from the peer of `f` and goes to the id `id`.
pub record Answers (f : List ℕ) (l4 : L4) (id : ℕ) (g : List ℕ) (m : L4) : Type 0 where
  pub header : parse_l4 g ≡ some m
  pub same_proto : m.proto ≡ l4.proto
  pub from_peer : rd32 g 26 ≡ rd32 f 30
  pub ids : AnswersIds l4.proto f l4 id g m

-- The ids of an answer, as the code reads them.
ids_of :
    (p : Proto) (f g : List ℕ) (l4 m : L4) (id : ℕ)
    → p ≡ l4.proto
    → p ≡ m.proto
    → HasShape f l4 p
    → HasShape g m p
    → AnswersIds p f l4 id g m
    → (remote_id m ≡ (tuple_of f l4).dst_id) × (wan_id m ≡ id)
unfolding remote_id wan_id tuple_of
ids_of tcp f g l4 m id e e' s t (from, to) = rw (← e, ← e') (t.3 ∙ from ∙ sym (s.4), t.4 ∙ to)
ids_of udp f g l4 m id e e' s t (from, to) = rw (← e, ← e') (t.3 ∙ from ∙ sym (s.4), t.4 ∙ to)
ids_of icmp_echo f g l4 m id e e' s t to = rw (← e, ← e') (refl, t.3 ∙ to)

rd16-lt : (f : List ℕ) (i : ℕ) → AreBytes f → rd16 f i < 2 ^ 16
rd16-lt f i b = omega (arith, b i, b (i + 1))

rd32-lt : (f : List ℕ) (i : ℕ) → AreBytes f → rd32 f i < 2 ^ 32
rd32-lt f i b = omega (arith, rd16-lt f i b, rd16-lt f (i + 2) b)

shape-src_id-lt :
    (f : List ℕ) (l4 : L4) (p : Proto) → AreBytes f → HasShape f l4 p → l4.src_id < 2 ^ 16
shape-src_id-lt f l4 tcp b s = omega (arith, s.3, rd16-lt f l4.l4_off b)
shape-src_id-lt f l4 udp b s = omega (arith, s.3, rd16-lt f l4.l4_off b)
shape-src_id-lt f l4 icmp_echo b s = omega (arith, s.3, rd16-lt f (l4.l4_off + 4) b)

-- The answer, as `inbound` sees it, is matched with the client's address and id.
inbound-answer :
    (f g : List ℕ) (l4 m : L4) (id flags flags' now now' : ℕ) (w : Nat)
    → IsValid w
    → now' < now + 10_000
    → (outbound (tuple_of f l4) flags now w).0 ≡ some id
    → parse_l4 f ≡ some l4
    → Answers f l4 id g m
    → (inbound m.proto
        (rd32 g 26)
        (remote_id m)
        (wan_id m)
        flags'
        now'
        (outbound (tuple_of f l4) flags now w).1).0
      ≡ some (rd32 f 26, l4.src_id)
unfolding tuple_of
inbound-answer f g l4 m id flags flags' now now' w v soon e parsed a =
    let (id', e', back) = inbound-outbound (tuple_of f l4) flags flags' now now' w v soon in
    let same : id' ≡ id = some_inj (sym e' ∙ e) in
    let answered = subst (HasShape g m) a.same_proto (parse_l4-IsL4 g m a.header).shape in
    let (from_id, to_id) =
      ids_of l4.proto f g l4 m id refl (sym a.same_proto) (parse_l4-IsL4 f l4 parsed).shape answered
        a.ids in
    rw (a.from_peer, from_id, to_id, a.same_proto, ← same) back

module _ (h : Host) where
  -- On a WAN device in a valid state: the packet `sent` that leaves for `f`, which has a TCP, UDP or
  -- ICMP echo header, carries the device's address. An answer `g` has the protocol of `f`, comes from
  -- the address that `f` goes to, and for TCP and UDP from the port that `f` goes to, and has the port
  -- or echo id of `sent` as its own destination port or echo id. An answer to the device's MAC and
  -- address, within ten seconds and with the connection table as `f` left it, is classified as
  -- transit and rewritten to the address and the port or echo id that `f` came from.
  pub reply_reaches_client :
      (f sent g : List ℕ) (l4 m : L4) (now now' : ℕ) (r r' : Router h)
      → r.nat ≡ true
      → IsValid r.ct
      → AreBytes f
      → AreBytes g
      → r.cfg.our_ip < 2 ^ 32
      → parse_l4 f ≡ some l4
      → (napt_out h f now r).0 ≡ some sent
      → r'.ct ≡ (napt_out h f now r).1.ct
      → now' < now + 10_000
      → IsForNat h g now' r'
      → Answers f l4 (rd16 sent (src_id_off l4 l4.proto)) g m
      → let (class, back, r'') = classify_frame h g now' r' in
        (rd32 sent 26 ≡ r.cfg.our_ip)
        × (class ≡ transit)
        × (rd32 back 30 ≡ rd32 f 26)
        × (rd16 back (dst_id_off m m.proto) ≡ l4.src_id)
  reply_reaches_client f sent g l4 m now now' r r' on v bf bg ip parsed left ct_is soon n a =
      let out = outbound (tuple_of f l4) l4.tcp_flags now r.ct in
      let (id, opens, small, leaves) = napt_out-Opened h f now r l4 on v parsed in
      let header = parse_l4-IsL4 f l4 parsed in
      let went : sent ≡ napt_rewrite_src f l4 r.cfg.our_ip id =
        some_inj (sym left ∙ ap (λ (x : Option (List ℕ) × Router h). x.0) leaves) in
      let nat_src = napt_rewrite_src-IsNat f l4 r.cfg.our_ip id bf header ip small in
      let id_sent : rd16 sent (src_id_off l4 l4.proto) ≡ id =
        ap (λ (x : List ℕ). rd16 x (src_id_off l4 l4.proto)) went ∙ nat_src.fields.id_is in
      let ct' : r'.ct ≡ out.1 = ct_is ∙ ap (λ (x : Option (List ℕ) × Router h). x.1.ct) leaves in
      let hit =
        ap
          (λ (w : Nat). (inbound m.proto (rd32 g 26) (remote_id m) (wan_id m) m.tcp_flags now' w).0)
          ct'
        ∙ inbound-answer f g l4 m id l4.tcp_flags m.tcp_flags now now' r.ct v soon opens parsed
            (subst (λ (i : ℕ). Answers f l4 i g m) id_sent a) in
      let back =
        classify_frame-nat h g now' r' m n a.header
        ∙ restore-some h g now' r' m _ (rd32 f 26) l4.src_id hit in
      let nat_dst =
        napt_rewrite_dst-IsNat g m (rd32 f 26) l4.src_id bg (parse_l4-IsL4 g m a.header)
          (rd32-lt f 26 bf) (shape-src_id-lt f l4 l4.proto bf header.shape) in
      (
        ap (λ (x : List ℕ). rd32 x 26) went ∙ nat_src.fields.ip_is,
        ap (λ (x : Class × List ℕ × Router h). x.0) back,
        ap (λ (x : Class × List ℕ × Router h). rd32 x.1 30) back ∙ nat_dst.fields.ip_is,
        ap (λ (x : Class × List ℕ × Router h). rd16 x.1 (dst_id_off m m.proto)) back
            ∙ nat_dst.fields.id_is,
      )
