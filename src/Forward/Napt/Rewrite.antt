-- ===== src/Forward/Napt/Rewrite.antt =====
-- The two rewrites of src/forward.rs: which fields change, and that the transport checksum stays
-- right (or stays off).
use pico_10base_t_rs.Prelude.{
  ℕ, ◌+◌, ◌/◌, ◌%◌, ◌≤◌, ◌<◌, ◌^◌, ◌≡◌, ◌≢◌, refl, true, false, not, ◌&&◌, List, [], ◌∷◌, arith,
  rd16, rd32, wr16, wr32, AreBytes, inl, inr, Bool-cases, ◌==◌,
}
use pico_10base_t_rs.Checksum.{addr_words, checksum_incr}
use pico_10base_t_rs.Checksum.Update.{checksum_incr_total, addr_words_lem}
use pico_10base_t_rs.Conntrack.{Proto, tcp, udp, icmp_echo, proto_eq}
use pico_10base_t_rs.Forward.Napt.{
  L4, fix_csum, fix_echo_csum, rewrite_id, napt_rewrite_src, napt_rewrite_dst,
}
use pico_10base_t_rs.Forward.Napt.Parse.{IsL4, HasShape}
use pico_10base_t_rs.Forward.Napt.Fields.{
  IsWord, IsRewritten, Apart, wr16-IsWord, same-IsWord, rewrite_fields,
}

-- The two words of an address, added.
abbrev pub words_of : ℕ → ℕ
words_of ip = ip / 2 ^ 16 + ip % 2 ^ 16

-- The part of the transport checksum that a rewrite touches, for a checksum field `c`, an address
-- and a port or id: an ICMP checksum does not cover the address.
abbrev pub covered : Proto → ℕ → ℕ → ℕ → ℕ
covered icmp_echo c ip id = c + id
covered _ c ip id = c + words_of ip + id

-- A checksum field that was in use keeps the one's-complement total; a UDP field of 0 stays 0.
abbrev pub KeepsCsum : Proto → ℕ → ℕ → ℕ → ℕ → ℕ → ℕ → Type 0
KeepsCsum p c ip id c' ip' id' =
    ((p ≡ udp → c ≢ 0) → covered p c' ip' id' % 65535 ≡ covered p c ip id % 65535)
    × (p ≡ udp → c ≡ 0 → c' ≡ 0)

-- Where a rewrite of the source or of the destination finds the id.
abbrev pub src_id_off : L4 → Proto → ℕ
src_id_off l4 icmp_echo = l4.l4_off + 4
src_id_off l4 _ = l4.l4_off

abbrev pub dst_id_off : L4 → Proto → ℕ
dst_id_off l4 icmp_echo = l4.l4_off + 4
dst_id_off l4 _ = l4.l4_off + 2

-- What a rewrite does: the id at `port` and the address at `addr` become the new ones, the checksum
-- follows, and no other byte changes.
pub record IsNat (f f' : List ℕ) (l4 : L4) (port addr new_id new_ip : ℕ) : Type 0 where
  pub fields : IsRewritten f f' l4.csum_off (rd16 f' l4.csum_off) port new_id addr new_ip
  pub csum :
      KeepsCsum l4.proto
        (rd16 f l4.csum_off)
        (rd32 f addr)
        (rd16 f port)
        (rd16 f' l4.csum_off)
        new_ip
        new_id

rd16-lt : (f : List ℕ) (i : ℕ) → AreBytes f → rd16 f i < 2 ^ 16
rd16-lt f i b = omega (arith, b i, b (i + 1))

rd32-lt : (f : List ℕ) (i : ℕ) → AreBytes f → rd32 f i < 2 ^ 32
rd32-lt f i b = omega (arith, rd16-lt f i b, rd16-lt f (i + 2) b)

-- The word that `fix_csum` writes.
three_words :
    (c old_ip new_ip old_id new_id : ℕ)
    → c < 2 ^ 16
    → old_ip < 2 ^ 32
    → new_ip < 2 ^ 32
    → old_id < 2 ^ 16
    → new_id < 2 ^ 16
    → let (oh, ol) = addr_words old_ip in
      let (nh, nl) = addr_words new_ip in
      let c' = checksum_incr c ((oh, nh) ∷ (ol, nl) ∷ (old_id, new_id) ∷ []) in
      (c' < 2 ^ 16)
      × ((c' + words_of new_ip + new_id) % 65535 ≡ (c + words_of old_ip + old_id) % 65535)
three_words c old_ip new_ip old_id new_id hc ho hn hi hj =
    let (oh, ol) = addr_words old_ip in
    let (nh, nl) = addr_words new_ip in
    let o = addr_words_lem old_ip ho in
    let n = addr_words_lem new_ip hn in
    omega (
      arith,
      o,
      n,
      checksum_incr_total c ((oh, nh) ∷ (ol, nl) ∷ (old_id, new_id) ∷ []) hc
          (o.1, n.1, (o.2, n.2, (hi, hj, tt))),
    )

one_word :
    (c old_id new_id : ℕ)
    → c < 2 ^ 16
    → old_id < 2 ^ 16
    → new_id < 2 ^ 16
    → let c' = checksum_incr c ((old_id, new_id) ∷ []) in
      (c' < 2 ^ 16) × ((c' + new_id) % 65535 ≡ (c + old_id) % 65535)
one_word c old_id new_id hc hi hj =
    omega (arith, checksum_incr_total c ((old_id, new_id) ∷ []) hc (hi, hj, tt))

module _ (f : List ℕ) (l4 : L4) (port addr new_ip new_id : ℕ) (b : AreBytes f)
    (apart : Apart f l4.csum_off port addr) (hip : new_ip < 2 ^ 32) (hid : new_id < 2 ^ 16) where
  abbrev ported : List ℕ
  ported = fix_csum f l4 (rd32 f addr) new_ip (rd16 f port) new_id

  -- The checksum word after `fix_csum`, when the field is in use and when it is off.
  fix_csum-on :
      not (proto_eq l4.proto udp && rd16 f l4.csum_off == 0) ≡ true
      → (c' : ℕ) × IsWord f ported l4.csum_off c'
        × ((c' + words_of new_ip + new_id) % 65535
            ≡ (rd16 f l4.csum_off + words_of (rd32 f addr) + rd16 f port) % 65535)
  unfolding fix_csum
  fix_csum-on on =
      let c = rd16 f l4.csum_off in
      let (oh, ol) = addr_words (rd32 f addr) in
      let (nh, nl) = addr_words new_ip in
      let c' = checksum_incr c ((oh, nh) ∷ (ol, nl) ∷ (rd16 f port, new_id) ∷ []) in
      let three =
        three_words c (rd32 f addr) new_ip (rd16 f port) new_id (rd16-lt f l4.csum_off b)
          (rd32-lt f addr b) hip (rd16-lt f port b) hid in
      (c', rw on (wr16-IsWord f l4.csum_off c' apart.0 three.0 b), three.1)

  fix_csum-off :
      not (proto_eq l4.proto udp && rd16 f l4.csum_off == 0) ≡ false
      → IsWord f ported l4.csum_off (rd16 f l4.csum_off)
  unfolding fix_csum
  fix_csum-off off = rw off (same-IsWord f l4.csum_off b)

  echo-IsWord :
      (c' : ℕ) × IsWord f (fix_echo_csum f l4 (rd16 f port) new_id) l4.csum_off c'
      × ((c' + new_id) % 65535 ≡ (rd16 f l4.csum_off + rd16 f port) % 65535)
  unfolding fix_echo_csum
  echo-IsWord =
      let one =
        one_word (rd16 f l4.csum_off) (rd16 f port) new_id (rd16-lt f l4.csum_off b)
          (rd16-lt f port b) hid in
      (_, wr16-IsWord f l4.csum_off _ apart.0 one.0 b, one.1)

  -- From the word that was written to the whole frame.
  finish :
      (g : List ℕ) (c' : ℕ)
      → IsWord f g l4.csum_off c'
      → KeepsCsum l4.proto (rd16 f l4.csum_off) (rd32 f addr) (rd16 f port) c' new_ip new_id
      → IsNat f (wr32 (wr16 g port new_id) addr new_ip) l4 port addr new_id new_ip
  finish g c' w keeps =
      let r = rewrite_fields f g l4.csum_off c' port new_id addr new_ip w apart hid hip in
      record { fields = rw (← r.csum_is) at r; csum = rw r.csum_is keeps }

keeps_echo :
    (p : Proto) (c ip id c' ip' id' : ℕ)
    → p ≡ icmp_echo
    → (c' + id') % 65535 ≡ (c + id) % 65535
    → KeepsCsum p c ip id c' ip' id'
keeps_echo tcp c ip id c' ip' id' e total = absurd (cc)
keeps_echo udp c ip id c' ip' id' e total = absurd (cc)
keeps_echo icmp_echo c ip id c' ip' id' e total = (λ _. total, λ u. absurd (cc))

module _ (f : List ℕ) (l4 : L4) (new_ip new_id : ℕ) (b : AreBytes f) (h : IsL4 f l4)
    (hip : new_ip < 2 ^ 32) (hid : new_id < 2 ^ 16) where
  shape_of : (p : Proto) → l4.proto ≡ p → HasShape f l4 p
  shape_of p e = rw e at h.shape

  -- A port offset in the first four bytes of the header is apart from the checksum and the address.
  Apart-ports :
      (p : Proto) (k addr : ℕ)
      → l4.proto ≡ p
      → p ≢ icmp_echo
      → k ≤ 2
      → addr ≤ 30
      → Apart f l4.csum_off (l4.l4_off + k) addr
  Apart-ports tcp k addr e ne small low =
      let s = shape_of tcp e in omega (arith, s.1, s.2, h.offset, h.header, h.long)
  Apart-ports udp k addr e ne small low =
      let s = shape_of udp e in omega (arith, s.1, s.2, h.offset, h.header, h.long)
  Apart-ports icmp_echo k addr e ne small low = absurd (ne refl)

  Apart-echo :
      (addr : ℕ) → l4.proto ≡ icmp_echo → addr ≤ 30 → Apart f l4.csum_off (l4.l4_off + 4) addr
  Apart-echo addr e low =
      let s = shape_of icmp_echo e in omega (arith, s.1, s.2, h.offset, h.header, h.long)

  ported-IsNat :
      (p : Proto) (port addr : ℕ)
      → l4.proto ≡ p
      → p ≢ icmp_echo
      → Apart f l4.csum_off port addr
      → IsNat f
          (wr32
            (wr16 (fix_csum f l4 (rd32 f addr) new_ip (rd16 f port) new_id) port new_id)
            addr
            new_ip)
          l4
          port
          addr
          new_id
          new_ip
  ported-IsNat p port addr e ne a =
      elim (Bool-cases (not (proto_eq l4.proto udp && rd16 f l4.csum_off == 0))) [
        | inl on ↦
            let (c', w, total) = fix_csum-on f l4 port addr new_ip new_id b a hip hid on in
            finish f l4 port addr new_ip new_id b a hip hid _ c' w
              (rw e (keeps_on p e ne c' on total))
        | inr off ↦
            finish f l4 port addr new_ip new_id b a hip hid _ _
              (fix_csum-off f l4 port addr new_ip new_id b a hip hid off)
              (rw e (keeps_off p e ne off))
      ]
    where
      keeps_on :
          (p : Proto)
          → l4.proto ≡ p
          → p ≢ icmp_echo
          → (c' : ℕ) → not (proto_eq l4.proto udp && rd16 f l4.csum_off == 0) ≡ true
          → (c' + words_of new_ip + new_id) % 65535
            ≡ (rd16 f l4.csum_off + words_of (rd32 f addr) + rd16 f port) % 65535
          → KeepsCsum p (rd16 f l4.csum_off) (rd32 f addr) (rd16 f port) c' new_ip new_id
      keeps_on tcp e ne c' on total = (λ _. total, λ u. absurd (cc))
      keeps_on udp e ne c' on total = (λ _. total, λ u z. absurd (off_of_zero z on))
        where
          off_of_zero :
              rd16 f l4.csum_off ≡ 0
              → not (proto_eq l4.proto udp && rd16 f l4.csum_off == 0) ≡ true
              → ⊥
          off_of_zero z on = ground arith
      keeps_on icmp_echo e ne c' on total = absurd (ne refl)

      keeps_off :
          (p : Proto)
          → l4.proto ≡ p
          → p ≢ icmp_echo
          → not (proto_eq l4.proto udp && rd16 f l4.csum_off == 0) ≡ false
          → KeepsCsum p
              (rd16 f l4.csum_off)
              (rd32 f addr)
              (rd16 f port)
              (rd16 f l4.csum_off)
              new_ip
              new_id
      keeps_off tcp e ne off = absurd (ground arith)
      keeps_off udp e ne off = (λ used. absurd (used refl (ground arith)), λ u z. z)
      keeps_off icmp_echo e ne off = absurd (ne refl)

  echo-IsNat :
      (addr : ℕ)
      → l4.proto ≡ icmp_echo
      → addr ≤ 30
      → IsNat f
          (wr32
            (wr16 (fix_echo_csum f l4 (rd16 f (l4.l4_off + 4)) new_id) (l4.l4_off + 4) new_id)
            addr
            new_ip)
          l4
          (l4.l4_off + 4)
          addr
          new_id
          new_ip
  echo-IsNat addr e low =
      let a = Apart-echo addr e low in
      let (c', w, total) = echo-IsWord f l4 (l4.l4_off + 4) addr new_ip new_id b a hip hid in
      finish f l4 (l4.l4_off + 4) addr new_ip new_id b a hip hid _ c' w
        (keeps_echo l4.proto _ (rd32 f addr) _ c' new_ip new_id e total)

  src_by_proto :
      (p : Proto)
      → l4.proto ≡ p
      → IsNat f
          (wr32 (rewrite_id p f l4 l4.l4_off (rd32 f 26) new_ip new_id) 26 new_ip)
          l4
          (src_id_off l4 p)
          26
          new_id
          new_ip
  unfolding rewrite_id
  src_by_proto tcp e =
      ported-IsNat tcp l4.l4_off 26 e (λ x. cc)
        (omega (arith, Apart-ports tcp 0 26 e (λ x. cc) (omega arith) (omega arith)))
  src_by_proto udp e =
      ported-IsNat udp l4.l4_off 26 e (λ x. cc)
        (omega (arith, Apart-ports udp 0 26 e (λ x. cc) (omega arith) (omega arith)))
  src_by_proto icmp_echo e = echo-IsNat 26 e (omega arith)

  dst_by_proto :
      (p : Proto)
      → l4.proto ≡ p
      → IsNat f
          (wr32 (rewrite_id p f l4 (l4.l4_off + 2) (rd32 f 30) new_ip new_id) 30 new_ip)
          l4
          (dst_id_off l4 p)
          30
          new_id
          new_ip
  unfolding rewrite_id
  dst_by_proto tcp e =
      ported-IsNat tcp (l4.l4_off + 2) 30 e (λ x. cc)
        (Apart-ports tcp 2 30 e (λ x. cc) (omega arith) (omega arith))
  dst_by_proto udp e =
      ported-IsNat udp (l4.l4_off + 2) 30 e (λ x. cc)
        (Apart-ports udp 2 30 e (λ x. cc) (omega arith) (omega arith))
  dst_by_proto icmp_echo e = echo-IsNat 30 e (omega arith)

  -- `napt_rewrite_src`, on a frame of bytes with the header `l4`: the source address and the source
  -- port or echo id become the new ones and no other byte changes but the checksum field. A field in
  -- use keeps the one's-complement total of what it covers; a UDP field of 0 stays 0.
  pub napt_rewrite_src-IsNat :
      IsNat f (napt_rewrite_src f l4 new_ip new_id) l4 (src_id_off l4 l4.proto) 26 new_id new_ip
  unfolding napt_rewrite_src
  napt_rewrite_src-IsNat = src_by_proto l4.proto refl

  -- `napt_rewrite_dst`, likewise, for the destination address and the destination port or echo id.
  pub napt_rewrite_dst-IsNat :
      IsNat f (napt_rewrite_dst f l4 new_ip new_id) l4 (dst_id_off l4 l4.proto) 30 new_id new_ip
  unfolding napt_rewrite_dst
  napt_rewrite_dst-IsNat = dst_by_proto l4.proto refl
