-- ===== src/EthTx/Udp/Built.antt =====
-- The frame that src/eth_tx.rs builds around a UDP payload.
use pico_10base_t_rs.Prelude.{
  ℕ, ◌+◌, ◌-◌, ◌*◌, ◌≤◌, ◌≡◌, refl, ap, ◌∙◌, List, [], ◌∷◌, ◌++◌, arith, length, drop, take, slice,
  be16, AreBytes, length-append, length-drop, take-append, be16-AreBytes, append-AreBytes,
  all_bytes-AreBytes,
}
use mathlib.Core.List.{append_assoc}
use pico_10base_t_rs.Prelude.Checked.{ok, after}
use pico_10base_t_rs.Crc.{crc32_ieee802_3}
use pico_10base_t_rs.EthTx.Send.{le32}
use pico_10base_t_rs.EthTx.Send.Frame.{preamble}
use pico_10base_t_rs.EthTx.Udp.{
  UdpEndpoint, ipv4_checksum, copy_at, header_words, write_headers, write_datagram,
}
use pico_10base_t_rs.EthTx.Udp.Layout.{
  copy_at-append, header_words-field, header_words-left, header_words-right,
}

-- An endpoint: addresses of bytes, of the lengths of their types.
pub record IsEndpoint (ep : UdpEndpoint) : Type 0 where
  pub src_mac_length : length ep.src_mac ≡ 6
  pub dst_mac_length : length ep.dst_mac ≡ 6
  pub src_ip_length : length ep.src_ip ≡ 4
  pub dst_ip_length : length ep.dst_ip ≡ 4
  pub src_mac_bytes : AreBytes ep.src_mac
  pub dst_mac_bytes : AreBytes ep.dst_mac
  pub src_ip_bytes : AreBytes ep.src_ip
  pub dst_ip_bytes : AreBytes ep.dst_ip

-- The frame up to the header checksum.
abbrev pub head : UdpEndpoint → ℕ → ℕ → List ℕ
head ep udp_len ip_id =
    ep.dst_mac
    ++ ep.src_mac
    ++ (0x08 ∷ 0x00 ∷ [])
    ++ (0x45 ∷ 0x00 ∷ [])
    ++ be16 (20 + udp_len)
    ++ be16 ip_id
    ++ (0x40 ∷ 0x00 ∷ 0x40 ∷ 0x11 ∷ [])

-- The buffer between two writes: `done` is written, up to `i`.
pub record IsAt (done rest : List ℕ) (i : ℕ) : Type 0 where
  pub at : length done ≡ i
  pub size : i + length rest ≡ 1526

write_next :
    (done rest zs : List ℕ) (i j : ℕ)
    → IsAt done rest i
    → length zs ≡ j
    → i + j ≤ 1526
    → (copy_at (done ++ rest) i zs ≡ ok (done ++ zs ++ drop (length zs) rest))
      × IsAt (done ++ zs) (drop (length zs) rest) (i + j)
write_next done rest zs i j here len fits =
    let at = here.at in
    let size = here.size in
    (
      copy_at-append done rest zs i at (omega arith),
      record {
        at = omega (arith, length-append done zs);
        size = omega (arith, length-drop (length zs) rest);
      },
    )

-- The write of the checksum into its field.
pub write_field :
    (before h src dst rest : List ℕ) (c i : ℕ)
    → length (before ++ h) ≡ i
    → copy_at (before ++ (h ++ (0 ∷ 0 ∷ [])) ++ src ++ dst ++ rest) i (be16 c)
      ≡ ok (before ++ h ++ be16 c ++ src ++ dst ++ rest)
write_field before h src dst rest c i at =
    ap (λ l. copy_at l i (be16 c)) (regroup (0 ∷ 0 ∷ []))
    ∙ copy_at-append (before ++ h) ((0 ∷ 0 ∷ []) ++ (src ++ dst ++ rest)) (be16 c) i at
        (omega arith)
    ∙ ap ok (regroup_done (be16 c))
  where
    regroup :
        (z : List ℕ)
        → before ++ (h ++ z) ++ src ++ dst ++ rest ≡ before ++ h ++ (z ++ (src ++ dst ++ rest))
    regroup z = simp append_assoc

    regroup_done :
        (z : List ℕ)
        → before ++ h ++ z ++ (src ++ dst ++ rest) ≡ before ++ h ++ z ++ src ++ dst ++ rest
    regroup_done z = simp append_assoc

-- The headers, before their checksum is known.
pub write_headers-ok :
    (ep : UdpEndpoint) (udp_len : ℕ) (out : List ℕ) (ip_id : ℕ)
    → IsEndpoint ep
    → length out ≡ 1526
    → (rest : List ℕ) × (write_headers ep udp_len out ip_id
        ≡ ok (
            preamble
            ++ ep.dst_mac
            ++ ep.src_mac
            ++ (0x08 ∷ 0x00 ∷ [])
            ++ (0x45 ∷ 0x00 ∷ [])
            ++ be16 (20 + udp_len)
            ++ be16 ip_id
            ++ (0x40 ∷ 0x00 ∷ 0x40 ∷ 0x11 ∷ 0 ∷ 0 ∷ [])
            ++ ep.src_ip
            ++ ep.dst_ip
            ++ rest))
      × (42 + length rest ≡ 1526)
unfolding write_headers
write_headers-ok ep udp_len out ip_id h size =
    let s1 =
      write_next [] out preamble 0 8 (record { at = refl; size = omega arith }) refl
        (omega arith) in
    let s2 = write_next _ _ ep.dst_mac 8 6 (s1.1) h.dst_mac_length (omega arith) in
    let s3 = write_next _ _ ep.src_mac 14 6 (s2.1) h.src_mac_length (omega arith) in
    let s4 = write_next _ _ (0x08 ∷ 0x00 ∷ []) 20 2 (s3.1) refl (omega arith) in
    let s5 = write_next _ _ (0x45 ∷ 0x00 ∷ []) 22 2 (s4.1) refl (omega arith) in
    let s6 = write_next _ _ (be16 (20 + udp_len)) 24 2 (s5.1) refl (omega arith) in
    let s7 = write_next _ _ (be16 ip_id) 26 2 (s6.1) refl (omega arith) in
    let s8 =
      write_next _ _ (0x40 ∷ 0x00 ∷ 0x40 ∷ 0x11 ∷ 0 ∷ 0 ∷ []) 28 6 (s7.1) refl (omega arith) in
    let s9 = write_next _ _ ep.src_ip 34 4 (s8.1) h.src_ip_length (omega arith) in
    let s10 = write_next _ _ ep.dst_ip 38 4 (s9.1) h.dst_ip_length (omega arith) in
    (
      _,
      after _ (s1.0) (
          after _ (s2.0) (
            after _ (s3.0) (
              after _ (s4.0) (
                after _ (s5.0)
                  (after _ (s6.0) (after _ (s7.0) (after _ (s8.0) (after _ (s9.0) (s10.0))))))))),
      s10.1.size,
    )

-- The bytes between the preamble and the FCS.
slice_body :
    (body rest : List ℕ) (end : ℕ)
    → 8 + length body ≡ end
    → slice (preamble ++ body ++ rest) 8 end ≡ body
slice_body body rest end e =
    let n : end - 8 ≡ length body = omega arith in
    ap (λ k. take k (body ++ rest)) n ∙ take-append body rest

-- The datagram and the FCS behind a header.
pub write_datagram-ok :
    (ep : UdpEndpoint) (payload : List ℕ) (udp_len : ℕ) (header rest : List ℕ)
    → IsAt (preamble ++ header) rest 42
    → length payload ≤ 1472
    → let body =
        header ++ be16 ep.src_port ++ be16 ep.dst_port ++ be16 udp_len ++ (0 ∷ 0 ∷ []) ++ payload in
      (tail : List ℕ) × (write_datagram ep payload udp_len (preamble ++ header ++ rest)
        ≡ ok (preamble ++ body ++ le32 (crc32_ieee802_3 body) ++ tail, 50 + length payload + 4))
unfolding write_datagram
write_datagram-ok ep payload udp_len header rest s0 short =
    let body =
      header ++ be16 ep.src_port ++ be16 ep.dst_port ++ be16 udp_len ++ (0 ∷ 0 ∷ []) ++ payload in
    let s1 = write_next _ _ (be16 ep.src_port) 42 2 s0 refl (omega arith) in
    let s2 = write_next _ _ (be16 ep.dst_port) 44 2 (s1.1) refl (omega arith) in
    let s3 = write_next _ _ (be16 udp_len) 46 2 (s2.1) refl (omega arith) in
    let s4 = write_next _ _ (0 ∷ 0 ∷ []) 48 2 (s3.1) refl (omega arith) in
    let s5 = write_next _ _ payload 50 (length payload) (s4.1) refl (omega arith) in
    let at : length (preamble ++ body) ≡ 50 + length payload = s5.1.at in
    let r5 = drop (length payload) (drop 2 (drop 2 (drop 2 (drop 2 rest)))) in
    let end = 50 + length payload in
    let s6 =
      write_next (preamble ++ body) r5 (le32 (crc32_ieee802_3 body)) end 4 (s5.1) refl
        (omega arith) in
    let sliced =
      ap (λ l. copy_at (preamble ++ body ++ r5) end (le32 (crc32_ieee802_3 l)))
        (slice_body body r5 end (omega (arith, at))) in
    (
      drop 4 r5,
      after _ (s1.0) (
          after _ (s2.0) (
            after _ (s3.0) (
              after _ (s4.0)
                (after _ (s5.0) (after (λ out. ok (out, end + 4)) (sliced ∙ s6.0) refl))))),
    )

-- The headers that go into the frame, and the frame without its FCS.
abbrev pub headed : UdpEndpoint → ℕ → ℕ → ℕ → List ℕ
headed ep udp_len ip_id checksum = head ep udp_len ip_id ++ be16 checksum ++ ep.src_ip ++ ep.dst_ip

abbrev pub body_of : UdpEndpoint → List ℕ → ℕ → ℕ → ℕ → List ℕ
body_of ep payload udp_len ip_id checksum =
    headed ep udp_len ip_id checksum
    ++ be16 ep.src_port
    ++ be16 ep.dst_port
    ++ be16 udp_len
    ++ (0 ∷ 0 ∷ [])
    ++ payload

-- The words of the header around its checksum.
abbrev pub words_before : UdpEndpoint → ℕ → ℕ → List ℕ
words_before ep udp_len ip_id = header_words (head ep udp_len ip_id) 5 14

abbrev pub words_behind : UdpEndpoint → List ℕ
words_behind ep = header_words (ep.src_ip ++ ep.dst_ip) 4 0

-- The checksum that is written.
abbrev pub checksum : UdpEndpoint → ℕ → ℕ → ℕ
checksum ep udp_len ip_id = ipv4_checksum (words_before ep udp_len ip_id ++ (0 ∷ words_behind ep))

module _ (ep : UdpEndpoint) (udp_len ip_id : ℕ) (h : IsEndpoint ep) where
  pub length-head : length (head ep udp_len ip_id) ≡ 24
  length-head =
      let tail : List ℕ =
        (0x08 ∷ 0x00 ∷ [])
        ++ ((0x45 ∷ 0x00 ∷ [])
            ++ (be16 (20 + udp_len) ++ (be16 ip_id ++ (0x40 ∷ 0x00 ∷ 0x40 ∷ 0x11 ∷ [])))) in
      let regroup : head ep udp_len ip_id ≡ ep.dst_mac ++ (ep.src_mac ++ tail) =
        simp append_assoc in
      omega (
        arith,
        ap length regroup,
        length-append ep.dst_mac (ep.src_mac ++ tail),
        length-append ep.src_mac tail,
        h.dst_mac_length,
        h.src_mac_length,
      )

  pub header_words-headed :
      (a b : ℕ) (more : List ℕ)
      → header_words
          (preamble ++ head ep udp_len ip_id ++ (a ∷ b ∷ (ep.src_ip ++ ep.dst_ip ++ more)))
          10
          22
        ≡ words_before ep udp_len ip_id ++ ((a * 256 + b) ∷ words_behind ep)
  header_words-headed a b more =
      let hd = head ep udp_len ip_id in
      header_words-field (preamble ++ hd) (ep.src_ip ++ ep.dst_ip ++ more) 22 a b
        (omega (arith, length-append preamble hd, length-head))
      ∙ ap (λ l. l ++ ((a * 256 + b) ∷ header_words (ep.src_ip ++ ep.dst_ip ++ more) 4 0))
          (header_words-right 5 14 preamble hd)
      ∙ ap (λ l. words_before ep udp_len ip_id ++ ((a * 256 + b) ∷ l))
          (header_words-left 4 0 (ep.src_ip ++ ep.dst_ip) more
            (omega (arith, length-append ep.src_ip ep.dst_ip, h.src_ip_length, h.dst_ip_length)))

  pub head-AreBytes : AreBytes (head ep udp_len ip_id)
  head-AreBytes =
      append-AreBytes _ _
        (append-AreBytes _ _
          (append-AreBytes _ _
            (append-AreBytes _ _
              (append-AreBytes _ _ (append-AreBytes _ _ h.dst_mac_bytes h.src_mac_bytes)
                (all_bytes-AreBytes (0x08 ∷ 0x00 ∷ []) refl))
              (all_bytes-AreBytes (0x45 ∷ 0x00 ∷ []) refl))
            (be16-AreBytes (20 + udp_len)))
          (be16-AreBytes ip_id))
        (all_bytes-AreBytes (0x40 ∷ 0x00 ∷ 0x40 ∷ 0x11 ∷ []) refl)
