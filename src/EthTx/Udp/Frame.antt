-- ===== src/EthTx/Udp/Frame.antt =====
-- The UDP frame of src/eth_tx.rs as a whole.
use pico_10base_t_rs.Prelude.{
  ℕ, ◌+◌, ◌%◌, ◌^◌, ◌≤◌, ◌≡◌, refl, ap, ◌∙◌, true, List, [], ◌∷◌, ◌++◌, arith, length, be16,
  AreBytes, length-append, be16-AreBytes, append-AreBytes, all_bytes-AreBytes,
}
use mathlib.Core.List.{append_assoc}
use pico_10base_t_rs.Prelude.Checked.{ok, after}
use pico_10base_t_rs.Crc.{crc32_ieee802_3}
use pico_10base_t_rs.EthRx.Frames.{verify_fcs}
use pico_10base_t_rs.EthTx.Send.{le32}
use pico_10base_t_rs.EthTx.Send.Frame.{preamble, le32-verify_fcs}
use pico_10base_t_rs.EthTx.Udp.{
  UdpEndpoint, ipv4_checksum, header_words, copy_at, build_eth_ipv4_udp_frame,
}
use pico_10base_t_rs.EthTx.Udp.Built.{
  IsEndpoint, IsAt, head, headed, body_of, checksum, length-head, write_headers-ok, write_field,
  write_datagram-ok,
}
use pico_10base_t_rs.EthTx.Udp.Valid.{
  checksum_valid, header_words-frame, checksum_written, length-headed, headed-AreBytes,
}

-- The whole frame, from the destination address to the FCS.
abbrev pub frame_for : UdpEndpoint → List ℕ → ℕ → List ℕ
frame_for ep payload ip_id =
    let udp_len = (length payload + 8) % 2 ^ 16 in
    let body = body_of ep payload udp_len ip_id (checksum ep udp_len ip_id) in
    body ++ le32 (crc32_ieee802_3 body)

module _ (ep : UdpEndpoint) (payload out : List ℕ) (ip_id : ℕ) (h : IsEndpoint ep)
    (short : length payload ≤ 1472) where
  abbrev udp_len : ℕ
  udp_len = (length payload + 8) % 2 ^ 16

  abbrev body : List ℕ
  body = body_of ep payload udp_len ip_id (checksum ep udp_len ip_id)

  length-body : length body ≡ 42 + length payload
  length-body =
      let c = checksum ep udp_len ip_id in
      let regroup : body
          ≡ headed ep udp_len ip_id c
            ++ (be16 ep.src_port
                ++ (be16 ep.dst_port ++ (be16 udp_len ++ ((0 ∷ 0 ∷ []) ++ payload)))) =
        simp append_assoc in
      omega (
        arith,
        ap length regroup,
        length-append (headed ep udp_len ip_id c)
            (be16 ep.src_port ++ (be16 ep.dst_port ++ (be16 udp_len ++ ((0 ∷ 0 ∷ []) ++ payload)))),
        length-headed ep udp_len ip_id h c,
      )

  body-AreBytes : AreBytes payload → AreBytes body
  body-AreBytes hb =
      append-AreBytes _ _
        (append-AreBytes _ _
          (append-AreBytes _ _
            (append-AreBytes _ _
              (append-AreBytes _ _ (headed-AreBytes ep udp_len ip_id h (checksum ep udp_len ip_id))
                (be16-AreBytes ep.src_port))
              (be16-AreBytes ep.dst_port))
            (be16-AreBytes udp_len))
          (all_bytes-AreBytes (0 ∷ 0 ∷ []) refl))
        hb

  built :
      length out ≡ 1526
      → (tail : List ℕ) × (build_eth_ipv4_udp_frame ep payload out ip_id
          ≡ ok (preamble ++ body ++ le32 (crc32_ieee802_3 body) ++ tail, 50 + length payload + 4))
  unfolding build_eth_ipv4_udp_frame
  built size =
      let c = checksum ep udp_len ip_id in
      let before =
        preamble
        ++ ep.dst_mac
        ++ ep.src_mac
        ++ (0x08 ∷ 0x00 ∷ [])
        ++ (0x45 ∷ 0x00 ∷ [])
        ++ be16 (20 + udp_len)
        ++ be16 ip_id in
      let four : List ℕ = 0x40 ∷ 0x00 ∷ 0x40 ∷ 0x11 ∷ [] in
      let six : List ℕ = 0x40 ∷ 0x00 ∷ 0x40 ∷ 0x11 ∷ 0 ∷ 0 ∷ [] in
      let headers = write_headers-ok ep udp_len out ip_id h size in
      let rest = headers.0 in
      let regroup : before ++ four ≡ preamble ++ head ep udp_len ip_id = simp append_assoc in
      let at : length (before ++ four) ≡ 32 = omega (
        arith,
        ap length regroup,
        length-append preamble (head ep udp_len ip_id),
        length-head ep udp_len ip_id h,
      ) in
      let field = write_field before four ep.src_ip ep.dst_ip rest c 32 at in
      let done : before ++ four ++ be16 c ++ ep.src_ip ++ ep.dst_ip ++ rest
          ≡ preamble ++ headed ep udp_len ip_id c ++ rest =
        simp append_assoc in
      let start : IsAt (preamble ++ headed ep udp_len ip_id c) rest 42 = record {
        at = omega (
          arith,
          length-append preamble (headed ep udp_len ip_id c),
          length-headed ep udp_len ip_id h c,
        );
        size = headers.2;
      } in
      let datagram =
        write_datagram-ok ep payload udp_len (headed ep udp_len ip_id c) rest start short in
      (
        datagram.0,
        after _ (headers.1) (
            after _
              (ap (λ x. copy_at (before ++ six ++ ep.src_ip ++ ep.dst_ip ++ rest) 32 (be16 x))
                  (checksum_written ep udp_len ip_id h before rest regroup)
                ∙ field
                ∙ ap ok done)
              (datagram.1)),
      )

  -- For an endpoint and a payload of bytes of at most 1472, the writes into the scratch buffer all fit;
  -- they give the preamble and the frame for that payload and its length; the receiver's FCS test
  -- accepts the frame, and the checksum over its IP header is 0, as a receiver of the packet tests it.
  pub build_eth_ipv4_udp_frame-IsFrame :
      AreBytes payload
      → length out ≡ 1526
      → let frame = frame_for ep payload ip_id in
        ((tail : List ℕ) × (build_eth_ipv4_udp_frame ep payload out ip_id
            ≡ ok (preamble ++ frame ++ tail, length (preamble ++ frame))))
        × (length frame ≡ 46 + length payload)
        × (verify_fcs frame (length frame) ≡ true)
        × (ipv4_checksum (header_words frame 10 14) ≡ 0)
  build_eth_ipv4_udp_frame-IsFrame hb size =
      let c = checksum ep udp_len ip_id in
      let fcs = le32 (crc32_ieee802_3 body) in
      let made = built size in
      let bytes : preamble ++ body ++ fcs ++ made.0 ≡ preamble ++ (body ++ fcs) ++ made.0 =
        simp append_assoc in
      let long : length (body ++ fcs) ≡ 46 + length payload =
        omega (arith, length-append body fcs, length-body) in
      let number : 50 + length payload + 4 ≡ length (preamble ++ (body ++ fcs)) =
        omega (arith, length-append preamble (body ++ fcs), long) in
      let regroup : body ++ fcs
          ≡ headed ep udp_len ip_id c
            ++ (be16 ep.src_port
                ++ (be16 ep.dst_port ++ (be16 udp_len ++ ((0 ∷ 0 ∷ []) ++ (payload ++ fcs))))) =
        simp append_assoc in
      (
        (
          made.0,
          made.1
              ∙ ap (λ l. ok (l, 50 + length payload + 4)) bytes
              ∙ ap (λ n. ok (preamble ++ (body ++ fcs) ++ made.0, n)) number,
        ),
        long,
        le32-verify_fcs body (body-AreBytes hb) (omega (arith, length-body)),
        ap (λ l. ipv4_checksum (header_words l 10 14)) regroup
            ∙ ap ipv4_checksum (header_words-frame ep udp_len ip_id h _)
            ∙ (checksum_valid ep udp_len ip_id h).1,
      )
