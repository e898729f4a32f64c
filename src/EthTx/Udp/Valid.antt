-- ===== src/EthTx/Udp/Valid.antt =====
-- The frame that src/eth_tx.rs builds, and what its receiver tests.
use pico_10base_t_rs.Prelude.{
  ℕ, ◌+◌, ◌*◌, ◌/◌, ◌%◌, ◌^◌, ◌<◌, ◌≡◌, ap, sym, ◌∙◌, List, [], ◌∷◌, ◌++◌, arith, length, be16,
  AreBytes, length-append, be16-AreBytes, append-AreBytes,
}
use mathlib.Core.List.{append_assoc}
use pico_10base_t_rs.EthTx.Send.Frame.{preamble}
use pico_10base_t_rs.EthTx.Udp.{UdpEndpoint, ipv4_checksum, header_words}
use pico_10base_t_rs.EthTx.Udp.Checksum.{ipv4_checksum_valid, sum_words-append}
use pico_10base_t_rs.EthTx.Udp.Layout.{header_words-right, sum_words-header_words}
use pico_10base_t_rs.EthTx.Udp.Built.{
  IsEndpoint, head, headed, words_before, words_behind, checksum, length-head, head-AreBytes,
  header_words-headed,
}

module _ (ep : UdpEndpoint) (udp_len ip_id : ℕ) (h : IsEndpoint ep) where
  pub checksum_valid :
      (checksum ep udp_len ip_id < 2 ^ 16)
      × (ipv4_checksum
            (words_before ep udp_len ip_id ++ (checksum ep udp_len ip_id ∷ words_behind ep))
          ≡ 0)
  checksum_valid = ipv4_checksum_valid (words_before ep udp_len ip_id) (words_behind ep) (
      omega (
        arith,
        sum_words-append (words_before ep udp_len ip_id) (0 ∷ words_behind ep),
        sum_words-header_words 5 14 (head ep udp_len ip_id) (head-AreBytes ep udp_len ip_id h),
        sum_words-header_words 4 0 (ep.src_ip ++ ep.dst_ip)
            (append-AreBytes _ _ h.src_ip_bytes h.dst_ip_bytes),
      ))

  -- The words of the header in the finished frame.
  pub header_words-frame :
      (more : List ℕ)
      → header_words (headed ep udp_len ip_id (checksum ep udp_len ip_id) ++ more) 10 14
        ≡ words_before ep udp_len ip_id ++ (checksum ep udp_len ip_id ∷ words_behind ep)
  header_words-frame more =
      let c = checksum ep udp_len ip_id in
      let value : c / 256 % 256 * 256 + c % 256 ≡ c = omega (arith, checksum_valid.0) in
      sym (header_words-right 10 14 preamble (headed ep udp_len ip_id c ++ more))
      ∙ ap (λ l. header_words l 10 22) (regroup (be16 c))
      ∙ header_words-headed ep udp_len ip_id h (c / 256 % 256) (c % 256) more
      ∙ ap (λ w. words_before ep udp_len ip_id ++ (w ∷ words_behind ep)) value
    where
      regroup :
          (z : List ℕ)
          → preamble ++ (head ep udp_len ip_id ++ z ++ ep.src_ip ++ ep.dst_ip ++ more)
            ≡ preamble ++ head ep udp_len ip_id ++ (z ++ (ep.src_ip ++ ep.dst_ip ++ more))
      regroup z = simp append_assoc

  -- The checksum that the code writes.
  pub checksum_written :
      (before rest : List ℕ)
      → before ++ (0x40 ∷ 0x00 ∷ 0x40 ∷ 0x11 ∷ []) ≡ preamble ++ head ep udp_len ip_id
      → ipv4_checksum (
          header_words
            (before ++ (0x40 ∷ 0x00 ∷ 0x40 ∷ 0x11 ∷ 0 ∷ 0 ∷ []) ++ ep.src_ip ++ ep.dst_ip ++ rest)
            10
            22)
        ≡ checksum ep udp_len ip_id
  checksum_written before rest e =
      ap (λ l. ipv4_checksum (header_words l 10 22))
        (regroup (0x40 ∷ 0x00 ∷ 0x40 ∷ 0x11 ∷ []) (0 ∷ 0 ∷ [])
          ∙ ap (λ l. l ++ (0 ∷ 0 ∷ (ep.src_ip ++ ep.dst_ip ++ rest))) e)
      ∙ ap ipv4_checksum (header_words-headed ep udp_len ip_id h 0 0 rest)
    where
      regroup :
          (x z : List ℕ)
          → before ++ (x ++ z) ++ ep.src_ip ++ ep.dst_ip ++ rest
            ≡ before ++ x ++ (z ++ (ep.src_ip ++ ep.dst_ip ++ rest))
      regroup x z = simp append_assoc

  pub length-headed : (c : ℕ) → length (headed ep udp_len ip_id c) ≡ 34
  length-headed c =
      let hd = head ep udp_len ip_id in
      omega (
        arith,
        length-append (hd ++ be16 c ++ ep.src_ip) ep.dst_ip,
        length-append (hd ++ be16 c) ep.src_ip,
        length-append hd (be16 c),
        length-head ep udp_len ip_id h,
        h.src_ip_length,
        h.dst_ip_length,
      )

  pub headed-AreBytes : (c : ℕ) → AreBytes (headed ep udp_len ip_id c)
  headed-AreBytes c =
      append-AreBytes _ _
        (append-AreBytes _ _
          (append-AreBytes _ _ (head-AreBytes ep udp_len ip_id h) (be16-AreBytes c)) h.src_ip_bytes)
        h.dst_ip_bytes
