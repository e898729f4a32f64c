-- ===== src/EthTx/Tests.antt =====
-- Runs of src/eth_tx.rs.
use pico_10base_t_rs.Prelude.{
  ℕ, zero, suc, ◌+◌, max, ◌≡◌, refl, Bool, true, false, List, [], ◌∷◌, ◌++◌, arith, length, map,
  take, replicate, length-replicate, all_bytes-AreBytes,
}
use pico_10base_t_rs.Prelude.Checked.{ok}
use pico_10base_t_rs.EthRx.Frames.{verify_fcs}
use pico_10base_t_rs.Manchester.Code.{word, code, decode, manchester_table-decode}
use pico_10base_t_rs.EthTx.{EthTx, csma_acquire}
use pico_10base_t_rs.EthTx.Send.{tp_idl, ifg, send_raw_frame}
use pico_10base_t_rs.EthTx.Send.Frame.{preamble, frame_of, send_raw_frame-verify_fcs}
use pico_10base_t_rs.EthTx.Carrier.{IsAcquired, IsSeed, csma_acquire-IsAcquired}
use pico_10base_t_rs.EthTx.Udp.{
  UdpEndpoint, ipv4_checksum, header_words, build_eth_ipv4_udp_frame, max_tx_frame,
}
use pico_10base_t_rs.EthTx.Udp.Built.{IsEndpoint}
use pico_10base_t_rs.EthTx.Udp.Frame.{frame_for, build_eth_ipv4_udp_frame-IsFrame}

abbrev fresh : EthTx
fresh = record { ip_identifier = 0; lfsr = 0x2545F491; readings = 0; delays = []; line = [] }

-- The wire is busy at the first two readings.
abbrev carrier : ℕ → Bool
carrier zero = true
carrier (suc zero) = true
carrier _ = false

abbrev hello : List ℕ
hello = 0x48 ∷ 0x65 ∷ 0x6C ∷ 0x6C ∷ 0x6F ∷ []

abbrev endpoint : UdpEndpoint
endpoint = record {
  src_mac = 0x02 ∷ 0x00 ∷ 0x00 ∷ 0x00 ∷ 0x00 ∷ 0x01 ∷ [];
  dst_mac = replicate 6 0xFF;
  src_ip = 192 ∷ 168 ∷ 37 ∷ 24 ∷ [];
  dst_ip = 192 ∷ 168 ∷ 37 ∷ 19 ∷ [];
  src_port = 1234;
  dst_port = 1234;
}

endpoint-IsEndpoint : IsEndpoint endpoint
endpoint-IsEndpoint = record {
  src_mac_length = refl;
  dst_mac_length = refl;
  src_ip_length = refl;
  dst_ip_length = refl;
  src_mac_bytes = all_bytes-AreBytes (endpoint.src_mac) refl;
  dst_mac_bytes = all_bytes-AreBytes (endpoint.dst_mac) refl;
  src_ip_bytes = all_bytes-AreBytes (endpoint.src_ip) refl;
  dst_ip_bytes = all_bytes-AreBytes (endpoint.dst_ip) refl;
}

manchester_table-decode_example : (word 0xD5 ≡ code 8 0xD5) × (decode 8 (word 0xD5) ≡ 0xD5)
manchester_table-decode_example = manchester_table-decode 0xD5 (omega arith)

send_raw_frame-verify_fcs_example :
    (words : List ℕ) × ((send_raw_frame false carrier hello fresh).line
      ≡ fresh.line ++ (words ++ (tp_idl ∷ []) ++ ifg))
    × (map (decode 8) words ≡ preamble ++ frame_of hello)
    × (verify_fcs (frame_of hello) (length (frame_of hello)) ≡ true)
    × (length (frame_of hello) ≡ max (length hello) 60 + 4)
    × (take (length hello) (frame_of hello) ≡ hello)
send_raw_frame-verify_fcs_example =
    send_raw_frame-verify_fcs false carrier hello fresh (all_bytes-AreBytes hello refl)

csma_acquire-IsAcquired_example :
    IsAcquired carrier 10 fresh (csma_acquire carrier fresh)
    × IsSeed ((csma_acquire carrier fresh).lfsr)
csma_acquire-IsAcquired_example =
    csma_acquire-IsAcquired carrier fresh (λ e. absurd (omega (arith, e)), omega arith)

build_eth_ipv4_udp_frame-IsFrame_example :
    let frame = frame_for endpoint hello 7 in
    ((tail : List ℕ) × (build_eth_ipv4_udp_frame endpoint hello (replicate max_tx_frame 0) 7
        ≡ ok (preamble ++ frame ++ tail, length (preamble ++ frame))))
    × (length frame ≡ 46 + length hello)
    × (verify_fcs frame (length frame) ≡ true)
    × (ipv4_checksum (header_words frame 10 14) ≡ 0)
build_eth_ipv4_udp_frame-IsFrame_example =
    build_eth_ipv4_udp_frame-IsFrame endpoint hello (replicate max_tx_frame 0) 7 endpoint-IsEndpoint
      (omega arith) (all_bytes-AreBytes hello refl) (length-replicate {A = ℕ} max_tx_frame 0)
