-- ===== src/EthTx/Udp.antt =====
-- The builder of UDP broadcasts in src/eth_tx.rs, in the scratch buffer.
pub mod Checksum
pub mod Layout
pub mod Built
pub mod Valid
pub mod Frame
use pico_10base_t_rs.Prelude.{
  ℕ, zero, suc, ◌+◌, ◌-◌, ◌*◌, ◌/◌, ◌%◌, ◌^◌, Bool, List, [], ◌∷◌, ◌++◌, leb, ◌==◌, if◌then◌else◌,
  length, replicate, take, slice, rd16, be16, write_at,
}
use pico_10base_t_rs.Prelude.Checked.{Checked, ok, fault, ◌>>=◌}
use pico_10base_t_rs.Crc.{crc32_ieee802_3}
use pico_10base_t_rs.EthTx.{EthTx, write_words}
use pico_10base_t_rs.EthTx.Send.{le32, tp_idl, ifg, encode, sense}

pub record UdpEndpoint : Type 0 where
  pub src_mac : List ℕ
  pub dst_mac : List ℕ
  pub src_ip : List ℕ
  pub dst_ip : List ℕ
  pub src_port : ℕ
  pub dst_port : ℕ

abbrev pub max_tx_frame : ℕ
max_tx_frame = 1526

abbrev pub sum_words : List ℕ → ℕ
sum_words [] = 0
sum_words (w ∷ words) = w + sum_words words

-- The loop that folds the carries back, with its rounds left.
unfoldable pub fold_carries : ℕ → ℕ → ℕ
fold_carries zero sum = sum
fold_carries (suc left) sum =
    let rest = fold_carries left (sum % 2 ^ 16 + sum / 2 ^ 16) in
    if sum / 2 ^ 16 == 0 then sum else rest

-- The 32-bit sum never wraps on fewer than 2^16 words, and then three rounds end the loop.
unfoldable pub ipv4_checksum : List ℕ → ℕ
ipv4_checksum words = 2 ^ 16 - 1 - fold_carries 3 (sum_words words % 2 ^ 32) % 2 ^ 16

-- `out[i..i + bytes.len()].copy_from_slice(bytes)`, which panics past the end.
unfoldable pub copy_at : List ℕ → ℕ → List ℕ → Checked (List ℕ)
copy_at out i bytes =
    if leb (i + length bytes) (length out) then ok (write_at out i bytes) else fault

abbrev pub header_words : List ℕ → ℕ → ℕ → List ℕ
header_words out zero i = []
header_words out (suc left) i = rd16 out i ∷ header_words out left (i + 2)

-- The writes up to the end of the IP header, with 0 for its checksum.
unfoldable pub write_headers : UdpEndpoint → ℕ → List ℕ → ℕ → Checked (List ℕ)
write_headers ep udp_len out ip_id = do
  let ip_total_len = 20 + udp_len
  out ← copy_at out 0 (replicate 7 0x55 ++ (0xD5 ∷ []))
  out ← copy_at out 8 ep.dst_mac
  out ← copy_at out 14 ep.src_mac
  out ← copy_at out 20 (0x08 ∷ 0x00 ∷ [])
  out ← copy_at out 22 (0x45 ∷ 0x00 ∷ [])
  out ← copy_at out 24 (be16 ip_total_len)
  out ← copy_at out 26 (be16 ip_id)
  out ← copy_at out 28 (0x40 ∷ 0x00 ∷ 0x40 ∷ 0x11 ∷ 0 ∷ 0 ∷ [])
  out ← copy_at out 34 ep.src_ip
  copy_at out 38 ep.dst_ip

-- The writes behind the IP header, with the FCS, and the number of bytes.
unfoldable pub write_datagram : UdpEndpoint → List ℕ → ℕ → List ℕ → Checked (List ℕ × ℕ)
write_datagram ep payload udp_len out = do
  out ← copy_at out 42 (be16 ep.src_port)
  out ← copy_at out 44 (be16 ep.dst_port)
  out ← copy_at out 46 (be16 udp_len)
  out ← copy_at out 48 (0 ∷ 0 ∷ [])
  out ← copy_at out 50 payload
  let end = 50 + length payload
  out ← copy_at out end (le32 (crc32_ieee802_3 (slice out 8 end)))
  ok (out, end + 4)

-- The bytes of the frame in `out`, and their number.
unfoldable pub build_eth_ipv4_udp_frame : UdpEndpoint → List ℕ → List ℕ → ℕ → Checked (List ℕ × ℕ)
build_eth_ipv4_udp_frame ep payload out ip_id = do
  let udp_len = (length payload + 8) % 2 ^ 16
  out ← write_headers ep udp_len out ip_id
  out ← copy_at out 32 (be16 (ipv4_checksum (header_words out 10 22)))
  write_datagram ep payload udp_len out

-- The state and the scratch buffer after a broadcast.
unfoldable pub send_udp_broadcast :
    Bool → (ℕ → Bool) → UdpEndpoint → List ℕ → EthTx → List ℕ → Checked (EthTx × List ℕ)
send_udp_broadcast full_duplex carrier ep payload s raw_frame = do
  built ← build_eth_ipv4_udp_frame ep payload raw_frame s.ip_identifier
  let s' : EthTx = record s { ip_identifier = (s.ip_identifier + 1) % 2 ^ 16 }
  ok (
    write_words (encode (take (built.1) (built.0)) ++ (tp_idl ∷ []) ++ ifg)
        (sense full_duplex carrier s'),
    built.0,
  )
