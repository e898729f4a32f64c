-- ===== src/EthTx/Send.antt =====
-- The senders of src/eth_tx.rs, and the words that they put on the line.
pub mod Frame
use pico_10base_t_rs.Prelude.{
  ℕ, zero, suc, ◌+◌, ◌-◌, ◌/◌, ◌%◌, ◌^◌, Bool, List, [], ◌∷◌, ◌++◌, ◌==◌, if◌then◌else◌, length,
  get_or, map, replicate,
}
use pico_10base_t_rs.Crc.{crc32_ieee802_3, crc32_ieee802_3_padded}
use pico_10base_t_rs.Manchester.{manchester_table}
use pico_10base_t_rs.EthTx.{EthTx, after_wait, csma_acquire, write_words}

abbrev pub le32 : ℕ → List ℕ
le32 v = v % 256 ∷ v / 256 % 256 ∷ v / 2 ^ 16 % 256 ∷ v / 2 ^ 24 % 256 ∷ []

abbrev pub tp_idl : ℕ
tp_idl = 0x00000AAA

-- The gap after a frame.
abbrev pub ifg : List ℕ
ifg = replicate 12 0

abbrev pub encode : List ℕ → List ℕ
encode bytes = map (λ b. get_or manchester_table b 0) bytes

unfoldable pub sense : Bool → (ℕ → Bool) → EthTx → EthTx
sense full_duplex carrier s =
    if full_duplex then s else record s { readings = after_wait carrier s.readings }

-- The pulse is written once: a full FIFO loses it.
unfoldable pub send_nlp : Bool → (ℕ → Bool) → Bool → EthTx → EthTx
send_nlp full_duplex carrier has_room s =
    write_words ((if has_room then 0x0000000A ∷ [] else []) ++ ifg) (sense full_duplex carrier s)

unfoldable pub pad_len : List ℕ → ℕ
pad_len body = 60 - length body

unfoldable pub frame_crc : List ℕ → ℕ
frame_crc body =
    if pad_len body == 0 then crc32_ieee802_3 body else crc32_ieee802_3_padded body (pad_len body)

unfoldable pub frame_words : List ℕ → List ℕ
frame_words body =
    encode (replicate 7 0x55)
    ++ encode (0xD5 ∷ [])
    ++ encode body
    ++ encode (replicate (pad_len body) 0x00)
    ++ encode (le32 (frame_crc body))
    ++ (tp_idl ∷ [])
    ++ ifg

unfoldable pub send_raw_frame : Bool → (ℕ → Bool) → List ℕ → EthTx → EthTx
send_raw_frame full_duplex carrier body s =
    write_words (frame_words body) (if full_duplex then s else csma_acquire carrier s)
