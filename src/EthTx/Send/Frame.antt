-- ===== src/EthTx/Send/Frame.antt =====
-- The frame that src/eth_tx.rs puts on the line for a body.
use pico_10base_t_rs.Prelude.{
  ℕ, zero, suc, ◌+◌, ◌-◌, ◌^◌, ◌≤◌, ◌<◌, max, ◌≡◌, refl, ap, sym, ◌∙◌, Bool, true, List, [], ◌∷◌,
  ◌++◌, arith, length, map, take, replicate, length-append, length-replicate, take-append,
  get_or-append_right, byte, AreBytes, all_bytes-AreBytes, append-AreBytes, Bool-cases, inl, inr,
  not, ◌==◌,
}
use mathlib.Core.List.{map-append, append_assoc, append-nil}
use pico_10base_t_rs.Crc.{crc32_ieee802_3}
use pico_10base_t_rs.Crc.Bounds.{crc32_ieee802_3_bounds}
use pico_10base_t_rs.Crc.Laws.{crc32_ieee802_3_padded-replicate}
use pico_10base_t_rs.EthRx.Frames.{rd32_le, verify_fcs}
use pico_10base_t_rs.EthRx.Frames.Length.{verify_fcs_iff}
use pico_10base_t_rs.Manchester.Code.{decode, manchester_table-decode}
use pico_10base_t_rs.EthTx.{EthTx, write_words, back_off, csma_loop, csma_acquire}
use pico_10base_t_rs.EthTx.Send.{
  le32, tp_idl, ifg, encode, pad_len, frame_crc, frame_words, send_raw_frame,
}

-- The body with its padding.
abbrev pub padded : List ℕ → List ℕ
padded body = body ++ replicate (pad_len body) 0

-- The frame with its FCS.
abbrev pub frame_of : List ℕ → List ℕ
frame_of body = padded body ++ le32 (crc32_ieee802_3 (padded body))

abbrev pub preamble : List ℕ
preamble = replicate 7 0x55 ++ (0xD5 ∷ [])

-- Encoding and decoding.
pub decode-encode : (bytes : List ℕ) → AreBytes bytes → map (decode 8) (encode bytes) ≡ bytes
decode-encode [] h = refl
decode-encode (b ∷ bytes) h =
    ap (λ x. x ∷ map (decode 8) (encode bytes)) ((manchester_table-decode b (h 0)).1)
    ∙ ap (λ l. b ∷ l) (decode-encode bytes (λ i. h (suc i)))

pub le32-AreBytes : (v : ℕ) → AreBytes (le32 v)
le32-AreBytes v zero = omega arith
le32-AreBytes v (suc zero) = omega arith
le32-AreBytes v (suc (suc zero)) = omega arith
le32-AreBytes v (suc (suc (suc zero))) = omega arith
le32-AreBytes v (suc (suc (suc (suc i)))) = omega arith

zeros-AreBytes : (n : ℕ) → AreBytes (replicate n 0)
zeros-AreBytes zero i = omega arith
zeros-AreBytes (suc n) zero = omega arith
zeros-AreBytes (suc n) (suc i) = zeros-AreBytes n i

-- The CRC of the padded body.
frame_crc-padded : (body : List ℕ) → frame_crc body ≡ crc32_ieee802_3 (padded body)
unfolding frame_crc
frame_crc-padded body = elim (Bool-cases (pad_len body == 0)) [
  | inl full ↦
      let none_due : pad_len body ≡ 0 = ground arith in
      rw (frame_crc, full, none_due) (ap crc32_ieee802_3 (sym (append-nil body)))
  | inr short ↦ rw (frame_crc, short) (crc32_ieee802_3_padded-replicate body (pad_len body))
]

length-frame_of : (body : List ℕ) → length (frame_of body) ≡ max (length body) 60 + 4
unfolding pad_len
length-frame_of body = omega (
  arith,
  length-append (padded body) (le32 (crc32_ieee802_3 (padded body))),
  length-append body (replicate (pad_len body) 0),
  length-replicate {A = ℕ} (pad_len body) 0,
)

rd32_le-le32 : (xs : List ℕ) (v : ℕ) → v < 2 ^ 32 → rd32_le (xs ++ le32 v) (length xs) ≡ v
rd32_le-le32 xs v h =
    let from : length xs + 0 ≡ length xs = omega arith in
    omega (
      arith,
      ap (byte (xs ++ le32 v)) from,
      get_or-append_right xs (le32 v) 0 0,
      get_or-append_right xs (le32 v) 1 0,
      get_or-append_right xs (le32 v) 2 0,
      get_or-append_right xs (le32 v) 3 0,
    )

padded-AreBytes : (body : List ℕ) → AreBytes body → AreBytes (padded body)
padded-AreBytes body hb =
    append-AreBytes body (replicate (pad_len body) 0) hb (zeros-AreBytes (pad_len body))

-- The receiver's test holds of bytes with their CRC behind them.
pub le32-verify_fcs :
    (bytes : List ℕ)
    → AreBytes bytes
    → 14 ≤ length bytes
    → verify_fcs
        (bytes ++ le32 (crc32_ieee802_3 bytes))
        (length (bytes ++ le32 (crc32_ieee802_3 bytes)))
      ≡ true
le32-verify_fcs bytes hb long =
    let crc = crc32_ieee802_3 bytes in
    let frame = bytes ++ le32 crc in
    let total = length-append bytes (le32 crc) in
    let n : length frame - 4 ≡ length bytes = omega (arith, total) in
    (verify_fcs_iff frame (length frame)).1 (
      omega (arith, total),
      omega arith,
      ap crc32_ieee802_3 (ap (λ k. take k frame) n ∙ take-append bytes (le32 crc))
          ∙ sym (rd32_le-le32 bytes crc (crc32_ieee802_3_bounds bytes hb))
          ∙ ap (rd32_le frame) (sym n),
    )

frame_of-verify_fcs :
    (body : List ℕ) → AreBytes body → verify_fcs (frame_of body) (length (frame_of body)) ≡ true
unfolding pad_len
frame_of-verify_fcs body hb = le32-verify_fcs (padded body) (padded-AreBytes body hb) (
    omega (
      arith,
      length-append body (replicate (pad_len body) 0),
      length-replicate {A = ℕ} (pad_len body) 0,
    ))

csma_loop-line :
    (carrier : ℕ → Bool) (left : ℕ) (s : EthTx) → (csma_loop carrier left s).line ≡ s.line
unfolding csma_loop back_off
csma_loop-line carrier zero s = refl
csma_loop-line carrier (suc left) s =
    let s' : EthTx = back_off carrier s in
    let sensed : EthTx = record s' { readings = s'.readings + 1 } in
    elim (Bool-cases (not (carrier s'.readings))) [
      | inl idle ↦ rw idle
      | inr taken ↦ rw taken (csma_loop-line carrier left sensed)
    ]

-- The code words of a frame, with what is in front of it.
abbrev code_words : List ℕ → List ℕ
code_words body =
    encode (replicate 7 0x55)
    ++ encode (0xD5 ∷ [])
    ++ encode body
    ++ encode (replicate (pad_len body) 0)
    ++ encode (le32 (frame_crc body))

code_and_more :
    (words bytes more : List ℕ)
    → map (decode 8) words ≡ bytes
    → AreBytes more
    → map (decode 8) (words ++ encode more) ≡ bytes ++ more
code_and_more words bytes more h hb =
    map-append (decode 8) words (encode more)
    ∙ ap (λ l. l ++ map (decode 8) (encode more)) h
    ∙ ap (λ l. bytes ++ l) (decode-encode more hb)

code_words-decode :
    (body : List ℕ) → AreBytes body → map (decode 8) (code_words body) ≡ preamble ++ frame_of body
code_words-decode body hb =
    let crc = crc32_ieee802_3 (padded body) in
    let pad = replicate (pad_len body) 0 in
    let start = encode (replicate 7 0x55) ++ encode (0xD5 ∷ []) in
    let with_body =
      code_and_more start preamble body
        (code_and_more (encode (replicate 7 0x55)) (replicate 7 0x55) (0xD5 ∷ [])
          (decode-encode (replicate 7 0x55) (all_bytes-AreBytes (replicate 7 0x55) refl))
          (all_bytes-AreBytes (0xD5 ∷ []) refl))
        hb in
    let with_pad =
      code_and_more (start ++ encode body) (preamble ++ body) pad with_body
        (zeros-AreBytes (pad_len body)) in
    code_and_more (start ++ encode body ++ encode pad) (preamble ++ body ++ pad)
      (le32 (frame_crc body)) with_pad (le32-AreBytes (frame_crc body))
    ∙ ap (λ c. preamble ++ body ++ pad ++ le32 c) (frame_crc-padded body)
    ∙ ap (λ l. l ++ le32 crc) (append_assoc preamble body pad)
    ∙ append_assoc preamble (padded body) (le32 crc)

-- For a body of bytes, the words that `send_raw_frame` adds to the line are Manchester code for the
-- preamble and a frame of at least 64 bytes that starts with the body and that the receiver's FCS test
-- accepts, then the end mark and the gap.
pub send_raw_frame-verify_fcs :
    (full_duplex : Bool) (carrier : ℕ → Bool) (body : List ℕ) (s : EthTx)
    → AreBytes body
    → (words : List ℕ) × ((send_raw_frame full_duplex carrier body s).line
        ≡ s.line ++ (words ++ (tp_idl ∷ []) ++ ifg))
      × (map (decode 8) words ≡ preamble ++ frame_of body)
      × (verify_fcs (frame_of body) (length (frame_of body)) ≡ true)
      × (length (frame_of body) ≡ max (length body) 60 + 4)
      × (take (length body) (frame_of body) ≡ body)
unfolding send_raw_frame write_words frame_words csma_acquire
send_raw_frame-verify_fcs full_duplex carrier body s hb = (
  code_words body,
  elim (Bool-cases full_duplex) [
    | inl fd ↦ rw fd
    | inr hd ↦ rw hd (ap (λ l. l ++ frame_words body) (csma_loop-line carrier 10 s))
  ],
  code_words-decode body hb,
  frame_of-verify_fcs body hb,
  length-frame_of body,
  ap (take (length body))
        (append_assoc body (replicate (pad_len body) 0) (le32 (crc32_ieee802_3 (padded body))))
      ∙ take-append body (replicate (pad_len body) 0 ++ le32 (crc32_ieee802_3 (padded body))),
)
