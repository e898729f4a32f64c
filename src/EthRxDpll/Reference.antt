-- ===== src/EthRxDpll/Reference.antt =====
-- The reference decoder for src/eth_rx_dpll.rs: the samples as a function, one loop, no fast path.
use pico_10base_t_rs.Prelude.{
  ℕ, zero, suc, ◌+◌, ◌-◌, ◌*◌, ◌||◌, Option, none, some, List, ltb, leb, ◌==◌, ◌&&◌, if◌then◌else◌,
  length,
}
use pico_10base_t_rs.EthRx.Peek.{sample_bit, find_first_falling_edge, find_sfd_end}
use pico_10base_t_rs.EthRxDpll.{Dpll, go, finished, take_bit, choose_edge, rounds, start_at}

-- The edge nearest to `center` among the samples around it.
unfoldable pub edge_near : List ℕ → ℕ → ℕ
edge_near buf center =
    choose_edge center (sample_bit buf (center - 2)) (sample_bit buf (center - 1))
      (sample_bit buf center) (sample_bit buf (center + 1))

unfoldable pub next_edge : List ℕ → ℕ → ℕ
next_edge buf tr = if leb (8 * length buf) (tr + 7) then tr + 6 else edge_near buf (tr + 6)

unfoldable pub track : List ℕ → ℕ → Dpll → List ℕ
track buf zero s = s.frame
track buf (suc left) s =
    if s.tr == 0 || ltb (8 * length buf) s.tr
    then s.frame
    else (elim (take_bit (sample_bit buf (s.tr - 1)) (record s { pending = none })) [
      | finished frame ↦ frame
      | go s' ↦ track buf left (record s' { tr = next_edge buf s'.tr })
    ])

unfoldable pub first_edge : List ℕ → ℕ → ℕ
first_edge buf center =
    if leb 2 center && ltb (center + 1) (8 * length buf) then edge_near buf center else center

-- The decoder, for a buffer of less than 2^29 bytes.
unfoldable pub decode_reference : List ℕ → Option (List ℕ)
decode_reference buf = elim (find_first_falling_edge buf 0 (8 * length buf)) [
  | none ↦ none
  | some f ↦ elim (find_sfd_end buf 0 f (8 * length buf) 1600) [
    | none ↦ none
    | some sfd ↦ some (track buf (rounds buf) (start_at (first_edge buf (f + (5 + 6 * (sfd + 1))))))
  ]
]
