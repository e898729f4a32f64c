-- ===== src/EthRx/Runs.antt =====
-- The search for runs of activity in src/eth_rx.rs (`find_active_run_from`).
pub mod Search
use pico_10base_t_rs.Prelude.{
  ℕ, zero, suc, ◌+◌, ◌-◌, Bool, not, ◌&&◌, Option, none, some, List, ltb, leb, if◌then◌else◌,
  length, byte,
}
use pico_10base_t_rs.EthRx.Poll.{is_active}

-- Both inner loops: the first index from `i` on that is out of range or fails the test, with the
-- rounds left.
unfoldable pub span_end : (ℕ → Bool) → List ℕ → ℕ → ℕ → ℕ
span_end test bytes zero i = i
span_end test bytes (suc left) i =
    let rest = span_end test bytes left (i + 1) in
    if ltb i (length bytes) && test (byte bytes i) then rest else i

abbrev pub is_quiet : ℕ → Bool
is_quiet b = not (is_active b)

abbrev pub run_start : List ℕ → ℕ → ℕ
run_start bytes i = span_end is_quiet bytes (length bytes) i

abbrev pub run_end : List ℕ → ℕ → ℕ
run_end bytes start = span_end is_active bytes (length bytes) start

unfoldable pub find_loop : List ℕ → ℕ → ℕ → ℕ → Option (ℕ × ℕ)
find_loop bytes min_len zero i = none
find_loop bytes min_len (suc fuel) i =
    let start = run_start bytes i in
    let end_at = run_end bytes start in
    let rest = find_loop bytes min_len fuel end_at in
    if leb (length bytes) start
    then none
    else (if leb min_len (end_at - start)
        then some (start, end_at - start)
        else (if leb (length bytes) end_at then none else rest))

-- Each round of the loop passes at least one byte.
unfoldable pub find_active_run_from : List ℕ → ℕ → ℕ → Option (ℕ × ℕ)
find_active_run_from bytes start min_len = find_loop bytes min_len (suc (length bytes)) start
