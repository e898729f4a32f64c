-- ===== src/Launch/Tests.antt =====
-- Runs of the launch in src/multicore_riscv.rs.
use pico_10base_t_rs.Prelude.{ℕ, none, some, List, [], ◌∷◌}
use pico_10base_t_rs.Launch.{Fifo, cmd_seq, launch_core1}
use pico_10base_t_rs.Launch.Handshake.{IsEnded, launch_core1-IsEnded}

-- A core that echoes what it gets; `drain` empties the FIFO.
abbrev willing : Fifo
willing = record {
  S = List ℕ;
  drain = λ s. [];
  write_blocking = λ v s. some (v ∷ s);
  read = λ s. elim s [ [] ↦ (none, []) | v ∷ rest ↦ (some v, rest) ];
}

launch_core1-IsEnded_example :
    IsEnded willing (cmd_seq 100 200 300) (7 ∷ []) (launch_core1 willing 100 200 300 (7 ∷ []))
launch_core1-IsEnded_example = launch_core1-IsEnded willing 100 200 300 (7 ∷ [])
