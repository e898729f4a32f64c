-- ===== src/Launch.antt =====
-- The launch of core 1 in src/multicore_riscv.rs: the handshake over the FIFO between the cores. The
-- FIFO is a parameter; the reset of core 1 and the words on its stack are hardware access.
pub mod Handshake
mod Tests
use pico_10base_t_rs.Prelude.{
  ℕ, zero, suc, ◌+◌, Bool, true, false, Option, none, some, List, [], ◌∷◌, ltb, leb, ◌==◌,
  if◌then◌else◌, length, get_or,
}

-- `drain`, with the wake-up that follows it, `write_blocking`, and `read`. `none` is a write that
-- never returns, since core 1 does not make room in the FIFO.
pub record Fifo : Type 1 where
  pub S : Type 0
  pub drain : S → S
  pub write_blocking : ℕ → S → Option S
  pub read : S → Option ℕ × S

pub data LaunchResult : Type 0 where
  launched unresponsive : LaunchResult

-- How a run ends: it returns, or a write never does. `out_of_fuel` is the end of the fuel.
pub data Run (S : Type 0) : Type 0 where
  returned : LaunchResult → S → Run S
  blocked out_of_fuel : Run S

-- The commands, with the vector table, the stack pointer and the trampoline.
unfoldable pub cmd_seq : ℕ → ℕ → ℕ → List ℕ
cmd_seq mtvec sp trampoline = 0 ∷ 0 ∷ 1 ∷ mtvec ∷ sp ∷ trampoline ∷ []

abbrev pub read_spins : ℕ
read_spins = 2000000

abbrev pub max_fails : ℕ
max_fails = 16

module _ (f : Fifo) where
  unfoldable pub read_with_timeout : ℕ → f.S → Option ℕ × f.S
  read_with_timeout zero s = (none, s)
  read_with_timeout (suc spins) s =
      let (got, s') = f.read s in
      elim got [ some v ↦ (some v, s') | none ↦ read_with_timeout spins s' ]

  abbrev pub is_echo : Option ℕ → ℕ → Bool
  is_echo none cmd = false
  is_echo (some resp) cmd = resp == cmd

  -- The response to a command that is written, and whether it is the echo.
  unfoldable pub read_echo : ℕ → f.S → Bool × f.S
  read_echo cmd s = let (resp, s') = read_with_timeout read_spins s in (is_echo resp cmd, s')

  -- The write of a command, with the drain and the wake-up before a 0.
  unfoldable pub send_command : ℕ → f.S → Option f.S
  send_command cmd s = f.write_blocking cmd (if cmd == 0 then f.drain s else s)

  -- The match on the response to command `seq`; `rest` is the loop from a command, with a number of
  -- failures, on.
  unfoldable pub respond : (ℕ → ℕ → f.S → Run f.S) → List ℕ → ℕ → ℕ → Bool × f.S → Run f.S
  respond rest cmds seq fails (true, s) =
      if leb (length cmds) (seq + 1) then returned launched s else rest (seq + 1) fails s
  respond rest cmds seq fails (false, s) =
      if ltb max_fails (fails + 1) then returned unresponsive s else rest 0 (fails + 1) s

  -- The loop, from command `seq` on and with `fails` failures.
  unfoldable pub handshake : List ℕ → ℕ → ℕ → ℕ → f.S → Run f.S
  handshake cmds zero seq fails s = out_of_fuel
  handshake cmds (suc fuel) seq fails s = elim (send_command (get_or cmds seq 0) s) [
    | none ↦ blocked
    | some s' ↦ respond (handshake cmds fuel) cmds seq fails (read_echo (get_or cmds seq 0) s')
  ]

  -- Each of 17 failures comes after at most six commands, and so does the launch.
  unfoldable pub launch_core1 : ℕ → ℕ → ℕ → f.S → Run f.S
  launch_core1 mtvec sp trampoline s = handshake (cmd_seq mtvec sp trampoline) 102 0 0 s
