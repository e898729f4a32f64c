-- ===== src/Launch/Handshake.antt =====
-- The handshake of src/multicore_riscv.rs ends, and says that core 1 runs only if it does.
use pico_10base_t_rs.Prelude.{
  ℕ, zero, suc, ◌+◌, ◌-◌, ◌*◌, ◌≤◌, ◌<◌, ◌≡◌, ◌≢◌, refl, ap, sym, inl, inr, true, false, Option,
  none, some, List, leb, ltb, ◌==◌, arith, length, get_or, subst, Bool-cases, Option-cases,
  if◌then◌else◌,
}
use pico_10base_t_rs.Launch.{
  Fifo, launched, unresponsive, Run, returned, blocked, max_fails, read_spins, read_with_timeout,
  is_echo, read_echo, send_command, respond, handshake, cmd_seq, launch_core1,
}

one_less : (a l : ℕ) → 1 ≤ a → a * l ≡ (a - 1) * l + l
one_less zero l h = absurd (omega arith)
one_less (suc a) l h = let down : suc a - 1 ≡ a = omega arith in rw down (suc_times a l)
  where
    suc_times : (a l : ℕ) → suc a * l ≡ a * l + l
    suc_times a l = grind arith

module _ (f : Fifo) (cmds : List ℕ) where
  abbrev command : ℕ → ℕ
  command seq = get_or cmds seq 0

  -- The state in which command `seq` is written: before a 0 the FIFO is drained.
  abbrev pub ready : ℕ → f.S → f.S
  ready seq s = if command seq == 0 then f.drain s else s

  -- Command `seq` is written, and the response is read.
  pub record IsSent (seq : ℕ) (s : f.S) (resp : Option ℕ) (s' : f.S) : Type 0 where
    pub written : f.S
    pub writes : f.write_blocking (command seq) (ready seq s) ≡ some written
    pub reads : read_with_timeout f read_spins written ≡ (resp, s')

  -- From `t`, the first `n` commands are each written and answered by themselves, one after the other.
  pub data AreEchoed (t : f.S) : ℕ → f.S → Type 0 where
    none_yet : AreEchoed t 0 t
    echoed :
        (seq : ℕ) (s s' : f.S)
        → AreEchoed t seq s
        → IsSent seq s (some (command seq)) s'
        → AreEchoed t (seq + 1) s'

  -- The rounds that fail: each ends with a command whose response is missing or not its echo.
  pub data Failed (s0 : f.S) : ℕ → f.S → Type 0 where
    start : Failed s0 0 s0
    missed :
        (fails seq : ℕ) (t s s' : f.S) (resp : Option ℕ)
        → Failed s0 fails t
        → AreEchoed t seq s
        → seq < length cmds
        → IsSent seq s resp s'
        → resp ≢ some (command seq)
        → Failed s0 (fails + 1) s'

  -- How a handshake ends: with a launch after a round in which every command is echoed, the rounds
  -- before it at most 16; with an error after 17 rounds that fail; or in a write that never returns.
  pub data IsEnded (s0 : f.S) : Run f.S → Type 0 where
    up :
        (fails : ℕ) (t s : f.S)
        → fails ≤ 16
        → Failed s0 fails t
        → AreEchoed t (length cmds) s
        → IsEnded s0 (returned launched s)
    gave_up : (s : f.S) → Failed s0 17 s → IsEnded s0 (returned unresponsive s)
    stuck :
        (fails seq : ℕ) (t s : f.S)
        → fails ≤ 16
        → Failed s0 fails t
        → AreEchoed t seq s
        → seq < length cmds
        → f.write_blocking (command seq) (ready seq s) ≡ none
        → IsEnded s0 blocked

  is_echo_iff :
      (resp : Option ℕ) (cmd : ℕ)
      → (is_echo f resp cmd ≡ true → resp ≡ some cmd)
        × (is_echo f resp cmd ≡ false → resp ≢ some cmd)
  is_echo_iff none cmd = (λ e. cc, λ e h. cc)
  is_echo_iff (some resp) cmd =
      (λ e. ap (λ (k : ℕ). some k) (ground arith), λ e h. absurd (ground (arith, h)))

  handshake-blocked :
      (fuel seq fails : ℕ) (s : f.S)
      → send_command f (command seq) s ≡ none
      → handshake f cmds (suc fuel) seq fails s ≡ blocked
  unfolding handshake
  handshake-blocked fuel seq fails s e = rw (e, handshake) refl

  handshake-sent :
      (fuel seq fails : ℕ) (s s' : f.S)
      → send_command f (command seq) s ≡ some s'
      → handshake f cmds (suc fuel) seq fails s
        ≡ respond f (handshake f cmds fuel) cmds seq fails (read_echo f (command seq) s')
  unfolding handshake
  handshake-sent fuel seq fails s s' e = rw (e, handshake) refl

  abbrev Goal : f.S → ℕ → ℕ → ℕ → f.S → Type 0
  Goal s0 fuel seq fails s = IsEnded s0 (handshake f cmds fuel seq fails s)

  -- The match on the response, when the loop ends well from the next command and from a new start.
  respond-IsEnded :
      (s0 : f.S) (fuel seq fails : ℕ) (t s w : f.S)
      → fails ≤ max_fails
      → seq < length cmds
      → Failed s0 fails t
      → AreEchoed t seq s
      → f.write_blocking (command seq) (ready seq s) ≡ some w
      → ((s' : f.S)
          → seq + 1 < length cmds
          → AreEchoed t (seq + 1) s'
          → Goal s0 fuel (seq + 1) fails s')
      → ((s' : f.S)
          → fails + 1 ≤ max_fails
          → Failed s0 (fails + 1) s'
          → Goal s0 fuel 0 (fails + 1) s')
      → IsEnded s0 (respond f (handshake f cmds fuel) cmds seq fails (read_echo f (command seq) w))
  unfolding respond read_echo
  respond-IsEnded s0 fuel seq fails t s w few lt failed echoes wrote next again =
      let (resp, s') = read_with_timeout f read_spins w in
      let sent : IsSent seq s resp s' = record { written = w; writes = wrote; reads = refl } in
      elim (Bool-cases (is_echo f resp (command seq))) [
        | inl echo ↦
            let same = (is_echo_iff resp (command seq)).0 echo in
            let more =
              echoed seq s s' echoes (subst (λ (r : Option ℕ). IsSent seq s r s') same sent) in
            elim (Bool-cases (leb (length cmds) (seq + 1))) [
              | inl last ↦
                  let all : seq + 1 ≡ length cmds = ground arith in
                  rw (respond, echo, last)
                    (up fails t s' few failed (subst (λ (k : ℕ). AreEchoed t k s') all more))
              | inr on ↦ rw (respond, echo, on) (next s' (ground arith) more)
            ]
        | inr silent ↦
            let miss =
              missed fails seq t s s' resp failed echoes lt sent
                ((is_echo_iff resp (command seq)).1 silent) in
            elim (Bool-cases (ltb max_fails (fails + 1))) [
              | inl spent ↦
                  let all : fails + 1 ≡ 17 = ground arith in
                  rw (respond, silent, spent)
                    (gave_up s' (subst (λ (k : ℕ). Failed s0 k s') all miss))
              | inr left ↦ rw (respond, silent, left) (again s' (ground arith) miss)
            ]
      ]

  handshake-IsEnded :
      (s0 : f.S) (fuel seq fails : ℕ) (t s : f.S)
      → 1 ≤ length cmds
      → fails ≤ max_fails
      → seq < length cmds
      → (max_fails - fails) * length cmds + (length cmds - seq) ≤ fuel
      → Failed s0 fails t
      → AreEchoed t seq s
      → Goal s0 fuel seq fails s
  unfolding send_command
  handshake-IsEnded s0 zero seq fails t s some_cmds few lt enough failed echoes =
      absurd (omega arith)
  handshake-IsEnded s0 (suc fuel) seq fails t s some_cmds few lt enough failed echoes =
      elim (Option-cases (f.write_blocking (command seq) (ready seq s))) [
        | inl full ↦
            subst (IsEnded s0) (sym (handshake-blocked fuel seq fails s full))
              (stuck fails seq t s few failed echoes lt full)
        | inr (w, wrote) ↦ subst (IsEnded s0) (sym (handshake-sent fuel seq fails s w wrote)) (
            respond-IsEnded s0 fuel seq fails t s w few lt failed echoes wrote
              (λ s' on more.
                handshake-IsEnded s0 fuel (seq + 1) fails t s' some_cmds few on (omega arith) failed
                  more)
              (λ s' left miss.
                handshake-IsEnded s0 fuel 0 (fails + 1) s' s' some_cmds left (omega arith)
                  (let same : max_fails - (fails + 1) ≡ max_fails - fails - 1 = omega arith in
                    let step = one_less (max_fails - fails) (length cmds) (omega arith) in
                    rw same (omega (arith, step)))
                  miss none_yet))
      ]

-- The launch ends in one of three ways. It returns a success after a round in which core 1 has echoed
-- all six commands in a row, the first one included, and at most 16 rounds before it have failed. It
-- returns an error after exactly 17 rounds that have failed, each with a command whose response was
-- missing or not its echo. Or a write of a command never returns.
pub launch_core1-IsEnded :
    (f : Fifo) (mtvec sp trampoline : ℕ) (s : f.S)
    → IsEnded f (cmd_seq mtvec sp trampoline) s (launch_core1 f mtvec sp trampoline s)
unfolding launch_core1 cmd_seq
launch_core1-IsEnded f mtvec sp trampoline s =
    handshake-IsEnded f (cmd_seq mtvec sp trampoline) s 102 0 0 s s (omega arith) (omega arith)
      (omega arith) (omega arith) start none_yet
