-- ===== src/EthTx/Carrier.antt =====
-- Carrier sense and back-off of src/eth_tx.rs.
use pico_10base_t_rs.Prelude.{
  ℕ, zero, suc, ◌+◌, ◌-◌, ◌*◌, ◌/◌, ◌%◌, ◌^◌, ◌≤◌, ◌<◌, ◌≡◌, ◌≢◌, refl, ap, sym, ◌∙◌, inl, inr,
  Bool, true, false, ◌==◌, arith, bit_xor, bit_xor_step, bit_xor_bounds, bit_and, Bool-cases, subst,
  if-false, [], ◌∷◌, ◌++◌,
}
use pico_10base_t_rs.EthTx.{
  EthTx, xor_shl, xor_shr, next_rand, wait_loop, wait_carrier_idle, after_wait, back_off, csma_loop,
  csma_acquire,
}

-- Two numbers whose exclusive or is 0 are equal.
bit_xor_zero_to : (n a b : ℕ) → a ≤ n → b ≤ n → bit_xor a b ≡ 0 → a ≡ b
bit_xor_zero_to zero a b p q h = omega arith
bit_xor_zero_to (suc n) a b p q h =
    let step = bit_xor_step a b in
    omega (
      arith,
      step,
      bit_xor_zero_to n (a / 2) (b / 2) (omega arith) (omega arith) (omega (arith, step)),
    )

bit_xor_zero : (a b : ℕ) → bit_xor a b ≡ 0 → a ≡ b
bit_xor_zero a b h = bit_xor_zero_to (a + b) a b (omega arith) (omega arith) h

-- A generator state: 32 bits, and not the fixed point 0.
abbrev pub IsSeed : ℕ → Type 0
IsSeed x = (x ≢ 0) × (x < 2 ^ 32)

shl_thirteen : (x : ℕ) → x < 2 ^ 32 → x ≡ x * 2 ^ 13 % 2 ^ 32 → x ≡ 0
shl_thirteen x h e = omega arith

shl_five : (x : ℕ) → x < 2 ^ 32 → x ≡ x * 2 ^ 5 % 2 ^ 32 → x ≡ 0
shl_five x h e = omega arith

shr_seventeen : (x : ℕ) → x ≡ x / 2 ^ 17 → x ≡ 0
shr_seventeen x e = omega arith

pub next_rand-IsSeed : (x : ℕ) → IsSeed x → IsSeed (next_rand x)
unfolding next_rand
next_rand-IsSeed x (ne, small) =
    let a = xor_shl x 13 in
    let b = xor_shr a 17 in
    let a_small : a < 2 ^ 32 = bit_xor_bounds 32 x (x * 2 ^ 13 % 2 ^ 32) small (omega arith) in
    let b_small : b < 2 ^ 32 = bit_xor_bounds 32 a (a / 2 ^ 17) a_small (omega arith) in
    (
      λ e.
          let b_zero : b ≡ 0 = shl_five b b_small (bit_xor_zero b (b * 2 ^ 5 % 2 ^ 32) e) in
          let a_zero : a ≡ 0 = shr_seventeen a (bit_xor_zero a (a / 2 ^ 17) b_zero) in
          ne (shl_thirteen x small (bit_xor_zero x (x * 2 ^ 13 % 2 ^ 32) a_zero)),
      bit_xor_bounds 32 b (b * 2 ^ 5 % 2 ^ 32) b_small (omega arith),
    )

-- The spins of a wait, `spins` of them done.
abbrev pub IsWaited : (ℕ → Bool) → ℕ → ℕ → ℕ → Type 0
IsWaited carrier now cap spins =
    (spins ≤ cap)
    × ((j : ℕ) → j < spins → carrier (now + j) ≡ true)
    × (spins < cap → carrier (now + spins) ≡ false)

wait_loop-IsWaited :
    (carrier : ℕ → Bool) (now left spins : ℕ)
    → ((j : ℕ) → j < spins → carrier (now + j) ≡ true)
    → IsWaited carrier now (spins + left) (wait_loop carrier left (now + spins) spins)
unfolding wait_loop
wait_loop-IsWaited carrier now zero spins busy = (omega arith, busy, λ lt. absurd (omega arith))
wait_loop-IsWaited carrier now (suc left) spins busy = elim (Bool-cases (carrier (now + spins))) [
  | inr idle ↦ rw idle (omega arith, busy, λ lt. idle)
  | inl taken ↦
      let more : (j : ℕ) → j < spins + 1 → carrier (now + j) ≡ true = λ j lt.
        elim (Bool-cases (j == spins)) [
          | inl here ↦
              let same : j ≡ spins = ground arith in ap (λ k. carrier (now + k)) same ∙ taken
          | inr before ↦ busy j (ground arith)
        ] in
      let on : now + (spins + 1) ≡ now + spins + 1 = omega arith in
      let cap : spins + 1 + left ≡ spins + suc left = omega arith in
      rw taken (
        subst (λ k. IsWaited carrier now (spins + suc left) (wait_loop carrier left k (spins + 1)))
          on
          (subst
            (λ k. IsWaited carrier now k (wait_loop carrier left (now + (spins + 1)) (spins + 1)))
            cap (wait_loop-IsWaited carrier now left (spins + 1) more)))
]

-- The wait spins exactly as long as the carrier is seen, and 200000 times at most.
pub wait_carrier_idle-IsWaited :
    (carrier : ℕ → Bool) (now : ℕ) → IsWaited carrier now 200000 (wait_carrier_idle carrier now)
unfolding wait_carrier_idle
wait_carrier_idle-IsWaited carrier now =
    let from : now + 0 ≡ now = omega arith in
    subst (λ k. IsWaited carrier now 200000 (wait_loop carrier 200000 k 0)) from
      (wait_loop-IsWaited carrier now 200000 0 (λ j lt. absurd (omega arith)))

-- One attempt, up to the reading that senses the wire again: a wait, whose last reading is the idle
-- one or the 200000th busy one; a step of the generator; a delay of 240 cycles for each slot that its
-- low four bits give, and none for no slot; and one more reading.
pub record IsAttempt (carrier : ℕ → Bool) (s s' : EthTx) : Type 0 where
  pub spins : ℕ
  pub waited : IsWaited carrier s.readings 200000 spins
  pub idle_seen : spins < 200000 → s'.readings ≡ s.readings + spins + 2
  pub given_up : spins ≡ 200000 → s'.readings ≡ s.readings + spins + 1
  pub stepped : s'.lfsr ≡ next_rand s.lfsr
  pub no_slot : bit_and s'.lfsr 0x0F ≡ 0 → s'.delays ≡ s.delays
  pub slots : bit_and s'.lfsr 0x0F ≢ 0 → s'.delays ≡ s.delays ++ (bit_and s'.lfsr 0x0F * 240 ∷ [])
  pub same_line : s'.line ≡ s.line
  pub same_identifier : s'.ip_identifier ≡ s.ip_identifier

-- At most so many attempts: the first whose last reading finds the wire idle is the last one, and
-- without one all are used.
pub data IsAcquired (carrier : ℕ → Bool) : ℕ → EthTx → EthTx → Type 0 where
  used_up : (s : EthTx) → IsAcquired carrier 0 s s
  idle :
      (left : ℕ) (s s' : EthTx)
      → IsAttempt carrier s s'
      → carrier (s'.readings - 1) ≡ false
      → IsAcquired carrier (suc left) s s'
  busy :
      (left : ℕ) (s s' r : EthTx)
      → IsAttempt carrier s s'
      → carrier (s'.readings - 1) ≡ true
      → IsAcquired carrier left s' r
      → IsAcquired carrier (suc left) s r

-- The state after an attempt.
abbrev sensed : (ℕ → Bool) → EthTx → EthTx
sensed carrier s = record (back_off carrier s) { readings = (back_off carrier s).readings + 1 }

sensed-IsAttempt : (carrier : ℕ → Bool) (s : EthTx) → IsAttempt carrier s (sensed carrier s)
unfolding back_off after_wait
sensed-IsAttempt carrier s =
    let x = next_rand s.lfsr in
    record {
      spins = wait_carrier_idle carrier s.readings;
      waited = wait_carrier_idle-IsWaited carrier s.readings;
      idle_seen = λ lt. ground arith;
      given_up = λ e. ground arith;
      stepped = refl;
      no_slot = λ e. ground arith;
      slots = λ ne. if-false (bit_and x 0x0F == 0) _ _ (ground arith);
      same_line = refl;
      same_identifier = refl;
    }

csma_loop-IsAcquired :
    (carrier : ℕ → Bool) (left : ℕ) (s : EthTx)
    → IsAcquired carrier left s (csma_loop carrier left s)
unfolding csma_loop
csma_loop-IsAcquired carrier zero s = used_up s
csma_loop-IsAcquired carrier (suc left) s =
    let sense = (back_off carrier s).readings in
    let last : sense + 1 - 1 ≡ sense = omega arith in
    elim (Bool-cases (carrier sense)) [
      | inr quiet ↦
          rw quiet
            (idle left s (sensed carrier s) (sensed-IsAttempt carrier s) (ap carrier last ∙ quiet))
      | inl taken ↦ rw taken (
          busy left s (sensed carrier s) (csma_loop carrier left (sensed carrier s))
            (sensed-IsAttempt carrier s) (ap carrier last ∙ taken)
            (csma_loop-IsAcquired carrier left (sensed carrier s)))
    ]

attempt-IsSeed :
    (carrier : ℕ → Bool) (s s' : EthTx) → IsAttempt carrier s s' → IsSeed s.lfsr → IsSeed s'.lfsr
attempt-IsSeed carrier s s' a h = subst IsSeed (sym a.stepped) (next_rand-IsSeed s.lfsr h)

acquired-IsSeed :
    (carrier : ℕ → Bool) (left : ℕ) (s r : EthTx)
    → IsAcquired carrier left s r
    → IsSeed s.lfsr
    → IsSeed r.lfsr
acquired-IsSeed carrier _ _ _ (used_up s) h = h
acquired-IsSeed carrier _ _ _ (idle left s s' a e) h = attempt-IsSeed carrier s s' a h
acquired-IsSeed carrier _ _ _ (busy left s s' r a e rest) h =
    acquired-IsSeed carrier left s' r rest (attempt-IsSeed carrier s s' a h)

-- From a generator state of 32 bits that is not 0: the acquisition makes at most ten attempts, and
-- another one only if the last reading of the one before finds the wire busy. Each attempt waits until
-- a reading finds the wire idle, for 200000 busy readings at most, steps the generator, delays by 240
-- cycles for each slot that the low four bits of its state give, and reads the wire again. The
-- generator state is still of 32 bits and not 0.
pub csma_acquire-IsAcquired :
    (carrier : ℕ → Bool) (s : EthTx)
    → IsSeed s.lfsr
    → IsAcquired carrier 10 s (csma_acquire carrier s) × IsSeed ((csma_acquire carrier s).lfsr)
unfolding csma_acquire
csma_acquire-IsAcquired carrier s seed =
    let got = csma_loop-IsAcquired carrier 10 s in
    (got, acquired-IsSeed carrier 10 s (csma_acquire carrier s) got seed)
