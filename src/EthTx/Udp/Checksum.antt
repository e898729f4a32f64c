-- ===== src/EthTx/Udp/Checksum.antt =====
-- The header checksum of src/eth_tx.rs.
use pico_10base_t_rs.Prelude.{
  ℕ, zero, suc, ◌+◌, ◌-◌, ◌/◌, ◌%◌, ◌^◌, ◌≤◌, ◌<◌, ◌≡◌, refl, ap, ◌∙◌, ◌==◌, arith, Bool-cases, inl,
  inr, List, [], ◌∷◌, ◌++◌,
}
use pico_10base_t_rs.EthTx.Udp.{sum_words, fold_carries, ipv4_checksum}

-- A fold keeps the value as a ones' complement number: the remainder by 65535, and whether it is 0.
fold_value :
    (n sum : ℕ)
    → (fold_carries n sum % 65535 ≡ sum % 65535)
      × (1 ≤ sum → 1 ≤ fold_carries n sum)
      × (fold_carries n sum ≤ sum)
unfolding fold_carries
fold_value zero sum = (refl, λ h. h, omega arith)
fold_value (suc n) sum = elim (Bool-cases (sum / 2 ^ 16 == 0)) [
  | inl small ↦ rw small (refl, λ h. h, omega arith)
  | inr large ↦
      let next = sum % 2 ^ 16 + sum / 2 ^ 16 in
      let rest = fold_value n next in
      rw large (omega (arith, rest.0), λ h. rest.1 (omega arith), omega (arith, rest.2))
]

-- Three rounds are enough for any 32-bit sum.
fold_bounds : (sum : ℕ) → sum < 2 ^ 32 → fold_carries 3 sum < 2 ^ 16
unfolding fold_carries
fold_bounds sum h = ground arith

pub sum_words-append : (xs ys : List ℕ) → sum_words (xs ++ ys) ≡ sum_words xs + sum_words ys
sum_words-append [] ys = omega arith
sum_words-append (x ∷ xs) ys = omega (arith, sum_words-append xs ys)

-- A header with its checksum in place sums to all ones, for any sum that 32 bits hold.
complement :
    (s : ℕ)
    → s + 2 ^ 16 < 2 ^ 32
    → let c = 2 ^ 16 - 1 - fold_carries 3 (s % 2 ^ 32) % 2 ^ 16 in
      2 ^ 16 - 1 - fold_carries 3 ((s + c) % 2 ^ 32) % 2 ^ 16 ≡ 0
complement s h =
    let c = 2 ^ 16 - 1 - fold_carries 3 (s % 2 ^ 32) % 2 ^ 16 in
    let first = fold_value 3 (s % 2 ^ 32) in
    let again = fold_value 3 ((s + c) % 2 ^ 32) in
    let some_left : 1 ≤ (s + c) % 2 ^ 32 = omega (arith, first.0, first.2) in
    omega (
      arith,
      first.0,
      first.2,
      fold_bounds (s % 2 ^ 32) (omega arith),
      again.0,
      again.1 some_left,
      fold_bounds ((s + c) % 2 ^ 32) (omega arith),
    )

-- For words whose sum fits 32 bits with room for one more, the checksum of the words with 0 in its
-- field has 16 bits, and the words with the checksum in that field have the checksum 0, which is what
-- a receiver tests.
pub ipv4_checksum_valid :
    (xs ys : List ℕ)
    → sum_words (xs ++ (0 ∷ ys)) + 2 ^ 16 < 2 ^ 32
    → (ipv4_checksum (xs ++ (0 ∷ ys)) < 2 ^ 16)
      × (ipv4_checksum (xs ++ (ipv4_checksum (xs ++ (0 ∷ ys)) ∷ ys)) ≡ 0)
unfolding ipv4_checksum
ipv4_checksum_valid xs ys h =
    let s = sum_words (xs ++ (0 ∷ ys)) in
    let c = ipv4_checksum (xs ++ (0 ∷ ys)) in
    let with_checksum : sum_words (xs ++ (c ∷ ys)) ≡ s + c =
      omega (arith, sum_words-append xs (0 ∷ ys), sum_words-append xs (c ∷ ys)) in
    (
      omega arith,
      ap (λ t. 2 ^ 16 - 1 - fold_carries 3 (t % 2 ^ 32) % 2 ^ 16) with_checksum ∙ complement s h,
    )
