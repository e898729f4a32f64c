-- ===== src/Prelude/Bits.antt =====
-- The bit operations, digit by digit.
use Prim.Native.Nat.{
  ℕ, zero, suc, ◌+◌, ◌*◌, ◌/◌, ◌%◌, ◌^◌, ◌≤◌, ◌<◌, min, bit_and, bit_xor, digits, bitwise, differ,
  bit_and-bitwise, bit_xor-bitwise,
}
use mathlib.Core.Path.{◌≡◌, refl, sym, ap, ◌∙◌}
use mathlib.Core.Bool.{Bool, true, ◌&&◌}
use native.Mathlib.Omega.{arith}

-- A test of the numbers from 0 up to a bound, by evaluation.
unfoldable pub all_below : ℕ → (ℕ → Bool) → Bool
all_below zero test = true
all_below (suc bound) test = all_below bound test && test bound

pub all_below_lem :
    (bound : ℕ) (test : ℕ → Bool) (k : ℕ) → all_below bound test ≡ true → k < bound → test k ≡ true
unfolding all_below
all_below_lem zero test k passed under = absurd (omega arith)
all_below_lem (suc bound) test k passed under = ground (arith, all_below_lem bound test k)

-- An operation given by what it does once the first number is used up, and by what it does to a digit.
module _ (rest : ℕ → ℕ) (op : ℕ → ℕ → ℕ) where
  used_up : (fuel b : ℕ) → digits rest op fuel 0 b ≡ rest b
  used_up zero b = refl
  used_up (suc fuel) b = refl

  -- Fuel that covers the first number is as good as any other.
  same_digits :
      (fuel other a b : ℕ)
      → a ≤ fuel
      → a ≤ other
      → digits rest op fuel a b ≡ digits rest op other a b
  same_digits fuel other zero b le le' = used_up fuel b ∙ sym (used_up other b)
  same_digits zero other (suc a) b le le' = absurd (omega arith)
  same_digits (suc fuel) zero (suc a) b le le' = absurd (omega arith)
  same_digits (suc fuel) (suc other) (suc a) b le le' =
      ap (λ high. high * 2 + op (suc a % 2) (b % 2))
        (same_digits fuel other (suc a / 2) (b / 2) (omega arith) (omega arith))

  bitwise_step :
      ((b : ℕ) → rest b ≡ rest (b / 2) * 2 + op 0 (b % 2))
      → (a b : ℕ) → bitwise rest op a b ≡ bitwise rest op (a / 2) (b / 2) * 2 + op (a % 2) (b % 2)
  bitwise_step law zero b = law b
  bitwise_step law (suc a) b =
      ap (λ high. high * 2 + op (suc a % 2) (b % 2))
        (same_digits a (suc a / 2) (suc a / 2) (b / 2) (omega arith) (omega arith))

digit_sum : (x y : ℕ) → x < 2 → y < 2 → differ x y ≡ (x + y) % 2
digit_sum zero y small small' = omega arith
digit_sum (suc zero) zero small small' = refl
digit_sum (suc zero) (suc zero) small small' = refl
digit_sum (suc zero) (suc (suc y)) small small' = absurd (omega arith)
digit_sum (suc (suc x)) y small small' = absurd (omega arith)

-- The lowest bit of an exclusive or, and the rest.
pub bit_xor_step : (a b : ℕ) → bit_xor a b ≡ bit_xor (a / 2) (b / 2) * 2 + (a % 2 + b % 2) % 2
bit_xor_step a b =
    let whole = bitwise_step (λ b. b) differ (λ b. omega arith) a b in
    omega (
      arith,
      whole,
      bit_xor-bitwise a b,
      bit_xor-bitwise (a / 2) (b / 2),
      digit_sum (a % 2) (b % 2) (omega arith) (omega arith),
    )

-- An exclusive or of two numbers of `k` bits has `k` bits.
pub bit_xor_bounds : (k a b : ℕ) → a < 2 ^ k → b < 2 ^ k → bit_xor a b < 2 ^ k
bit_xor_bounds zero a b small small' =
    let none : bit_xor 0 0 ≡ 0 = refl in
    let a_zero : a ≡ 0 = omega arith in
    let b_zero : b ≡ 0 = omega arith in rw (a_zero, b_zero) (omega (arith, none))
bit_xor_bounds (suc k) a b small small' =
    let double : 2 ^ suc k ≡ 2 ^ k * 2 = omega arith in
    omega (
      arith,
      double,
      bit_xor_step a b,
      bit_xor_bounds k (a / 2) (b / 2) (omega arith) (omega arith),
    )

-- The lowest bit of a conjunction, and the rest.
conjunction_step : (a b : ℕ) → bit_and a b ≡ bit_and (a / 2) (b / 2) * 2 + min (a % 2) (b % 2)
conjunction_step a b =
    let whole = bitwise_step (λ b. 0) min (λ b. omega arith) a b in
    omega (arith, whole, bit_and-bitwise a b, bit_and-bitwise (a / 2) (b / 2))

no_mask : (bound a : ℕ) → a ≤ bound → bit_and a 0 ≡ 0
no_mask bound zero le = refl
no_mask zero (suc a) le = absurd (omega arith)
no_mask (suc bound) (suc a) le =
    let high = no_mask bound (suc a / 2) (omega arith) in
    omega (arith, high, conjunction_step (suc a) 0)

-- The three lowest bits.
pub bit_and_seven : (a : ℕ) → bit_and a 7 ≡ a % 8
bit_and_seven a =
    let top = a / 2 / 2 / 2 in
    omega (
      arith,
      conjunction_step a 7,
      conjunction_step (a / 2) 3,
      conjunction_step (a / 2 / 2) 1,
      no_mask top top (omega arith),
    )
