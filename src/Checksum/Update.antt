-- ===== src/Checksum/Update.antt =====
-- What an update of src/conntrack.rs does to the one's-complement sum that a receiver checks.
use pico_10base_t_rs.Prelude.{ℕ, ◌+◌, ◌*◌, ◌%◌, ◌^◌, ◌<◌, ◌≡◌, List, [], ◌∷◌, arith, not16}
use pico_10base_t_rs.Checksum.{add1c, fold_changes, checksum_incr, addr_words}

-- Every word of the list is a `u16`.
abbrev pub AreWords : List (ℕ × ℕ) → Type 0
AreWords [] = Unit
AreWords ((m, m') ∷ changes) = (m < 2 ^ 16) × (m' < 2 ^ 16) × AreWords changes

abbrev pub sum_old : List (ℕ × ℕ) → ℕ
sum_old [] = 0
sum_old ((m, m') ∷ changes) = m + sum_old changes

abbrev pub sum_new : List (ℕ × ℕ) → ℕ
sum_new [] = 0
sum_new ((m, m') ∷ changes) = m' + sum_new changes

-- The end-around-carry sum of words with a positive sum, in 1 ..= 65535.
abbrev pub residue : ℕ → ℕ
residue s = (s + 65534) % 65535 + 1

pub add1c_bounds :
    (a b : ℕ)
    → a < 2 ^ 16
    → b < 2 ^ 16
    → (add1c a b < 2 ^ 16) × (add1c a b % 65535 ≡ (a + b) % 65535)
unfolding add1c
add1c_bounds a b ha hb = omega arith

pub add1c_pos : (a b : ℕ) → a < 2 ^ 16 → b < 2 ^ 16 → 0 < a → 0 < add1c a b
unfolding add1c
add1c_pos a b ha hb h = omega arith

pub fold_changes_lem :
    (changes : List (ℕ × ℕ)) (acc : ℕ)
    → acc < 2 ^ 16
    → AreWords changes
    → (fold_changes acc changes < 2 ^ 16)
      × ((fold_changes acc changes + sum_old changes) % 65535 ≡ (acc + sum_new changes) % 65535)
unfolding fold_changes
fold_changes_lem [] acc h w = omega arith
fold_changes_lem ((m, m') ∷ changes) acc h w =
    let one : add1c acc (not16 m) < 2 ^ 16 = (add1c_bounds acc (not16 m) h (omega arith)).0 in
    let two : add1c (add1c acc (not16 m)) m' < 2 ^ 16 = (add1c_bounds _ m' one w.1).0 in
    omega (
      arith,
      add1c_bounds acc (not16 m) h (omega arith),
      add1c_bounds (add1c acc (not16 m)) m' one w.1,
      fold_changes_lem changes (add1c (add1c acc (not16 m)) m') two w.2,
    )

pub fold_changes_pos :
    (changes : List (ℕ × ℕ)) (acc : ℕ)
    → acc < 2 ^ 16
    → AreWords changes
    → 0 < acc
    → 0 < fold_changes acc changes
unfolding fold_changes
fold_changes_pos [] acc h w p = p
fold_changes_pos ((m, m') ∷ changes) acc h w p =
    let one : add1c acc (not16 m) < 2 ^ 16 = (add1c_bounds acc (not16 m) h (omega arith)).0 in
    fold_changes_pos changes (add1c (add1c acc (not16 m)) m') (add1c_bounds _ m' one w.1).0 w.2
      (add1c_pos _ m' one w.1 (add1c_pos acc (not16 m) h (omega arith) p))

-- Updating a checksum field `c < 2 ^ 16` for changed 16-bit words gives a 16-bit field, and the
-- one's-complement total that a receiver checks (the new words with the new field) equals, modulo
-- 65535, the total before (the old words with the old field).
pub checksum_incr_total :
    (c : ℕ) (changes : List (ℕ × ℕ))
    → c < 2 ^ 16
    → AreWords changes
    → (checksum_incr c changes < 2 ^ 16)
      × ((checksum_incr c changes + sum_new changes) % 65535 ≡ (c + sum_old changes) % 65535)
unfolding checksum_incr
checksum_incr_total c changes h w =
    omega (arith, fold_changes_lem changes (not16 c) (omega arith) w)

-- If the old field was the exact checksum of words with the sum `rest + sum_old changes`, then the
-- updated field is the exact checksum of the words with the sum `rest + sum_new changes`; both sums
-- are positive.
pub checksum_incr_exact :
    (rest : ℕ) (changes : List (ℕ × ℕ))
    → AreWords changes
    → 0 < rest + sum_old changes
    → 0 < rest + sum_new changes
    → checksum_incr (not16 (residue (rest + sum_old changes))) changes
      ≡ not16 (residue (rest + sum_new changes))
unfolding checksum_incr
checksum_incr_exact rest changes w old new =
    let c : ℕ = not16 (residue (rest + sum_old changes)) in
    let acc : ℕ = not16 c in
    omega (
      arith,
      fold_changes_lem changes acc (omega arith) w,
      fold_changes_pos changes acc (omega arith) w (omega arith),
    )

-- The two words of an address put it together again.
pub addr_words_lem :
    (ip : ℕ)
    → ip < 2 ^ 32
    → ((addr_words ip).0 * 2 ^ 16 + (addr_words ip).1 ≡ ip)
      × ((addr_words ip).0 < 2 ^ 16)
      × ((addr_words ip).1 < 2 ^ 16)
unfolding addr_words
addr_words_lem ip h = omega arith
