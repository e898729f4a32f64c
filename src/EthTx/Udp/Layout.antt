-- ===== src/EthTx/Udp/Layout.antt =====
-- Writes into the scratch buffer of src/eth_tx.rs, one behind the other, and the words of the header.
use pico_10base_t_rs.Prelude.{
  ℕ, zero, suc, ◌+◌, ◌*◌, ◌≤◌, ◌≡◌, refl, ap, sym, ◌∙◌, List, [], ◌∷◌, ◌++◌, arith, length, drop,
  set, rd16, write_at, leb, true, AreBytes, get_or-append_left, get_or-append_right, length-append,
  byte,
}
use mathlib.Core.List.{append_assoc, append-nil}
use pico_10base_t_rs.Prelude.Checked.{ok}
use pico_10base_t_rs.EthTx.Udp.{sum_words, copy_at, header_words}

set-append : (xs ys : List ℕ) (y v : ℕ) → set (xs ++ (y ∷ ys)) (length xs) v ≡ xs ++ (v ∷ ys)
set-append [] ys y v = refl
set-append (x ∷ xs) ys y v = ap (λ l. x ∷ l) (set-append xs ys y v)

pub write_at-append :
    (zs xs ys : List ℕ)
    → length zs ≤ length ys
    → write_at (xs ++ ys) (length xs) zs ≡ xs ++ zs ++ drop (length zs) ys
unfolding write_at
write_at-append [] xs ys h = ap (λ l. l ++ ys) (sym (append-nil xs))
write_at-append (z ∷ zs) xs [] h = absurd (omega arith)
write_at-append (z ∷ zs) xs (y ∷ ys) h =
    let next : length xs + 1 ≡ length (xs ++ (z ∷ [])) = omega (arith, length-append xs (z ∷ [])) in
    ap (λ l. write_at l (length xs + 1) zs)
      (set-append xs ys y z ∙ sym (append_assoc xs (z ∷ []) ys))
    ∙ ap (λ k. write_at (xs ++ (z ∷ []) ++ ys) k zs) next
    ∙ write_at-append zs (xs ++ (z ∷ [])) ys (omega arith)
    ∙ ap (λ l. l ++ drop (length zs) ys) (append_assoc xs (z ∷ []) zs)

-- A write right behind what is there.
pub copy_at-append :
    (xs ys zs : List ℕ) (i : ℕ)
    → length xs ≡ i
    → length zs ≤ length ys
    → copy_at (xs ++ ys) i zs ≡ ok (xs ++ zs ++ drop (length zs) ys)
unfolding copy_at
copy_at-append xs ys zs i e h =
    let fits : leb (i + length zs) (length (xs ++ ys)) ≡ true =
      ground (arith, length-append xs ys) in
    rw (copy_at, fits)
      (ap (λ k. ok (write_at (xs ++ ys) k zs)) (sym e) ∙ ap ok (write_at-append zs xs ys h))

-- The words of a part of the buffer.
pub header_words-left :
    (n i : ℕ) (xs ys : List ℕ)
    → i + 2 * n ≤ length xs
    → header_words (xs ++ ys) n i ≡ header_words xs n i
header_words-left zero i xs ys h = refl
header_words-left (suc n) i xs ys h =
    let word : rd16 (xs ++ ys) i ≡ rd16 xs i = omega (
      arith,
      get_or-append_left xs ys i 0 (omega arith),
      get_or-append_left xs ys (i + 1) 0 (omega arith),
    ) in
    ap (λ w. w ∷ header_words (xs ++ ys) n (i + 2)) word
    ∙ ap (λ l. rd16 xs i ∷ l) (header_words-left n (i + 2) xs ys (omega arith))

pub header_words-right :
    (n i : ℕ) (xs ys : List ℕ) → header_words (xs ++ ys) n (length xs + i) ≡ header_words ys n i
header_words-right zero i xs ys = refl
header_words-right (suc n) i xs ys =
    let next : length xs + i + 1 ≡ length xs + (i + 1) = omega arith in
    let after_next : length xs + i + 2 ≡ length xs + (i + 2) = omega arith in
    let word : rd16 (xs ++ ys) (length xs + i) ≡ rd16 ys i = omega (
      arith,
      get_or-append_right xs ys i 0,
      ap (byte (xs ++ ys)) next,
      get_or-append_right xs ys (i + 1) 0,
    ) in
    ap (λ w. w ∷ header_words (xs ++ ys) n (length xs + i + 2)) word
    ∙ ap (λ k. rd16 ys i ∷ header_words (xs ++ ys) n k) after_next
    ∙ ap (λ l. rd16 ys i ∷ l) (header_words-right n (i + 2) xs ys)

pub header_words-split :
    (n m i : ℕ) (out : List ℕ)
    → header_words out (n + m) i ≡ header_words out n i ++ header_words out m (i + 2 * n)
header_words-split zero m i out =
    let a : 0 + m ≡ m = omega arith in
    let b : i + 2 * 0 ≡ i = omega arith in
    ap (λ k. header_words out k i) a ∙ ap (header_words out m) (sym b)
header_words-split (suc n) m i out =
    let a : suc n + m ≡ suc (n + m) = omega arith in
    let b : i + 2 + 2 * n ≡ i + 2 * suc n = omega arith in
    ap (λ k. header_words out k i) a
    ∙ ap (λ l. rd16 out i ∷ l) (header_words-split n m (i + 2) out)
    ∙ ap (λ k. header_words out (suc n) i ++ header_words out m k) b

pub sum_words-header_words :
    (n i : ℕ) (out : List ℕ) → AreBytes out → sum_words (header_words out n i) ≤ n * 65535
sum_words-header_words zero i out hb = omega arith
sum_words-header_words (suc n) i out hb =
    omega (arith, hb i, hb (i + 1), sum_words-header_words n (i + 2) out hb)

-- The ten words of a header around its checksum field.
pub header_words-field :
    (before rest : List ℕ) (i a b : ℕ)
    → length before ≡ i + 10
    → header_words (before ++ (a ∷ b ∷ rest)) 10 i
      ≡ header_words before 5 i ++ ((a * 256 + b) ∷ header_words rest 4 0)
header_words-field before rest i a b e =
    let all = before ++ (a ∷ b ∷ rest) in
    header_words-split 5 5 i all
    ∙ ap (λ l. l ++ header_words all 5 (i + 10))
        (header_words-left 5 i before (a ∷ b ∷ rest) (omega arith))
    ∙ ap (λ k. header_words before 5 i ++ header_words all 5 k) (field_at before i e)
    ∙ ap (λ l. header_words before 5 i ++ l) (header_words-right 5 0 before (a ∷ b ∷ rest))
    ∙ ap (λ l. header_words before 5 i ++ ((a * 256 + b) ∷ l))
        (header_words-right 4 0 (a ∷ b ∷ []) rest)
  where
    field_at : (before : List ℕ) (i : ℕ) → length before ≡ i + 10 → i + 10 ≡ length before + 0
    field_at before i e = omega arith
