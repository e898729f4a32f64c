-- ===== src/Prelude/Bytes.antt =====
-- Byte slices: reads, slices, and writes in place. A read that the code guards has 0 for its default,
-- which the guard keeps from being seen.
use Prim.Native.Nat.{ℕ, zero, suc, ◌+◌, ◌-◌, ◌*◌, ◌/◌, ◌%◌, ◌^◌, ◌≤◌, ◌<◌}
use mathlib.Core.Path.{◌≡◌, refl, ap, ◌∙◌}
use mathlib.Core.Logic.{◌⊎◌, inl, inr}
use mathlib.Core.Bool.{Bool, true, false, ◌&&◌}
use mathlib.Core.List.{List, [], ◌∷◌, ◌++◌}
use native.Mathlib.Omega.{arith}
use pico_10base_t_rs.Prelude.Tests.{◌==◌, if◌then◌else◌, ltb, leb, Bool-cases}
use pico_10base_t_rs.Prelude.Lists.{
  length, get_or, set, take, drop, length-set, get_or-set_self, get_or-set_ne,
}

abbrev pub byte : List ℕ → ℕ → ℕ
byte b i = get_or b i 0

-- `b[i..j]`.
abbrev pub slice : List ℕ → ℕ → ℕ → List ℕ
slice b i j = take (j - i) (drop i b)

abbrev pub bytes_eq : List ℕ → List ℕ → Bool
bytes_eq [] [] = true
bytes_eq (x ∷ xs) (y ∷ ys) = x == y && bytes_eq xs ys
bytes_eq _ _ = false

-- `u16::from_be_bytes([b[i], b[i + 1]])`.
abbrev pub rd16 : List ℕ → ℕ → ℕ
rd16 b i = byte b i * 256 + byte b (i + 1)

-- `u32` of four bytes, the value of an address.
abbrev pub rd32 : List ℕ → ℕ → ℕ
rd32 b i = rd16 b i * 65536 + rd16 b (i + 2)

-- `b[i..i + bytes.len()].copy_from_slice(bytes)`.
unfoldable pub write_at : List ℕ → ℕ → List ℕ → List ℕ
write_at b i [] = b
write_at b i (x ∷ xs) = write_at (set b i x) (i + 1) xs

abbrev pub be16 : ℕ → List ℕ
be16 v = v / 256 % 256 ∷ v % 256 ∷ []

abbrev pub be32 : ℕ → List ℕ
be32 v = v / 2 ^ 24 % 256 ∷ v / 2 ^ 16 % 256 ∷ v / 256 % 256 ∷ v % 256 ∷ []

-- Every byte is below 256.
abbrev pub AreBytes : List ℕ → Type 0
AreBytes b = (i : ℕ) → byte b i < 256

pub bytes_eq_refl : (b : List ℕ) → bytes_eq b b ≡ true
bytes_eq_refl [] = refl
bytes_eq_refl (x ∷ xs) = ground (arith, bytes_eq_refl xs)

pub bytes_eq→eq : (a b : List ℕ) → bytes_eq a b ≡ true → a ≡ b
bytes_eq→eq [] [] h = refl
bytes_eq→eq [] (y ∷ ys) h = ground arith
bytes_eq→eq (x ∷ xs) [] h = ground arith
bytes_eq→eq (x ∷ xs) (y ∷ ys) h = ground (arith, bytes_eq→eq xs ys)

pub byte-set :
    (b : List ℕ) (i j v : ℕ) → i < length b → byte (set b i v) j ≡ (if i == j then v else byte b j)
byte-set b i j v h = elim (Bool-cases (i == j)) [
  | inl here ↦ ground (arith, get_or-set_self b i v 0 h)
  | inr there ↦ ground (arith, get_or-set_ne b i j v 0)
]

pub length-write_at : (b : List ℕ) (i : ℕ) (xs : List ℕ) → length (write_at b i xs) ≡ length b
unfolding write_at
length-write_at b i [] = refl
length-write_at b i (x ∷ xs) = length-write_at (set b i x) (i + 1) xs ∙ length-set b i x

-- A byte after a write: from the source inside, as before outside.
pub byte-write_at :
    (b : List ℕ) (i : ℕ) (xs : List ℕ) (j : ℕ)
    → i + length xs ≤ length b
    → byte (write_at b i xs) j
      ≡ (if leb i j && ltb j (i + length xs) then byte xs (j - i) else byte b j)
unfolding write_at
byte-write_at b i [] j h = ground arith
byte-write_at b i (x ∷ xs) j h = elim (Bool-cases (i == j)) [
  | inl here ↦
      ground (arith, length-set b i x, byte-write_at (set b i x) (i + 1) xs j, byte-set b i j x)
  | inr there ↦
      let e : leb (i + 1) j ≡ true → j - i ≡ suc (j - (i + 1)) = ground arith in
      ground (
        arith,
        length-set b i x,
        byte-write_at (set b i x) (i + 1) xs j,
        byte-set b i j x,
        byte_at_suc x xs (j - i) (j - (i + 1)),
      )
]
  where
    byte_at_suc : (x : ℕ) (xs : List ℕ) (k l : ℕ) → k ≡ suc l → byte (x ∷ xs) k ≡ byte xs l
    byte_at_suc x xs k l e = ap (byte (x ∷ xs)) e

abbrev pub wr16 : List ℕ → ℕ → ℕ → List ℕ
wr16 b i v = write_at b i (be16 v)

abbrev pub wr32 : List ℕ → ℕ → ℕ → List ℕ
wr32 b i v = write_at b i (be32 v)

pub rd16-wr16 : (b : List ℕ) (i v : ℕ) → i + 2 ≤ length b → v < 2 ^ 16 → rd16 (wr16 b i v) i ≡ v
rd16-wr16 b i v h lt =
    let hi : byte (wr16 b i v) i ≡ v / 256 % 256 =
      ground
        (arith, byte-write_at b i (be16 v) i, byte_head (v / 256 % 256) (v % 256 ∷ []) (i - i)) in
    let lo : byte (wr16 b i v) (i + 1) ≡ v % 256 = ground (
      arith,
      byte-write_at b i (be16 v) (i + 1),
      byte_next (v / 256 % 256) (v % 256) [] (i + 1 - i),
    ) in
    omega (arith, hi, lo)
  where
    byte_head : (x : ℕ) (xs : List ℕ) (k : ℕ) → k ≡ 0 → byte (x ∷ xs) k ≡ x
    byte_head x xs k e = ap (byte (x ∷ xs)) e

    byte_next : (x y : ℕ) (xs : List ℕ) (k : ℕ) → k ≡ 1 → byte (x ∷ y ∷ xs) k ≡ y
    byte_next x y xs k e = ap (byte (x ∷ y ∷ xs)) e

pub byte-write_at_ne :
    (b : List ℕ) (i : ℕ) (xs : List ℕ) (j : ℕ)
    → i + length xs ≤ length b
    → (j < i) ⊎ (i + length xs ≤ j)
    → byte (write_at b i xs) j ≡ byte b j
byte-write_at_ne b i xs j h out = ground (arith, byte-write_at b i xs j)

pub rd32-wr32 : (b : List ℕ) (i v : ℕ) → i + 4 ≤ length b → v < 2 ^ 32 → rd32 (wr32 b i v) i ≡ v
rd32-wr32 b i v h lt =
    omega
      (arith, at 0 (omega arith), at 1 (omega arith), at 2 (omega arith), at 3 (omega arith), shift)
  where
    at : (k : ℕ) → k < 4 → byte (wr32 b i v) (i + k) ≡ byte (be32 v) k
    at k p = ground (arith, byte-write_at b i (be32 v) (i + k), ap (byte (be32 v)) (shifted k))
      where
        shifted : (k : ℕ) → i + k - i ≡ k
        shifted k = omega arith

    shift :
        (byte (wr32 b i v) i ≡ byte (wr32 b i v) (i + 0))
        × (byte (wr32 b i v) (i + 2 + 1) ≡ byte (wr32 b i v) (i + 3))
    shift = (ap (byte (wr32 b i v)) (omega arith), ap (byte (wr32 b i v)) (omega arith))

pub write_at-AreBytes :
    (b : List ℕ) (i : ℕ) (xs : List ℕ) → AreBytes b → AreBytes xs → AreBytes (write_at b i xs)
unfolding write_at
write_at-AreBytes b i [] hb hx = hb
write_at-AreBytes b i (x ∷ xs) hb hx =
    write_at-AreBytes (set b i x) (i + 1) xs (set-AreBytes b i x hb (hx 0)) (λ j. hx (suc j))
  where
    set-AreBytes : (b : List ℕ) (i x : ℕ) → AreBytes b → x < 256 → AreBytes (set b i x)
    set-AreBytes [] i x hb h j = omega arith
    set-AreBytes (y ∷ ys) zero x hb h zero = h
    set-AreBytes (y ∷ ys) zero x hb h (suc j) = hb (suc j)
    set-AreBytes (y ∷ ys) (suc i) x hb h zero = hb 0
    set-AreBytes (y ∷ ys) (suc i) x hb h (suc j) = set-AreBytes ys i x (λ k. hb (suc k)) h j

pub be16-AreBytes : (v : ℕ) → AreBytes (be16 v)
be16-AreBytes v zero = omega arith
be16-AreBytes v (suc zero) = omega arith
be16-AreBytes v (suc (suc j)) = omega arith

pub be32-AreBytes : (v : ℕ) → AreBytes (be32 v)
be32-AreBytes v zero = omega arith
be32-AreBytes v (suc zero) = omega arith
be32-AreBytes v (suc (suc zero)) = omega arith
be32-AreBytes v (suc (suc (suc zero))) = omega arith
be32-AreBytes v (suc (suc (suc (suc j)))) = omega arith

-- The test that `AreBytes` states.
abbrev pub all_bytes : List ℕ → Bool
all_bytes [] = true
all_bytes (x ∷ xs) = ltb x 256 && all_bytes xs

pub all_bytes-AreBytes : (b : List ℕ) → all_bytes b ≡ true → AreBytes b
all_bytes-AreBytes [] e i = omega arith
all_bytes-AreBytes (x ∷ xs) e zero = ground arith
all_bytes-AreBytes (x ∷ xs) e (suc i) = all_bytes-AreBytes xs (ground arith) i

pub append-AreBytes : (xs ys : List ℕ) → AreBytes xs → AreBytes ys → AreBytes (xs ++ ys)
append-AreBytes [] ys hx hy i = hy i
append-AreBytes (x ∷ xs) ys hx hy zero = hx 0
append-AreBytes (x ∷ xs) ys hx hy (suc i) = append-AreBytes xs ys (λ j. hx (suc j)) hy i

pub drop-AreBytes : (n : ℕ) (xs : List ℕ) → AreBytes xs → AreBytes (drop n xs)
drop-AreBytes zero xs h i = h i
drop-AreBytes (suc n) [] h i = h i
drop-AreBytes (suc n) (x ∷ xs) h i = drop-AreBytes n xs (λ j. h (suc j)) i
