-- ===== src/Conntrack/Alloc.antt =====
-- `alloc_id` of src/conntrack.rs. The table has fewer slots than there are ids, so that the probe
-- finds a free one.
use pico_10base_t_rs.Prelude.{
  ℕ, zero, suc, ◌+◌, ◌-◌, ◌%◌, ◌≤◌, ◌<◌, ◌≡◌, true, false, ◌&&◌, some, List, [], ◌∷◌, arith, ltb,
  ◌==◌, if◌then◌else◌, Bool-cases, length, inl, inr,
}
use pico_10base_t_rs.Conntrack.{Entry, id_in_use, next_cursor, probe, span, nat_lo, nat_hi}

abbrev pub IsNatId : ℕ → Type 0
IsNatId id = (nat_lo ≤ id) × (id ≤ nat_hi)

pub next_cursor-IsNatId : (c : ℕ) → IsNatId c → IsNatId (next_cursor c)
unfolding next_cursor
next_cursor-IsNatId c h = ground arith

-- How many rounds after `c` the probe comes to `id`.
abbrev rounds_to : ℕ → ℕ → ℕ
rounds_to c id = (id + 16384 - c) % 16384

-- The slots whose id the probe reaches in fewer than `n` rounds, and in exactly `n`.
reached : ℕ → ℕ → List Entry → ℕ
reached c n [] = 0
reached c n (s ∷ rest) = (if ltb (rounds_to c s.wan_id) n then 1 else 0) + reached c n rest

reached_at : ℕ → ℕ → List Entry → ℕ
reached_at c n [] = 0
reached_at c n (s ∷ rest) = (if rounds_to c s.wan_id == n then 1 else 0) + reached_at c n rest

reached-suc :
    (c n : ℕ) (slots : List Entry)
    → reached c (suc n) slots ≡ reached c n slots + reached_at c n slots
unfolding reached reached_at
reached-suc c n [] = omega arith
reached-suc c n (s ∷ rest) = ground (arith, reached-suc c n rest)

reached-le-length : (c n : ℕ) (slots : List Entry) → reached c n slots ≤ length slots
unfolding reached
reached-le-length c n [] = omega arith
reached-le-length c n (s ∷ rest) = ground (arith, reached-le-length c n rest)

id_in_use-reached_at :
    (c n id : ℕ) (slots : List Entry)
    → rounds_to c id ≡ n
    → id_in_use slots id ≡ true
    → 0 < reached_at c n slots
unfolding id_in_use reached_at
id_in_use-reached_at c n id [] e h = ground arith
id_in_use-reached_at c n id (s ∷ rest) e h = elim (Bool-cases (s.used && s.wan_id == id)) [
  | inl hit ↦ ground arith
  | inr miss ↦ ground (arith, id_in_use-reached_at c n id rest e)
]

rounds_to_next :
    (c₀ c n : ℕ)
    → IsNatId c₀
    → IsNatId c
    → rounds_to c₀ c ≡ n
    → suc n < 16384
    → rounds_to c₀ (next_cursor c) ≡ suc n
unfolding next_cursor
rounds_to_next c₀ c n h₀ h e lt = ground arith

-- From the round `n` on: as long as the slots reached so far fit, a free id comes within the rounds.
probe_from :
    (left n c₀ c : ℕ) (slots : List Entry)
    → IsNatId c₀
    → IsNatId c
    → rounds_to c₀ c ≡ n
    → n + left ≤ 16384
    → length slots < n + left
    → n ≤ reached c₀ n slots
    → (id : ℕ) × (probe left slots c ≡ (some id, next_cursor id))
      × (id_in_use slots id ≡ false)
      × IsNatId id
unfolding probe
probe_from zero n c₀ c slots h₀ h e fits room full =
    absurd (omega (arith, reached-le-length c₀ n slots))
probe_from (suc left) n c₀ c slots h₀ h e fits room full = elim (Bool-cases (id_in_use slots c)) [
  | inr free ↦ (c, rw free, free, h)
  | inl taken ↦
      let one : 0 < reached_at c₀ n slots = id_in_use-reached_at c₀ n c slots e taken in
      elim (Bool-cases (ltb (suc n) 16384)) [
        | inl more ↦ rw taken (
            probe_from left (suc n) c₀ (next_cursor c) slots h₀ (next_cursor-IsNatId c h)
              (rounds_to_next c₀ c n h₀ h e (ground arith)) (omega arith) (omega arith)
              (omega (arith, reached-suc c₀ n slots)))
        | inr last ↦
            absurd (ground (arith, reached-suc c₀ n slots, reached-le-length c₀ (suc n) slots))
      ]
]

-- With fewer slots than ids the probe finds a free id, from any cursor in range.
pub probe_total :
    (slots : List Entry) (c : ℕ)
    → IsNatId c
    → length slots < span
    → (id : ℕ) × (probe span slots c ≡ (some id, next_cursor id))
      × (id_in_use slots id ≡ false)
      × IsNatId id
unfolding reached
probe_total slots c h room =
    probe_from span 0 c c slots h h (omega arith) (omega arith) (omega arith) (omega arith)
