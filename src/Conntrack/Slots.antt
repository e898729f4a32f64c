-- ===== src/Conntrack/Slots.antt =====
-- The slots of the table by index: the search loops of src/conntrack.rs as a `position`, and the
-- choice of `pick_slot`.
use pico_10base_t_rs.Prelude.{
  ℕ, zero, suc, ◌+◌, ◌≤◌, ◌<◌, ◌≡◌, refl, sym, ◌≢◌, Bool, true, false, not, none, some, List, [],
  ◌∷◌, arith, ltb, ◌==◌, if◌then◌else◌, Bool-cases, Option-cases, length, get_or, set, inl, inr,
}
use pico_10base_t_rs.Conntrack.{
  Entry, empty_entry, touch, refresh_first, position, pick_slot, lru_loop, last_seen_at, is_expired,
  id_in_use, ct_cap,
}

abbrev pub at : List Entry → ℕ → Entry
at slots i = get_or slots i empty_entry

-- A slot that holds an entry is one of the table's.
pub used-lt-length : (slots : List Entry) (i : ℕ) → (at slots i).used ≡ true → i < length slots
used-lt-length [] i h = absurd (ground arith)
used-lt-length (s ∷ rest) zero h = omega arith
used-lt-length (s ∷ rest) (suc i) h = omega (arith, used-lt-length rest i h)

pub at-set :
    (slots : List Entry) (i j : ℕ) (e : Entry)
    → i < length slots
    → at (set slots i e) j ≡ (if i == j then e else at slots j)
at-set [] i j e h = absurd (omega arith)
at-set (s ∷ rest) zero zero e h = refl
at-set (s ∷ rest) zero (suc j) e h = ground arith
at-set (s ∷ rest) (suc i) zero e h = ground arith
at-set (s ∷ rest) (suc i) (suc j) e h = ground (arith, at-set rest i j e (omega arith))

pub position-some :
    (test : Entry → Bool) (slots : List Entry) (i : ℕ)
    → position test slots ≡ some i
    → (i < length slots)
      × (test (at slots i) ≡ true)
      × ((j : ℕ) → j < i → test (at slots j) ≡ false)
unfolding position
position-some test [] i h = cc
position-some test (s ∷ rest) i h = elim (Bool-cases (test s)) [
  | inl hit ↦ let e : i ≡ 0 = ground arith in rw e (omega arith, hit, λ j lt. absurd (omega arith))
  | inr miss ↦ elim (Option-cases (position test rest)) [
    | inl gone ↦ absurd (ground arith)
    | inr found ↦
        let e : i ≡ suc (found.0) = ground arith in
        let ih = position-some test rest found.0 found.1 in
        rw e (
          omega (arith, ih.0),
          ih.1,
          elim [ zero ↦ λ lt. miss | suc j ↦ λ lt. ih.2 j (omega arith) ],
        )
  ]
]

pub position-none :
    (test : Entry → Bool) (slots : List Entry)
    → position test slots ≡ none
    → (j : ℕ) → j < length slots
    → test (at slots j) ≡ false
unfolding position
position-none test [] h j lt = absurd (omega arith)
position-none test (s ∷ rest) h zero lt = ground arith
position-none test (s ∷ rest) h (suc j) lt = position-none test rest (ground arith) j (omega arith)

-- The converse: a slot that passes, before which none does, is the position.
pub position_of_first :
    (test : Entry → Bool) (slots : List Entry) (i : ℕ)
    → i < length slots
    → test (at slots i) ≡ true
    → ((j : ℕ) → j < i → test (at slots j) ≡ false)
    → position test slots ≡ some i
unfolding position
position_of_first test [] i lt h before = absurd (omega arith)
position_of_first test (s ∷ rest) zero lt h before = ground arith
position_of_first test (s ∷ rest) (suc i) lt h before =
    let ih = position_of_first test rest i (omega arith) h (λ j p. before (suc j) (omega arith)) in
    ground (arith, ih, before 0)

-- The search loops refresh the slot at the position.
pub refresh_first_lem :
    (test : Entry → Bool) (now flags : ℕ) (slots : List Entry)
    → refresh_first test now flags slots ≡ elim (position test slots) [
      | none ↦ none
      | some i ↦ some (at slots i, set slots i (touch now flags (at slots i)))
    ]
unfolding refresh_first position
refresh_first_lem test now flags [] = refl
refresh_first_lem test now flags (s ∷ rest) = ground (arith, refresh_first_lem test now flags rest)

pub id_in_use-false :
    (slots : List Entry) (id : ℕ)
    → id_in_use slots id ≡ false
    → (j : ℕ) → (at slots j).used ≡ true
    → (at slots j).wan_id ≢ id
unfolding id_in_use
id_in_use-false [] id h j u = absurd (ground arith)
id_in_use-false (s ∷ rest) id h zero u = ground arith
id_in_use-false (s ∷ rest) id h (suc j) u = id_in_use-false rest id (ground arith) j u

-- The scan for the oldest slot, started at `i` with `best` the oldest below `i`.
lru_loop_lem :
    (slots : List Entry) (left i best : ℕ)
    → best < i
    → ((j : ℕ) → j < i → last_seen_at slots best ≤ last_seen_at slots j)
    → (lru_loop slots left i best < i + left)
      × ((j : ℕ)
          → j < i + left
          → last_seen_at slots (lru_loop slots left i best) ≤ last_seen_at slots j)
unfolding lru_loop
lru_loop_lem slots zero i best lt h = (omega arith, λ j p. h j (omega arith))
lru_loop_lem slots (suc left) i best lt h =
    let best' : ℕ = if ltb (last_seen_at slots i) (last_seen_at slots best) then i else best in
    let ih =
      lru_loop_lem slots left (i + 1) best' (ground arith)
        λ j p. elim (Bool-cases (j == i)) [ inl e ↦ ground arith | inr ne ↦ ground (arith, h j) ] in
    (omega (arith, ih.0), λ j p. ih.1 j (omega arith))

-- What `pick_slot` promises: an unused slot if there is one, else an expired one if there is one,
-- else the least recently seen.
pub record IsChoice (slots : List Entry) (now i : ℕ) : Type 0 where
  pub in_table : i < length slots
  pub unused_first :
      (at slots i).used ≡ true → (j : ℕ) → j < length slots → (at slots j).used ≡ true
  pub expired_next :
      (at slots i).used ≡ true
      → is_expired now (at slots i) ≡ false
      → (j : ℕ) → j < length slots
      → is_expired now (at slots j) ≡ false
  pub oldest_last :
      (at slots i).used ≡ true
      → is_expired now (at slots i) ≡ false
      → (j : ℕ) → j < length slots
      → (at slots i).last_seen ≤ (at slots j).last_seen

not-false : (b : Bool) → not b ≡ false → b ≡ true
not-false true h = refl
not-false false h = sym h

not-true : (b : Bool) → not b ≡ true → b ≡ false
not-true true h = sym h
not-true false h = refl

-- In a table of full size `pick_slot` chooses a slot in range: a used one only if none is unused, one
-- that has not expired only if none is expired, and then the one seen longest ago.
pub pick_slot-IsChoice :
    (slots : List Entry) (now : ℕ)
    → length slots ≡ ct_cap
    → IsChoice slots now (pick_slot slots now)
unfolding pick_slot
pick_slot-IsChoice slots now size = elim (Option-cases (position (λ s. not s.used) slots)) [
  | inr (i, e) ↦
      let found = position-some (λ s. not s.used) slots i e in
      let unused : (at slots i).used ≡ false = not-true _ found.1 in
      rw (e, pick_slot)
        record {
          in_table = found.0;
          unused_first = λ u. absurd (cc);
          expired_next = λ u. absurd (cc);
          oldest_last = λ u. absurd (cc);
        }
  | inl full ↦
      let all_used : (j : ℕ) → j < length slots → (at slots j).used ≡ true =
        λ j lt. not-false _ (position-none (λ s. not s.used) slots full j lt) in
      elim (Option-cases (position (is_expired now) slots)) [
        | inr (i, e) ↦
            let found = position-some (is_expired now) slots i e in
            rw (full, e, pick_slot)
              record {
                in_table = found.0;
                unused_first = λ u. all_used;
                expired_next = λ u x. absurd (cc);
                oldest_last = λ u x. absurd (cc);
              }
        | inl live ↦
            let lru = lru_loop_lem slots 63 1 0 (omega arith) (λ j p. ground arith) in
            rw (full, live, pick_slot)
              record {
                in_table = omega (arith, lru.0);
                unused_first = λ u. all_used;
                expired_next = λ u x. position-none (is_expired now) slots live;
                oldest_last = λ u x j lt. lru.1 j (omega arith);
              }
      ]
]
