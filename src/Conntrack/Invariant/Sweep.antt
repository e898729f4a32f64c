-- ===== src/Conntrack/Invariant/Sweep.antt =====
-- The sweep of `reap` (src/conntrack.rs), slot by slot, with the count of what it frees.
use pico_10base_t_rs.Prelude.{
  ℕ, zero, suc, ◌+◌, ◌-◌, ◌%◌, ◌≤◌, ◌<◌, ◌^◌, ◌≡◌, refl, ap, ◌∙◌, true, false, ◌&&◌, List, [], ◌∷◌,
  arith, if◌then◌else◌, Bool-cases, map, inl, inr, length-map,
}
use pico_10base_t_rs.Conntrack.{Entry, Counters, is_expired, reap_slots}
use pico_10base_t_rs.Conntrack.Slots.{at}
use pico_10base_t_rs.Conntrack.Invariant.Table.{IsTable, used_count}

-- One slot after the sweep.
unfoldable pub swept : ℕ → Entry → Entry
swept now s = if s.used && is_expired now s then record s { used = false } else s

pub reap_slots-swept :
    (now : ℕ) (slots : List Entry) (n : Counters)
    → (reap_slots now slots n).0 ≡ map (swept now) slots
unfolding reap_slots swept
reap_slots-swept now [] n = refl
reap_slots-swept now (s ∷ rest) n = ap (λ r. swept now s ∷ r) (reap_slots-swept now rest _)

pub at-swept :
    (now : ℕ) (slots : List Entry) (i : ℕ) → at (map (swept now) slots) i ≡ swept now (at slots i)
unfolding swept
at-swept now [] i = refl
at-swept now (s ∷ rest) zero = refl
at-swept now (s ∷ rest) (suc i) = at-swept now rest i

-- A slot that is used after the sweep was not touched by it.
pub swept-used :
    (now : ℕ) (s : Entry) → (swept now s).used ≡ true → (swept now s ≡ s) × (s.used ≡ true)
unfolding swept
swept-used now s = elim (Bool-cases (s.used && is_expired now s)) [
  | inl stale ↦ rw stale (λ u. absurd (cc))
  | inr kept ↦ rw kept (λ u. (refl, u))
]

pub sweep-IsTable : (now : ℕ) (slots : List Entry) → IsTable slots → IsTable (map (swept now) slots)
sweep-IsTable now slots h = record {
  size = length-map slots (swept now) ∙ h.size;
  ids = λ i.
      rw (at-swept now slots i)
        λ u. let k = swept-used now (at slots i) u in rw (k.0) (h.ids i k.1);
  distinct = λ i j.
      rw (at-swept now slots i, at-swept now slots j)
        λ u v q.
          let k = swept-used now (at slots i) u in
          let l = swept-used now (at slots j) v in h.distinct i j k.1 l.1 (rw (k.0, l.0) at q);
  one_flow = λ i j.
      rw (at-swept now slots i, at-swept now slots j)
        λ u v q.
          let k = swept-used now (at slots i) u in
          let l = swept-used now (at slots j) v in h.one_flow i j k.1 l.1 (rw (k.0, l.0) at q);
}

used_count-swept-le :
    (now : ℕ) (slots : List Entry) → used_count (map (swept now) slots) ≤ used_count slots
unfolding used_count swept
used_count-swept-le now [] = omega arith
used_count-swept-le now (s ∷ rest) = ground (arith, used_count-swept-le now rest)

-- NAT_LIVE falls by the number of the entries freed.
pub reap_slots-live :
    (now : ℕ) (slots : List Entry) (n : Counters)
    → used_count slots ≤ n.nat_live
    → n.nat_live < 2 ^ 32
    → (reap_slots now slots n).1.nat_live + used_count slots
      ≡ n.nat_live + used_count (map (swept now) slots)
unfolding reap_slots used_count swept
reap_slots-live now [] n le lt = omega arith
reap_slots-live now (s ∷ rest) n le lt = ground (
  arith,
  reap_slots-live now rest n,
  reap_slots-live now rest (record n {
    nat_live = (n.nat_live + 2 ^ 32 - 1) % 2 ^ 32;
    nat_evict = (n.nat_evict + 1) % 2 ^ 32;
  }),
)
