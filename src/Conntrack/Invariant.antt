-- ===== src/Conntrack/Invariant.antt =====
-- The representation invariant of the conntrack table of src/conntrack.rs, and that each operation
-- keeps it. `Table` is about the slots, this module about the whole state.
pub mod Table
pub mod Sweep
use pico_10base_t_rs.Prelude.{
  ℕ, zero, suc, ◌+◌, ◌-◌, ◌≤◌, ◌<◌, ◌^◌, ◌≡◌, refl, sym, ap, ◌∙◌, ◌≢◌, Bool, true, false, not, ◌&&◌,
  Option, none, some, List, [], ◌∷◌, arith, ltb, leb, ◌==◌, if◌then◌else◌, Bool-cases, Option-cases,
  length, get_or, set, inl, inr, ◌⊎◌, wrapping_add32, wrapping_sub32,
}
use pico_10base_t_rs.Conntrack.{
  Entry, Tuple, Proto, Nat, Conntrack, Counters, no_counts, empty_entry, touch, refresh_first,
  position, pick_slot, is_expired, id_in_use, ct_cap, new, outbound, inbound, reap, reap_slots,
  open_flow, open_with, claim, alloc_id, is_flow, is_reply, entry_of, probe, span, next_cursor,
  nat_lo,
}
use pico_10base_t_rs.Conntrack.Alloc.{IsNatId, probe_total, next_cursor-IsNatId}
use pico_10base_t_rs.Conntrack.Slots.{
  at, at-set, used-lt-length, position-some, position-none, refresh_first_lem, id_in_use-false,
  IsChoice, pick_slot-IsChoice,
}
use pico_10base_t_rs.Conntrack.Steps.{outbound-hit, outbound-miss, inbound-hit, inbound-miss}
use Sweep.{reap_slots-swept, sweep-IsTable, reap_slots-live}
use Table.{is_flow_iff}
use Table.{
  IsTable, used_count, used_count-le-length, touch-IsTable, fill-IsTable, used_count-set,
  empty-IsTable, count_of, used_count-pos, misses_flow,
}

-- A state of the table: its slots hold together, the cursor is an id, and NAT_LIVE counts the
-- used slots.
pub record IsValid (w : Nat) : Type 0 where
  pub table : IsTable w.ct.slots
  pub cursor_in : IsNatId w.ct.cursor
  pub live : w.counts.nat_live ≡ used_count w.ct.slots

-- The table at boot, with all counters at 0, is valid.
pub new-IsValid : IsValid (record { ct = new; counts = no_counts })
unfolding new
new-IsValid = record {
  table = empty-IsTable;
  cursor_in = omega arith;
  live = unfold used_count in refl;
}

alloc_id-probe :
    (id c : ℕ) (t : Conntrack)
    → probe span t.slots t.cursor ≡ (some id, c)
    → alloc_id t ≡ (some id, record t { cursor = c })
unfolding alloc_id
alloc_id-probe id c t e = cc

open_flow-probe :
    (t : Tuple) (flags now id c : ℕ) (w : Nat)
    → probe span w.ct.slots w.ct.cursor ≡ (some id, c)
    → open_flow t flags now w ≡ claim t id flags now (record (w.ct) { cursor = c }) w.counts
unfolding open_flow
open_flow-probe t flags now id c w e =
    ap (open_with t flags now w.counts) (alloc_id-probe id c w.ct e)

-- With a valid table the miss path finds an id that no entry holds: NAT_DROP never counts.
pub open_flow-claims :
    (t : Tuple) (flags now : ℕ) (w : Nat)
    → IsValid w
    → (id : ℕ) × (open_flow t flags now w
        ≡ claim t id flags now (record (w.ct) { cursor = next_cursor id }) w.counts)
      × (id_in_use w.ct.slots id ≡ false)
      × IsNatId id
open_flow-claims t flags now w v =
    let (id, found, free, in_range) =
      probe_total w.ct.slots w.ct.cursor v.cursor_in (omega (arith, v.table.size)) in
    (id, open_flow-probe t flags now id (next_cursor id) w found, free, in_range)

used_count-bound : (w : Nat) → IsValid w → used_count w.ct.slots ≤ 64
used_count-bound w v = omega (arith, used_count-le-length w.ct.slots, v.table.size)

claim-IsValid :
    (t : Tuple) (id flags now : ℕ) (w : Nat)
    → IsValid w
    → IsNatId id
    → id_in_use w.ct.slots id ≡ false
    → position (is_flow t) w.ct.slots ≡ none
    → IsValid (claim t id flags now (record (w.ct) { cursor = next_cursor id }) w.counts).1
unfolding claim
claim-IsValid t id flags now w v id_in free miss =
    let k = pick_slot w.ct.slots now in
    let choice : IsChoice w.ct.slots now k = pick_slot-IsChoice w.ct.slots now v.table.size in
    record {
      table = fill-IsTable w.ct.slots k id flags now t v.table choice.in_table id_in free miss;
      cursor_in = next_cursor-IsNatId id id_in;
      live = ground (
        arith,
        used_count-bound w v,
        used_count-set w.ct.slots k (entry_of t id flags now) choice.in_table,
        v.live,
        entry_of-used t id flags now,
      );
    }
  where
    entry_of-used : (t : Tuple) (id flags now : ℕ) → (entry_of t id flags now).used ≡ true
    entry_of-used t id flags now = unfold entry_of in refl

-- A hit of a search refreshes a used slot, and keeps the state valid.
hit-IsValid :
    (w : Nat) (k now flags : ℕ) (n : Counters)
    → IsValid w
    → (at w.ct.slots k).used ≡ true
    → n.nat_live ≡ w.counts.nat_live
    → IsValid (record {
      ct = record (w.ct) { slots = set w.ct.slots k (touch now flags (at w.ct.slots k)) };
      counts = n;
    })
unfolding touch
hit-IsValid w k now flags n v u e = record {
  table = touch-IsTable w.ct.slots k now flags v.table u;
  cursor_in = v.cursor_in;
  live = omega (
    arith,
    e,
    v.live,
    used_count-set w.ct.slots k (touch now flags (at w.ct.slots k)) (used-lt-length w.ct.slots k u),
  );
}

-- `outbound` keeps the state valid, whether it refreshes a flow or opens one.
pub outbound-IsValid :
    (t : Tuple) (flags now : ℕ) (w : Nat) → IsValid w → IsValid (outbound t flags now w).1
outbound-IsValid t flags now w v = elim (Option-cases (position (is_flow t) w.ct.slots)) [
  | inr (i, e) ↦ rw (outbound-hit t flags now i w e) (
      hit-IsValid w i now flags _ v
        ((is_flow_iff t _).0 (position-some (is_flow t) w.ct.slots i e).1).0 refl)
  | inl miss ↦
      let (id, opens, free, id_in) = open_flow-claims t flags now w v in
      rw (outbound-miss t flags now w miss, opens)
        (claim-IsValid t id flags now w v id_in free miss)
]

pub is_reply-used :
    (p : Proto) (ip rid id now : ℕ) (s : Entry) → is_reply p ip rid id now s ≡ true → s.used ≡ true
unfolding is_reply
is_reply-used p ip rid id now s h = ground arith

-- `inbound` keeps the state valid.
inbound-IsValid :
    (p : Proto) (ip rid id flags now : ℕ) (w : Nat)
    → IsValid w
    → IsValid (inbound p ip rid id flags now w).1
inbound-IsValid p ip rid id flags now w v =
    elim (Option-cases (position (is_reply p ip rid id now) w.ct.slots)) [
      | inr (i, e) ↦ rw (inbound-hit p ip rid id flags now i w e) (
          hit-IsValid w i now flags _ v
            (is_reply-used p ip rid id now _
              (position-some (is_reply p ip rid id now) w.ct.slots i e).1)
            refl)
      | inl miss ↦ rw (inbound-miss p ip rid id flags now w miss) v
    ]

-- `reap` keeps the state valid; NAT_LIVE does not wrap.
pub reap-IsValid : (now : ℕ) (w : Nat) → IsValid w → IsValid (reap now w)
unfolding reap
reap-IsValid now w v = record {
  table = rw (reap_slots-swept now w.ct.slots w.counts) (sweep-IsTable now w.ct.slots v.table);
  cursor_in = v.cursor_in;
  live = rw (reap_slots-swept now w.ct.slots w.counts) (
      omega (
        arith,
        v.live,
        used_count-bound w v,
        reap_slots-live now w.ct.slots w.counts (omega (arith, v.live))
            (omega (arith, v.live, used_count-bound w v)),
      ));
}
