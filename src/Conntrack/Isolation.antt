-- ===== src/Conntrack/Isolation.antt =====
-- Flows of src/conntrack.rs do not mix: what `inbound` returns, which entries two flows get, and
-- which entry a new flow may displace.
use pico_10base_t_rs.Prelude.{
  ℕ, ◌<◌, ◌≡◌, refl, sym, ap, ◌∙◌, ◌≢◌, true, false, Option, some, List, arith, ◌==◌, Bool-cases,
  Option-cases, length, inl, inr, ◌⊎◌, ◌↔◌,
}
use pico_10base_t_rs.Conntrack.{
  Entry, Tuple, Proto, Nat, touch, position, pick_slot, is_expired, outbound, inbound, claim,
  is_flow, is_reply, entry_of, next_cursor,
}
use pico_10base_t_rs.Conntrack.Steps.{
  outbound-hit, outbound-miss, inbound-hit, inbound-miss, refreshed,
}
use pico_10base_t_rs.Conntrack.Slots.{
  at, at-set, position-some, id_in_use-false, IsChoice, pick_slot-IsChoice,
}
use pico_10base_t_rs.Conntrack.Invariant.{IsValid, outbound-IsValid, open_flow-claims}
use pico_10base_t_rs.Conntrack.Invariant.Table.{flow_of, is_flow_iff, misses_flow}
use pico_10base_t_rs.Conntrack.Flows.{Holds, Opened, outbound-Opened, is_reply_iff, inbound-Holds}

-- The peer of `t`, by protocol, address and port or id.
abbrev pub flow : Proto → ℕ → ℕ → ℕ → ℕ → Tuple
flow p lan_ip lan_id ip rid = record {
  proto = p;
  src_ip = lan_ip;
  src_id = lan_id;
  dst_ip = ip;
  dst_id = rid;
}

-- In a valid state, `inbound` returns a LAN address and port exactly when a used slot that has not expired holds, under
-- the id that the packet is sent to, the flow from that address and port to the packet's sender.
pub inbound_iff :
    (p : Proto) (ip rid id flags now : ℕ) (w : Nat) (lan_ip lan_id : ℕ)
    → IsValid w
    → ((inbound p ip rid id flags now w).0 ≡ some (lan_ip, lan_id)) ↔ (
        (k : ℕ) × Holds w.ct.slots (flow p lan_ip lan_id ip rid) id k
        × (is_expired now (at w.ct.slots k) ≡ false))
inbound_iff p ip rid id flags now w lan_ip lan_id v = (
  λ h. elim (Option-cases (position (is_reply p ip rid id now) w.ct.slots)) [
    | inl miss ↦ absurd (let e = inbound-miss p ip rid id flags now w miss in cc)
    | inr (i, e) ↦
        let found = position-some (is_reply p ip rid id now) w.ct.slots i e in
        let reply = (is_reply_iff p ip rid id now (at w.ct.slots i)).0 found.1 in
        let out : some ((at w.ct.slots i).lan_ip, (at w.ct.slots i).lan_id)
            ≡ some (lan_ip, lan_id) =
          sym (ap (λ (r : Option (ℕ × ℕ) × Nat). r.0) (inbound-hit p ip rid id flags now i w e))
          ∙ h in
        (i, record { used = reply.0; flow = ground arith; wan_id = reply.2 }, reply.5)
  ],
  λ h. inbound-Holds (flow p lan_ip lan_id ip rid) id h.0 flags now w v h.1 h.2,
)

-- Two used slots under one id are one slot, so they hold one flow.
pub Holds-unique :
    (t u : Tuple) (id k l : ℕ) (w : Nat)
    → IsValid w
    → Holds w.ct.slots t id k
    → Holds w.ct.slots u id l
    → t ≡ u
Holds-unique t u id k l w v h g =
    sym (h.flow)
    ∙ ap (λ (i : ℕ). flow_of (at w.ct.slots i))
        (v.table.distinct k l h.used g.used (h.wan_id ∙ sym g.wan_id))
    ∙ g.flow

-- The id of a flow that `outbound` finds or opens is held by no other flow's slot before the call.
opened_id_is_own :
    (t u : Tuple) (id k flags now : ℕ) (w : Nat)
    → IsValid w
    → Holds w.ct.slots t id k
    → t ≢ u
    → (outbound u flags now w).0 ≢ some id
opened_id_is_own t u id k flags now w v h ne same =
    elim (Option-cases (position (is_flow u) w.ct.slots)) [
      | inr (i, e) ↦
          let found = position-some (is_flow u) w.ct.slots i e in
          let hit = (is_flow_iff u (at w.ct.slots i)).0 found.1 in
          let out : some (at w.ct.slots i).wan_id ≡ some id =
            sym (ap (λ (r : Option ℕ × Nat). r.0) (outbound-hit u flags now i w e)) ∙ same in
          ne (Holds-unique t u id k i w v h (record { used = hit.0; flow = hit.1; wan_id = cc }))
      | inl miss ↦
          let (id', opens, free, id_in) = open_flow-claims u flags now w v in
          let out : some id' ≡ some id =
            sym (
              ap (λ (r : Option ℕ × Nat). r.0) (outbound-miss u flags now w miss ∙ opens)
              ∙ unfold claim in refl)
            ∙ same in
          id_in_use-false w.ct.slots id' free k h.used (h.wan_id ∙ sym (cc))
    ]

-- Two different flows that `outbound` serves one after the other get different ids, in a valid
-- state, even if the second displaces the first.
pub outbound-ne :
    (t u : Tuple) (flags flags' now now' : ℕ) (w : Nat)
    → IsValid w
    → t ≢ u
    → (outbound t flags now w).0 ≢ (outbound u flags' now' (outbound t flags now w).1).0
outbound-ne t u flags flags' now now' w v ne same =
    let o : Opened t now w (outbound t flags now w) = outbound-Opened t flags now w v in
    opened_id_is_own t u o.id o.slot flags' now' (outbound t flags now w).1
      (outbound-IsValid t flags now w v) o.holds ne (sym same ∙ o.returns)

-- In a valid state, `outbound` asked again for the flow that a slot holds returns the id that the slot has.
pub outbound-Holds :
    (t : Tuple) (id k flags now : ℕ) (w : Nat)
    → IsValid w
    → Holds w.ct.slots t id k
    → (outbound t flags now w).0 ≡ some id
outbound-Holds t id k flags now w v h = elim (Option-cases (position (is_flow t) w.ct.slots)) [
  | inl miss ↦ absurd (misses_flow t w.ct.slots miss k h.used h.flow)
  | inr (i, e) ↦
      let found = position-some (is_flow t) w.ct.slots i e in
      let hit = (is_flow_iff t (at w.ct.slots i)).0 found.1 in
      let same : i ≡ k = v.table.one_flow i k hit.0 h.used (hit.1 ∙ sym h.flow) in
      ap (λ (r : Option ℕ × Nat). r.0) (outbound-hit t flags now i w e)
      ∙ ap (λ (u : ℕ). some (at w.ct.slots u).wan_id) same
      ∙ ap (λ (u : ℕ). some u) h.wan_id
]

-- A choice of `pick_slot` is not a live slot if some slot is unused or expired.
choice_spares :
    (slots : List Entry) (now m k spare : ℕ)
    → IsChoice slots now m
    → (at slots k).used ≡ true
    → is_expired now (at slots k) ≡ false
    → spare < length slots
    → ((at slots spare).used ≡ false) ⊎ (is_expired now (at slots spare) ≡ true)
    → m ≢ k
choice_spares slots now m k spare choice u live lt room same =
    let u' : (at slots m).used ≡ true = rw same u in
    let live' : is_expired now (at slots m) ≡ false = rw same live in
    ground (arith, choice.unused_first u' spare lt, choice.expired_next u' live' spare lt)

refresh_keeps :
    (slots : List Entry) (t : Tuple) (id k i now flags : ℕ)
    → Holds slots t id k
    → i < length slots
    → Holds (refreshed i now flags slots) t id k
unfolding touch
refresh_keeps slots t id k i now flags h lt =
    let e = at-set slots i k (touch now flags (at slots i)) lt in
    elim (Bool-cases (i == k)) [ inl here ↦ ground arith | inr there ↦ ground arith ]

-- In a valid state where a slot is unused or expired, a call of `outbound` for any flow leaves a flow that is held and
-- has not expired in its slot under its id.
pub outbound-keeps :
    (t u : Tuple) (id k spare flags now : ℕ) (w : Nat)
    → IsValid w
    → Holds w.ct.slots t id k
    → is_expired now (at w.ct.slots k) ≡ false
    → spare < length w.ct.slots
    → ((at w.ct.slots spare).used ≡ false) ⊎ (is_expired now (at w.ct.slots spare) ≡ true)
    → Holds (outbound u flags now w).1.ct.slots t id k
outbound-keeps t u id k spare flags now w v h live lt room =
    elim (Option-cases (position (is_flow u) w.ct.slots)) [
      | inr (i, e) ↦
          let found = position-some (is_flow u) w.ct.slots i e in
          rw (outbound-hit u flags now i w e)
            (refresh_keeps w.ct.slots t id k i now flags h found.0)
      | inl miss ↦
          let (id', opens, free, id_in) = open_flow-claims u flags now w v in
          rw (outbound-miss u flags now w miss, opens) (claim_keeps id')
    ]
  where
    claim_keeps :
        (id' : ℕ)
        → Holds
            (claim u id' flags now (record (w.ct) { cursor = next_cursor id' }) w.counts).1.ct.slots
            t
            id
            k
    claim_keeps id' =
        let m = pick_slot w.ct.slots now in
        let choice : IsChoice w.ct.slots now m = pick_slot-IsChoice w.ct.slots now v.table.size in
        let e = at-set w.ct.slots m k (entry_of u id' flags now) choice.in_table in
        let other : m ≢ k = choice_spares w.ct.slots now m k spare choice h.used live lt room in
        unfold claim in ground arith
