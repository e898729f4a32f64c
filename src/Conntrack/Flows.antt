-- ===== src/Conntrack/Flows.antt =====
-- What a flow of src/conntrack.rs is given and keeps: `outbound` always has an id for it, replies
-- find their way back, and flows do not share ids.
use pico_10base_t_rs.Prelude.{
  ℕ, ◌+◌, ◌≤◌, ◌<◌, ◌≡◌, refl, sym, ap, ◌∙◌, true, false, Option, some, List, arith, Option-cases,
  length, set, inl, inr, ◌↔◌, get_or-set_self,
}
use pico_10base_t_rs.Conntrack.{
  Entry, Tuple, Proto, Nat, touch, position, pick_slot, is_expired, outbound, inbound, claim,
  is_flow, is_reply, entry_of, next_cursor, timeout_ms, empty_entry,
}
use pico_10base_t_rs.Conntrack.Alloc.{IsNatId}
use pico_10base_t_rs.Conntrack.Steps.{outbound-hit, outbound-miss, inbound-hit}
use pico_10base_t_rs.Conntrack.Slots.{
  at, used-lt-length, position-some, position-none, IsChoice, pick_slot-IsChoice,
}
use pico_10base_t_rs.Conntrack.Invariant.{IsValid, outbound-IsValid, open_flow-claims}
use pico_10base_t_rs.Conntrack.Invariant.Table.{flow_of, is_flow_iff, proto_eq_iff}

-- Slot `k` holds the flow `t` under the id `id`.
pub record Holds (slots : List Entry) (t : Tuple) (id k : ℕ) : Type 0 where
  pub used : (at slots k).used ≡ true
  pub flow : flow_of (at slots k) ≡ t
  pub wan_id : (at slots k).wan_id ≡ id

-- What a call of `outbound` leaves: an id, and a slot seen now that holds the flow under it.
pub record Opened (t : Tuple) (now : ℕ) (w : Nat) (out : Option ℕ × Nat) : Type 0 where
  pub id : ℕ
  pub slot : ℕ
  pub returns : out.0 ≡ some id
  pub holds : Holds out.1.ct.slots t id slot
  pub seen : (at out.1.ct.slots slot).last_seen ≡ now
  pub in_range : IsNatId id
  pub no_drop : out.1.counts.nat_drop ≡ w.counts.nat_drop

at-set_self : (slots : List Entry) (k : ℕ) (e : Entry) → k < length slots → at (set slots k e) k ≡ e
at-set_self slots k e h = get_or-set_self slots k e empty_entry h

hit-Opened :
    (t : Tuple) (flags now i : ℕ) (w : Nat)
    → IsValid w
    → position (is_flow t) w.ct.slots ≡ some i
    → Opened t now w (outbound t flags now w)
unfolding touch
hit-Opened t flags now i w v e =
    let found = position-some (is_flow t) w.ct.slots i e in
    let flow = (is_flow_iff t (at w.ct.slots i)).0 found.1 in
    let here = at-set_self w.ct.slots i (touch now flags (at w.ct.slots i)) found.0 in
    rw (outbound-hit t flags now i w e) record {
      id = (at w.ct.slots i).wan_id;
      slot = i;
      returns = refl;
      holds = record {
        used = ap (λ (s : Entry). s.used) here ∙ flow.0;
        flow = ap flow_of here ∙ flow.1;
        wan_id = ap (λ (s : Entry). s.wan_id) here;
      };
      seen = ap (λ (s : Entry). s.last_seen) here;
      in_range = v.table.ids i flow.0;
      no_drop = refl;
    }

claim-Opened :
    (t : Tuple) (id flags now c : ℕ) (w : Nat)
    → IsValid w
    → IsNatId id
    → Opened t now w (claim t id flags now (record (w.ct) { cursor = c }) w.counts)
unfolding claim entry_of
claim-Opened t id flags now c w v id_in =
    let k = pick_slot w.ct.slots now in
    let choice : IsChoice w.ct.slots now k = pick_slot-IsChoice w.ct.slots now v.table.size in
    let here = at-set_self w.ct.slots k (entry_of t id flags now) choice.in_table in
    record {
      id = id;
      slot = k;
      returns = refl;
      holds = record {
        used = ap (λ (s : Entry). s.used) here;
        flow = ap flow_of here;
        wan_id = ap (λ (s : Entry). s.wan_id) here;
      };
      seen = ap (λ (s : Entry). s.last_seen) here;
      in_range = id_in;
      no_drop = ground arith;
    }

-- With a valid table `outbound` never fails: it returns a NAT id, leaves NAT_DROP alone, and some
-- slot, seen now, holds the flow under that id.
pub outbound-Opened :
    (t : Tuple) (flags now : ℕ) (w : Nat) → IsValid w → Opened t now w (outbound t flags now w)
outbound-Opened t flags now w v = elim (Option-cases (position (is_flow t) w.ct.slots)) [
  | inr (i, e) ↦ hit-Opened t flags now i w v e
  | inl miss ↦
      let (id, opens, free, id_in) = open_flow-claims t flags now w v in
      rw (outbound-miss t flags now w miss, opens)
        (claim-Opened t id flags now (next_cursor id) w v id_in)
]

-- The least of the idle timeouts.
pub timeout_bound : (s : Entry) → (10_000 ≤ timeout_ms s) × (timeout_ms s ≤ 60_000)
unfolding timeout_ms
timeout_bound s = ground arith

pub is_reply_iff :
    (p : Proto) (ip rid id now : ℕ) (s : Entry)
    → (is_reply p ip rid id now s ≡ true) ↔ (
        (s.used ≡ true)
        × (s.proto ≡ p)
        × (s.wan_id ≡ id)
        × (s.remote_ip ≡ ip)
        × (s.remote_id ≡ rid)
        × (is_expired now s ≡ false))
unfolding is_reply is_expired
is_reply_iff p ip rid id now s = ground (arith, proto_eq_iff s.proto p)

-- A reply to a held flow that has not expired is sent on to the flow's LAN side.
pub inbound-Holds :
    (t : Tuple) (id k flags now : ℕ) (w : Nat)
    → IsValid w
    → Holds w.ct.slots t id k
    → is_expired now (at w.ct.slots k) ≡ false
    → (inbound t.proto t.dst_ip t.dst_id id flags now w).0 ≡ some (t.src_ip, t.src_id)
inbound-Holds t id k flags now w v h live =
    let test = is_reply t.proto t.dst_ip t.dst_id id now in
    let passes : test (at w.ct.slots k) ≡ true =
      (is_reply_iff t.proto t.dst_ip t.dst_id id now (at w.ct.slots k)).1 (
        h.used,
        ap (λ (u : Tuple). u.proto) h.flow,
        h.wan_id,
        ap (λ (u : Tuple). u.dst_ip) h.flow,
        ap (λ (u : Tuple). u.dst_id) h.flow,
        live,
      ) in
    elim (Option-cases (position test w.ct.slots)) [
      | inl miss ↦ absurd (
          let no_hit = position-none test w.ct.slots miss k (used-lt-length w.ct.slots k h.used) in
          cc)
      | inr (i, e) ↦
          let found = position-some test w.ct.slots i e in
          let reply = (is_reply_iff t.proto t.dst_ip t.dst_id id now (at w.ct.slots i)).0 found.1 in
          let same : i ≡ k = v.table.distinct i k reply.0 h.used (reply.2 ∙ sym h.wan_id) in
          rw (inbound-hit t.proto t.dst_ip t.dst_id id flags now i w e) (
            ap (λ (u : ℕ). some ((at w.ct.slots u).lan_ip, (at w.ct.slots u).lan_id)) same
            ∙ ap (λ (u : Tuple). some (u.src_ip, u.src_id)) h.flow)
    ]

-- A reply within ten seconds of an outbound packet of the flow `t`, from the peer of `t` to the id
-- that `outbound` returned, is sent on to the LAN source of `t`. Ten seconds are the least of the
-- idle timeouts, and the state is valid.
pub inbound-outbound :
    (t : Tuple) (flags flags' now now' : ℕ) (w : Nat)
    → IsValid w
    → now' < now + 10_000
    → let (id?, w') = outbound t flags now w in
      (id : ℕ) × (id? ≡ some id)
      × ((inbound t.proto t.dst_ip t.dst_id id flags' now' w').0 ≡ some (t.src_ip, t.src_id))
unfolding is_expired
inbound-outbound t flags flags' now now' w v soon =
    let o : Opened t now w (outbound t flags now w) = outbound-Opened t flags now w v in
    let w' = (outbound t flags now w).1 in
    (
      o.id,
      o.returns,
      inbound-Holds t o.id o.slot flags' now' w' (outbound-IsValid t flags now w v) o.holds
          (ground (arith, timeout_bound (at w'.ct.slots o.slot), o.seen)),
    )
