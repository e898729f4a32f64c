-- ===== src/Conntrack/Reap.antt =====
-- `reap` of src/conntrack.rs frees the expired entries, and nothing that a reply could still match.
use pico_10base_t_rs.Prelude.{
  ℕ, ◌≡◌, refl, sym, ap, ◌∙◌, true, false, Option, some, List, [], ◌∷◌, arith, Option-cases, map,
  inl, inr,
}
use pico_10base_t_rs.Conntrack.{Entry, Proto, Nat, is_expired, is_reply, position, inbound, reap}
use pico_10base_t_rs.Conntrack.Slots.{at, position-some}
use pico_10base_t_rs.Conntrack.Steps.{inbound-hit, inbound-miss}
use pico_10base_t_rs.Conntrack.Flows.{is_reply_iff}
use pico_10base_t_rs.Conntrack.Invariant.Sweep.{swept, reap_slots-swept, at-swept}

slots-reap : (now : ℕ) (w : Nat) → (reap now w).ct.slots ≡ map (swept now) w.ct.slots
unfolding reap
slots-reap now w = reap_slots-swept now w.ct.slots w.counts

at-reap : (now : ℕ) (w : Nat) (k : ℕ) → at (reap now w).ct.slots k ≡ swept now (at w.ct.slots k)
at-reap now w k = rw (slots-reap now w) (at-swept now w.ct.slots k)

swept_cases :
    (now : ℕ) (s : Entry)
    → ((swept now s).used ≡ true → (s.used ≡ true) × (is_expired now s ≡ false))
      × (is_expired now s ≡ false → swept now s ≡ s)
unfolding swept
swept_cases now s = (ground arith, ground arith)

-- After `reap` no used slot is expired, and every slot that had not expired is as before.
pub reap_lem :
    (now : ℕ) (w : Nat) (k : ℕ)
    → let before = at w.ct.slots k in
      let after = at (reap now w).ct.slots k in
      (after.used ≡ true → (before.used ≡ true) × (is_expired now before ≡ false))
      × (is_expired now before ≡ false → after ≡ before)
reap_lem now w k = rw (at-reap now w k) (swept_cases now (at w.ct.slots k))

-- The slots match a packet alike before and after the sweep.
is_reply-swept :
    (p : Proto) (ip rid id now : ℕ) (s : Entry)
    → is_reply p ip rid id now (swept now s) ≡ is_reply p ip rid id now s
unfolding is_reply is_expired swept
is_reply-swept p ip rid id now s = ground arith

position-swept :
    (p : Proto) (ip rid id now : ℕ) (slots : List Entry)
    → position (is_reply p ip rid id now) (map (swept now) slots)
      ≡ position (is_reply p ip rid id now) slots
unfolding position
position-swept p ip rid id now [] = refl
position-swept p ip rid id now (s ∷ rest) =
    rw (is_reply-swept p ip rid id now s, position-swept p ip rid id now rest)

swept-reply :
    (p : Proto) (ip rid id now : ℕ) (s : Entry)
    → is_reply p ip rid id now s ≡ true
    → swept now s ≡ s
swept-reply p ip rid id now s h = (swept_cases now s).1 ((is_reply_iff p ip rid id now s).0 h).5

-- A packet that arrives at the time of a sweep is answered alike just before and just after it.
pub inbound-reap :
    (p : Proto) (ip rid id flags now : ℕ) (w : Nat)
    → (inbound p ip rid id flags now (reap now w)).0 ≡ (inbound p ip rid id flags now w).0
inbound-reap p ip rid id flags now w =
    elim (Option-cases (position (is_reply p ip rid id now) w.ct.slots)) [
      | inl miss ↦ rw (
        inbound-miss p ip rid id flags now w miss,
        inbound-miss p ip rid id flags now (reap now w) (same ∙ miss),
      )
      | inr (i, e) ↦
          let found = position-some (is_reply p ip rid id now) w.ct.slots i e in
          let kept : at (reap now w).ct.slots i ≡ at w.ct.slots i =
            at-reap now w i ∙ swept-reply p ip rid id now _ found.1 in
          ap (λ (r : Option (ℕ × ℕ) × Nat). r.0)
            (inbound-hit p ip rid id flags now i (reap now w) (same ∙ e))
          ∙ ap (λ (s : Entry). some (s.lan_ip, s.lan_id)) kept
          ∙ sym (ap (λ (r : Option (ℕ × ℕ) × Nat). r.0) (inbound-hit p ip rid id flags now i w e))
    ]
  where
    same :
        position (is_reply p ip rid id now) (reap now w).ct.slots
        ≡ position (is_reply p ip rid id now) w.ct.slots
    same = rw (slots-reap now w) (position-swept p ip rid id now w.ct.slots)
