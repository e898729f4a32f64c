-- ===== src/Conntrack/Steps.antt =====
-- `outbound` and `inbound` of src/conntrack.rs on each branch, by the position of the entry found.
use pico_10base_t_rs.Prelude.{ℕ, ◌≡◌, none, some, List, set, wrapping_add32}
use pico_10base_t_rs.Conntrack.{
  Entry, Tuple, Proto, Nat, touch, position, outbound, inbound, open_flow, is_flow, is_reply,
}
use pico_10base_t_rs.Conntrack.Slots.{at, refresh_first_lem}

-- The slots after a refresh of slot `i`.
abbrev pub refreshed : ℕ → ℕ → ℕ → List Entry → List Entry
refreshed i now flags slots = set slots i (touch now flags (at slots i))

pub outbound-hit :
    (t : Tuple) (flags now i : ℕ) (w : Nat)
    → position (is_flow t) w.ct.slots ≡ some i
    → outbound t flags now w ≡ (
      some (at w.ct.slots i).wan_id,
      record {
        ct = record (w.ct) { slots = refreshed i now flags w.ct.slots };
        counts = record (w.counts) { nat_out = wrapping_add32 w.counts.nat_out 1 };
      },
    )
unfolding outbound
outbound-hit t flags now i w e =
    rw (refresh_first_lem (is_flow t) now flags w.ct.slots, e, outbound)

pub outbound-miss :
    (t : Tuple) (flags now : ℕ) (w : Nat)
    → position (is_flow t) w.ct.slots ≡ none
    → outbound t flags now w ≡ open_flow t flags now w
unfolding outbound
outbound-miss t flags now w e = rw (refresh_first_lem (is_flow t) now flags w.ct.slots, e, outbound)

pub inbound-hit :
    (p : Proto) (ip rid id flags now i : ℕ) (w : Nat)
    → position (is_reply p ip rid id now) w.ct.slots ≡ some i
    → inbound p ip rid id flags now w ≡ (
      some ((at w.ct.slots i).lan_ip, (at w.ct.slots i).lan_id),
      record {
        ct = record (w.ct) { slots = refreshed i now flags w.ct.slots };
        counts = record (w.counts) { nat_in = wrapping_add32 w.counts.nat_in 1 };
      },
    )
unfolding inbound
inbound-hit p ip rid id flags now i w e =
    rw (refresh_first_lem (is_reply p ip rid id now) now flags w.ct.slots, e, inbound)

pub inbound-miss :
    (p : Proto) (ip rid id flags now : ℕ) (w : Nat)
    → position (is_reply p ip rid id now) w.ct.slots ≡ none
    → inbound p ip rid id flags now w ≡ (none, w)
unfolding inbound
inbound-miss p ip rid id flags now w e =
    rw (refresh_first_lem (is_reply p ip rid id now) now flags w.ct.slots, e, inbound)
