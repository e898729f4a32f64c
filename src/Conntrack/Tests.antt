-- ===== src/Conntrack/Tests.antt =====
-- Runs of the conntrack table of src/conntrack.rs, and its theorems at concrete inputs.
use pico_10base_t_rs.Prelude.{ℕ, ◌<◌, ◌≡◌, refl, ◌≢◌, none, some, arith, inl, ◌↔◌, false, length}
use pico_10base_t_rs.Conntrack.{
  Tuple, tcp, Nat, no_counts, new, outbound, inbound, reap, is_expired, pick_slot, ct_cap,
  open_flow, claim, entry_of, timeout_ms, next_tcp_state, touch, refresh_first, is_flow, is_reply,
  alloc_id, probe, id_in_use, next_cursor, position,
}
use pico_10base_t_rs.Conntrack.Slots.{at, IsChoice, pick_slot-IsChoice}
use pico_10base_t_rs.Conntrack.Invariant.{IsValid, new-IsValid, outbound-IsValid}
use pico_10base_t_rs.Conntrack.Flows.{Holds, Opened, outbound-Opened, inbound-outbound}
use pico_10base_t_rs.Conntrack.Isolation.{
  flow, inbound_iff, outbound-ne, outbound-Holds, outbound-keeps,
}
use pico_10base_t_rs.Conntrack.Reap.{inbound-reap}

-- 192.168.4.10:4000 and 192.168.4.11:4000 to 1.1.1.1:443.
abbrev web : Tuple
web = record { proto = tcp; src_ip = 3232236554; src_id = 4000; dst_ip = 16843009; dst_id = 443 }

abbrev web2 : Tuple
web2 = record { proto = tcp; src_ip = 3232236555; src_id = 4000; dst_ip = 16843009; dst_id = 443 }

abbrev boot : Nat
boot = record { ct = new; counts = no_counts }

abbrev after : Nat
after = (outbound web 2 1000 boot).1

boot-IsValid : IsValid boot
boot-IsValid = new-IsValid

after-IsValid : IsValid after
after-IsValid = outbound-IsValid web 2 1000 boot boot-IsValid

first_id : (outbound web 2 1000 boot).0 ≡ some 49152
unfolding outbound open_flow claim new refresh_first is_flow alloc_id probe id_in_use next_cursor
    pick_slot position entry_of touch next_tcp_state
first_id = refl

second_id : (outbound web2 2 1001 after).0 ≡ some 49153
unfolding outbound open_flow claim new refresh_first is_flow alloc_id probe id_in_use next_cursor
    pick_slot position entry_of touch next_tcp_state
second_id = refl

reply_comes_back : (inbound tcp 16843009 443 49152 16 2000 after).0 ≡ some (3232236554, 4000)
unfolding outbound inbound is_reply timeout_ms open_flow claim new refresh_first is_flow alloc_id
    probe id_in_use next_cursor pick_slot position entry_of touch next_tcp_state
reply_comes_back = refl

stranger_is_not_ours : (inbound tcp 16843010 443 49152 16 2000 after).0 ≡ none
unfolding outbound inbound is_reply timeout_ms open_flow claim new refresh_first is_flow alloc_id
    probe id_in_use next_cursor pick_slot position entry_of touch next_tcp_state
stranger_is_not_ours = refl

late_reply_is_not_ours : (inbound tcp 16843009 443 49152 16 11_000 after).0 ≡ none
unfolding outbound inbound is_reply timeout_ms open_flow claim new refresh_first is_flow alloc_id
    probe id_in_use next_cursor pick_slot position entry_of touch next_tcp_state
late_reply_is_not_ours = refl

outbound-IsValid_example : IsValid (outbound web 2 1000 boot).1
outbound-IsValid_example = outbound-IsValid web 2 1000 boot new-IsValid

outbound-Opened_example : Opened web 1000 boot (outbound web 2 1000 boot)
outbound-Opened_example = outbound-Opened web 2 1000 boot new-IsValid

inbound-outbound_example :
    (id : ℕ) × ((outbound web 2 1000 boot).0 ≡ some id)
    × ((inbound tcp 16843009 443 id 16 2000 (outbound web 2 1000 boot).1).0
        ≡ some (3232236554, 4000))
inbound-outbound_example = inbound-outbound web 2 16 1000 2000 boot new-IsValid (omega arith)

after-Holds : Holds after.ct.slots web 49152 0
unfolding outbound open_flow claim new refresh_first is_flow alloc_id probe id_in_use next_cursor
    pick_slot position entry_of touch next_tcp_state
after-Holds = record { used = refl; flow = refl; wan_id = refl }

inbound_iff_example :
    ((inbound tcp 16843009 443 49152 16 2000 after).0 ≡ some (3232236554, 4000)) ↔ (
      (k : ℕ) × Holds after.ct.slots (flow tcp 3232236554 4000 16843009 443) 49152 k
      × (is_expired 2000 (at after.ct.slots k) ≡ false))
inbound_iff_example = inbound_iff tcp 16843009 443 49152 16 2000 after 3232236554 4000 after-IsValid

web-ne : web ≢ web2
web-ne e = absurd (ground arith)

outbound-ne_example :
    (outbound web 2 1000 boot).0 ≢ (outbound web2 2 1001 (outbound web 2 1000 boot).1).0
outbound-ne_example = outbound-ne web web2 2 2 1000 1001 boot new-IsValid web-ne

outbound-Holds_example : (outbound web 16 3000 after).0 ≡ some 49152
outbound-Holds_example = outbound-Holds web 49152 0 16 3000 after after-IsValid after-Holds

after-live : is_expired 1001 (at after.ct.slots 0) ≡ false
unfolding outbound open_flow claim new refresh_first is_flow alloc_id probe id_in_use next_cursor
    pick_slot position entry_of touch next_tcp_state is_expired timeout_ms
after-live = refl

after-cap : length after.ct.slots ≡ ct_cap
unfolding outbound open_flow claim new refresh_first is_flow alloc_id probe id_in_use next_cursor
    pick_slot position entry_of touch next_tcp_state
after-cap = refl

after-size : 1 < length after.ct.slots
after-size = rw after-cap (omega arith)

after-spare : (at after.ct.slots 1).used ≡ false
unfolding outbound open_flow claim new refresh_first is_flow alloc_id probe id_in_use next_cursor
    pick_slot position entry_of touch next_tcp_state
after-spare = refl

outbound-keeps_example : Holds (outbound web2 2 1001 after).1.ct.slots web 49152 0
outbound-keeps_example =
    outbound-keeps web web2 49152 0 1 2 1001 after after-IsValid after-Holds after-live after-size
      (inl after-spare)

pick_slot-IsChoice_example : IsChoice after.ct.slots 1001 (pick_slot after.ct.slots 1001)
pick_slot-IsChoice_example = pick_slot-IsChoice after.ct.slots 1001 after-cap

inbound-reap_example :
    (inbound tcp 16843009 443 49152 16 2000 (reap 2000 after)).0
    ≡ (inbound tcp 16843009 443 49152 16 2000 after).0
inbound-reap_example = inbound-reap tcp 16843009 443 49152 16 2000 after
