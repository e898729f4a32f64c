-- ===== src/Conntrack/Refresh.antt =====
-- What `inbound` of src/conntrack.rs changes in the table, and what it leaves.
use pico_10base_t_rs.Prelude.{
  ℕ, ◌≡◌, ◌≢◌, true, false, Option, none, some, bit_and, length, ◌<◌, wrapping_add32,
}
use pico_10base_t_rs.Conntrack.{
  Proto, TcpState, fresh, established, closing, Entry, Nat, is_expired,
}
use pico_10base_t_rs.Conntrack.Slots.{at}

-- A live entry for packets of a peer to an id of the router.
pub record IsLive (p : Proto) (ip rid id now : ℕ) (e : Entry) : Type 0 where
  pub used : e.used ≡ true
  pub proto : e.proto ≡ p
  pub wan_id : e.wan_id ≡ id
  pub remote_ip : e.remote_ip ≡ ip
  pub remote_id : e.remote_id ≡ rid
  pub live : is_expired now e ≡ false

-- The state of a TCP flow after a segment: FIN (1) and RST (4) close it, SYN (2) starts it unless it
-- closes, and any other segment establishes it.
pub record IsNext (old : TcpState) (flags : ℕ) (new : TcpState) : Type 0 where
  pub fin_or_rst : bit_and flags 5 ≢ 0 → new ≡ closing
  pub syn : bit_and flags 5 ≡ 0 → bit_and flags 2 ≢ 0 → old ≢ closing → new ≡ fresh
  pub syn_closing : bit_and flags 5 ≡ 0 → bit_and flags 2 ≢ 0 → old ≡ closing → new ≡ closing
  pub plain : bit_and flags 5 ≡ 0 → bit_and flags 2 ≡ 0 → new ≡ established

-- What `inbound` gives: for a live entry, its LAN side, and the entry has its time and TCP state
-- refreshed, all else in the table stays, and the packet is counted; without one, nothing, and nothing
-- changes.
pub data IsRefreshed (p : Proto) (ip rid id flags now : ℕ) (w : Nat)
    : Option (ℕ × ℕ) × Nat → Type 0 where
  hit :
      (k : ℕ) (state : TcpState) (w' : Nat)
      → IsLive p ip rid id now (at w.ct.slots k)
      → ((j : ℕ) → j < k → ¬ IsLive p ip rid id now (at w.ct.slots j))
      → IsNext (at w.ct.slots k).tcp_state flags state
      → at w'.ct.slots k ≡ record (at w.ct.slots k) { last_seen = now; tcp_state = state }
      → ((j : ℕ) → k ≢ j → at w'.ct.slots j ≡ at w.ct.slots j)
      → length w'.ct.slots ≡ length w.ct.slots
      → w'.ct.cursor ≡ w.ct.cursor
      → w'.counts ≡ record (w.counts) { nat_in = wrapping_add32 w.counts.nat_in 1 }
      → IsRefreshed p ip rid id flags now w
          (some ((at w.ct.slots k).lan_ip, (at w.ct.slots k).lan_id), w')
  miss :
      ((k : ℕ) → ¬ IsLive p ip rid id now (at w.ct.slots k))
      → IsRefreshed p ip rid id flags now w (none, w)
