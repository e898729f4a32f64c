-- ===== src/Forward/Neighbor.antt =====
-- `NeighborTable` of src/forward.rs: a fixed map from addresses to MACs.
pub mod Laws
pub mod Sound
use pico_10base_t_rs.Prelude.{
  ℕ, zero, suc, ◌+◌, ◌%◌, Bool, Option, none, some, List, [], ◌∷◌, ltb, ◌==◌, if◌then◌else◌, get_or,
  set, replicate,
}

abbrev pub neigh_cap : ℕ
neigh_cap = 8

abbrev pub Mac : Type 0
Mac = List ℕ

abbrev pub no_mac : Mac
no_mac = replicate 6 0

pub record NeighborTable : Type 0 where
  pub ip : List ℕ
  pub mac : List Mac
  pub used : ℕ
  pub next : ℕ

unfoldable pub new : NeighborTable
new = record { ip = replicate neigh_cap 0; mac = replicate neigh_cap no_mac; used = 0; next = 0 }

abbrev pub ip_at : NeighborTable → ℕ → ℕ
ip_at t i = get_or t.ip i 0

abbrev pub mac_at : NeighborTable → ℕ → Mac
mac_at t i = get_or t.mac i no_mac

-- The first index from `i` on that holds `ip`, with the indices left to look at.
unfoldable pub find_ip : NeighborTable → ℕ → ℕ → ℕ → Option ℕ
find_ip t ip zero i = none
find_ip t ip (suc left) i =
    let rest = find_ip t ip left (i + 1) in if ip_at t i == ip then some i else rest

-- A new address takes the next unused slot, and else the slot of the round-robin.
unfoldable pub take_slot : NeighborTable → ℕ × NeighborTable
take_slot t =
    if ltb t.used neigh_cap
    then (t.used, record t { used = t.used + 1 })
    else (t.next, record t { next = (t.next + 1) % neigh_cap })

unfoldable pub store : ℕ → Mac → ℕ × NeighborTable → NeighborTable
store ip mac (slot, t) = record t { ip = set t.ip slot ip; mac = set t.mac slot mac }

unfoldable pub insert : ℕ → Mac → NeighborTable → NeighborTable
insert ip mac t = elim (find_ip t ip t.used 0) [
  | some i ↦ record t { mac = set t.mac i mac }
  | none ↦ store ip mac (take_slot t)
]

unfoldable pub lookup : NeighborTable → ℕ → Option Mac
lookup t ip = elim (find_ip t ip t.used 0) [ some i ↦ some (mac_at t i) | none ↦ none ]
