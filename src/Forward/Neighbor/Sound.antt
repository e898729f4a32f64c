-- ===== src/Forward/Neighbor/Sound.antt =====
-- An insertion into the neighbor table of src/forward.rs tells of no other address anything new.
use pico_10base_t_rs.Prelude.{
  ℕ, ◌<◌, ◌≡◌, sym, ap, ◌∙◌, ◌≢◌, some, ◌==◌, set, arith, get_or-set_ne, Bool-cases, Option-cases,
  inl, inr,
}
use pico_10base_t_rs.Forward.Neighbor.{
  NeighborTable, Mac, no_mac, ip_at, mac_at, find_ip, take_slot, store, insert, lookup,
}
use pico_10base_t_rs.Forward.Neighbor.Laws.{
  IsValid, find_ip-some, lookup_at, take_slot-IsSlot, ip_at-store, mac_at-store, insert-known,
  insert-new,
}

pub lookup-some :
    (t : NeighborTable) (ip : ℕ) (m : Mac)
    → lookup t ip ≡ some m
    → (k : ℕ) × (k < t.used) × (ip_at t k ≡ ip) × (mac_at t k ≡ m)
unfolding lookup
lookup-some t ip m h = elim (Option-cases (find_ip t ip t.used 0)) [
  | inl miss ↦ absurd (ground arith)
  | inr (k, e) ↦ let f = find_ip-some t ip t.used 0 k e in (k, omega arith, f.2, ground arith)
]

pub lookup-insert_sound :
    (ip other : ℕ) (mac m : Mac) (t : NeighborTable)
    → IsValid t
    → ip ≢ other
    → lookup (insert ip mac t) other ≡ some m
    → lookup t other ≡ some m
lookup-insert_sound ip other mac m t v ne h = elim (Option-cases (find_ip t ip t.used 0)) [
  | inr (i, e) ↦
      let f = find_ip-some t ip t.used 0 i e in
      let t' : NeighborTable = record t { mac = set t.mac i mac } in
      let (k, lt, at_k, mac_k) = lookup-some t' other m (rw (insert-known ip mac t i e) at h) in
      let apart : i ≢ k = λ same. ne (sym f.2 ∙ ap (ip_at t) same ∙ at_k) in
      lookup_at t other k v.distinct lt at_k
      ∙ ap (λ (x : Mac). some x) (sym (get_or-set_ne t.mac i k mac no_mac apart) ∙ mac_k)
  | inl e ↦
      let s = take_slot-IsSlot t v in
      let (k, lt, at_k, mac_k) =
        lookup-some (store ip mac (take_slot t)) other m (rw (insert-new ip mac t e) at h) in
      let ip_k = ip_at-store t ip mac (take_slot t) v s k in
      let m_k = mac_at-store t ip mac (take_slot t) v s k in
      elim (Bool-cases ((take_slot t).0 == k)) [
        | inl here ↦ absurd (ground arith)
        | inr there ↦
            lookup_at t other k v.distinct (s.others k (unfold store in lt) (ground arith))
              (ground arith)
            ∙ ap (λ (x : Mac). some x) (ground arith)
      ]
]
