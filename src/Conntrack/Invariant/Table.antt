-- ===== src/Conntrack/Invariant/Table.antt =====
-- The invariant of the slots of src/conntrack.rs, and how each change of a slot keeps it.
use pico_10base_t_rs.Prelude.{
  ℕ, zero, suc, ◌+◌, ◌≤◌, ◌<◌, ◌≡◌, refl, sym, ◌∙◌, ◌≢◌, Bool, true, false, none, List, [], ◌∷◌,
  arith, ◌==◌, if◌then◌else◌, Bool-cases, length, set, inl, inr, length-set, replicate, ◌↔◌,
}
use pico_10base_t_rs.Conntrack.{
  Entry, Tuple, Proto, proto_eq, tcp, udp, icmp_echo, empty_entry, touch, position, id_in_use,
  ct_cap, is_flow, entry_of,
}
use pico_10base_t_rs.Conntrack.Alloc.{IsNatId}
use pico_10base_t_rs.Conntrack.Slots.{at, at-set, used-lt-length, position-none, id_in_use-false}

-- The flow that an entry was made for.
abbrev pub flow_of : Entry → Tuple
flow_of s = record {
  proto = s.proto;
  src_ip = s.lan_ip;
  src_id = s.lan_id;
  dst_ip = s.remote_ip;
  dst_id = s.remote_id;
}

-- The table has its fixed size, the ids of its entries are NAT ids, and no two entries share an id
-- or a flow.
pub record IsTable (slots : List Entry) : Type 0 where
  pub size : length slots ≡ ct_cap
  pub ids : (i : ℕ) → (at slots i).used ≡ true → IsNatId (at slots i).wan_id
  pub distinct :
      (i j : ℕ)
      → (at slots i).used ≡ true
      → (at slots j).used ≡ true
      → (at slots i).wan_id ≡ (at slots j).wan_id
      → i ≡ j
  pub one_flow :
      (i j : ℕ)
      → (at slots i).used ≡ true
      → (at slots j).used ≡ true
      → flow_of (at slots i) ≡ flow_of (at slots j)
      → i ≡ j

pub proto_eq_iff : (p q : Proto) → (proto_eq p q ≡ true) ↔ (p ≡ q)
proto_eq_iff tcp tcp = ground arith
proto_eq_iff tcp udp = ground arith
proto_eq_iff tcp icmp_echo = ground arith
proto_eq_iff udp tcp = ground arith
proto_eq_iff udp udp = ground arith
proto_eq_iff udp icmp_echo = ground arith
proto_eq_iff icmp_echo tcp = ground arith
proto_eq_iff icmp_echo udp = ground arith
proto_eq_iff icmp_echo icmp_echo = ground arith

-- The test of `outbound` holds at the used entries of the flow.
pub is_flow_iff :
    (t : Tuple) (s : Entry) → (is_flow t s ≡ true) ↔ ((s.used ≡ true) × (flow_of s ≡ t))
unfolding is_flow
is_flow_iff t s = ground (arith, proto_eq_iff s.proto t.proto)

module _ (slots : List Entry) (h : IsTable slots) (k : ℕ) (e : Entry)
    (in_table : k < length slots) where
  -- A slot may take an entry with a NAT id that shares neither id nor flow with the other entries.
  pub set-IsTable :
      (e.used ≡ true → IsNatId e.wan_id)
      → ((j : ℕ)
          → k ≢ j
          → (at slots j).used ≡ true
          → e.used ≡ true
          → (at slots j).wan_id ≢ e.wan_id)
      → ((j : ℕ)
          → k ≢ j
          → (at slots j).used ≡ true
          → e.used ≡ true
          → flow_of (at slots j) ≢ flow_of e)
      → IsTable (set slots k e)
  set-IsTable id_in other_ids other_flows = record {
    size = length-set slots k e ∙ h.size;
    ids = λ i. rw (at-set slots k i e in_table) (ids_at i);
    distinct =
        λ i j. rw (at-set slots k i e in_table, at-set slots k j e in_table) (distinct_at i j);
    one_flow = λ i j. rw (at-set slots k i e in_table, at-set slots k j e in_table) (flow_at i j);
  }
    where
      new_at : ℕ → Entry
      new_at i = if k == i then e else at slots i

      ids_at : (i : ℕ) → (new_at i).used ≡ true → IsNatId (new_at i).wan_id
      ids_at i = elim (Bool-cases (k == i)) [
        | inl here ↦ rw here id_in
        | inr there ↦ rw there (h.ids i)
      ]

      distinct_at :
          (i j : ℕ)
          → (new_at i).used ≡ true
          → (new_at j).used ≡ true
          → (new_at i).wan_id ≡ (new_at j).wan_id
          → i ≡ j
      distinct_at i j = elim (Bool-cases (k == i)) [
        | inl i_here ↦ elim (Bool-cases (k == j)) [
          | inl j_here ↦ λ u v q. ground arith
          | inr j_there ↦
              rw (i_here, j_there) (λ u v q. absurd (other_ids j (ground arith) v u (sym q)))
        ]
        | inr i_there ↦ elim (Bool-cases (k == j)) [
          | inl j_here ↦ rw (i_there, j_here) (λ u v q. absurd (other_ids i (ground arith) u v q))
          | inr j_there ↦ rw (i_there, j_there) (h.distinct i j)
        ]
      ]

      flow_at :
          (i j : ℕ)
          → (new_at i).used ≡ true
          → (new_at j).used ≡ true
          → flow_of (new_at i) ≡ flow_of (new_at j)
          → i ≡ j
      flow_at i j = elim (Bool-cases (k == i)) [
        | inl i_here ↦ elim (Bool-cases (k == j)) [
          | inl j_here ↦ λ u v q. ground arith
          | inr j_there ↦
              rw (i_here, j_there) (λ u v q. absurd (other_flows j (ground arith) v u (sym q)))
        ]
        | inr i_there ↦ elim (Bool-cases (k == j)) [
          | inl j_here ↦ rw (i_there, j_here) (λ u v q. absurd (other_flows i (ground arith) u v q))
          | inr j_there ↦ rw (i_there, j_there) (h.one_flow i j)
        ]
      ]

-- Refreshing a used entry keeps the table.
pub touch-IsTable :
    (slots : List Entry) (k now flags : ℕ)
    → IsTable slots
    → (at slots k).used ≡ true
    → IsTable (set slots k (touch now flags (at slots k)))
unfolding touch
touch-IsTable slots k now flags h u =
    set-IsTable slots h k (touch now flags (at slots k)) (used-lt-length slots k u)
      (λ u'. h.ids k u) (λ j ne v u' q. ne (sym (h.distinct j k v u q)))
      (λ j ne v u' q. ne (sym (h.one_flow j k v u q)))

-- A miss of the search of `outbound`: no used entry has the flow.
pub misses_flow :
    (t : Tuple) (slots : List Entry)
    → position (is_flow t) slots ≡ none
    → (j : ℕ) → (at slots j).used ≡ true
    → flow_of (at slots j) ≢ t
misses_flow t slots h j u q =
    let miss = position-none (is_flow t) slots h j (used-lt-length slots j u) in
    let hit = (is_flow_iff t (at slots j)).1 (u, q) in cc

-- A new flow under a free id keeps the table, whichever slot it takes.
pub fill-IsTable :
    (slots : List Entry) (k id flags now : ℕ) (t : Tuple)
    → IsTable slots
    → k < length slots
    → IsNatId id
    → id_in_use slots id ≡ false
    → position (is_flow t) slots ≡ none
    → IsTable (set slots k (entry_of t id flags now))
unfolding entry_of
fill-IsTable slots k id flags now t h lt id_in free miss =
    set-IsTable slots h k (entry_of t id flags now) lt (λ u. id_in)
      (λ j ne v u. id_in_use-false slots id free j v) (λ j ne v u. misses_flow t slots miss j v)

abbrev pub count_of : Bool → ℕ
count_of true = 1
count_of false = 0

unfoldable pub used_count : List Entry → ℕ
used_count [] = 0
used_count (s ∷ rest) = count_of s.used + used_count rest

pub used_count-le-length : (slots : List Entry) → used_count slots ≤ length slots
unfolding used_count
used_count-le-length [] = omega arith
used_count-le-length (s ∷ rest) = ground (arith, used_count-le-length rest)

pub used_count-pos : (slots : List Entry) (i : ℕ) → (at slots i).used ≡ true → 0 < used_count slots
unfolding used_count
used_count-pos [] i h = absurd (ground arith)
used_count-pos (s ∷ rest) zero h = ground arith
used_count-pos (s ∷ rest) (suc i) h = omega (arith, used_count-pos rest i h)

pub used_count-set :
    (slots : List Entry) (i : ℕ) (e : Entry)
    → i < length slots
    → used_count (set slots i e) + count_of (at slots i).used ≡ used_count slots + count_of e.used
unfolding used_count
used_count-set [] i e h = absurd (omega arith)
used_count-set (s ∷ rest) zero e h = omega arith
used_count-set (s ∷ rest) (suc i) e h = omega (arith, used_count-set rest i e (omega arith))

at-replicate : (n i : ℕ) → at (replicate n empty_entry) i ≡ empty_entry
at-replicate zero i = refl
at-replicate (suc n) zero = refl
at-replicate (suc n) (suc i) = at-replicate n i

pub empty-IsTable : IsTable (replicate ct_cap empty_entry)
empty-IsTable = record {
  size = refl;
  ids = λ i. rw (at-replicate ct_cap i) (λ u. cc);
  distinct = λ i j. rw (at-replicate ct_cap i) (λ u v q. cc);
  one_flow = λ i j. rw (at-replicate ct_cap i) (λ u v q. cc);
}
