-- ===== src/Forward/Neighbor/Laws.antt =====
-- The neighbor table of src/forward.rs is a map of at most eight addresses.
use pico_10base_t_rs.Prelude.{
  ℕ, zero, suc, ◌+◌, ◌≤◌, ◌<◌, ◌≡◌, refl, sym, ap, ◌∙◌, ◌≢◌, none, some, List, ltb, ◌==◌,
  if◌then◌else◌, get_or, set, arith, length, length-set, get_or-set_self, get_or-set_ne, Bool-cases,
  Option-cases, inl, inr, ◌⊎◌,
}
use pico_10base_t_rs.Forward.Neighbor.{
  NeighborTable, Mac, no_mac, neigh_cap, new, ip_at, mac_at, find_ip, take_slot, store, insert,
  lookup,
}

-- The arrays have their size, the indices are in range, and no address is held twice.
pub record IsValid (t : NeighborTable) : Type 0 where
  pub ip_size : length t.ip ≡ neigh_cap
  pub mac_size : length t.mac ≡ neigh_cap
  pub used_in : t.used ≤ neigh_cap
  pub next_in : t.next < neigh_cap
  pub distinct : (i j : ℕ) → i < t.used → j < t.used → ip_at t i ≡ ip_at t j → i ≡ j

pub new-IsValid : IsValid new
unfolding new
new-IsValid = record {
  ip_size = refl;
  mac_size = refl;
  used_in = omega arith;
  next_in = omega arith;
  distinct = λ i j p q e. absurd (omega arith);
}

pub find_ip-some :
    (t : NeighborTable) (ip left i k : ℕ)
    → find_ip t ip left i ≡ some k
    → (i ≤ k) × (k < i + left) × (ip_at t k ≡ ip)
unfolding find_ip
find_ip-some t ip zero i k h = cc
find_ip-some t ip (suc left) i k h = elim (Bool-cases (ip_at t i == ip)) [
  | inl here ↦ ground arith
  | inr there ↦ ground (arith, find_ip-some t ip left (i + 1) k)
]

pub find_ip-none :
    (t : NeighborTable) (ip left i : ℕ)
    → find_ip t ip left i ≡ none
    → (k : ℕ) → i ≤ k
    → k < i + left
    → ip_at t k ≢ ip
unfolding find_ip
find_ip-none t ip zero i h k p q = absurd (omega arith)
find_ip-none t ip (suc left) i h k p q = elim (Bool-cases (ip_at t i == ip)) [
  | inl here ↦ absurd (ground arith)
  | inr there ↦ elim (Bool-cases (i == k)) [
    | inl same ↦ ground arith
    | inr later ↦ find_ip-none t ip left (i + 1) (ground arith) k (ground arith) (omega arith)
  ]
]

-- Where no address is held twice, the index found is the one that holds the address.
find_ip_at :
    (t : NeighborTable) (ip k : ℕ)
    → ((i j : ℕ) → i < t.used → j < t.used → ip_at t i ≡ ip_at t j → i ≡ j)
    → k < t.used
    → ip_at t k ≡ ip
    → find_ip t ip t.used 0 ≡ some k
find_ip_at t ip k distinct lt e = elim (Option-cases (find_ip t ip t.used 0)) [
  | inl miss ↦ absurd (find_ip-none t ip t.used 0 miss k (omega arith) (omega arith) e)
  | inr (i, found) ↦
      let f = find_ip-some t ip t.used 0 i found in
      found ∙ ap (λ (u : ℕ). some u) (distinct i k (omega arith) lt (f.2 ∙ sym e))
]

pub lookup_at :
    (t : NeighborTable) (ip k : ℕ)
    → ((i j : ℕ) → i < t.used → j < t.used → ip_at t i ≡ ip_at t j → i ≡ j)
    → k < t.used
    → ip_at t k ≡ ip
    → lookup t ip ≡ some (mac_at t k)
unfolding lookup
lookup_at t ip k distinct lt e = rw (find_ip_at t ip k distinct lt e, lookup)

-- What `take_slot` promises of the slot and the new table.
pub record IsSlot (t : NeighborTable) (out : ℕ × NeighborTable) : Type 0 where
  pub same_ip : out.1.ip ≡ t.ip
  pub same_mac : out.1.mac ≡ t.mac
  pub slot_in : out.0 < out.1.used
  pub used_in : out.1.used ≤ neigh_cap
  pub next_in : out.1.next < neigh_cap
  pub others : (i : ℕ) → i < out.1.used → out.0 ≢ i → i < t.used
  pub kept : (i : ℕ) → i < t.used → i < out.1.used

pub take_slot-IsSlot : (t : NeighborTable) → IsValid t → IsSlot t (take_slot t)
unfolding take_slot
take_slot-IsSlot t v = elim (Bool-cases (ltb t.used neigh_cap)) [
  | inl room ↦ rw room record {
    same_ip = refl;
    same_mac = refl;
    slot_in = omega arith;
    used_in = ground arith;
    next_in = v.next_in;
    others = λ i lt ne. ground arith;
    kept = λ i lt. omega arith;
  }
  | inr full ↦
      let used_all : t.used ≡ neigh_cap = ground (arith, v.used_in) in
      rw full record {
        same_ip = refl;
        same_mac = refl;
        slot_in = omega (arith, v.next_in);
        used_in = v.used_in;
        next_in = omega arith;
        others = λ i lt ne. lt;
        kept = λ i lt. lt;
      }
]

module _ (t : NeighborTable) (ip : ℕ) (mac : Mac) (out : ℕ × NeighborTable) (v : IsValid t)
    (s : IsSlot t out) where
  slot_in_arrays : (out.0 < length out.1.ip) × (out.0 < length out.1.mac)
  slot_in_arrays = (
    rw s.same_ip (omega (arith, v.ip_size, s.slot_in, s.used_in)),
    rw s.same_mac (omega (arith, v.mac_size, s.slot_in, s.used_in)),
  )

  pub ip_at-store : (i : ℕ) → ip_at (store ip mac out) i ≡ (if out.0 == i then ip else ip_at t i)
  unfolding store
  ip_at-store i = elim (Bool-cases (out.0 == i)) [
    | inl here ↦ ground (arith, get_or-set_self out.1.ip out.0 ip 0 slot_in_arrays.0)
    | inr there ↦
        ground
          (arith, get_or-set_ne out.1.ip out.0 i ip 0, ap (λ (l : List ℕ). get_or l i 0) s.same_ip)
  ]

  pub mac_at-store :
      (i : ℕ) → mac_at (store ip mac out) i ≡ (if out.0 == i then mac else mac_at t i)
  unfolding store
  mac_at-store i = elim (Bool-cases (out.0 == i)) [
    | inl here ↦ ground (arith, get_or-set_self out.1.mac out.0 mac no_mac slot_in_arrays.1)
    | inr there ↦ ground (
      arith,
      get_or-set_ne out.1.mac out.0 i mac no_mac,
      ap (λ (l : List Mac). get_or l i no_mac) s.same_mac,
    )
  ]

  store-IsValid : ((k : ℕ) → k < t.used → ip_at t k ≢ ip) → IsValid (store ip mac out)
  store-IsValid fresh = record {
    ip_size = unfold store in (length-set out.1.ip out.0 ip ∙ ap length s.same_ip ∙ v.ip_size);
    mac_size = unfold store in (length-set out.1.mac out.0 mac ∙ ap length s.same_mac ∙ v.mac_size);
    used_in = unfold store in s.used_in;
    next_in = unfold store in s.next_in;
    distinct =
        unfold store in
        λ i j p q e. elim (Bool-cases (out.0 == i)) [
          | inl i_here ↦ elim (Bool-cases (out.0 == j)) [
            | inl j_here ↦ ground arith
            | inr j_there ↦
                ground (arith, ip_at-store i, ip_at-store j, fresh j (s.others j q (ground arith)))
          ]
          | inr i_there ↦ elim (Bool-cases (out.0 == j)) [
            | inl j_here ↦
                ground (arith, ip_at-store i, ip_at-store j, fresh i (s.others i p (ground arith)))
            | inr j_there ↦ ground (
              arith,
              ip_at-store i,
              ip_at-store j,
              v.distinct i j (s.others i p (ground arith)) (s.others j q (ground arith)),
            )
          ]
        ];
  }

pub insert-known :
    (ip : ℕ) (mac : Mac) (t : NeighborTable) (i : ℕ)
    → find_ip t ip t.used 0 ≡ some i
    → insert ip mac t ≡ record t { mac = set t.mac i mac }
unfolding insert
insert-known ip mac t i e = rw (e, insert)

pub insert-new :
    (ip : ℕ) (mac : Mac) (t : NeighborTable)
    → find_ip t ip t.used 0 ≡ none
    → insert ip mac t ≡ store ip mac (take_slot t)
unfolding insert
insert-new ip mac t e = rw (e, insert)

-- `insert` keeps the table a map of at most eight addresses.
pub insert-IsValid :
    (ip : ℕ) (mac : Mac) (t : NeighborTable) → IsValid t → IsValid (insert ip mac t)
insert-IsValid ip mac t v = elim (Option-cases (find_ip t ip t.used 0)) [
  | inr (i, e) ↦ rw (insert-known ip mac t i e) record {
    ip_size = v.ip_size;
    mac_size = length-set t.mac i mac ∙ v.mac_size;
    used_in = v.used_in;
    next_in = v.next_in;
    distinct = v.distinct;
  }
  | inl e ↦ rw (insert-new ip mac t e) (
      store-IsValid t ip mac (take_slot t) v (take_slot-IsSlot t v)
        λ k lt. find_ip-none t ip t.used 0 e k (omega arith) (omega arith))
]

-- An address just inserted is looked up with its MAC, whatever the table held before.
pub lookup-insert :
    (ip : ℕ) (mac : Mac) (t : NeighborTable) → IsValid t → lookup (insert ip mac t) ip ≡ some mac
lookup-insert ip mac t v = elim (Option-cases (find_ip t ip t.used 0)) [
  | inr (i, e) ↦
      let f = find_ip-some t ip t.used 0 i e in
      let t' : NeighborTable = record t { mac = set t.mac i mac } in
      rw (insert-known ip mac t i e) (
        lookup_at t' ip i v.distinct (omega arith) f.2
        ∙ ap (λ (m : Mac). some m)
            (get_or-set_self t.mac i mac no_mac (omega (arith, v.mac_size, v.used_in))))
  | inl e ↦
      let s = take_slot-IsSlot t v in
      let k = (take_slot t).0 in
      let ok =
        store-IsValid t ip mac (take_slot t) v s
          λ k lt. find_ip-none t ip t.used 0 e k (omega arith) (omega arith) in
      rw (insert-new ip mac t e) (
        lookup_at (store ip mac (take_slot t)) ip k ok.distinct (unfold store in s.slot_in)
          (ip_at-store t ip mac (take_slot t) v s k ∙ ground arith)
        ∙ ap (λ (m : Mac). some m) (mac_at-store t ip mac (take_slot t) v s k ∙ ground arith))
]

lookup-miss :
    (t : NeighborTable) (ip : ℕ) → ((k : ℕ) → k < t.used → ip_at t k ≢ ip) → lookup t ip ≡ none
unfolding lookup
lookup-miss t ip fresh = elim (Option-cases (find_ip t ip t.used 0)) [
  | inl miss ↦ rw (miss, lookup)
  | inr (i, e) ↦ let f = find_ip-some t ip t.used 0 i e in absurd (fresh i (omega arith) f.2)
]

-- Another address is looked up as before, if the table had room or knew the address inserted.
pub lookup-insert_ne :
    (ip other : ℕ) (mac : Mac) (t : NeighborTable)
    → IsValid t
    → ip ≢ other
    → (t.used < neigh_cap) ⊎ (lookup t ip ≢ none)
    → lookup (insert ip mac t) other ≡ lookup t other
lookup-insert_ne ip other mac t v ne room = elim (Option-cases (find_ip t ip t.used 0)) [
  | inr (i, e) ↦ rw (insert-known ip mac t i e) (known i e)
  | inl e ↦ rw (insert-new ip mac t e) (unknown e)
]
  where
    known :
        (i : ℕ)
        → find_ip t ip t.used 0 ≡ some i
        → lookup (record t { mac = set t.mac i mac }) other ≡ lookup t other
    known i e =
        let f = find_ip-some t ip t.used 0 i e in
        let t' : NeighborTable = record t { mac = set t.mac i mac } in
        elim (Option-cases (find_ip t other t.used 0)) [
          | inl miss ↦
              let gone = λ (k : ℕ) (lt : k < t.used).
                find_ip-none t other t.used 0 miss k (omega arith) (omega arith) in
              lookup-miss t' other gone ∙ sym (lookup-miss t other gone)
          | inr (j, g) ↦
              let h = find_ip-some t other t.used 0 j g in
              let apart : i ≢ j = λ same. ne (sym f.2 ∙ ap (ip_at t) same ∙ h.2) in
              lookup_at t' other j v.distinct (omega arith) h.2
              ∙ ap (λ (m : Mac). some m) (get_or-set_ne t.mac i j mac no_mac apart)
              ∙ sym (lookup_at t other j v.distinct (omega arith) h.2)
        ]

    unknown :
        find_ip t ip t.used 0 ≡ none → lookup (store ip mac (take_slot t)) other ≡ lookup t other
    unknown e =
        let s = take_slot-IsSlot t v in
        let fresh =
          λ (k : ℕ) (lt : k < t.used). find_ip-none t ip t.used 0 e k (omega arith) (omega arith) in
        let t' = store ip mac (take_slot t) in
        let ok = store-IsValid t ip mac (take_slot t) v s fresh in
        elim (Option-cases (find_ip t other t.used 0)) [
          | inl miss ↦
              let gone = λ (k : ℕ) (lt : k < t.used).
                find_ip-none t other t.used 0 miss k (omega arith) (omega arith) in
              lookup-miss t' other (λ k lt same. gone_too k lt same gone)
              ∙ sym (lookup-miss t other gone)
          | inr (j, g) ↦
              let h = find_ip-some t other t.used 0 j g in
              let roomy : t.used < neigh_cap = has_room e in
              let apart : (take_slot t).0 ≢ j = slot_apart roomy j (omega arith) in
              lookup_at t' other j ok.distinct (unfold store in s.kept j (omega arith))
                (ip_at-store t ip mac (take_slot t) v s j ∙ ground arith)
              ∙ ap (λ (m : Mac). some m) (mac_at-store t ip mac (take_slot t) v s j ∙ ground arith)
              ∙ sym (lookup_at t other j v.distinct (omega arith) h.2)
        ]
      where
        has_room : find_ip t ip t.used 0 ≡ none → t.used < neigh_cap
        has_room e = elim room [
          | inl roomy ↦ roomy
          | inr found ↦ absurd (
              found (
                lookup-miss t ip
                  λ k lt. find_ip-none t ip t.used 0 e k (omega arith) (omega arith)))
        ]

        slot_apart : t.used < neigh_cap → (j : ℕ) → j < t.used → (take_slot t).0 ≢ j
        slot_apart roomy j lt = unfold take_slot in ground arith

        gone_too :
            (k : ℕ)
            → k < (store ip mac (take_slot t)).used
            → ip_at (store ip mac (take_slot t)) k ≡ other
            → ((k : ℕ) → k < t.used → ip_at t k ≢ other)
            → ⊥
        gone_too k lt same gone =
            let s = take_slot-IsSlot t v in
            let at_k = ip_at-store t ip mac (take_slot t) v s k in
            elim (Bool-cases ((take_slot t).0 == k)) [
              | inl here ↦ ground arith
              | inr there ↦ gone k (s.others k (unfold store in lt) (ground arith)) (ground arith)
            ]
