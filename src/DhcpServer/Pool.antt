-- ===== src/DhcpServer/Pool.antt =====
-- The lease pool of src/dhcp_server.rs: one address for each client, which it keeps.
use pico_10base_t_rs.Prelude.{
  ℕ, zero, suc, ◌+◌, ◌-◌, ◌≤◌, ◌<◌, ◌≡◌, ◌≢◌, ◌⊎◌, inl, inr, refl, sym, ap, ◌∙◌, Bool, true, false,
  Option, none, some, List, [], ◌∷◌, arith, length, length-set, set, get_or, get_or-set_self,
  get_or-set_ne, Bool-cases, Option-cases, bytes_eq, bytes_eq→eq, bytes_eq_refl, ◌==◌, some_inj,
}
use pico_10base_t_rs.DhcpServer.{
  pool_len, Leases, ip_for, is_held_by, is_free, first_slot, claim_slot, allocate,
}

abbrev pub lease_at : Leases → ℕ → Option (List ℕ)
lease_at leases i = get_or leases i none

-- The pool has 32 slots, and no client has two.
pub record IsValid (leases : Leases) : Type 0 where
  pub size : length leases ≡ pool_len
  pub distinct :
      (i j : ℕ) (mac : List ℕ) → lease_at leases i ≡ some mac → lease_at leases j ≡ some mac → i ≡ j

first_slot-some :
    (test : Option (List ℕ) → Bool) (leases : Leases) (i k : ℕ)
    → first_slot test leases i ≡ some k
    → (i ≤ k) × (k < i + length leases) × (test (lease_at leases (k - i)) ≡ true)
unfolding first_slot
first_slot-some test [] i k e = absurd (cc)
first_slot-some test (s ∷ rest) i k e = elim (Bool-cases (test s)) [
  | inl here ↦
      let same : i ≡ k = ground arith in
      (omega arith, omega arith, let z : k - i ≡ 0 = omega arith in rw z here)
  | inr later ↦
      let (low, high, found) = first_slot-some test rest (i + 1) k (ground arith) in
      let next : k - i ≡ suc (k - (i + 1)) = omega arith in
      (omega arith, omega arith, rw next found)
]

first_slot-none :
    (test : Option (List ℕ) → Bool) (leases : Leases) (i : ℕ)
    → first_slot test leases i ≡ none
    → (k : ℕ) → k < length leases
    → test (lease_at leases k) ≡ false
unfolding first_slot
first_slot-none test [] i e k lt = absurd (omega arith)
first_slot-none test (s ∷ rest) i e zero lt = elim (Bool-cases (test s)) [
  | inl here ↦ absurd (ground arith)
  | inr later ↦ later
]
first_slot-none test (s ∷ rest) i e (suc k) lt = elim (Bool-cases (test s)) [
  | inl here ↦ absurd (ground arith)
  | inr later ↦ first_slot-none test rest (i + 1) (ground arith) k (omega arith)
]

is_held_by_iff :
    (mac : List ℕ) (s : Option (List ℕ))
    → (is_held_by mac s ≡ true → s ≡ some mac) × (s ≡ some mac → is_held_by mac s ≡ true)
unfolding is_held_by
is_held_by_iff mac none = (λ e. cc, λ e. cc)
is_held_by_iff mac (some held) = (
  λ e. ap (λ (m : List ℕ). some m) (bytes_eq→eq held mac e),
  λ e. ap (λ (m : List ℕ). bytes_eq m mac) (some_inj e) ∙ bytes_eq_refl mac,
)

is_free-none : (s : Option (List ℕ)) → is_free s ≡ true → s ≡ none
unfolding is_free
is_free-none none e = refl
is_free-none (some held) e = cc

-- No slot is the client's.
abbrev pub IsUnknown : List ℕ → Leases → Type 0
IsUnknown mac leases = (j : ℕ) → j < pool_len → lease_at leases j ≢ some mac

-- What an allocation gives: the client has the slot that was its own, or one that was free if it had
-- none, its address is returned, and every other slot stays; or the client had no slot and none was
-- free, and the pool is unchanged.
pub data IsAllocated (mac : List ℕ) (leases : Leases) (out : Option ℕ × Leases) : Type 0 where
  leased :
      (i : ℕ)
      → i < pool_len
      → out.0 ≡ some (ip_for i)
      → (lease_at leases i ≡ some mac) ⊎ ((lease_at leases i ≡ none) × IsUnknown mac leases)
      → lease_at out.1 i ≡ some mac
      → length out.1 ≡ pool_len
      → ((j : ℕ) → i ≢ j → lease_at out.1 j ≡ lease_at leases j)
      → IsAllocated mac leases out
  exhausted :
      out.0 ≡ none
      → out.1 ≡ leases
      → IsUnknown mac leases
      → ((j : ℕ) → j < pool_len → lease_at leases j ≢ none)
      → IsAllocated mac leases out

lease_in :
    (leases : Leases) (j : ℕ) (mac : List ℕ) → lease_at leases j ≡ some mac → j < length leases
lease_in [] j mac e = absurd (cc)
lease_in (s ∷ rest) zero mac e = omega arith
lease_in (s ∷ rest) (suc j) mac e = omega (arith, lease_in rest j mac e)

module _ (mac : List ℕ) (leases : Leases) where
  allocate_known :
      (i : ℕ)
      → first_slot (is_held_by mac) leases 0 ≡ some i
      → allocate mac leases ≡ (some (ip_for i), leases)
  unfolding allocate
  allocate_known i e = rw (e, allocate) refl

  allocate_new :
      (i : ℕ)
      → first_slot (is_held_by mac) leases 0 ≡ none
      → first_slot is_free leases 0 ≡ some i
      → allocate mac leases ≡ (some (ip_for i), set leases i (some mac))
  unfolding allocate claim_slot
  allocate_new i e f = rw (e, allocate, f, claim_slot) refl

  allocate_full :
      first_slot (is_held_by mac) leases 0 ≡ none
      → first_slot is_free leases 0 ≡ none
      → allocate mac leases ≡ (none, leases)
  unfolding allocate claim_slot
  allocate_full e f = rw (e, allocate, f, claim_slot) refl

  held_at :
      (i : ℕ)
      → first_slot (is_held_by mac) leases 0 ≡ some i
      → (i < length leases) × (lease_at leases i ≡ some mac)
  held_at i e =
      let (low, high, found) = first_slot-some (is_held_by mac) leases 0 i e in
      let z : i - 0 ≡ i = omega arith in
      (omega arith, (is_held_by_iff mac (lease_at leases i)).0 (rw z at found))

  free_at :
      (i : ℕ)
      → first_slot is_free leases 0 ≡ some i
      → (i < length leases) × (lease_at leases i ≡ none)
  free_at i e =
      let (low, high, found) = first_slot-some is_free leases 0 i e in
      let z : i - 0 ≡ i = omega arith in
      (omega arith, is_free-none (lease_at leases i) (rw z at found))

  -- On a pool of 32 slots, `allocate` gives the client the address of a slot that is then the
  -- client's, and leaves every other slot as it is. The slot was the client's before, or it was free
  -- and the client had none. Or `allocate` gives none and changes nothing, and then no slot is the
  -- client's and none is free.
  pub allocate-IsAllocated : length leases ≡ pool_len → IsAllocated mac leases (allocate mac leases)
  allocate-IsAllocated size = elim (Option-cases (first_slot (is_held_by mac) leases 0)) [
    | inr (i, e) ↦
        let (lt, held) = held_at i e in
        rw (allocate_known i e) (leased i (omega arith) refl (inl held) held size (λ j ne. refl))
    | inl unknown ↦ elim (Option-cases (first_slot is_free leases 0)) [
      | inr (i, f) ↦
          let (lt, gone) = free_at i f in
          rw (allocate_new i unknown f) (
            leased i (omega arith) refl (inr (gone, none_held unknown))
              (get_or-set_self leases i (some mac) none lt) (length-set leases i (some mac) ∙ size)
              (λ j ne. get_or-set_ne leases i j (some mac) none ne))
      | inl full ↦ rw (allocate_full unknown full) (
          exhausted refl refl (none_held unknown)
            (λ j lt free. absurd (none_free full j (omega arith) free)))
    ]
  ]
    where
      none_held : first_slot (is_held_by mac) leases 0 ≡ none → IsUnknown mac leases
      none_held unknown j lt held =
          let missed = first_slot-none (is_held_by mac) leases 0 unknown j (omega arith) in
          let hit = (is_held_by_iff mac (lease_at leases j)).1 held in absurd (cc)

      none_free :
          first_slot is_free leases 0 ≡ none
          → (j : ℕ) → j < length leases
          → lease_at leases j ≡ none
          → ⊥
      none_free full j lt free =
          let taken = first_slot-none is_free leases 0 full j lt in
          let open_slot : is_free (lease_at leases j) ≡ true =
            ap is_free free ∙ unfold is_free in refl in
          absurd (cc)

  -- `allocate` keeps the pool such that no client has two slots: two clients never have one address,
  -- and a client keeps its own.
  pub allocate-IsValid : IsValid leases → IsValid (allocate mac leases).1
  allocate-IsValid v = elim (Option-cases (first_slot (is_held_by mac) leases 0)) [
    | inr (i, e) ↦ rw (allocate_known i e) v
    | inl unknown ↦ elim (Option-cases (first_slot is_free leases 0)) [
      | inr (i, f) ↦ rw (allocate_new i unknown f) record {
        size = length-set leases i (some mac) ∙ v.size;
        distinct = distinct_after unknown i (free_at i f).0;
      }
      | inl full ↦ rw (allocate_full unknown full) v
    ]
  ]
    where
      not_held :
          first_slot (is_held_by mac) leases 0 ≡ none → (j : ℕ) → lease_at leases j ≡ some mac → ⊥
      not_held unknown j held =
          let missed =
            first_slot-none (is_held_by mac) leases 0 unknown j (lease_in leases j mac held) in
          let hit = (is_held_by_iff mac (lease_at leases j)).1 held in absurd (cc)

      clash :
          first_slot (is_held_by mac) leases 0 ≡ none
          → (i : ℕ) → i < length leases
          → (j k : ℕ) (m : List ℕ) → i ≡ j
          → i ≢ k
          → lease_at (set leases i (some mac)) j ≡ some m
          → lease_at (set leases i (some mac)) k ≡ some m
          → ⊥
      clash unknown i lt j k m here there p q =
          let new : lease_at (set leases i (some mac)) i ≡ some mac =
            get_or-set_self leases i (some mac) none lt in
          let own : lease_at (set leases i (some mac)) i ≡ some m =
            ap (lease_at (set leases i (some mac))) here ∙ p in
          not_held unknown k
            (sym (get_or-set_ne leases i k (some mac) none there) ∙ q ∙ sym own ∙ new)

      distinct_after :
          first_slot (is_held_by mac) leases 0 ≡ none
          → (i : ℕ) → i < length leases
          → (j k : ℕ) (m : List ℕ) → lease_at (set leases i (some mac)) j ≡ some m
          → lease_at (set leases i (some mac)) k ≡ some m
          → j ≡ k
      distinct_after unknown i lt j k m p q = elim (Bool-cases (i == j)) [
        | inl at_j ↦ elim (Bool-cases (i == k)) [
          | inl at_k ↦ ground arith
          | inr off_k ↦ absurd (clash unknown i lt j k m (ground arith) (ground arith) p q)
        ]
        | inr off_j ↦ elim (Bool-cases (i == k)) [
          | inl at_k ↦ absurd (clash unknown i lt k j m (ground arith) (ground arith) q p)
          | inr off_k ↦
              v.distinct j k m (sym (get_or-set_ne leases i j (some mac) none (ground arith)) ∙ p)
                (sym (get_or-set_ne leases i k (some mac) none (ground arith)) ∙ q)
        ]
      ]

  -- A lease that is there stays.
  pub allocate-keeps :
      (j : ℕ) (m : List ℕ)
      → lease_at leases j ≡ some m
      → lease_at ((allocate mac leases).1) j ≡ some m
  allocate-keeps j m h = elim (Option-cases (first_slot (is_held_by mac) leases 0)) [
    | inr (i, e) ↦ rw (allocate_known i e) h
    | inl unknown ↦ elim (Option-cases (first_slot is_free leases 0)) [
      | inr (i, f) ↦
          let gone = (free_at i f).1 in
          let other : i ≢ j = λ e. let here = ap (lease_at leases) e in absurd (cc) in
          rw (allocate_new i unknown f) (get_or-set_ne leases i j (some mac) none other ∙ h)
      | inl full ↦ rw (allocate_full unknown full) h
    ]
  ]
