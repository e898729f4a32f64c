-- ===== src/EthRx/Runs/Search.antt =====
-- `find_active_run_from` of src/eth_rx.rs finds the next run that is long enough, and misses none.
use pico_10base_t_rs.Prelude.{
  ℕ, zero, suc, ◌+◌, ◌-◌, ◌≤◌, ◌<◌, ◌≡◌, ◌⊎◌, inl, inr, sym, ap, ◌∙◌, Bool, true, false, ◌&&◌,
  Option, none, some, List, arith, length, byte, ltb, leb, ◌==◌, Bool-cases,
}
use pico_10base_t_rs.EthRx.Poll.{is_active}
use pico_10base_t_rs.EthRx.Runs.{
  span_end, is_quiet, run_start, run_end, find_loop, find_active_run_from,
}

-- Where a span of bytes that pass the test ends.
record IsSpan (test : ℕ → Bool) (bytes : List ℕ) (i j : ℕ) : Type 0 where
  forward : i ≤ j
  inside : (u : ℕ) → i ≤ u → u < j → (u < length bytes) × (test (byte bytes u) ≡ true)
  stops : (length bytes ≤ j) ⊎ (test (byte bytes j) ≡ false)

span_end-IsSpan :
    (test : ℕ → Bool) (bytes : List ℕ) (left i : ℕ)
    → length bytes ≤ i + left
    → IsSpan test bytes i (span_end test bytes left i)
unfolding span_end
span_end-IsSpan test bytes zero i enough = record {
  forward = omega arith;
  inside = λ u p q. absurd (omega arith);
  stops = inl (omega arith);
}
span_end-IsSpan test bytes (suc left) i enough =
    elim (Bool-cases (ltb i (length bytes) && test (byte bytes i))) [
      | inr stop ↦ rw stop record {
        forward = omega arith;
        inside = λ u p q. absurd (omega arith);
        stops = elim (Bool-cases (ltb i (length bytes))) [
          | inl within ↦ inr (ground arith)
          | inr out ↦ inl (ground arith)
        ];
      }
      | inl on ↦
          let rest = span_end-IsSpan test bytes left (i + 1) (omega arith) in
          rw on record {
            forward = omega (arith, rest.forward);
            inside = λ u p q. elim (Bool-cases (i == u)) [
              | inl same ↦
                  let e : i ≡ u = ground arith in
                  (ground arith, ap (λ (k : ℕ). test (byte bytes k)) (sym e) ∙ ground arith)
              | inr later ↦ rest.inside u (ground arith) q
            ];
            stops = rest.stops;
          }
    ]

-- A run of at least `min_len` active bytes from `i` on, that cannot be extended to the right, and to
-- the left at most before `i`.
pub record IsRun (bytes : List ℕ) (i min_len off len : ℕ) : Type 0 where
  pub from_start : i ≤ off
  pub in_bytes : off + len ≤ length bytes
  pub not_short : min_len ≤ len
  pub nonempty : 0 < len
  pub active : (u : ℕ) → off ≤ u → u < off + len → is_active (byte bytes u) ≡ true
  pub ends : (off + len ≡ length bytes) ⊎ (is_active (byte bytes (off + len)) ≡ false)

-- No window of `min_len` bytes from `i` on is active throughout.
abbrev pub HasNoRun : List ℕ → ℕ → ℕ → Type 0
HasNoRun bytes i min_len =
    (o : ℕ)
    → i ≤ o
    → o + min_len ≤ length bytes
    → (u : ℕ) × (o ≤ u) × (u < o + min_len) × (is_active (byte bytes u) ≡ false)

-- What the search is to give.
abbrev pub IsFound : List ℕ → ℕ → ℕ → Option (ℕ × ℕ) → Type 0
IsFound bytes i min_len none = HasNoRun bytes i min_len
IsFound bytes i min_len (some (off, len)) =
    IsRun bytes i min_len off len
    × ((o : ℕ)
        → i ≤ o
        → o < off
        → (u : ℕ) × (o ≤ u) × (u < o + min_len) × (is_active (byte bytes u) ≡ false))

module _ (bytes : List ℕ) (min_len : ℕ) (pos : 0 < min_len) where
  -- A window of `min_len` bytes at `o` that is not active throughout.
  abbrev Window : ℕ → Type 0
  Window o = (u : ℕ) × (o ≤ u) × (u < o + min_len) × (is_active (byte bytes u) ≡ false)

  -- The search may start again at `j`, when no window before it is active.
  widen :
      (i j : ℕ) (found : Option (ℕ × ℕ))
      → i ≤ j
      → ((o : ℕ) → i ≤ o → o < j → Window o)
      → IsFound bytes j min_len found
      → IsFound bytes i min_len found
  widen i j none le before rest = λ o p q. elim (Bool-cases (ltb o j)) [
    | inl early ↦ before o p (ground arith)
    | inr late ↦ rest o (ground arith) q
  ]
  widen i j (some (off, len)) le before (run, first) = (
    record {
      from_start = omega (arith, run.from_start);
      in_bytes = run.in_bytes;
      not_short = run.not_short;
      nonempty = run.nonempty;
      active = run.active;
      ends = run.ends;
    },
    λ o p q. elim (Bool-cases (ltb o j)) [
      | inl early ↦ before o p (ground arith)
      | inr late ↦ first o (ground arith) q
    ],
  )

  module _ (i : ℕ) where
    abbrev start : ℕ
    start = run_start bytes i

    abbrev end_at : ℕ
    end_at = run_end bytes start

    quiet-IsSpan : IsSpan is_quiet bytes i start
    quiet-IsSpan = span_end-IsSpan is_quiet bytes (length bytes) i (omega arith)

    active-IsSpan : IsSpan is_active bytes start end_at
    active-IsSpan = span_end-IsSpan is_active bytes (length bytes) start (omega arith)

    before_start : (o : ℕ) → i ≤ o → o < start → Window o
    before_start o p q =
        let s = (quiet-IsSpan.inside o p q).1 in (o, omega arith, omega arith, ground arith)

    active_start : start < length bytes → is_active (byte bytes start) ≡ true
    active_start lt = elim quiet-IsSpan.stops [
      | inl out ↦ absurd (omega arith)
      | inr on ↦ ground arith
    ]

    nonempty_run : start < length bytes → start < end_at
    nonempty_run lt = elim (Bool-cases (ltb start end_at)) [
      | inl less ↦ ground arith
      | inr none_left ↦
          let same : end_at ≡ start = ground (arith, active-IsSpan.forward) in
          let on = active_start lt in
          elim active-IsSpan.stops [
            | inl out ↦ absurd (omega arith)
            | inr off ↦
                absurd (let off' : is_active (byte bytes start) ≡ false = rw same at off in cc)
          ]
    ]

    run_end_in : start < length bytes → end_at ≤ length bytes
    run_end_in lt = elim (Bool-cases (ltb (length bytes) end_at)) [
      | inl over ↦
          let last = (active-IsSpan.inside (length bytes) (omega arith) (ground arith)).0 in
          absurd (omega arith)
      | inr within ↦ ground arith
    ]

    run-IsFound :
        start < length bytes
        → min_len ≤ end_at - start
        → IsFound bytes i min_len (some (start, end_at - start))
    run-IsFound lt enough =
        let more = nonempty_run lt in
        let last = run_end_in lt in
        let meet : start + (end_at - start) ≡ end_at = omega arith in
        (
          record {
            from_start = quiet-IsSpan.forward;
            in_bytes = omega arith;
            not_short = enough;
            nonempty = omega arith;
            active = λ u p q. (active-IsSpan.inside u p (omega arith)).1;
            ends = elim active-IsSpan.stops [
              | inl out ↦ inl (omega arith)
              | inr off ↦ inr (rw meet off)
            ];
          },
          before_start,
        )

    short_run :
        end_at - start < min_len → end_at < length bytes → (o : ℕ) → i ≤ o → o < end_at → Window o
    short_run short within o p q = elim (Bool-cases (ltb o start)) [
      | inl early ↦ before_start o p (ground arith)
      | inr late ↦ elim active-IsSpan.stops [
        | inl out ↦ absurd (omega arith)
        | inr off ↦ (end_at, omega arith, ground arith, off)
      ]
    ]

    no_run_left :
        (length bytes ≤ start) ⊎ ((end_at - start < min_len) × (length bytes ≤ end_at))
        → HasNoRun bytes i min_len
    no_run_left (inl out) o p q = before_start o p (omega arith)
    no_run_left (inr (short, out)) o p q = elim (Bool-cases (ltb o start)) [
      | inl early ↦ before_start o p (ground arith)
      | inr late ↦ absurd (ground arith)
    ]

  find_loop-IsFound :
      (fuel i : ℕ)
      → length bytes < i + fuel
      → IsFound bytes i min_len (find_loop bytes min_len fuel i)
  unfolding find_loop
  find_loop-IsFound zero i enough = λ o p q. absurd (omega arith)
  find_loop-IsFound (suc fuel) i enough = elim (Bool-cases (leb (length bytes) (start i))) [
    | inl out ↦ rw out (no_run_left i (inl (ground arith)))
    | inr within ↦ elim (Bool-cases (leb min_len (end_at i - start i))) [
      | inl long ↦ rw (within, long) (run-IsFound i (ground arith) (ground arith))
      | inr short ↦ elim (Bool-cases (leb (length bytes) (end_at i))) [
        | inl done ↦ rw (within, short, done) (no_run_left i (inr (ground arith, ground arith)))
        | inr more ↦
            let moved = nonempty_run i (ground arith) in
            let from = (quiet-IsSpan i).forward in
            rw (within, short, more)
              (widen i (end_at i) (find_loop bytes min_len fuel (end_at i)) (omega arith)
                (short_run i (ground arith) (ground arith))
                (find_loop-IsFound fuel (end_at i) (omega arith)))
      ]
    ]
  ]

  -- For a positive minimal length, `find_active_run_from` gives the first run from `i` on that is
  -- long enough, as long as it goes, and before it no window of that length is active throughout. If
  -- it gives none then there is no such window at all.
  pub find_active_run_from-IsFound :
      (i : ℕ) → IsFound bytes i min_len (find_active_run_from bytes i min_len)
  unfolding find_active_run_from
  find_active_run_from-IsFound i = find_loop-IsFound (suc (length bytes)) i (omega arith)
