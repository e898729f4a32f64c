-- ===== src/Forward/Device/Skim.antt =====
-- The loop of `receive` in src/forward.rs: it ends, and no frame that it takes off the phy is lost
-- without a count.
use pico_10base_t_rs.Prelude.{
  ℕ, zero, suc, ◌+◌, ◌%◌, ◌^◌, ◌<◌, ◌≡◌, ◌≢◌, inl, inr, refl, sym, ap, ◌∙◌, subst, Option, none,
  some, List, arith, Bool-cases, Option-cases, take,
}
use pico_10base_t_rs.Conntrack.{Nat}
use pico_10base_t_rs.Forward.Config.{Class, local, transit, Iface, lan, wan, learn}
use pico_10base_t_rs.Forward.Napt.{L4, parse_l4}
use pico_10base_t_rs.Forward.Device.Interfaces.{Host}
use pico_10base_t_rs.Forward.Device.Stats.{
  FwdStats, DropReason, qfull, other, count_drop, count_diverted, IsSplit, count_drop-IsSplit,
  count_diverted-IsSplit,
}
use pico_10base_t_rs.Forward.Device.{
  frame_cap, Router, Skimmed, found, empty, stuck, dropped, restore, classify_frame, take_in,
  divert, decide, receive_loop,
}
use pico_10base_t_rs.Forward.Device.Transit.{
  is_for_nat-IsForNat, classify_frame-plain, classify_frame-no_header, classify_frame-nat,
}
use pico_10base_t_rs.Forward.Device.{is_for_nat}

-- The frames accounted for: diverted or dropped.
abbrev pub tally : FwdStats → ℕ
tally s = s.fwd_l2w + s.fwd_w2l + s.fwd_drop

count_drop-tally :
    (reason : DropReason) (s : FwdStats)
    → (tally (count_drop reason s) % 2 ^ 32 ≡ (tally s + 1) % 2 ^ 32)
      × ((count_drop reason s).fwd_sent ≡ s.fwd_sent)
unfolding count_drop
count_drop-tally reason s = ground arith

count_diverted-tally :
    (i : Iface) (depth : ℕ) (s : FwdStats)
    → (tally (count_diverted i depth s) % 2 ^ 32 ≡ (tally s + 1) % 2 ^ 32)
      × ((count_diverted i depth s).fwd_sent ≡ s.fwd_sent)
unfolding count_diverted
count_diverted-tally lan depth s = (omega arith, refl)
count_diverted-tally wan depth s = (omega arith, refl)

-- A phy that hands out the frames pending, one for each call, and `none` only when there is none.
pub record IsQueue (h : Host) (pending : h.phy.State → ℕ) : Type 0 where
  pub takes_one :
      (ts : ℕ) (s : h.phy.State) (b : List ℕ)
      → (h.phy.receive ts s).0 ≡ some b
      → pending s ≡ suc (pending (h.phy.receive ts s).1)
  pub ends_empty :
      (ts : ℕ) (s : h.phy.State)
      → (h.phy.receive ts s).0 ≡ none
      → (pending s ≡ 0) × (pending (h.phy.receive ts s).1 ≡ 0)

module _ (h : Host) where
  -- Two states that differ at most in what `classify_frame` and `learn` may change.
  record IsSameFor (r r' : Router h) : Type 0 where
    same_inner : r'.inner ≡ r.inner
    same_stats : r'.stats ≡ r.stats

  restore-IsSameFor :
      (frame : List ℕ) (l4 : L4) (r : Router h) (out : Option (ℕ × ℕ) × Nat)
      → IsSameFor r (restore h frame l4 r out).2
  unfolding restore
  restore-IsSameFor frame l4 r (some p, ct') = record { same_inner = refl; same_stats = refl }
  restore-IsSameFor frame l4 r (none, ct') = record { same_inner = refl; same_stats = refl }

  classify_frame-IsSameFor :
      (frame : List ℕ) (ts : ℕ) (r : Router h) → IsSameFor r (classify_frame h frame ts r).2
  classify_frame-IsSameFor frame ts r = elim (Bool-cases (is_for_nat h frame r)) [
    | inr plain ↦
        rw (classify_frame-plain h frame ts r plain)
          (record { same_inner = refl; same_stats = refl })
    | inl nat ↦ elim (Option-cases (parse_l4 frame)) [
      | inl none_found ↦
          rw (classify_frame-no_header h frame ts r nat none_found)
            (record { same_inner = refl; same_stats = refl })
      | inr (l4, e) ↦
          rw (classify_frame-nat h frame ts r l4 (is_for_nat-IsForNat h frame ts r nat) e)
            (restore-IsSameFor frame l4 r _)
    ]
  ]

  -- One frame is accounted for.
  record IsTallied (r r' : Router h) : Type 0 where
    inner_kept : r'.inner ≡ r.inner
    one_more : tally r'.stats % 2 ^ 32 ≡ (tally r.stats + 1) % 2 ^ 32
    none_sent : r'.stats.fwd_sent ≡ r.stats.fwd_sent
    split : IsSplit r.stats → IsSplit r'.stats

  dropped-IsTallied : (reason : DropReason) (r : Router h) → IsTallied r (dropped h reason r)
  unfolding dropped
  dropped-IsTallied reason r = record {
    inner_kept = refl;
    one_more = (count_drop-tally reason r.stats).0;
    none_sent = (count_drop-tally reason r.stats).1;
    split = count_drop-IsSplit reason r.stats;
  }

  divert-IsTallied : (frame : List ℕ) (r : Router h) → IsTallied r (divert h frame r)
  unfolding divert
  divert-IsTallied frame r = elim (Option-cases (h.channel.try_send frame r.queue)) [
    | inl full ↦ rw (full, divert) (dropped-IsTallied qfull r)
    | inr (q, e) ↦
        rw (e, divert)
          (record {
            inner_kept = refl;
            one_more = (count_diverted-tally r.cfg.iface _ r.stats).0;
            none_sent = (count_diverted-tally r.cfg.iface _ r.stats).1;
            split = count_diverted-IsSplit r.cfg.iface _ r.stats;
          })
  ]

abbrev pub found_count : Skimmed → ℕ
found_count (found frame) = 1
found_count _ = 0

-- The end of the loop from `r`: not for want of fuel; every frame taken off the phy is the one found
-- or is counted, none is sent, and an empty end leaves none pending.
pub record IsSkim (h : Host) (pending : h.phy.State → ℕ) (r : Router h) (out : Skimmed × Router h)
    : Type 0 where
  pub ends : out.0 ≢ stuck
  pub accounted :
      (tally out.1.stats + pending out.1.inner + found_count out.0) % 2 ^ 32
      ≡ (tally r.stats + pending r.inner) % 2 ^ 32
  pub none_sent : out.1.stats.fwd_sent ≡ r.stats.fwd_sent
  pub split : IsSplit r.stats → IsSplit out.1.stats
  pub drained : out.0 ≡ empty → pending out.1.inner ≡ 0

module _ (h : Host) (pending : h.phy.State → ℕ) (q : IsQueue h pending) (ts : ℕ) where
  abbrev taken : Router h → Router h
  taken r = record r { inner = (h.phy.receive ts r.inner).1 }

  loop-none :
      (fuel : ℕ) (r : Router h)
      → (h.phy.receive ts r.inner).0 ≡ none
      → receive_loop h (suc fuel) ts r ≡ (empty, taken r)
  unfolding receive_loop
  loop-none fuel r e = rw (e, receive_loop)

  loop-some :
      (fuel : ℕ) (r : Router h) (b : List ℕ)
      → (h.phy.receive ts r.inner).0 ≡ some b
      → receive_loop h (suc fuel) ts r
        ≡ decide h (receive_loop h fuel ts) (take_in h b ts (taken r))
  unfolding receive_loop
  loop-some fuel r b e = rw (e, receive_loop)

  take_in-IsSameFor : (b : List ℕ) (r : Router h) → IsSameFor h r (take_in h b ts r).2
  unfolding take_in
  take_in-IsSameFor b r =
      let s =
        classify_frame-IsSameFor h (take frame_cap b) ts
          (record r { neighs = learn h.contains_addr r.cfg (take frame_cap b) r.neighs }) in
      record { same_inner = s.same_inner; same_stats = s.same_stats }

  -- One frame off the phy is accounted for, and the rest of the loop goes on from there.
  after_tallied :
      (r s t : Router h) (b : List ℕ) (out : Skimmed × Router h)
      → (h.phy.receive ts r.inner).0 ≡ some b
      → IsSameFor h (taken r) s
      → IsTallied h s t
      → IsSkim h pending t out
      → IsSkim h pending r out
  after_tallied r s t b out e same tallied rest =
      let one = q.takes_one ts r.inner b e in
      let kept = tallied.inner_kept ∙ same.same_inner in
      let more = tallied.one_more in
      let stats = ap tally same.same_stats in
      let all = rest.accounted in
      let left = ap pending kept in
      record {
        ends = rest.ends;
        accounted = omega arith;
        none_sent = rest.none_sent ∙ tallied.none_sent ∙ ap (λ x. x.fwd_sent) same.same_stats;
        split = λ w. rest.split (tallied.split (subst IsSplit (sym same.same_stats) w));
        drained = rest.drained;
      }

  after_found :
      (r s : Router h) (frame b : List ℕ)
      → (h.phy.receive ts r.inner).0 ≡ some b
      → IsSameFor h (taken r) s
      → IsSkim h pending r (found frame, s)
  after_found r s frame b e same =
      let one = q.takes_one ts r.inner b e in
      let left = ap pending same.same_inner in
      let stats = ap tally same.same_stats in
      record {
        ends = λ x. cc;
        accounted = omega arith;
        none_sent = ap (λ x. x.fwd_sent) same.same_stats;
        split = λ w. subst IsSplit (sym same.same_stats) w;
        drained = λ x. cc;
      }

  fewer :
      (fuel : ℕ) (r s t : Router h) (b : List ℕ)
      → (h.phy.receive ts r.inner).0 ≡ some b
      → IsSameFor h (taken r) s
      → IsTallied h s t
      → pending r.inner < suc fuel
      → pending t.inner < fuel
  fewer fuel r s t b e same tallied room =
      let one = q.takes_one ts r.inner b e in
      let left = ap pending (tallied.inner_kept ∙ same.same_inner) in omega arith

  decide-IsSkim :
      (rest : Router h → Skimmed × Router h) (fuel : ℕ)
      → ((t : Router h) → pending t.inner < fuel → IsSkim h pending t (rest t))
      → (r : Router h) (b : List ℕ) (c : Class × List ℕ × Router h)
      → (h.phy.receive ts r.inner).0 ≡ some b
      → IsSameFor h (taken r) c.2
      → pending r.inner < suc fuel
      → IsSkim h pending r (decide h rest c)
  unfolding decide
  decide-IsSkim rest fuel ih r b (local, frame, s) e same room = after_found r s frame b e same
  decide-IsSkim rest fuel ih r b (transit, frame, s) e same room =
      let t = divert-IsTallied h frame s in
      after_tallied r s _ b _ e same t (ih _ (fewer fuel r s _ b e same t room))
  decide-IsSkim rest fuel ih r b (Class.drop, frame, s) e same room =
      let t = dropped-IsTallied h other s in
      after_tallied r s _ b _ e same t (ih _ (fewer fuel r s _ b e same t room))

  loop-empty :
      (r : Router h) → (h.phy.receive ts r.inner).0 ≡ none → IsSkim h pending r (empty, taken r)
  loop-empty r e =
      let (before, after) = q.ends_empty ts r.inner e in
      record {
        ends = λ x. cc;
        accounted = omega arith;
        none_sent = refl;
        split = λ w. w;
        drained = λ _. after;
      }

  -- On a phy that is a queue, with fuel above the number of frames pending, the loop of `receive`
  -- ends with a local frame or an empty phy, and not for want of fuel. Modulo 2^32, each frame that it
  -- takes off the phy and does not return is counted, as diverted or as a drop. It sends nothing, keeps
  -- FWD_DROP the sum of its reasons, and where it ends empty no frame is pending.
  pub receive_loop-IsSkim :
      (fuel : ℕ) (r : Router h)
      → pending r.inner < fuel
      → IsSkim h pending r (receive_loop h fuel ts r)
  receive_loop-IsSkim zero r room = omega arith
  receive_loop-IsSkim (suc fuel) r room = elim (Option-cases (h.phy.receive ts r.inner).0) [
    | inl e ↦ rw (loop-none fuel r e) (loop-empty r e)
    | inr (b, e) ↦ rw (loop-some fuel r b e) (
        decide-IsSkim (receive_loop h fuel ts) fuel (receive_loop-IsSkim fuel) r b _ e
          (take_in-IsSameFor b (taken r)) room)
  ]
