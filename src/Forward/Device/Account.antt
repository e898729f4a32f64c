-- ===== src/Forward/Device/Account.antt =====
-- Every frame that `egress` of src/forward.rs takes is sent or counted as a drop.
use pico_10base_t_rs.Prelude.{
  ℕ, ◌≡◌, ◌⊎◌, inl, inr, ap, ◌∙◌, true, false, Option, none, some, List, wrapping_add32, Bool-cases,
  if-true, if-false,
}
use pico_10base_t_rs.Conntrack.{outbound}
use pico_10base_t_rs.Forward.Napt.{L4, parse_l4}
use pico_10base_t_rs.Forward.Device.Interfaces.{Host}
use pico_10base_t_rs.Forward.Device.Stats.{FwdStats, IsSplit}
use pico_10base_t_rs.Forward.Device.{Router, translate, napt_out, tuple_of}

-- One frame more is sent, or one more is dropped, and nothing is diverted.
pub record IsCounted (s s' : FwdStats) : Type 0 where
  pub once :
      ((s'.fwd_sent ≡ wrapping_add32 s.fwd_sent 1) × (s'.fwd_drop ≡ s.fwd_drop))
      ⊎ ((s'.fwd_sent ≡ s.fwd_sent) × (s'.fwd_drop ≡ wrapping_add32 s.fwd_drop 1))
  pub same_l2w : s'.fwd_l2w ≡ s.fwd_l2w
  pub same_w2l : s'.fwd_w2l ≡ s.fwd_w2l
  pub split : IsSplit s → IsSplit s'

module _ (h : Host) where
  -- The step returns, and counts its frame once.
  abbrev pub Counts : FwdStats → Option (Router h) → Type 0
  Counts s out = (r' : Router h) × (out ≡ some r') × IsCounted s r'.stats

  abbrev by_header : List ℕ → ℕ → Router h → Option L4 → Option (List ℕ) × Router h
  by_header frame now r parsed = elim parsed [
    | none ↦ (some frame, r)
    | some l4 ↦ translate h frame l4 r (outbound (tuple_of frame l4) l4.tcp_flags now r.ct)
  ]

  pub napt_out-plain :
      (frame : List ℕ) (now : ℕ) (r : Router h)
      → (r.nat ≡ false) ⊎ (parse_l4 frame ≡ none)
      → napt_out h frame now r ≡ (some frame, r)
  unfolding napt_out
  napt_out-plain frame now r (inl off) = if-false r.nat _ _ off
  napt_out-plain frame now r (inr e) = elim (Bool-cases r.nat) [
    | inl on ↦ if-true r.nat _ _ on ∙ ap (by_header frame now r) e
    | inr off ↦ if-false r.nat _ _ off
  ]

  pub napt_out-l4 :
      (frame : List ℕ) (now : ℕ) (r : Router h) (l4 : L4)
      → r.nat ≡ true
      → parse_l4 frame ≡ some l4
      → napt_out h frame now r
        ≡ translate h frame l4 r (outbound (tuple_of frame l4) l4.tcp_flags now r.ct)
  unfolding napt_out
  napt_out-l4 frame now r l4 on e = if-true r.nat _ _ on ∙ ap (by_header frame now r) e
