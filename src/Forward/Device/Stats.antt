-- ===== src/Forward/Device/Stats.antt =====
-- The telemetry counters of src/forward.rs. They wrap at 32 bits.
use pico_10base_t_rs.Prelude.{ℕ, ◌+◌, ◌%◌, ◌^◌, ◌≡◌, max, u32, wrapping_add32, arith}
use pico_10base_t_rs.Forward.Config.{Iface, lan, wan}

pub record FwdStats : Type 0 where
  pub fwd_l2w : ℕ
  pub fwd_w2l : ℕ
  pub fwd_sent : ℕ
  pub fwd_drop : ℕ
  pub bytes_to_wan : ℕ
  pub bytes_to_lan : ℕ
  pub drop_qfull : ℕ
  pub drop_nonh : ℕ
  pub drop_nat : ℕ
  pub drop_txbusy : ℕ
  pub drop_other : ℕ
  pub qhwm_l2w : ℕ
  pub qhwm_w2l : ℕ

-- The counter that a call of `count_drop` names.
pub data DropReason : Type 0 where
  qfull nonh nat_full txbusy other : DropReason

abbrev bump_reason : DropReason → FwdStats → FwdStats
bump_reason qfull s = record s { drop_qfull = wrapping_add32 s.drop_qfull 1 }
bump_reason nonh s = record s { drop_nonh = wrapping_add32 s.drop_nonh 1 }
bump_reason nat_full s = record s { drop_nat = wrapping_add32 s.drop_nat 1 }
bump_reason txbusy s = record s { drop_txbusy = wrapping_add32 s.drop_txbusy 1 }
bump_reason other s = record s { drop_other = wrapping_add32 s.drop_other 1 }

unfoldable pub count_drop : DropReason → FwdStats → FwdStats
count_drop reason s = bump_reason reason (record s { fwd_drop = wrapping_add32 s.fwd_drop 1 })

abbrev bump_bytes : Iface → ℕ → FwdStats → FwdStats
bump_bytes wan len s = record s { bytes_to_wan = wrapping_add32 s.bytes_to_wan (u32 len) }
bump_bytes lan len s = record s { bytes_to_lan = wrapping_add32 s.bytes_to_lan (u32 len) }

-- The counts of a frame sent.
unfoldable pub count_sent : Iface → ℕ → FwdStats → FwdStats
count_sent i len s = bump_bytes i len (record s { fwd_sent = wrapping_add32 s.fwd_sent 1 })

-- The counts of a frame that went to the channel, which then holds `depth`.
unfoldable pub count_diverted : Iface → ℕ → FwdStats → FwdStats
count_diverted lan depth s = record s {
  fwd_l2w = wrapping_add32 s.fwd_l2w 1;
  qhwm_l2w = max s.qhwm_l2w (u32 depth);
}
count_diverted wan depth s = record s {
  fwd_w2l = wrapping_add32 s.fwd_w2l 1;
  qhwm_w2l = max s.qhwm_w2l (u32 depth);
}

abbrev pub no_stats : FwdStats
no_stats = record {
  fwd_l2w = 0;
  fwd_w2l = 0;
  fwd_sent = 0;
  fwd_drop = 0;
  bytes_to_wan = 0;
  bytes_to_lan = 0;
  drop_qfull = 0;
  drop_nonh = 0;
  drop_nat = 0;
  drop_txbusy = 0;
  drop_other = 0;
  qhwm_l2w = 0;
  qhwm_w2l = 0;
}

-- FWD_DROP is the sum of its reasons, modulo the wrap.
pub record IsSplit (s : FwdStats) : Type 0 where
  pub total :
      s.fwd_drop ≡ (s.drop_qfull + s.drop_nonh + s.drop_nat + s.drop_txbusy + s.drop_other) % 2 ^ 32

pub count_drop-IsSplit :
    (reason : DropReason) (s : FwdStats) → IsSplit s → IsSplit (count_drop reason s)
unfolding count_drop
count_drop-IsSplit qfull s h = omega arith
count_drop-IsSplit nonh s h = omega arith
count_drop-IsSplit nat_full s h = omega arith
count_drop-IsSplit txbusy s h = omega arith
count_drop-IsSplit other s h = omega arith

pub count_sent-IsSplit :
    (i : Iface) (len : ℕ) (s : FwdStats) → IsSplit s → IsSplit (count_sent i len s)
unfolding count_sent
count_sent-IsSplit lan len s h = omega arith
count_sent-IsSplit wan len s h = omega arith

pub count_diverted-IsSplit :
    (i : Iface) (depth : ℕ) (s : FwdStats) → IsSplit s → IsSplit (count_diverted i depth s)
unfolding count_diverted
count_diverted-IsSplit lan depth s h = omega arith
count_diverted-IsSplit wan depth s h = omega arith
