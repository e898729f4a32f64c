-- ===== src/EthMac/Inbox.antt =====
-- The state that the cores share in src/eth_mac.rs, RX_SHARED: the inbox and the statistics. Each
-- function is one critical section of `with_rx_shared`.
use pico_10base_t_rs.Prelude.{
  ℕ, Bool, false, List, [], ◌∷◌, ◌++◌, ltb, ◌==◌, if◌then◌else◌, length, take, drop, replicate, u8,
  wrapping_add32, Option, none, some,
}

abbrev pub inbox_slots : ℕ
inbox_slots = 4

abbrev pub frame_snap_bytes : ℕ
frame_snap_bytes = 128

pub record EthRxStats : Type 0 where
  pub frames_decoded : ℕ
  pub fcs_ok : ℕ
  pub fcs_fail : ℕ
  pub frames_filtered : ℕ
  pub inbox_dropped : ℕ
  pub inbox_high_water : ℕ
  pub carry_capped : ℕ
  pub last_frame_len : ℕ
  pub last_frame_was_ok : Bool
  pub last_frame_snapshot : List ℕ
  pub last_frame_snapshot_len : ℕ

abbrev pub new_stats : EthRxStats
new_stats = record {
  frames_decoded = 0;
  fcs_ok = 0;
  fcs_fail = 0;
  frames_filtered = 0;
  inbox_dropped = 0;
  inbox_high_water = 0;
  carry_capped = 0;
  last_frame_len = 0;
  last_frame_was_ok = false;
  last_frame_snapshot = replicate frame_snap_bytes 0;
  last_frame_snapshot_len = 0;
}

pub record RxShared : Type 0 where
  pub inbox : List (List ℕ)
  pub stats : EthRxStats

pub record StatsDelta : Type 0 where
  pub decoded : ℕ
  pub ok : ℕ
  pub fail : ℕ
  pub filtered : ℕ
  pub carry : ℕ
  pub last_snap : List ℕ
  pub last_snap_len : ℕ
  pub last_len : ℕ
  pub last_ok : Bool
  pub have_last : Bool

abbrev pub new_delta : StatsDelta
new_delta = record {
  decoded = 0;
  ok = 0;
  fail = 0;
  filtered = 0;
  carry = 0;
  last_snap = replicate frame_snap_bytes 0;
  last_snap_len = 0;
  last_len = 0;
  last_ok = false;
  have_last = false;
}

unfoldable pub snapshot_rx_stats : RxShared → EthRxStats × RxShared
snapshot_rx_stats s = (s.stats, record s { stats = new_stats })

-- A full inbox drops its oldest frame.
unfoldable pub make_room : RxShared → RxShared
make_room s =
    if length s.inbox == inbox_slots
    then record s {
      inbox = drop 1 s.inbox;
      stats = record (s.stats) { inbox_dropped = wrapping_add32 s.stats.inbox_dropped 1 };
    }
    else s

unfoldable pub push_back : List ℕ → RxShared → RxShared
push_back frame s =
    let inbox' = s.inbox ++ (frame ∷ []) in
    let depth = u8 (length inbox') in
    record {
      inbox = inbox';
      stats =
          if ltb s.stats.inbox_high_water depth
          then record (s.stats) { inbox_high_water = depth }
          else s.stats;
    }

unfoldable pub publish : List ℕ → RxShared → RxShared
publish frame s = push_back frame (make_room s)

-- The pop of `receive` on core 0.
unfoldable pub pop_front : RxShared → Option (List ℕ) × RxShared
pop_front s = elim s.inbox [
  | [] ↦ (none, s)
  | frame ∷ rest ↦ (some frame, record s { inbox = rest })
]

unfoldable pub merge_last : StatsDelta → EthRxStats → EthRxStats
merge_last acc s =
    if acc.have_last
    then record s {
      last_frame_snapshot =
          take acc.last_snap_len acc.last_snap ++ drop acc.last_snap_len s.last_frame_snapshot;
      last_frame_snapshot_len = acc.last_snap_len;
      last_frame_len = acc.last_len;
      last_frame_was_ok = acc.last_ok;
    }
    else s

unfoldable pub merge_stats : StatsDelta → RxShared → RxShared
merge_stats acc s = record s {
  stats = merge_last acc (record (s.stats) {
    frames_decoded = wrapping_add32 s.stats.frames_decoded acc.decoded;
    fcs_ok = wrapping_add32 s.stats.fcs_ok acc.ok;
    fcs_fail = wrapping_add32 s.stats.fcs_fail acc.fail;
    frames_filtered = wrapping_add32 s.stats.frames_filtered acc.filtered;
    carry_capped = wrapping_add32 s.stats.carry_capped acc.carry;
  });
}
