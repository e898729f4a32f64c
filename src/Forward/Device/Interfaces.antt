-- ===== src/Forward/Device/Interfaces.antt =====
-- What src/forward.rs calls and does not implement.
use pico_10base_t_rs.Prelude.{ℕ, Bool, Option, List}

-- A phy of smoltcp, for frames as bytes. `receive` gives the bytes that the receive token holds;
-- `transmit` says whether there is a transmit token, and `consume` sends by it.
pub record Phy : Type 1 where
  pub State : Type 0
  pub receive : ℕ → State → Option (List ℕ) × State
  pub transmit : ℕ → State → Bool × State
  pub consume : List ℕ → State → State

-- A channel of embassy: `try_send` is `none` when it refuses.
pub record Channel : Type 1 where
  pub Chan : Type 0
  pub try_send : List ℕ → Chan → Option Chan
  pub len : Chan → ℕ

-- `Ipv4Packet` of smoltcp, on the bytes behind the L2 header.
pub record Ipv4Wire : Type 0 where
  pub new_checked : List ℕ → Bool
  pub hop_limit : List ℕ → ℕ
  pub set_hop_limit : ℕ → List ℕ → List ℕ
  pub fill_checksum : List ℕ → List ℕ
  pub dst_addr : List ℕ → ℕ

-- All of it, with smoltcp's subnet type and the two things that are asked of a subnet.
pub record Host : Type 1 where
  pub Cidr : Type 0
  pub contains_addr : Cidr → ℕ → Bool
  pub address : Cidr → ℕ
  pub wire : Ipv4Wire
  pub phy : Phy
  pub channel : Channel
