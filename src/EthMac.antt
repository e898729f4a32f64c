-- ===== src/EthMac.antt =====
-- The MAC of src/eth_mac.rs between the two cores: the ring of sampled images and the inbox.
pub mod Images
pub mod Inbox
pub mod Scan
pub mod Engine
pub mod Token
pub mod Phy
mod Tests
