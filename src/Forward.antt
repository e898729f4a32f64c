-- ===== src/Forward.antt =====
-- L3 forwarding with NAPT, src/forward.rs: the neighbor tables, the classification of frames, the
-- rewrite of addresses and the forwarding device.
pub mod Neighbor
pub mod Config
pub mod Napt
pub mod Device
mod Tests
