-- ===== src/EthRx.antt =====
-- The receiver of src/eth_rx.rs from the samples of the PIO on: the stitching of the DMA halves to
-- images (Poll), the runs in an image (Runs), the peek at a destination (Peek), and the length and check of a frame (Frames). The PIO and
-- DMA setup of `EthRx::new` is access to hardware; a poll takes the finished half, if any.
pub mod Poll
pub mod Runs
pub mod Peek
pub mod Frames
mod Tests
