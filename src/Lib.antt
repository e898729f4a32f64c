-- ===== src/Lib.antt =====
-- The verification library of pico-10base-t-rs, a router firmware for the RP2350 that bridges a
-- Wi-Fi LAN to a software 10BASE-T WAN port.
--
-- The program's parts and the files that model them:
--   * src/conntrack.rs, the incremental checksum (add1c, checksum_incr, addr_words): Checksum.
--   * src/conntrack.rs, the NAPT connection table (Conntrack with outbound, inbound, alloc_id,
--     pick_slot and reap, and the NAT counters): Conntrack.
--   * src/forward.rs, the neighbor tables (NeighborTable): Forward.Neighbor; the classification of
--     frames and what is learnt from them (classify, learn, nexthop): Forward.Config; header parse and
--     the rewrite of addresses (parse_l4, napt_rewrite_src, napt_rewrite_dst): Forward.Napt; the
--     wrapper around a phy (ForwardingDevice with egress, classify_frame and receive, and the FWD
--     counters): Forward.Device.
--   * src/eth_mac.rs, the ring of sampled images with the interrupt and the thread of core 1 as steps:
--     EthMac.Images; the shared inbox and statistics: EthMac.Inbox; scan_runs: EthMac.Scan; install_rx,
--     DMA_IRQ_0 and drain_rx_images over all of these: EthMac.Engine; the transmit token: EthMac.Token;
--     the phy (receive, transmit): EthMac.Phy.
--   * src/eth_rx.rs, poll_into: EthRx.Poll; find_active_run_from: EthRx.Runs; peek_dst_mac: EthRx.Peek;
--     derive_frame_len and verify_fcs: EthRx.Frames.
--   * src/eth_rx_dpll.rs, the edge-track decoder: EthRxDpll, with a decoder of one loop and no unchecked
--     reads in EthRxDpll.Reference and the lines that it can follow in EthRxDpll.Line. EthMac.Scan.Edges
--     puts it in place of the decoder that the scan takes.
--   * src/manchester.rs, the table: Manchester.
--   * src/eth_tx.rs, carrier sense and back-off: EthTx; the senders: EthTx.Send; the UDP broadcasts:
--     EthTx.Udp.
--   * src/crc.rs: Crc.
--   * src/dhcp_server.rs, the lease pool, the replies and the loop of `poll`: DhcpServer.
--   * src/multicore_riscv.rs, the handshake that starts core 1: Launch.
--   * src/wan.rs, the lease of the WAN interface with the ping and DNS probes: Wan.
-- On the 10BASE-T port the interrupt takes halves of samples, stitches them to images and puts these
-- in the ring; the thread scans them for frames and publishes those that are right to the inbox.
-- A frame from a LAN client goes in at `receive` of the LAN device, through a channel, and out by
-- `egress` of the WAN device, which asks the connection table for an id and rewrites the source. The
-- peer's answer goes in at `receive` of the WAN device, where `classify_frame` asks the table again
-- and rewrites the destination, and out by `egress` of the LAN device.
--
-- How the code is represented:
--   * A function keeps its Rust name. A method that changes its object takes the old state as its last
--     argument and returns the new one, with its result in front. Loops are recursion on a list or on
--     the rounds left, and an early return ends the recursion.
--   * Numbers are naturals with the wrap of their width written out (Prelude.Words). An IPv4 address
--     is a number below 2^32, the first octet the most significant, and a MAC a list of bytes. A frame
--     is a list of bytes; a read behind a length test of the code has the default 0, which is not seen.
--   * The statics of src/forward.rs (tables, counters, channel) are fields of one state beside those
--     of the device. They are touched in critical sections or by one task only, so no interleaving
--     inside an operation is lost.
--   * Time is the value passed in as `now_ms` or as smoltcp's Instant, in milliseconds.
--   * `receive` loops until the inner phy is empty. Its model has fuel, and fuel above the number of
--     frames pending is enough: the theorem on `receive_loop` shows it for a phy that is a queue.
--   * `find_active_run_from` and `scan_runs` have one round more than the bytes of the image, and each
--     round passes at least one byte; the theorems on them show that this is enough.
--   * The edge-track decoder can read outside its buffer, which panics or is undefined: such a read is a
--     fault of Prelude.Checked, as is a slice of the UDP builder past its buffer. The panics of the slice
--     of `egress` on a frame of fewer than 14 bytes, and of `poll_into` on a slot that is too short, are
--     `none`; the theorems on both show when there is none. A round of the decoder
--     moves its edge by five samples or more, so one round for each sample is enough fuel.
--   * The table of edge offsets holds -1, 0 and 1 as 0, 1 and 2.
--   * What a sender writes to the FIFO is a list of words: the code tries a write again until the FIFO
--     takes it. The readings of the carrier flag are a function of their number; a wait has 200000
--     rounds, as the code, and the back-off ten attempts.
--   * The one's-complement sum of a header folds its carries three times, enough for any 32-bit sum.
--   * The handshake of Launch has 102 rounds: 17 failures, and at most six commands up to each. A write
--     to the FIFO between the cores can spin for ever on a full FIFO: such a run ends as `blocked`.
--   * `drain_rx_images` has as fuel one round more than the images that wait, and `ping_drain` one more
--     than the packets in the backlog.
--   * The carry of `EthRx` is kept as the bytes in use, and a poll is given the half that the DMA has
--     finished, if any.
--
-- Parameters: the inner phy, the channel of embassy, the IPv4 header and the subnet type of smoltcp
-- (Forward.Device.Interfaces). Only the phy has hypotheses, and only where the end of the loop needs
-- them. EthMac takes the receiver and the frame decoder as interfaces; its receiver always returns, as
-- `poll_into` does on slots of STITCH_BUF_BYTES. DhcpServer takes the codec and the UDP socket of
-- smoltcp, and Launch the FIFO between the cores. Wan takes the interface and the sockets of
-- smoltcp (Wan.Net), with what their calls change and leave as hypotheses (Wan.NetLaws).
--
-- Not modelled: access to hardware (PIO, DMA, FIFO, cycle counters, the reset of core 1), the tasks of
-- src/main.rs and src/wireless.rs, the text output of src/wan.rs, and the open-loop decoder of
-- src/eth_rx.rs, which only a feature puts in place of the edge-track decoder.
pub mod Checksum
pub mod Conntrack
pub mod Crc
pub mod DhcpServer
pub mod EthMac
pub mod EthRx
pub mod EthRxDpll
pub mod EthTx
pub mod Forward
pub mod Launch
pub mod Manchester
pub mod Prelude
pub mod Wan
