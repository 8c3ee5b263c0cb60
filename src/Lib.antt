-- ===== src/Lib.antt =====
-- A model of the core of resd.dpdk_tcp, a user-space TCP stack over DPDK, and its correctness.
--
-- The stack is the crate crates/dpdk-net-core; all source paths are under its src directory. A frame
-- goes through the decoders of l2.rs, l3_ip.rs and icmp.rs; a TCP segment goes through
-- tcp_input.rs, which finds its connection in the table of flow_table.rs and calls the handler of the
-- connection's state. A connection (tcp_conn.rs) holds an RTT estimator (tcp_rtt.rs) with its
-- histogram, a queue of segments in flight (tcp_retrans.rs) with the SACK scoreboard (tcp_sack.rs) and
-- RACK's state (tcp_rack.rs), and an out-of-order queue (tcp_reassembly.rs). Its timers live in the wheel
-- of tcp_timer_wheel.rs.
--
-- The files, each with its children:
--   Base          shared names, lists over the native numbers, Rust's word arithmetic
--   Seq           tcp_seq.rs: seq_lt, seq_le, seq_gt, seq_ge, in_window
--   Rtt           tcp_rtt.rs: RttEstimator::{new, sample, apply_backoff}
--   Tlp           tcp_tlp.rs: pto_us, select_probe
--   Histogram     rtt_histogram.rs: select_bucket, update
--   Options       tcp_options.rs: TcpOpts, encode (Encode), parse_options (Parse)
--   Sack          tcp_sack.rs: SackScoreboard::{insert, is_sacked, prune_below}
--   Retrans       tcp_retrans.rs: SendRetrans::{push_after_tx, prune_below, prune_below_into_mbufs,
--                 mark_sacked, flight_size, oldest_unacked_seq}
--   Rack          tcp_rack.rs: RackState, compute_reo_wnd_us, rack_mark_losses_on_rto
--   Reassembly    tcp_reassembly.rs: ReorderQueue::{insert (Insert), drain_contiguous_into (Drain), clear}
--   Net           l2.rs (Ethernet), l3_ip.rs (Checksum, Ipv4), icmp.rs (Icmp), parse_segment of
--                 tcp_input.rs (Segment)
--   TimerWheel    tcp_timer_wheel.rs: TimerWheel::{add, cancel, advance, cascade}
--   FlowTable     flow_table.rs: FlowTable::{insert, get, lookup_by_tuple, remove, iter_handles, clear_all}
--   Buffers       tcp_conn.rs: SendQueue (Send), RecvQueue (Recv)
--   Conn          tcp_state.rs and tcp_conn.rs: TcpConn, new_client and new_passive (Fresh), the hooks of
--                 tail loss probes (Probes)
--   Input         tcp_input.rs: handle_syn_sent, handle_syn_received (Handshake), handle_close_path
--                 (Closing), and handle_established with dispatch (Established), whose parts are Acking,
--                 Losses and Deliver
--   Output        tcp_output.rs: build_segment, build_retrans_header
--   Engine        engine.rs: timer identifiers, ticks, histogram edges, the options of a SYN, the source
--                 address; Acks: build_ack_outcome, emit_ack; Send: send_bytes, arm_tlp_pto;
--                 Resets: emit_rst, emit_rst_for_syn_sent_bad_ack, send_rst_unmatched
--   Events        tcp_events.rs: EventQueue::{with_cap, push, pop}
--   Examples      the theorems at concrete inputs
--
-- A method that changes its object is a function that returns the new one. Words of 8 to 64 bits are
-- native numbers below their modulus; where the source wraps or saturates, so does the definition, and
-- an unchecked `+` on u32 wraps as in a release build. An mbuf is its address, and reference
-- counts are a function that the operations take and return. Hash maps are functions of their key.
--
-- Loops are structural recursion on the list that they walk. Three run on fuel: `send_loop`, below, `Sack.collapse` on the
-- number of blocks, since each round removes one, and the checksum's final loop on two rounds, which is
-- enough for every 32-bit sum. `TimerWheel.cascade` recurses on the levels left, and `advance` on the
-- ticks that the source's own bound allows.
--
-- `handle_established` walks the chain of mbufs behind a segment through DPDK; what the walk reads is an
-- argument of the model, the list of the links with their lengths. The clock is read once per segment.
--
-- `emit_ack` and the resets hand their frames to the device: whether that takes it is an argument. The
-- loop of `send_bytes` runs on the number of bytes to send, since each round but the last sends one at
-- least; the mbufs that the pool gives it, and the clock, are an argument for each round.
--
-- Not modelled: the rest of engine.rs, that is its poll loop, its timer handlers and its device calls,
-- iss.rs with siphash24.rs, the checksum offload of the NIC on both paths, most counters,
-- memory pools, fault injection, the C interface and the tools. The hasher of the standard library, whose
-- result the flow table does not use, is left out.
pub mod Base
pub mod Seq
pub mod Rtt
pub mod Tlp
pub mod Histogram
pub mod Options
pub mod Output
pub mod Sack
pub mod Retrans
pub mod Rack
pub mod Reassembly
pub mod Net
pub mod TimerWheel
pub mod FlowTable
pub mod Buffers
pub mod Conn
pub mod Engine
pub mod Events
pub mod Input
pub mod Examples
