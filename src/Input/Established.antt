-- ===== src/Input/Established.antt =====
-- `handle_established`, and `dispatch` to the handlers.
pub mod Una
pub mod Delivered
pub mod Accounted
pub mod Receipt
pub mod Answer
pub mod Refused
pub mod Progress
use resd_dpdk_tcp.Base.{
  ℕ, Bool, true, false, not, ◌&&◌, ◌||◌, Option, none, some, List, [], ltb, ◌==◌, if◌then◌else◌,
  wrapping_add32, take,
}
use resd_dpdk_tcp.Options.{TcpOpts}
use resd_dpdk_tcp.Reassembly.{Refs}
use resd_dpdk_tcp.Net.{Result, ok, err, has_bit}
use resd_dpdk_tcp.Net.Segment.{ParsedSegment, tcp_rst, tcp_ack, tcp_urg}
use resd_dpdk_tcp.Conn.{
  TcpState, closed, listen, syn_sent, syn_received, established, fin_wait1, fin_wait2, close_wait,
  closing, last_ack, time_wait, TcpConn,
}
use resd_dpdk_tcp.Conn.Probes.{is_empty}
use resd_dpdk_tcp.Input.{no_tx, ack, Outcome, base, close_with}
use resd_dpdk_tcp.Input.Handshake.{handle_syn_sent, handle_syn_received}
use resd_dpdk_tcp.Input.Closing.{
  fin_of, is_in_window, options_of, check_timestamps, take_blocks, has_blocks, handle_close_path,
}
use resd_dpdk_tcp.Input.Acking.{Acked, process_ack}
use resd_dpdk_tcp.Input.Losses.{rack_pass}
use resd_dpdk_tcp.Input.Deliver.{Chain, Received, deliver}

-- The arguments besides the segment: the clock, the edges of the histogram, the send buffer's size,
-- and the mbufs of the segment.
pub record Context : Type 0 where
  pub now_ns : ℕ
  pub edges : List ℕ
  pub send_buffer_bytes : ℕ
  pub chain : Chain

-- The early returns up to the window check, each with the outcome, in the order of the source.
unfoldable pub early_drop : TcpConn → ParsedSegment → Option Outcome
early_drop c seg =
    let zero_window = seg.window == 0 in
    if has_bit seg.flags tcp_urg
    then some (record base { urgent_dropped = true })
    else if has_bit seg.flags tcp_rst
    then some (record (close_with no_tx) { rx_zero_window = zero_window })
    else if not (has_bit seg.flags tcp_ack)
    then some (record base { rx_zero_window = zero_window })
    else if not (is_in_window c seg)
    then some (record base { tx = ack; bad_seq = true; rx_zero_window = zero_window })
    else none

-- Options and PAWS: the outcome of a drop, or what the rest takes.
unfoldable pub check_options :
    TcpConn → ParsedSegment → ℕ → Result Outcome (TcpConn × Bool × TcpOpts)
check_options c seg now_ns = elim (options_of seg) [
  | none ↦ err (record base { bad_option = true })
  | some opts ↦ elim (check_timestamps c seg opts now_ns) [
    | err o ↦ err o
    | ok (c', expired) ↦ ok (c', expired, opts)
  ]
]

-- FIN processing and the ACK, behind the delivery.
abbrev pub takes_fin : ParsedSegment → Received → Bool
takes_fin seg r = fin_of seg && (wrapping_add32 seg.seq r.delivered == r.conn.rcv_nxt)

unfoldable pub finish : ParsedSegment → Received → TcpConn × Outcome
finish seg r =
    let fin = takes_fin seg r in
    let c = r.conn in
    (
      if fin then record c { rcv_nxt = wrapping_add32 c.rcv_nxt 1 } else c,
      record base {
        tx = if ltb 0 r.delivered || fin || not (is_empty seg.payload) then ack else no_tx;
        new_state = if fin then some close_wait else none;
        delivered = r.delivered;
        buf_full_drop = r.buf_full_drop;
        reassembly_queued_bytes = r.reassembly_queued_bytes;
        reassembly_hole_filled = r.reassembly_hole_filled;
        mbuf_ref_retained = r.mbuf_ref_retained;
        in_order_delivered_from_seg = r.in_order_delivered_from_seg;
      },
    )

-- What the SACK blocks left: the connection, and the three counts of the outcome.
abbrev pub take_sack : TcpConn → TcpOpts → ℕ → TcpConn × ℕ × ℕ
take_sack c opts now_ns =
    if has_blocks c opts
    then take_blocks (take opts.sack_block_count opts.sack_blocks) now_ns (c, 0, 0)
    else (c, 0, 0)

abbrev pub decoded_of : TcpConn → TcpOpts → ℕ
decoded_of c opts = if has_blocks c opts then opts.sack_block_count else 0

-- The handler behind a good acknowledgement.
unfoldable pub receive : TcpConn → Acked → ParsedSegment → Context → Refs → TcpConn × Outcome × Refs
unfolding finish
receive c acked seg ctx refs =
    let (racked, lost) = rack_pass c ctx.now_ns in
    let r = deliver racked seg ctx.chain refs in
    let (finished, o) = finish seg r in
    (
      finished,
      record o {
        dup_ack = acked.dup_ack;
        rx_zero_window = seg.window == 0;
        snd_una_advanced_to = acked.snd_una_advanced_to;
        rtt_sample_taken = acked.rtt_sample_taken;
        rack_lost_indexes = lost;
        writable_hysteresis_fired = acked.writable_hysteresis_fired;
      },
      r.refs,
    )

-- The handler behind its checks, from the SACK blocks on.
unfoldable pub accept_data :
    TcpConn → ParsedSegment → TcpOpts → Bool → Context → Refs → TcpConn × Outcome × Refs
unfolding receive
accept_data c seg opts expired ctx refs =
    let (marked, dsacks, spurious) = take_sack c opts ctx.now_ns in
    elim (process_ack marked seg opts ctx.now_ns ctx.edges ctx.send_buffer_bytes) [
      | none ↦ (
        marked,
        record base {
          tx = ack;
          bad_ack = true;
          rx_zero_window = seg.window == 0;
          sack_blocks_decoded = decoded_of c opts;
        },
        refs,
      )
      | some (updated, acked) ↦
          let (received, o, refs') = receive updated acked seg ctx refs in
          (
            received,
            record o {
              sack_blocks_decoded = decoded_of c opts;
              rx_dsack_count = dsacks;
              tx_tlp_spurious_count = spurious;
              ts_recent_expired = expired;
            },
            refs',
          )
    ]

unfoldable pub handle_established :
    TcpConn → ParsedSegment → Context → Refs → TcpConn × Outcome × Refs
unfolding early_drop check_options accept_data
handle_established c seg ctx refs = elim (early_drop c seg) [
  | some o ↦ (c, o, refs)
  | none ↦ elim (check_options c seg ctx.now_ns) [
    | err o ↦ (c, record o { rx_zero_window = seg.window == 0 }, refs)
    | ok (c', expired, opts) ↦ accept_data c' seg opts expired ctx refs
  ]
]

abbrev pub with_refs : Refs → TcpConn × Outcome → TcpConn × Outcome × Refs
with_refs refs (c, o) = (c, o, refs)

-- With the feature `test-server`.
unfoldable pub dispatch_on :
    TcpState → TcpConn → ParsedSegment → Context → Refs → TcpConn × Outcome × Refs
dispatch_on syn_sent c seg ctx refs = with_refs refs (handle_syn_sent c seg ctx.now_ns ctx.edges)
dispatch_on syn_received c seg ctx refs = with_refs refs (handle_syn_received c seg ctx.now_ns)
dispatch_on established c seg ctx refs = handle_established c seg ctx refs
dispatch_on fin_wait1 c seg ctx refs = with_refs refs (handle_close_path c seg ctx.now_ns)
dispatch_on fin_wait2 c seg ctx refs = with_refs refs (handle_close_path c seg ctx.now_ns)
dispatch_on closing c seg ctx refs = with_refs refs (handle_close_path c seg ctx.now_ns)
dispatch_on last_ack c seg ctx refs = with_refs refs (handle_close_path c seg ctx.now_ns)
dispatch_on close_wait c seg ctx refs = with_refs refs (handle_close_path c seg ctx.now_ns)
dispatch_on time_wait c seg ctx refs = with_refs refs (handle_close_path c seg ctx.now_ns)
dispatch_on closed c seg ctx refs = (c, base, refs)
dispatch_on listen c seg ctx refs = (c, base, refs)

unfoldable pub dispatch : TcpConn → ParsedSegment → Context → Refs → TcpConn × Outcome × Refs
unfolding dispatch_on
dispatch c seg ctx refs = dispatch_on c.state c seg ctx refs
