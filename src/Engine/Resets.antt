-- ===== src/Engine/Resets.antt =====
-- `emit_rst`, `emit_rst_for_syn_sent_bad_ack` and `send_rst_unmatched`. As in Acks, `sent` says whether
-- the device takes the frame; the result is the bytes handed to it and the counter `tx_rst`.
use resd_dpdk_tcp.Base.{
  ℕ, ◌+◌, ◌%◌, Bool, Option, none, some, List, [], length, take, replicate, if◌then◌else◌, u64_mod,
  as_u32, wrapping_add32,
}
use resd_dpdk_tcp.Options.{default_opts}
use resd_dpdk_tcp.Net.{has_bit}
use resd_dpdk_tcp.Net.Segment.{ParsedSegment, tcp_ack, tcp_fin, tcp_rst, tcp_syn}
use resd_dpdk_tcp.FlowTable.{FourTuple}
use resd_dpdk_tcp.Conn.{TcpConn}
use resd_dpdk_tcp.Output.{SegmentTx, build_segment}

abbrev pub reset_segment : List ℕ → List ℕ → FourTuple → ℕ → ℕ → ℕ → SegmentTx
reset_segment our_mac gateway_mac t seq ack flags = record {
  src_mac = our_mac;
  dst_mac = gateway_mac;
  src_ip = t.local_ip;
  dst_ip = t.peer_ip;
  src_port = t.local_port;
  dst_port = t.peer_port;
  seq = seq;
  ack = ack;
  flags = flags;
  window = 0;
  options = default_opts;
  payload = [];
}

-- The number behind the last one that the segment takes.
abbrev pub ack_past : ParsedSegment → ℕ
ack_past incoming =
    wrapping_add32
      (wrapping_add32 (wrapping_add32 incoming.seq (as_u32 (length incoming.payload)))
        (if has_bit incoming.flags tcp_syn then 1 else 0))
      (if has_bit incoming.flags tcp_fin then 1 else 0)

unfoldable pub transmit_reset : SegmentTx → Bool → ℕ → Option (List ℕ) × ℕ
transmit_reset seg sent tx_rst = elim (build_segment seg (replicate 64 0)) [
  | none ↦ (none, tx_rst)
  | some (buf, n) ↦ (some (take n buf), if sent then (tx_rst + 1) % u64_mod else tx_rst)
]

unfoldable pub emit_rst : List ℕ → List ℕ → TcpConn → ParsedSegment → Bool → ℕ → Option (List ℕ) × ℕ
unfolding transmit_reset
emit_rst our_mac gateway_mac c incoming sent tx_rst =
    transmit_reset
      (reset_segment our_mac gateway_mac c.four_tuple c.snd_nxt (ack_past incoming)
        (tcp_rst + tcp_ack))
      sent tx_rst

unfoldable pub emit_rst_for_syn_sent_bad_ack :
    List ℕ → List ℕ → FourTuple → ParsedSegment → Bool → ℕ → Option (List ℕ) × ℕ
unfolding transmit_reset
emit_rst_for_syn_sent_bad_ack our_mac gateway_mac tuple incoming sent tx_rst =
    transmit_reset (reset_segment our_mac gateway_mac tuple incoming.ack 0 tcp_rst) sent tx_rst

abbrev pub unmatched_reset : List ℕ → List ℕ → FourTuple → ParsedSegment → SegmentTx
unmatched_reset our_mac gateway_mac tuple incoming =
    if has_bit incoming.flags tcp_ack
    then reset_segment our_mac gateway_mac tuple incoming.ack 0 tcp_rst
    else reset_segment our_mac gateway_mac tuple 0 (ack_past incoming) (tcp_rst + tcp_ack)

unfoldable pub send_rst_unmatched :
    List ℕ → List ℕ → FourTuple → ParsedSegment → Bool → ℕ → Option (List ℕ) × ℕ
unfolding transmit_reset
send_rst_unmatched our_mac gateway_mac tuple incoming sent tx_rst =
    let reply = transmit_reset (unmatched_reset our_mac gateway_mac tuple incoming) sent tx_rst in
    if has_bit incoming.flags tcp_rst then (none, tx_rst) else reply
