-- ===== src/Input/Handshake.antt =====
-- `handle_syn_sent` and `handle_syn_received`.
use resd_dpdk_tcp.Base.{
  ℕ, min, Bool, true, false, not, ◌&&◌, Option, none, some, List, ◌==◌, if◌then◌else◌,
  wrapping_add32,
}
use resd_dpdk_tcp.Seq.{seq_le}
use resd_dpdk_tcp.Options.{TcpOpts}
use resd_dpdk_tcp.Options.Parse.{Parsed, parse_options}
use resd_dpdk_tcp.Net.{has_bit}
use resd_dpdk_tcp.Net.Segment.{ParsedSegment, tcp_syn, tcp_rst, tcp_ack}
use resd_dpdk_tcp.Conn.{established, TcpConn, maybe_seed_srtt_from_syn}
use resd_dpdk_tcp.Input.{
  TxAction, no_tx, ack, rst, rst_for_syn_sent_bad_ack, Outcome, base, close_with,
}

-- `snd_una + 1 <= SEG.ACK <= snd_nxt`
abbrev pub acks_syn : TcpConn → ParsedSegment → Bool
acks_syn c seg = seq_le (wrapping_add32 c.snd_una 1) seg.ack && seq_le seg.ack c.snd_nxt

-- What the connection takes from the segment itself, and then from its options.
abbrev pub take_header : TcpConn → ParsedSegment → TcpConn
take_header c seg = record c {
  irs = seg.seq;
  rcv_nxt = wrapping_add32 seg.seq 1;
  snd_una = seg.ack;
  snd_wnd = seg.window;
  snd_wl1 = seg.seq;
  snd_wl2 = seg.ack;
}

unfoldable pub take_options : TcpConn → TcpOpts → ℕ → TcpConn
take_options c opts now_ns = record c {
  peer_mss = elim opts.mss [ none ↦ 536 | some m ↦ m ];
  ws_shift_in = elim opts.wscale [ none ↦ 0 | some ws_peer ↦ min ws_peer 14 ];
  ws_shift_out = elim opts.wscale [ none ↦ 0 | some ws_peer ↦ c.ws_shift_out ];
  sack_enabled = opts.sack_permitted;
  ts_enabled = elim opts.timestamps [ none ↦ false | some t ↦ true ];
  ts_recent = elim opts.timestamps [ none ↦ c.ts_recent | some (tsval, tsecr) ↦ tsval ];
  ts_recent_age = elim opts.timestamps [ none ↦ c.ts_recent_age | some t ↦ now_ns ];
}

-- A SYN-ACK that is accepted.
unfoldable pub connect : TcpConn → ParsedSegment → TcpOpts → ℕ → List ℕ → TcpConn × Outcome
unfolding take_options
connect c seg opts now_ns edges =
    let seeded =
      maybe_seed_srtt_from_syn (take_options (take_header c seg) opts now_ns) now_ns edges in
    (
      record seeded { syn_retrans_timer_id = none },
      record base {
        tx = ack;
        new_state = some established;
        is_connected = true;
        syn_retrans_timer_to_cancel = seeded.syn_retrans_timer_id;
        ws_shift_clamped = opts.ws_clamped;
      },
    )

unfoldable pub handle_syn_sent : TcpConn → ParsedSegment → ℕ → List ℕ → TcpConn × Outcome
unfolding connect
handle_syn_sent c seg now_ns edges =
    if has_bit seg.flags tcp_rst
    then (c, if has_bit seg.flags tcp_ack && acks_syn c seg then close_with no_tx else base)
    else if not (has_bit seg.flags tcp_syn)
    then (c, close_with rst_for_syn_sent_bad_ack)
    else if not (has_bit seg.flags tcp_ack)
    then (c, base)
    else if not (acks_syn c seg)
    then (c, close_with rst_for_syn_sent_bad_ack)
    else elim (parse_options seg.options) [
      | Parsed.ok opts ↦ connect c seg opts now_ns edges
      | Parsed.err e ↦ (c, record (close_with rst) { bad_option = true })
      | Parsed.panic ↦ (c, record (close_with rst) { bad_option = true })
    ]

unfoldable pub stamp : Option ℕ → ℕ → TcpConn → TcpConn
stamp none now_ns c = c
stamp (some tsval) now_ns c = record c { ts_recent = tsval; ts_recent_age = now_ns }

-- The final ACK of a passive open.
unfoldable pub complete : TcpConn → ParsedSegment → ℕ → TcpConn × Outcome
unfolding stamp
complete c seg now_ns =
    let acked = record c {
      snd_una = seg.ack;
      snd_wnd = seg.window;
      snd_wl1 = seg.seq;
      snd_wl2 = seg.ack;
    } in
    let ts : Option ℕ = elim (parse_options seg.options) [
      | Parsed.ok opts ↦ elim opts.timestamps [ none ↦ none | some (tsval, tsecr) ↦ some tsval ]
      | _ ↦ none
    ] in
    (
      record (if c.ts_enabled then stamp ts now_ns acked else acked) {
        syn_retrans_timer_id = none;
      },
      record base {
        new_state = some established;
        is_connected = true;
        syn_retrans_timer_to_cancel = c.syn_retrans_timer_id;
      },
    )

abbrev pub close_listen : TxAction → Outcome
close_listen action = record (close_with action) { clear_listen_slot_on_close = true }

unfoldable pub handle_syn_received : TcpConn → ParsedSegment → ℕ → TcpConn × Outcome
unfolding complete
handle_syn_received c seg now_ns =
    if has_bit seg.flags tcp_rst
    then (
      c,
      if c.is_passive_open
          then record base { is_closed = true; re_listen_if_passive = true }
          else close_listen no_tx,
    )
    else if has_bit seg.flags tcp_syn
    then (
      c,
      if seg.seq == c.irs
          then record base { retransmit_syn_ack_for_passive = true }
          else close_listen rst,
    )
    else if not (has_bit seg.flags tcp_ack)
    then (c, base)
    else if not (seg.seq == c.rcv_nxt)
    then (c, record base { tx = ack; bad_seq = true })
    else if not (acks_syn c seg)
    then (c, close_listen rst)
    else complete c seg now_ns
