-- ===== src/Examples/Stream.antt =====
-- Data in ESTABLISHED.
use resd_dpdk_tcp.Base.{ℕ, ◌≡◌, ◌≤◌, min, false, some, [], ◌∷◌, arith, refl}
use resd_dpdk_tcp.FlowTable.{FourTuple}
use resd_dpdk_tcp.Net.Segment.{ParsedSegment}
use resd_dpdk_tcp.Conn.{TcpConn, established, close_wait}
use resd_dpdk_tcp.Conn.Fresh.{new_client}
use resd_dpdk_tcp.Reassembly.{Refs}
use resd_dpdk_tcp.Reassembly
use resd_dpdk_tcp.Retrans.{RetransEntry}
use resd_dpdk_tcp.Buffers.Recv.{RecvQueue, free_space}
use resd_dpdk_tcp.Buffers.Recv
use resd_dpdk_tcp.Buffers.Room.{IsWithin}
use resd_dpdk_tcp.Seq.{seq_lt, seq_le, in_window}
use resd_dpdk_tcp.Conn.Probes.{on_rtt_sample_tlp_hook}
use resd_dpdk_tcp.Input.Closing.{is_in_window, options_of, check_timestamps}
use resd_dpdk_tcp.Input.Acking.{process_ack}
use resd_dpdk_tcp.Input.Deliver.{MbufInsertCtx, Link, deliver}
use resd_dpdk_tcp.Input.Losses.{rack_pass}
use resd_dpdk_tcp.Input.Established.{Context, handle_established, dispatch}
use resd_dpdk_tcp.Input.Established.Receipt.{IsReceipt}
use resd_dpdk_tcp.Input.Established.Answer.{handle_established-IsReceipt}
use resd_dpdk_tcp.Input.Established.Refused.{handle_established-rejected}
use resd_dpdk_tcp.Input.Established.Progress.{deliver-le}
use resd_dpdk_tcp.Input.Rfc.{IsNext, dispatch-IsNext}

abbrev tuple : FourTuple
tuple = record { local_ip = 1; local_port = 1024; peer_ip = 2; peer_port = 80 }

abbrev in_flight : RetransEntry
in_flight = record {
  seq = 101;
  len = 50;
  mbuf = 3;
  first_tx_ts_ns = 1000;
  xmit_count = 1;
  sacked = false;
  lost = false;
  xmit_ts_ns = 1000;
  hdrs_len = 54;
}

abbrev conn : TcpConn
conn = record (new_client tuple 100 1460 1000 1000 5000 5000 1000000) {
  state = established;
  snd_una = 101;
  snd_nxt = 201;
  snd_wnd = 1000;
  snd_wl1 = 500;
  snd_wl2 = 101;
  rcv_nxt = 500;
  snd_retrans = in_flight ∷ [];
}

abbrev carrying : ℕ → ParsedSegment
carrying flags = record {
  src_port = 80;
  dst_port = 1024;
  seq = 500;
  ack = 151;
  flags = flags;
  window = 256;
  header_len = 20;
  payload = 7 ∷ 8 ∷ 9 ∷ [];
  options = [];
}

abbrev head : MbufInsertCtx
head = record { mbuf = 5; payload_offset = 54 }

abbrev link : Link
link = record { mbuf = 6; data_len = 10 }

abbrev context : Context
context = record {
  now_ns = 9000000;
  edges = [];
  send_buffer_bytes = 1000;
  chain = (some head, link ∷ []);
}

abbrev counts : Refs
counts a = 1

-- A receive buffer without room.
abbrev full : TcpConn
full = record conn {
  recv = record {
    bytes = record { mbuf = 9; offset = 0; len = 4 } ∷ [];
    cap = 4;
    reorder = Reassembly.new 4;
  };
}

conn-IsWithin : IsWithin conn.recv
unfolding new_client Recv.new
conn-IsWithin = record { word = omega arith; within = omega arith }

full-IsWithin : IsWithin full.recv
full-IsWithin = record { word = omega arith; within = omega arith }

handle_established-IsReceipt_example :
    IsReceipt conn (carrying 24) (handle_established conn (carrying 24) context counts)
unfolding new_client
handle_established-IsReceipt_example =
    handle_established-IsReceipt conn (carrying 24) context counts conn-IsWithin (omega arith)
      (omega arith) (omega arith, tt)

handle_established-rejected_example :
    let r = handle_established conn (carrying 32) context counts in (r.0 ≡ conn) × (r.2 ≡ counts)
unfolding handle_established
handle_established-rejected_example =
    handle_established-rejected conn (carrying 32) context counts refl

deliver-le_example :
    min 3 (free_space conn.recv)
    ≤ (deliver conn (carrying 24) (some head, link ∷ []) counts).delivered
unfolding new_client
deliver-le_example =
    deliver-le conn (carrying 24) head (link ∷ []) counts conn-IsWithin (omega arith) (omega arith)
      (omega arith, tt) refl

dispatch-IsNext_example :
    let r = dispatch conn (carrying 24) context counts in
    (r.0.state ≡ established) × IsNext established r.1.new_state
unfolding new_client
dispatch-IsNext_example =
    dispatch-IsNext conn (carrying 24) context counts conn-IsWithin (omega arith) (omega arith)
      (omega arith, tt)

-- The payload before a FIN is lost when the buffer is full, and the FIN is taken.
full_fin :
    let r = (handle_established full (carrying 17) context counts).1 in
    (r.delivered ≡ 0) × (r.buf_full_drop ≡ 3) × (r.new_state ≡ some close_wait)
unfolding new_client handle_established is_in_window in_window options_of check_timestamps
    process_ack seq_lt seq_le deliver rack_pass on_rtt_sample_tlp_hook free_space Reassembly.new
full_fin = (refl, refl, refl)
