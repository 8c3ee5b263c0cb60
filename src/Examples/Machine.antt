-- ===== src/Examples/Machine.antt =====
-- The segment handlers.
use resd_dpdk_tcp.Base.{ℕ, ◌≡◌, ◌⊎◌, true, false, some, List, [], ◌∷◌, arith}
use resd_dpdk_tcp.Net.{has_bit}
use resd_dpdk_tcp.Net.Segment.{ParsedSegment, tcp_rst, tcp_syn, tcp_ack}
use resd_dpdk_tcp.Conn.{TcpConn, fin_wait2, syn_sent}
use resd_dpdk_tcp.FlowTable.{FourTuple}
use resd_dpdk_tcp.Conn.Fresh.{new_client}
use resd_dpdk_tcp.Input.Closing.{handle_close_path}
use resd_dpdk_tcp.Input.Edges.{IsStep}
use resd_dpdk_tcp.Input.Steps.{handle_close_path-IsStep}
use resd_dpdk_tcp.Input.Handshake.{handle_syn_sent, acks_syn}
use resd_dpdk_tcp.Input.Accepts.{Refused, Agreed, handle_syn_sent_lem, rcv_nxt-handle_close_path}

abbrev tuple : FourTuple
tuple = record { local_ip = 1; local_port = 1024; peer_ip = 2; peer_port = 80 }

abbrev conn : TcpConn
conn = record (new_client tuple 100 1460 1000 1000 5000 5000 1000000) {
  state = fin_wait2;
  snd_una = 101;
  snd_nxt = 101;
  snd_wnd = 1000;
  snd_wl1 = 500;
  snd_wl2 = 101;
  irs = 499;
  rcv_nxt = 500;
  sack_enabled = true;
  our_fin_seq = some 100;
}

abbrev fin : List ℕ → ParsedSegment
fin payload = record {
  src_port = 80;
  dst_port = 1024;
  seq = 500;
  ack = 101;
  flags = 17;
  window = 256;
  header_len = 20;
  payload = payload;
  options = [];
}

handle_close_path-IsStep_example : IsStep conn (fin []) (handle_close_path conn (fin []) 1000)
handle_close_path-IsStep_example = handle_close_path-IsStep conn (fin []) 1000

rcv_nxt-handle_close_path_example : (handle_close_path conn (fin (7 ∷ 8 ∷ [])) 1000).0.rcv_nxt ≡ 500
unfolding new_client
rcv_nxt-handle_close_path_example =
    rcv_nxt-handle_close_path conn (fin (7 ∷ 8 ∷ [])) 1000 (omega arith) (omega arith) (omega arith)
      (omega arith) (omega arith)

-- A SYN-ACK of the SYN at 100.
abbrev syn_ack : ParsedSegment
syn_ack = record (fin []) { flags = 18 }

abbrev opening : TcpConn
opening = record conn { state = syn_sent; snd_una = 100 }

handle_syn_sent_lem_example :
    Refused opening (handle_syn_sent opening syn_ack 1000 [])
    ⊎ ((has_bit 18 tcp_rst ≡ false)
        × (has_bit 18 tcp_syn ≡ true)
        × (has_bit 18 tcp_ack ≡ true)
        × (acks_syn opening syn_ack ≡ true)
        × Agreed opening syn_ack (handle_syn_sent opening syn_ack 1000 []))
handle_syn_sent_lem_example = handle_syn_sent_lem opening syn_ack 1000 []
