-- ===== src/Examples/Acks.antt =====
-- Acknowledgements and resets.
use resd_dpdk_tcp.Base.{
  ℕ, ◌*◌, ◌^◌, ◌≡◌, ◌≤◌, ◌<◌, ◌↔◌, true, some, none, List, [], ◌∷◌, arith, refl, u16_mod,
}
use resd_dpdk_tcp.Options.{SackBlock}
use resd_dpdk_tcp.Output.Received.{Reads}
use resd_dpdk_tcp.Conn.{TcpConn, syn_sent}
use resd_dpdk_tcp.Conn.Fresh.{new_client}
use resd_dpdk_tcp.Engine.Acks.{AckCounters, build_ack_outcome, emit_ack}
use resd_dpdk_tcp.Engine.Blocks.{LeadsWith, build_ack_outcome-LeadsWith}
use resd_dpdk_tcp.Engine.Emitted.{IsAddressed, IsAck, emit_ack-IsAck}
use resd_dpdk_tcp.Engine.Window.{build_ack_outcome-window}
use resd_dpdk_tcp.Engine.Resets.{send_rst_unmatched}
use resd_dpdk_tcp.Engine.Answers.{
  IsFinal, IsWords, send_rst_unmatched-IsFinal, send_rst_unmatched-handle_syn_sent,
}
use resd_dpdk_tcp.Input.{close_with, no_tx}
use resd_dpdk_tcp.Input.Handshake.{handle_syn_sent}
use resd_dpdk_tcp.FlowTable.{FourTuple}
use resd_dpdk_tcp.Net.Segment.{ParsedSegment}
use resd_dpdk_tcp.Seq.{seq_le, seq_lt}

abbrev blocks : List SackBlock
blocks =
    record { left = 2000; right = 2100 }
    ∷ record { left = 3000; right = 3400 }
    ∷ record { left = 5000; right = 5001 }
    ∷ []

build_ack_outcome-LeadsWith_example :
    LeadsWith 3000 (build_ack_outcome 7 true 9 80 true blocks (some (3000, 3100)) 0).opts
unfolding seq_le seq_lt
build_ack_outcome-LeadsWith_example =
    build_ack_outcome-LeadsWith 7 true 9 80 blocks 3000 3100 0 refl

build_ack_outcome-window_example :
    let o = build_ack_outcome 3 true 9 80 true blocks (some (3000, 3100)) 1000 in
    (2 ^ 3 * o.window ≤ 1000)
    × (o.window < u16_mod)
    × ((o.zero_window ≡ true) ↔ (◌≡◌ {A = ℕ} 1000 0))
build_ack_outcome-window_example =
    build_ack_outcome-window 3 true 9 80 true blocks (some (3000, 3100)) 1000

abbrev mac : ℕ → List ℕ
mac n = 2 ∷ 0 ∷ 0 ∷ 0 ∷ 0 ∷ n ∷ []

abbrev conn : TcpConn
conn =
    record (new_client
      (record { local_ip = 167772162; local_port = 1024; peer_ip = 167772161; peer_port = 80 }) 100
      1460 1000 1000 5000 5000 1000000) {
        rcv_nxt = 700;
        sack_enabled = true;
        ts_enabled = true;
        recv = record {
          bytes = [];
          cap = 1000;
          reorder = record {
            segments = record { seq = 900; mbuf = 64; offset = 54; len = 50 } ∷ [];
            cap = 1000;
            total_bytes = 50;
          };
        };
        last_sack_trigger = some (900, 950);
      }

abbrev counters : AckCounters
counters = record { tx_ack = 0; tx_zero_window = 0; tx_window_update = 0; tx_sack_blocks = 0 }

conn-IsAddressed : IsAddressed conn
unfolding new_client
conn-IsAddressed = record {
  local_ip = omega arith;
  peer_ip = omega arith;
  local_port = omega arith;
  peer_port = omega arith;
  snd_nxt = omega arith;
  rcv_nxt = omega arith;
  ts_recent = omega arith;
  segments = (omega arith, tt);
}

emit_ack-IsAck_example :
    (frame : List ℕ) × (p : ParsedSegment) × ((emit_ack (mac 1) (mac 2) conn 9000 true counters).1
      ≡ some frame)
    × Reads frame (mac 1) (mac 2) 167772162 167772161 p
    × IsAck conn 9000 p
    × ((emit_ack (mac 1) (mac 2) conn 9000 true counters).0
        ≡ record conn { last_advertised_wnd = some p.window; last_sack_trigger = none })
unfolding new_client
emit_ack-IsAck_example =
    emit_ack-IsAck (mac 1) (mac 2) conn 9000 counters conn-IsAddressed refl refl true

abbrev tuple : FourTuple
tuple = record { local_ip = 167772162; local_port = 1024; peer_ip = 167772161; peer_port = 80 }

abbrev peer_tuple : FourTuple
peer_tuple = record { local_ip = 167772161; local_port = 80; peer_ip = 167772162; peer_port = 1024 }

tuple-IsWords : IsWords tuple
tuple-IsWords = record {
  local_ip = omega arith;
  peer_ip = omega arith;
  local_port = omega arith;
  peer_port = omega arith;
}

-- A SYN to a port without a flow.
abbrev incoming : ParsedSegment
incoming = record {
  src_port = 80;
  dst_port = 1024;
  seq = 700;
  ack = 0;
  flags = 2;
  window = 1000;
  header_len = 20;
  payload = [];
  options = [];
}

send_rst_unmatched-IsFinal_example :
    IsFinal
      (mac 1)
      (mac 2)
      tuple
      peer_tuple
      incoming
      (send_rst_unmatched (mac 1) (mac 2) tuple incoming true 0)
send_rst_unmatched-IsFinal_example =
    send_rst_unmatched-IsFinal (mac 1) (mac 2) tuple tuple-IsWords refl refl incoming true 0
      peer_tuple (omega arith) refl

-- The peer that sent this SYN.
abbrev opening : TcpConn
opening = record conn { state = syn_sent; snd_una = 700; snd_nxt = 701 }

send_rst_unmatched-handle_syn_sent_example :
    (frame : List ℕ) × (p : ParsedSegment) × ((send_rst_unmatched
        (mac 1)
        (mac 2)
        tuple
        incoming
        true
        0).0
      ≡ some frame)
    × Reads frame (mac 1) (mac 2) 167772162 167772161 p
    × (handle_syn_sent opening p 1000 [] ≡ (opening, close_with no_tx))
unfolding new_client
send_rst_unmatched-handle_syn_sent_example =
    send_rst_unmatched-handle_syn_sent (mac 1) (mac 2) tuple incoming true 0 opening 1000 []
      tuple-IsWords refl refl (omega arith) (omega arith) refl (omega arith) refl refl
