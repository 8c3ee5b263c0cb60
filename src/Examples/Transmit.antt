-- ===== src/Examples/Transmit.antt =====
-- Frames and events.
use resd_dpdk_tcp.Base.{
  ℕ, ◌+◌, ◌≡◌, ◌≤◌, ◌<◌, ◌↔◌, ◌⊎◌, true, false, some, none, List, [], ◌∷◌, ◌++◌, arith, refl,
  length, drop, replicate,
}
use resd_dpdk_tcp.Options.{TcpOpts, default_opts}
use resd_dpdk_tcp.Options.Encode.{encoded_len}
use resd_dpdk_tcp.Output.{SegmentTx, build_segment, build_retrans_header}
use resd_dpdk_tcp.Output.Parsed.{IsSendable}
use resd_dpdk_tcp.Output.Received.{IsReceived}
use resd_dpdk_tcp.Output.Built.{build_segment-IsReceived, build_retrans_header-eq-build_segment}
use resd_dpdk_tcp.Output.Matches.{build_segment-none}
use resd_dpdk_tcp.Events.{InternalEvent, writable, EventQueue, with_cap}
use resd_dpdk_tcp.Events.Newest.{push_all, Holds, push_all-Holds}
use resd_dpdk_tcp.Conn.{TcpConn}
use resd_dpdk_tcp.Conn.Fresh.{new_client}
use resd_dpdk_tcp.Conn.Probes.{tlp_arm_gate_passes, on_tlp_probe_fired, on_new_data_ack_tlp_hook}
use resd_dpdk_tcp.Conn.Budget.{tlp_arm_gate_passes-fire_all}
use resd_dpdk_tcp.Rtt
use resd_dpdk_tcp.Retrans.{RetransEntry}

abbrev mac : ℕ → List ℕ
mac n = 2 ∷ 0 ∷ 0 ∷ 0 ∷ 0 ∷ n ∷ []

abbrev options : TcpOpts
options = record default_opts { timestamps = some (7, 9) }

abbrev segment : SegmentTx
segment = record {
  src_mac = mac 1;
  dst_mac = mac 2;
  src_ip = 167772162;
  dst_ip = 167772161;
  src_port = 40000;
  dst_port = 5000;
  seq = 4096;
  ack = 77;
  flags = 24;
  window = 65535;
  options = options;
  payload = 1 ∷ 2 ∷ 3 ∷ [];
}

segment-IsSendable : IsSendable segment
segment-IsSendable = record {
  src_ip = omega arith;
  dst_ip = omega arith;
  src_port = omega arith;
  dst_port = omega arith;
  seq = omega arith;
  ack = omega arith;
  window = omega arith;
  syn_fin = refl;
  rst_syn = refl;
}

abbrev out : List ℕ
out = replicate 80 0

build_segment-IsReceived_example :
    (frame : List ℕ) × (build_segment segment out
      ≡ some (frame ++ drop (length frame) out, length frame))
    × IsReceived segment frame
unfolding encoded_len
build_segment-IsReceived_example =
    build_segment-IsReceived segment segment-IsSendable refl refl (omega arith) (omega arith)
      (omega arith) out (omega arith)

build_retrans_header-eq-build_segment_example :
    (hdrs : List ℕ) × (build_retrans_header (record segment { payload = [] }) (1 ∷ 2 ∷ 3 ∷ []) out
      ≡ some (hdrs ++ drop (length hdrs) out, length hdrs))
    × (build_segment segment out
        ≡ some (hdrs ++ ((1 ∷ 2 ∷ 3 ∷ []) ++ drop (length hdrs + 3) out), length hdrs + 3))
unfolding encoded_len
build_retrans_header-eq-build_segment_example =
    build_retrans_header-eq-build_segment segment segment-IsSendable refl refl (omega arith)
      (omega arith) (omega arith) out (omega arith)

build_segment-none_example :
    (build_segment segment (replicate 60 0) ≡ none) ↔ ((60 < 69) ⊎ (65536 ≤ 55))
unfolding encoded_len
build_segment-none_example = build_segment-none segment (replicate 60 0) (omega arith)

abbrev events : List InternalEvent
events = writable 1 10 ∷ writable 2 20 ∷ []

abbrev queue : EventQueue
queue = record { q = []; soft_cap = 64 }

push_all-Holds_example :
    Holds 64 events
      (push_all events (queue, record { events_dropped = 0; events_queue_high_water = 0 }))
unfolding with_cap
push_all-Holds_example = push_all-Holds 64 queue events refl

abbrev in_flight : RetransEntry
in_flight = record {
  seq = 101;
  len = 50;
  mbuf = 3;
  first_tx_ts_ns = 1000;
  xmit_count = 1;
  sacked = false;
  lost = false;
  xmit_ts_ns = 1000;
  hdrs_len = 54;
}

abbrev conn : TcpConn
conn =
    record (new_client (record { local_ip = 1; local_port = 1024; peer_ip = 2; peer_port = 80 }) 100
      1460 1000 1000 5000 5000 1000000) {
        snd_retrans = in_flight ∷ [];
        tlp_max_consecutive_probes = 3;
        tlp_skip_rtt_sample_gate = true;
        rtt_est = Rtt.sample (Rtt.new 5000 5000 1000000) 300;
      }

tlp_arm_gate_passes-fire_all_example : 1 < 3
unfolding new_client tlp_arm_gate_passes on_tlp_probe_fired on_new_data_ack_tlp_hook Rtt.sample
    Rtt.new
tlp_arm_gate_passes-fire_all_example =
    tlp_arm_gate_passes-fire_all conn ((101, 50, 2000) ∷ []) (omega arith) refl
