-- ===== src/Examples/Sending.antt =====
-- Sending.
use resd_dpdk_tcp.Base.{ℕ, ◌+◌, ◌*◌, ◌≡◌, refl, true, some, List, [], ◌∷◌, arith}
use resd_dpdk_tcp.Conn.{TcpConn, established}
use resd_dpdk_tcp.Conn.Fresh.{new_client}
use resd_dpdk_tcp.TimerWheel
use resd_dpdk_tcp.Options.Encode.{encoded_len}
use resd_dpdk_tcp.Output.{build_segment}
use resd_dpdk_tcp.Engine.Send.{SendConfig, Attempt, SendCounters, sendable, send_bytes}
use resd_dpdk_tcp.Net.{ok}
use resd_dpdk_tcp.Engine.Drained.{IsServed, send_bytes-all}
use resd_dpdk_tcp.Engine.Sent.{IsResult, send_bytes-IsResult}

abbrev mac : ℕ → List ℕ
mac n = 2 ∷ 0 ∷ 0 ∷ 0 ∷ 0 ∷ n ∷ []

abbrev cfg : SendConfig
cfg = record {
  our_mac = mac 1;
  gateway_mac = mac 2;
  tcp_mss = 1460;
  send_buffer_bytes = 262144;
  handle = 1;
}

abbrev conn : TcpConn
conn =
    record (new_client
      (record { local_ip = 167772162; local_port = 1024; peer_ip = 167772161; peer_port = 80 }) 100
      2 1000 1000 5000 5000 1000000) { state = established; snd_wnd = 1000 }

abbrev bytes : List ℕ
bytes = 10 ∷ 11 ∷ 12 ∷ []

abbrev attempt : ℕ → Attempt
attempt i = record {
  tsval_ns = 4000;
  mbuf = some (64 * i + 64);
  appended = true;
  first_tx_ts_ns = 5000;
}

abbrev counters : SendCounters
counters = record { tx_drop_nomem = 0; tx_bytes = 0; tx_data = 0; send_buf_full = 0 }

send_bytes-IsResult_example :
    let r = send_bytes cfg bytes attempt 6000 conn TimerWheel.new [] (λ m. 0) counters in
    IsResult cfg conn bytes r.0.conn r.1
unfolding new_client
send_bytes-IsResult_example =
    send_bytes-IsResult cfg conn bytes (omega arith) (omega arith) (omega arith) attempt 6000
      TimerWheel.new [] (λ m. 0) counters (omega arith) (omega arith)

-- In two rounds of at most two bytes.
accepted_test :
    (send_bytes cfg bytes attempt 6000 conn TimerWheel.new [] (λ m. 0) counters).0.accepted ≡ 3
unfolding new_client send_bytes build_segment encoded_len
accepted_test = refl

attempt-IsServed : IsServed attempt
attempt-IsServed = record { mbuf = λ i. (64 * i + 64, refl); appended = λ i. refl }

send_bytes-all_example :
    (send_bytes cfg bytes attempt 6000 conn TimerWheel.new [] (λ m. 0) counters).1
    ≡ ok (sendable cfg conn bytes)
unfolding new_client
send_bytes-all_example =
    send_bytes-all cfg conn bytes (omega arith) attempt 6000 TimerWheel.new [] (λ m. 0) counters
      attempt-IsServed refl (omega arith)
