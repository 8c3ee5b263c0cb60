-- ===== src/Engine/Send.antt =====
-- `send_bytes` and `arm_tlp_pto`. The flow table's connection is the argument. What the foreign code
-- answers in a round of the loop is an `Attempt`: the clock's readings, the mbuf of the pool, and whether
-- that had room. The ring of frames is the list of what is pushed, the oldest first; `drain_tx_pending_data`
-- takes from its front, so a full ring takes the frame as well. The features are the default ones.
use resd_dpdk_tcp.Base.{
  ℕ, zero, suc, ◌+◌, ◌-◌, ◌*◌, ◌/◌, ◌%◌, ◌^◌, min, max, Bool, true, false, ◌&&◌, Option, none, some,
  List, [], ◌∷◌, ◌++◌, length, take, drop, replicate, ltb, ◌==◌, if◌then◌else◌, as_u16, as_u32,
  u16_mod, u64_mod, wrapping_add32, wrapping_sub32,
}
use resd_dpdk_tcp.Options.{default_opts}
use resd_dpdk_tcp.Retrans.{RetransEntry, push_after_tx, flight_size}
use resd_dpdk_tcp.Reassembly.{Refs, add_refs}
use resd_dpdk_tcp.Buffers.Recv.{free_space_total}
use resd_dpdk_tcp.Net.{Result, ok, err}
use resd_dpdk_tcp.Net.Segment.{tcp_ack, tcp_psh}
use resd_dpdk_tcp.TimerWheel.{TimerWheel, TimerNode, TimerKind, TimerId, rto, tlp}
use resd_dpdk_tcp.TimerWheel
use resd_dpdk_tcp.Tlp.{pto_us}
use resd_dpdk_tcp.Conn.{TcpConn, TcpState, established}
use resd_dpdk_tcp.Conn.Probes.{tlp_arm_gate_passes, tlp_config, is_empty, is_none}
use resd_dpdk_tcp.Output.{SegmentTx, build_segment}

-- The two values of `Error` that `send_bytes` returns.
pub data SendError : Type 0 where
  invalid_conn_handle : SendError
  send_buffer_full : SendError

-- The fields of the engine that `send_bytes` reads, and the handle of its connection.
pub record SendConfig : Type 0 where
  pub our_mac : List ℕ
  pub gateway_mac : List ℕ
  pub tcp_mss : ℕ
  pub send_buffer_bytes : ℕ
  pub handle : ℕ

pub record Attempt : Type 0 where
  pub tsval_ns : ℕ
  pub mbuf : Option ℕ
  pub appended : Bool
  pub first_tx_ts_ns : ℕ

pub record SendCounters : Type 0 where
  pub tx_drop_nomem : ℕ
  pub tx_bytes : ℕ
  pub tx_data : ℕ
  pub send_buf_full : ℕ

-- The state of the loop: what `send_bytes` changes, and its local variables.
pub record Sending : Type 0 where
  pub conn : TcpConn
  pub wheel : TimerWheel
  pub ring : List (ℕ × List ℕ)
  pub refs : Refs
  pub counters : SendCounters
  pub remaining : ℕ
  pub offset : ℕ
  pub accepted : ℕ
  pub cur_seq : ℕ

abbrev pub count : ℕ → ℕ → ℕ
count counter n = (counter + n) % u64_mod

abbrev pub mss_cap : SendConfig → TcpConn → ℕ
mss_cap cfg c = max (min c.peer_mss cfg.tcp_mss) 1

abbrev pub in_flight : TcpConn → ℕ
in_flight c = wrapping_sub32 c.snd_nxt c.snd_una

-- What the peer's window, the send buffer and the bytes themselves leave to send.
abbrev pub sendable : SendConfig → TcpConn → List ℕ → ℕ
sendable cfg c bytes =
    min (min (length bytes) (c.snd_wnd - in_flight c)) (cfg.send_buffer_bytes - in_flight c)

-- The segment of a round, whose payload starts at `offset`.
abbrev pub data_segment : SendConfig → TcpConn → List ℕ → ℕ → Attempt → ℕ → ℕ → SegmentTx
data_segment cfg c bytes offset a cur_seq n = record {
  src_mac = cfg.our_mac;
  dst_mac = cfg.gateway_mac;
  src_ip = c.four_tuple.local_ip;
  dst_ip = c.four_tuple.peer_ip;
  src_port = c.four_tuple.local_port;
  dst_port = c.four_tuple.peer_port;
  seq = cur_seq;
  ack = c.rcv_nxt;
  flags = tcp_ack + tcp_psh;
  window = min (free_space_total c.recv / 2 ^ (c.ws_shift_out % 32)) (u16_mod - 1);
  options = record default_opts {
    timestamps = if c.ts_enabled then some (as_u32 (a.tsval_ns / 1000), c.ts_recent) else none;
  };
  payload = take n (drop offset bytes);
}

abbrev pub entry_of : ℕ → ℕ → ℕ → ℕ → ℕ → RetransEntry
entry_of cur_seq take mbuf first_tx_ts_ns n = record {
  seq = cur_seq;
  len = as_u16 take;
  mbuf = mbuf;
  first_tx_ts_ns = first_tx_ts_ns;
  xmit_count = 1;
  sacked = false;
  lost = false;
  xmit_ts_ns = first_tx_ts_ns;
  hdrs_len = as_u16 (n - take);
}

abbrev pub timer : TimerKind → ℕ → ℕ → TimerNode
timer kind handle fire_at_ns = record {
  fire_at_ns = fire_at_ns;
  owner_handle = handle;
  kind = kind;
  user_data = 0;
  generation = 0;
  cancelled = false;
}

-- The retransmission timer, which the first segment in flight starts; `c` holds that segment already.
unfoldable pub arm_rto : SendConfig → Bool → ℕ → TcpConn × TimerWheel → TcpConn × TimerWheel
arm_rto cfg was_empty now_ns (c, wheel) =
    let (armed, id) =
      TimerWheel.add now_ns (timer rto cfg.handle ((now_ns + c.rtt_est.rto_us * 1000) % u64_mod))
        wheel in
    if was_empty && is_none c.rto_timer_id && ltb 0 c.rtt_est.rto_us
    then (record c { rto_timer_id = some id; timer_ids = c.timer_ids ++ (id ∷ []) }, armed)
    else (c, wheel)

-- A frame of `n` bytes is in the ring and in flight. The allocation gives its mbuf one reference, for the
-- ring, and the entry takes one more.
unfoldable pub push_frame : SendConfig → ℕ → Attempt → ℕ → List ℕ → ℕ → Sending → Sending
unfolding arm_rto
push_frame cfg taken a mbuf frame n st =
    let entry = entry_of st.cur_seq taken mbuf a.first_tx_ts_ns n in
    let pushed = record st.conn { snd_retrans = push_after_tx st.conn.snd_retrans entry } in
    let (c, wheel) =
      arm_rto cfg (is_empty st.conn.snd_retrans) a.first_tx_ts_ns (pushed, st.wheel) in
    record {
      conn = c;
      wheel = wheel;
      ring = st.ring ++ ((mbuf, take n frame) ∷ []);
      refs = add_refs mbuf 2 st.refs;
      counters = record st.counters {
        tx_bytes = count st.counters.tx_bytes n;
        tx_data = count st.counters.tx_data 1;
      };
      remaining = st.remaining - taken;
      offset = st.offset + taken;
      accepted = wrapping_add32 st.accepted (as_u32 taken);
      cur_seq = wrapping_add32 st.cur_seq (as_u32 taken);
    }

-- A round goes on, or ends the loop by `break`, or the call by an error.
pub data Round : Type 0 where
  next : Sending → Round
  stop : Sending → Round
  refuse : Sending → Round

-- No mbuf, or no room in it.
abbrev pub drop_nomem : Sending → Round
drop_nomem st =
    let dropped = record st {
      counters = record st.counters { tx_drop_nomem = count st.counters.tx_drop_nomem 1 };
    } in
    if st.accepted == 0 then refuse dropped else stop dropped

unfoldable pub send_round : SendConfig → TcpConn → List ℕ → Attempt → Sending → Round
unfolding push_frame
send_round cfg c bytes a st =
    let taken = min st.remaining (mss_cap cfg c) in
    elim (build_segment (data_segment cfg c bytes st.offset a st.cur_seq taken)
      (replicate (54 + 40 + taken) 0)) [
        | none ↦ stop st
        | some (frame, n) ↦ elim a.mbuf [
          | none ↦ drop_nomem st
          | some m ↦
              if a.appended then next (push_frame cfg taken a m frame n st) else drop_nomem st
        ]
      ]

-- What a round means for the loop, whose next rounds are `rest`.
abbrev pub after : Round → (Sending → Sending × Bool) → Sending × Bool
after (next s) rest = rest s
after (stop s) rest = (s, false)
after (refuse s) rest = (s, true)

-- The loop, on fuel: the state, and whether the call ends with an error. `attempt` is what the foreign
-- code answers in each round, by the fuel that is left.
unfoldable pub send_loop :
    SendConfig → TcpConn → List ℕ → (ℕ → Attempt) → ℕ → Sending → Sending × Bool
unfolding send_round
send_loop cfg c bytes attempt zero st = (st, false)
send_loop cfg c bytes attempt (suc fuel) st =
    let rest : Sending → Sending × Bool = λ s. send_loop cfg c bytes attempt fuel s in
    if st.remaining == 0 then (st, false) else after (send_round cfg c bytes (attempt fuel) st) rest

unfoldable pub arm_tlp_pto : SendConfig → ℕ → TcpConn × TimerWheel → TcpConn × TimerWheel
unfolding tlp_arm_gate_passes pto_us
arm_tlp_pto cfg now_ns (c, wheel) =
    let pto = pto_us c.rtt_est.srtt_us (tlp_config c) (as_u32 (flight_size c.snd_retrans)) in
    let (armed, id) =
      TimerWheel.add now_ns (timer tlp cfg.handle ((now_ns + pto * 1000) % u64_mod)) wheel in
    if tlp_arm_gate_passes c
    then (record c { tlp_timer_id = some id; timer_ids = c.timer_ids ++ (id ∷ []) }, armed)
    else (c, wheel)

abbrev pub start :
    SendConfig → TcpConn → List ℕ → TimerWheel → List (ℕ × List ℕ) → Refs → SendCounters → Sending
start cfg c bytes wheel ring refs counters = record {
  conn = c;
  wheel = wheel;
  ring = ring;
  refs = refs;
  counters = counters;
  remaining = sendable cfg c bytes;
  offset = 0;
  accepted = 0;
  cur_seq = c.snd_nxt;
}

-- Behind the loop: `snd_nxt`, the refusal of a part, and the probe's timer.
unfoldable pub end_send : SendConfig → List ℕ → ℕ → Sending → Sending
unfolding arm_tlp_pto
end_send cfg bytes now_ns st =
    let short = ltb st.accepted (as_u32 (length bytes)) in
    let c = record st.conn {
      snd_nxt = st.cur_seq;
      send_refused_pending = if short then true else st.conn.send_refused_pending;
    } in
    let full = count st.counters.send_buf_full 1 in
    let (armed, wheel) =
      if ltb 0 st.accepted then arm_tlp_pto cfg now_ns (c, st.wheel) else (c, st.wheel) in
    record st {
      conn = armed;
      wheel = wheel;
      counters = if short then record st.counters { send_buf_full = full } else st.counters;
    }

abbrev pub is_established : TcpState → Bool
is_established established = true
is_established _ = false

-- `now_ns` is the clock at the probe's timer. The fuel is the number of bytes to send: each round but
-- the last sends one at least.
unfoldable pub send_bytes :
    SendConfig
    → List ℕ
    → (ℕ → Attempt)
    → ℕ
    → TcpConn
    → TimerWheel
    → List (ℕ × List ℕ)
    → Refs
    → SendCounters
    → Sending × Result SendError ℕ
unfolding send_loop end_send
send_bytes cfg bytes attempt now_ns c wheel ring refs counters =
    let st = start cfg c bytes wheel ring refs counters in
    let (sent, refused) = send_loop cfg c bytes attempt (sendable cfg c bytes) st in
    let out =
      if refused
      then (sent, err send_buffer_full)
      else (end_send cfg bytes now_ns sent, ok sent.accepted) in
    if is_established c.state then out else (st, err invalid_conn_handle)
