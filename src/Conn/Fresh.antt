-- ===== src/Conn/Fresh.antt =====
-- New connections: `TcpConn::new_client` and, of the feature `test-server`, `TcpConn::new_passive`.
use resd_dpdk_tcp.Base.{
  ℕ, ◌-◌, min, true, false, none, some, [], replicate, wrapping_add32, u16_mod,
}
use resd_dpdk_tcp.Options.{TcpOpts}
use resd_dpdk_tcp.FlowTable.{FourTuple}
use resd_dpdk_tcp.Conn.{TcpConn, closed, syn_received}
use resd_dpdk_tcp.Buffers.Send
use resd_dpdk_tcp.Buffers.Recv
use resd_dpdk_tcp.Rtt
use resd_dpdk_tcp.Rack
use resd_dpdk_tcp.Tlp

-- `min_rto_us`, `initial_rto_us` and `max_rto_us` are the last three arguments.
unfoldable pub new_client : FourTuple → ℕ → ℕ → ℕ → ℕ → ℕ → ℕ → ℕ → TcpConn
new_client tuple iss our_mss recv_buf_bytes send_buf_bytes min_rto_us initial_rto_us max_rto_us =
    record {
      four_tuple = tuple;
      state = closed;
      snd_una = iss;
      snd_nxt = iss;
      snd_wnd = 0;
      snd_wl1 = 0;
      snd_wl2 = 0;
      iss = iss;
      rcv_nxt = 0;
      rcv_wnd = min recv_buf_bytes (u16_mod - 1);
      irs = 0;
      peer_mss = our_mss;
      ws_shift_out = 0;
      ws_shift_in = 0;
      ts_enabled = false;
      ts_recent = 0;
      ts_recent_age = 0;
      sack_enabled = false;
      sack_scoreboard = [];
      snd = Send.new send_buf_bytes;
      recv = Recv.new recv_buf_bytes;
      our_fin_seq = none;
      time_wait_deadline_ns = none;
      last_advertised_wnd = none;
      last_sack_trigger = none;
      timer_ids = [];
      snd_retrans = [];
      rtt_est = Rtt.new min_rto_us initial_rto_us max_rto_us;
      rto_timer_id = none;
      tlp_timer_id = none;
      syn_retrans_count = 0;
      syn_retrans_timer_id = none;
      is_passive_open = false;
      rack_aggressive = false;
      rto_no_backoff = false;
      rack = Rack.new;
      tlp_pto_min_floor_us = 0;
      tlp_pto_srtt_multiplier_x100 = Tlp.default_multiplier_x100;
      tlp_skip_flight_size_gate = false;
      tlp_max_consecutive_probes = Tlp.default_max_consecutive_probes;
      tlp_skip_rtt_sample_gate = false;
      tlp_consecutive_probes_fired = 0;
      tlp_rtt_sample_seen_since_last_tlp = false;
      tlp_recent_probes = replicate 5 none;
      tlp_recent_probes_next_slot = 0;
      syn_tx_ts_ns = 0;
      send_refused_pending = false;
      force_tw_skip = false;
      rtt_histogram = replicate 16 0;
      delivered_segments = [];
    }

-- The overrides of a connection from `new_client`.
unfoldable pub absorb_syn : TcpConn → ℕ → TcpOpts → ℕ → TcpConn
absorb_syn c iss_peer opts now_ns = record c {
  state = syn_received;
  is_passive_open = true;
  rcv_nxt = wrapping_add32 iss_peer 1;
  irs = iss_peer;
  peer_mss = elim opts.mss [ none ↦ 536 | some m ↦ m ];
  ws_shift_in = elim opts.wscale [ none ↦ 0 | some ws ↦ min ws 14 ];
  ts_enabled = elim opts.timestamps [ none ↦ false | some t ↦ true ];
  ts_recent = elim opts.timestamps [ none ↦ c.ts_recent | some (tsval, tsecr) ↦ tsval ];
  ts_recent_age = elim opts.timestamps [ none ↦ c.ts_recent_age | some t ↦ now_ns ];
  sack_enabled = opts.sack_permitted;
}

unfoldable pub new_passive : FourTuple → ℕ → ℕ → TcpOpts → ℕ → ℕ → ℕ → ℕ → ℕ → ℕ → ℕ → TcpConn
unfolding new_client absorb_syn
new_passive tuple iss iss_peer opts our_mss recv_bytes send_bytes min_rto initial_rto max_rto
      now_ns =
    absorb_syn (new_client tuple iss our_mss recv_bytes send_bytes min_rto initial_rto max_rto)
      iss_peer opts now_ns
