-- ===== src/Conn/Probes.antt =====
-- The budget of tail loss probes of a connection, and its statistics.
use resd_dpdk_tcp.Base.{
  ℕ, ◌≡◌, refl, arith, ◌+◌, ◌-◌, min, ◌%◌, Bool, true, false, not, ◌&&◌, Option, none, some, List,
  [], ◌∷◌, length, set, leb, ◌==◌, if◌then◌else◌, as_u8, as_u32, u8_mod, u32_mod,
}
use resd_dpdk_tcp.Conn.{TcpConn, RecentProbe}
use resd_dpdk_tcp.Tlp.{TlpConfig}

abbrev pub is_none : {A : Type 0} → Option A → Bool
is_none none = true
is_none (some a) = false

abbrev pub is_empty : {A : Type 0} → List A → Bool
is_empty [] = true
is_empty (x ∷ xs) = false

pub is_empty-nil : {A : Type 0} (xs : List A) → is_empty xs ≡ true → xs ≡ []
is_empty-nil [] h = refl
is_empty-nil (x ∷ xs) h = absurd (ground arith)

unfoldable pub tlp_config : TcpConn → TlpConfig
tlp_config c = record {
  floor_us = if c.tlp_pto_min_floor_us == (u32_mod - 1) then 0 else c.tlp_pto_min_floor_us;
  multiplier_x100 = c.tlp_pto_srtt_multiplier_x100;
  skip_flight_size_gate = c.tlp_skip_flight_size_gate;
}

unfoldable pub tlp_arm_gate_passes : TcpConn → Bool
tlp_arm_gate_passes c =
    if is_empty c.snd_retrans
    then false
    else if not (is_none c.tlp_timer_id)
    then false
    else if leb c.tlp_max_consecutive_probes c.tlp_consecutive_probes_fired
    then false
    else if not c.tlp_skip_rtt_sample_gate && not c.tlp_rtt_sample_seen_since_last_tlp
    then false
    else if is_none c.rtt_est.srtt_us
    then false
    else true

-- A slot out of range panics in the source; `tlp_recent_probes` has five.
unfoldable pub on_tlp_probe_fired : TcpConn → ℕ → ℕ → ℕ → TcpConn
on_tlp_probe_fired c seq len tx_ts_ns =
    let slot = c.tlp_recent_probes_next_slot in
    let probe : RecentProbe = record {
      seq = seq;
      len = len;
      tx_ts_ns = tx_ts_ns;
      attributed = false;
    } in
    record c {
      tlp_recent_probes = set c.tlp_recent_probes slot (some probe);
      tlp_recent_probes_next_slot = as_u8 ((slot + 1) % length c.tlp_recent_probes);
      tlp_consecutive_probes_fired = min (c.tlp_consecutive_probes_fired + 1) (u8_mod - 1);
      tlp_rtt_sample_seen_since_last_tlp = false;
    }

unfoldable pub on_rtt_sample_tlp_hook : TcpConn → TcpConn
on_rtt_sample_tlp_hook c = record c {
  tlp_consecutive_probes_fired = 0;
  tlp_rtt_sample_seen_since_last_tlp = true;
}

unfoldable pub on_new_data_ack_tlp_hook : TcpConn → TcpConn
on_new_data_ack_tlp_hook c = record c { tlp_consecutive_probes_fired = 0 }

pub record ConnStats : Type 0 where
  pub snd_una : ℕ
  pub snd_nxt : ℕ
  pub snd_wnd : ℕ
  pub send_buf_bytes_pending : ℕ
  pub send_buf_bytes_free : ℕ
  pub srtt_us : ℕ
  pub rttvar_us : ℕ
  pub min_rtt_us : ℕ
  pub rto_us : ℕ

unfoldable pub stats : TcpConn → ℕ → ConnStats
stats c send_buffer_bytes =
    let pending = as_u32 (length c.snd.pending) in
    record {
      snd_una = c.snd_una;
      snd_nxt = c.snd_nxt;
      snd_wnd = c.snd_wnd;
      send_buf_bytes_pending = pending;
      send_buf_bytes_free = send_buffer_bytes - pending;
      srtt_us = elim c.rtt_est.srtt_us [ none ↦ 0 | some s ↦ s ];
      rttvar_us = c.rtt_est.rttvar_us;
      min_rtt_us = c.rack.min_rtt_us;
      rto_us = c.rtt_est.rto_us;
    }
