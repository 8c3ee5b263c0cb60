-- ===== src/Conn.antt =====
-- The state of a connection, crates/dpdk-net-core/src/tcp_state.rs and tcp_conn.rs, but for the scratch
-- buffer `readable_scratch_iovecs`. An `impl` method that takes `&mut self` returns the connection.
pub mod Fresh
pub mod Probes
pub mod Budget
use resd_dpdk_tcp.Base.{
  ℕ, ◌-◌, ◌*◌, ◌/◌, min, Bool, true, false, not, ◌&&◌, Option, none, some, List, [], ◌∷◌, ltb, leb,
  ◌==◌, if◌then◌else◌, wrapping_add32, wrapping_sub32, as_u32, u64_mod,
}
use resd_dpdk_tcp.Seq.{seq_lt, seq_le}
use resd_dpdk_tcp.Options.{SackBlock}
use resd_dpdk_tcp.Retrans.{SendRetrans}
use resd_dpdk_tcp.Rack.{RackState}
use resd_dpdk_tcp.Rtt.{RttEstimator}
use resd_dpdk_tcp.Buffers.Send.{SendQueue}
use resd_dpdk_tcp.Buffers.Recv.{RecvQueue}
use resd_dpdk_tcp.Reassembly.{InOrderSegment}
use resd_dpdk_tcp.FlowTable.{FourTuple}
use resd_dpdk_tcp.Rack
use resd_dpdk_tcp.Rtt
use resd_dpdk_tcp.Histogram
use resd_dpdk_tcp.TimerWheel.{TimerId}

pub data TcpState : Type 0 where
  closed listen syn_sent syn_received established fin_wait1 fin_wait2 close_wait closing last_ack
        time_wait :
      TcpState

pub record RecentProbe : Type 0 where
  pub seq : ℕ
  pub len : ℕ
  pub tx_ts_ns : ℕ
  pub attributed : Bool

pub record TcpConn : Type 0 where
  pub four_tuple : FourTuple
  pub state : TcpState
  pub snd_una : ℕ
  pub snd_nxt : ℕ
  pub snd_wnd : ℕ
  pub snd_wl1 : ℕ
  pub snd_wl2 : ℕ
  pub iss : ℕ
  pub rcv_nxt : ℕ
  pub rcv_wnd : ℕ
  pub irs : ℕ
  pub peer_mss : ℕ
  pub ws_shift_out : ℕ
  pub ws_shift_in : ℕ
  pub ts_enabled : Bool
  pub ts_recent : ℕ
  pub ts_recent_age : ℕ
  pub sack_enabled : Bool
  pub sack_scoreboard : List SackBlock
  pub snd : SendQueue
  pub recv : RecvQueue
  pub our_fin_seq : Option ℕ
  pub time_wait_deadline_ns : Option ℕ
  pub last_advertised_wnd : Option ℕ
  pub last_sack_trigger : Option (ℕ × ℕ)
  pub timer_ids : List TimerId
  pub snd_retrans : SendRetrans
  pub rtt_est : RttEstimator
  pub rto_timer_id : Option TimerId
  pub tlp_timer_id : Option TimerId
  pub syn_retrans_count : ℕ
  pub syn_retrans_timer_id : Option TimerId
  pub is_passive_open : Bool
  pub rack_aggressive : Bool
  pub rto_no_backoff : Bool
  pub rack : RackState
  pub tlp_pto_min_floor_us : ℕ
  pub tlp_pto_srtt_multiplier_x100 : ℕ
  pub tlp_skip_flight_size_gate : Bool
  pub tlp_max_consecutive_probes : ℕ
  pub tlp_skip_rtt_sample_gate : Bool
  pub tlp_consecutive_probes_fired : ℕ
  pub tlp_rtt_sample_seen_since_last_tlp : Bool
  pub tlp_recent_probes : List (Option RecentProbe)
  pub tlp_recent_probes_next_slot : ℕ
  pub syn_tx_ts_ns : ℕ
  pub send_refused_pending : Bool
  pub force_tw_skip : Bool
  pub rtt_histogram : List ℕ
  pub delivered_segments : List InOrderSegment

unfoldable pub fin_has_been_acked : TcpConn → ℕ → Bool
fin_has_been_acked c ack_seq = elim c.our_fin_seq [
  | none ↦ false
  | some fs ↦ not (seq_lt ack_seq (wrapping_add32 fs 1))
]

-- With histograms, as without the feature `obs-none`.
unfoldable pub maybe_seed_srtt_from_syn : TcpConn → ℕ → List ℕ → TcpConn
maybe_seed_srtt_from_syn c now_ns edges =
    let rtt_us = wrapping_sub32 (as_u32 (now_ns / 1000)) (as_u32 (c.syn_tx_ts_ns / 1000)) in
    if not (c.syn_retrans_count == 0)
    then c
    else if c.syn_tx_ts_ns == 0
    then c
    else if not (leb 1 rtt_us && ltb rtt_us 60000000)
    then c
    else record c {
      rtt_est = Rtt.sample c.rtt_est rtt_us;
      rack = Rack.update_min_rtt c.rack rtt_us;
      rtt_histogram = Histogram.update c.rtt_histogram rtt_us edges;
    }

-- The probes up to the one that the block accounts for, which is marked.
unfoldable pub attribute_probe :
    ℕ → ℕ → ℕ → ℕ → List (Option RecentProbe) → Option (List (Option RecentProbe))
attribute_probe left right now_ns window_ns [] = none
attribute_probe left right now_ns window_ns (none ∷ probes) =
    elim (attribute_probe left right now_ns window_ns probes) [
      | none ↦ none
      | some ps ↦ some (none ∷ ps)
    ]
attribute_probe left right now_ns window_ns (some p ∷ probes) =
    let rest : Option (List (Option RecentProbe)) =
      elim (attribute_probe left right now_ns window_ns probes) [
        | none ↦ none
        | some ps ↦ some (some p ∷ ps)
      ] in
    let hit =
      not p.attributed
      && seq_le left p.seq
      && seq_le (wrapping_add32 p.seq p.len) right
      && ltb (now_ns - p.tx_ts_ns) window_ns in
    if hit then some (some (record p { attributed = true }) ∷ probes) else rest

abbrev pub probe_window_ns : TcpConn → ℕ
probe_window_ns c =
    let srtt_us : ℕ = elim c.rtt_est.srtt_us [ none ↦ c.rack.min_rtt_us | some s ↦ s ] in
    let effective_srtt_us = if srtt_us == 0 then 1000000 else srtt_us in
    min (effective_srtt_us * 1000 * 4) (u64_mod - 1)

unfoldable pub attribute_dsack_to_recent_tlp_probe : TcpConn → ℕ → ℕ → ℕ → TcpConn × Bool
unfolding attribute_probe
attribute_dsack_to_recent_tlp_probe c left right now_ns =
    elim (attribute_probe left right now_ns (probe_window_ns c) c.tlp_recent_probes) [
      | none ↦ (c, false)
      | some ps ↦ (record c { tlp_recent_probes = ps }, true)
    ]
