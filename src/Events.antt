-- ===== src/Events.antt =====
-- The event queue, crates/dpdk-net-core/src/tcp_events.rs, without the feature `obs-none`. An event's
-- `errno` is kept as its 32-bit word, and a pointer of an iovec as its address. `Clone` is not modelled.
pub mod Newest
use resd_dpdk_tcp.Base.{
  ℕ, ◌+◌, ◌%◌, max, Bool, Option, none, some, List, [], ◌∷◌, ◌++◌, length, ltb, leb, if◌then◌else◌,
  u64_mod,
}
use resd_dpdk_tcp.Conn.{TcpState}
use resd_dpdk_tcp.Reassembly.{InOrderSegment}
use resd_dpdk_tcp.TimerWheel.{TimerId}

pub data LossCause : Type 0 where
  by_rack by_tlp by_rto : LossCause

-- `iovec::DpdkNetIovec`
pub record DpdkNetIovec : Type 0 where
  pub base : ℕ
  pub len : ℕ

-- The fields of each variant in the order of the source; `conn` first, `emitted_ts_ns` last.
pub data InternalEvent : Type 0 where
  connected : ℕ → (rx_hw_ts_ns emitted_ts_ns : ℕ) → InternalEvent
  readable :
      ℕ
      → List DpdkNetIovec
      → List InOrderSegment
      → (total_len rx_hw_ts_ns emitted_ts_ns : ℕ) → InternalEvent
  closed : ℕ → (err emitted_ts_ns : ℕ) → InternalEvent
  state_change : ℕ → TcpState → TcpState → (emitted_ts_ns : ℕ) → InternalEvent
  error : ℕ → (err emitted_ts_ns : ℕ) → InternalEvent
  tcp_retrans : ℕ → (seq rtx_count emitted_ts_ns : ℕ) → InternalEvent
  tcp_loss_detected : ℕ → LossCause → (emitted_ts_ns : ℕ) → InternalEvent
  api_timer : TimerId → (user_data emitted_ts_ns : ℕ) → InternalEvent
  writable : ℕ → (emitted_ts_ns : ℕ) → InternalEvent

pub record EventQueue : Type 0 where
  pub q : List InternalEvent
  pub soft_cap : ℕ

-- The counters of `counters.obs` that the queue changes.
pub record ObsCounters : Type 0 where
  pub events_dropped : ℕ
  pub events_queue_high_water : ℕ

abbrev pub min_soft_cap : ℕ
min_soft_cap = 64

abbrev pub default_soft_cap : ℕ
default_soft_cap = 4096

-- `none` is the failed assertion.
unfoldable pub with_cap : ℕ → Option EventQueue
with_cap cap = if leb min_soft_cap cap then some (record { q = []; soft_cap = cap }) else none

abbrev pub pop_front : List InternalEvent → List InternalEvent
pop_front [] = []
pop_front (ev ∷ evs) = evs

unfoldable pub push : InternalEvent → EventQueue × ObsCounters → EventQueue × ObsCounters
push ev (queue, obs) =
    let is_full = leb queue.soft_cap (length queue.q) in
    let q = (if is_full then pop_front queue.q else queue.q) ++ (ev ∷ []) in
    (
      record queue { q = q },
      record {
        events_dropped = if is_full then (obs.events_dropped + 1) % u64_mod else obs.events_dropped;
        events_queue_high_water = max obs.events_queue_high_water (length q);
      },
    )

unfoldable pub pop : EventQueue → EventQueue × Option InternalEvent
pop queue = elim queue.q [ [] ↦ (queue, none) | ev ∷ evs ↦ (record queue { q = evs }, some ev) ]
