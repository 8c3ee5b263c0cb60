-- ===== src/Engine.antt =====
-- The parts of the engine, crates/dpdk-net-core/src/engine.rs, that compute: its constants and small
-- helpers here, the acknowledgements in Acks, the resets in Resets and `send_bytes` in Send.
pub mod Words
pub mod Acks
pub mod Send
pub mod Chain
pub mod Rounds
pub mod Sent
pub mod Drained
pub mod Resets
pub mod Answers
pub mod Window
pub mod Pushed
pub mod Blocks
pub mod Carried
pub mod Emitted
use resd_dpdk_tcp.Base.{
  ℕ, zero, suc, ◌+◌, ◌-◌, ◌*◌, ◌/◌, ◌%◌, ◌^◌, min, Bool, true, false, not, ◌&&◌, ◌||◌, Option, none,
  some, List, [], ◌∷◌, ltb, leb, ◌==◌, if◌then◌else◌, as_u32, u16_mod, u32_mod, u64_mod,
}
use resd_dpdk_tcp.Options.{TcpOpts, default_opts}
use resd_dpdk_tcp.TimerWheel.{TimerId, tick_ns}
use resd_dpdk_tcp.Net.{Result, ok, err}

abbrev pub default_rtt_histogram_edges_us : List ℕ
default_rtt_histogram_edges_us =
    50 ∷ 100 ∷ 200 ∷ 300 ∷ 500 ∷ 750 ∷ 1000 ∷ 2000 ∷ 3000 ∷ 5000 ∷ 10000 ∷ 25000 ∷ 50000 ∷ 100000
    ∷ 500000 ∷ []

-- The two values of `Error` that the functions below return.
pub data Error : Type 0 where
  invalid_histogram_edges : Error
  invalid_local_addr : ℕ → Error

unfoldable pub all_zero : List ℕ → Bool
all_zero [] = true
all_zero (e ∷ edges) = (e == 0) && all_zero edges

-- The loop over adjacent edges.
unfoldable pub increasing : List ℕ → Bool
increasing [] = true
increasing (e ∷ []) = true
increasing (e ∷ f ∷ edges) = if leb f e then false else increasing (f ∷ edges)

unfoldable pub validate_and_default_histogram_edges : List ℕ → Result Error (List ℕ)
unfolding all_zero increasing
validate_and_default_histogram_edges edges =
    if all_zero edges
    then ok default_rtt_histogram_edges_us
    else if increasing edges
    then ok edges
    else err invalid_histogram_edges

-- `|` of two words without a common bit is their sum.
unfoldable pub pack_timer_id : TimerId → ℕ
pack_timer_id id = id.slot * 2 ^ 32 + id.generation

unfoldable pub unpack_timer_id : ℕ → TimerId
unpack_timer_id packed = record { slot = as_u32 (packed / 2 ^ 32); generation = packed % 2 ^ 32 }

unfoldable pub align_up_to_tick_ns : ℕ → ℕ
align_up_to_tick_ns deadline_ns =
    let ticks =
      if deadline_ns % tick_ns == 0 then deadline_ns / tick_ns else deadline_ns / tick_ns + 1 in
    min (ticks * tick_ns) (u64_mod - 1)

-- The `while` loop, with `left` shifts until `ws` is 14; `cap << 1` drops the bit that leaves the word.
unfoldable pub ws_from : ℕ → ℕ → ℕ → ℕ → ℕ
ws_from zero recv_buffer_bytes cap ws = ws
ws_from (suc left) recv_buffer_bytes cap ws =
    let rest = ws_from left recv_buffer_bytes (as_u32 (cap * 2) + 1) (ws + 1) in
    if ltb cap recv_buffer_bytes then rest else ws

unfoldable pub compute_ws_shift_for : ℕ → ℕ
unfolding ws_from
compute_ws_shift_for recv_buffer_bytes = ws_from 14 recv_buffer_bytes (u16_mod - 1) 0

unfoldable pub build_connect_syn_opts : ℕ → ℕ → ℕ → Bool → Bool → TcpOpts
unfolding compute_ws_shift_for
build_connect_syn_opts recv_buffer_bytes our_mss now_ns ts_enabled sack_enabled =
    record default_opts {
      mss = some our_mss;
      wscale = some (compute_ws_shift_for recv_buffer_bytes);
      sack_permitted = sack_enabled;
      timestamps = if ts_enabled then some (as_u32 (now_ns / 1000), 0) else none;
    }

unfoldable pub select_source_ip : ℕ → ℕ → List ℕ → Result Error ℕ
select_source_ip requested local_ip secondaries =
    if requested == 0
    then ok local_ip
    else if (requested == local_ip) || contains secondaries
    then ok requested
    else err (invalid_local_addr requested)
  where
    contains : List ℕ → Bool
    contains [] = false
    contains (ip ∷ ips) = (ip == requested) || contains ips
