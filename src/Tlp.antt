-- ===== src/Tlp.antt =====
-- Tail loss probes, crates/dpdk-net-core/src/tcp_tlp.rs.
pub mod Bounds
use resd_dpdk_tcp.Base.{
  ℕ, ◌+◌, ◌*◌, ◌/◌, max, Bool, true, false, not, ◌&&◌, Option, none, some, ◌==◌, if◌then◌else◌,
  as_u32, saturating_add32,
}

abbrev pub wcdelack_us : ℕ
wcdelack_us = 200_000

abbrev pub default_multiplier_x100 : ℕ
default_multiplier_x100 = 200

abbrev pub default_max_consecutive_probes : ℕ
default_max_consecutive_probes = 1

pub record TlpConfig : Type 0 where
  pub floor_us : ℕ
  pub multiplier_x100 : ℕ
  pub skip_flight_size_gate : Bool

unfoldable pub a5_compat : ℕ → TlpConfig
a5_compat default_floor_us = record {
  floor_us = default_floor_us;
  multiplier_x100 = 200;
  skip_flight_size_gate = false;
}

-- The product is taken in 64 bits and cut to 32.
unfoldable pub pto_us : Option ℕ → TlpConfig → ℕ → ℕ
pto_us none cfg flight_size = cfg.floor_us
pto_us (some srtt) cfg flight_size =
    let base = as_u32 (srtt * cfg.multiplier_x100 / 100) in
    let with_penalty =
      if (flight_size == 1) && not cfg.skip_flight_size_gate
      then saturating_add32 base (max wcdelack_us (srtt / 4))
      else base in
    max with_penalty cfg.floor_us

pub data Probe : Type 0 where
  new_data last_segment_retransmit : Probe

unfoldable pub select_probe : Bool → Bool → Option Probe
select_probe snd_pending_nonempty snd_retrans_nonempty =
    if not snd_retrans_nonempty
    then none
    else if snd_pending_nonempty
    then some new_data
    else some last_segment_retransmit
