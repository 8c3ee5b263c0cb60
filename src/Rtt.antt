-- ===== src/Rtt.antt =====
-- The RTT estimator of RFC 6298, crates/dpdk-net-core/src/tcp_rtt.rs. A method that takes
-- `&mut self` returns the new estimator.
pub mod Bounds
pub mod Rfc
use resd_dpdk_tcp.Base.{
  ℕ, ◌+◌, ◌-◌, ◌/◌, max, min, Option, none, some, ltb, leb, if◌then◌else◌, wrapping_add32,
  saturating_add32, saturating_mul32,
}

pub record RttEstimator : Type 0 where
  pub srtt_us : Option ℕ
  pub rttvar_us : ℕ
  pub rto_us : ℕ
  pub min_rto_us : ℕ
  pub max_rto_us : ℕ

-- `u32::abs_diff`
abbrev pub abs_diff : ℕ → ℕ → ℕ
abs_diff a b = if leb b a then a - b else b - a

-- `Ord::clamp`. Rust panics at `hi < lo`; `Bounds.IsValid` rules that out.
abbrev pub clamp : ℕ → ℕ → ℕ → ℕ
clamp x lo hi = if ltb x lo then lo else if ltb hi x then hi else x

-- The two assertions of the source are `debug_assert!`s; `Bounds.new-IsValid` assumes them.
unfoldable pub new : ℕ → ℕ → ℕ → RttEstimator
new min_rto_us initial_rto_us max_rto_us = record {
  srtt_us = none;
  rttvar_us = 0;
  rto_us = max initial_rto_us min_rto_us;
  min_rto_us = min_rto_us;
  max_rto_us = max_rto_us;
}

-- The `match` of `sample`: the new SRTT and RTTVAR.
unfoldable pub smooth : Option ℕ → ℕ → ℕ → ℕ × ℕ
smooth none rttvar rtt = (rtt, rtt / 2)
smooth (some srtt) rttvar rtt = (
  wrapping_add32 (srtt - srtt / 8) (rtt / 8),
  wrapping_add32 (rttvar - rttvar / 4) (abs_diff srtt rtt / 4),
)

unfoldable pub sample : RttEstimator → ℕ → RttEstimator
unfolding smooth
sample e rtt_us =
    let (srtt, rttvar) = smooth e.srtt_us e.rttvar_us (max rtt_us 1) in
    let rto = saturating_add32 srtt (saturating_mul32 rttvar 4) in
    record e {
      srtt_us = some srtt;
      rttvar_us = rttvar;
      rto_us = clamp rto e.min_rto_us e.max_rto_us;
    }

unfoldable pub apply_backoff : RttEstimator → RttEstimator
apply_backoff e = record e { rto_us = min (saturating_mul32 e.rto_us 2) e.max_rto_us }
