-- ===== src/Tlp/Bounds.antt =====
-- What the probe timeout guarantees.
use resd_dpdk_tcp.Base.{
  ℕ, ◌+◌, ◌*◌, ◌/◌, ◌≤◌, ◌<◌, ◌≡◌, max, some, arith, ◌==◌, if◌then◌else◌, ◌&&◌, not,
}
use resd_dpdk_tcp.Tlp.{TlpConfig, pto_us, wcdelack_us}

-- The penalty of RFC 8985, 7.2, for a single segment in flight.
abbrev pub penalty : TlpConfig → ℕ → ℕ → ℕ
penalty cfg flight srtt =
    if (flight == 1) && not cfg.skip_flight_size_gate then max wcdelack_us (srtt / 4) else 0

-- For an SRTT below 60 s, the estimator's limit on samples, and a multiplier of at most 2.0 the
-- probe timeout is exactly the formula of RFC 8985, 7.2: the floor, or the scaled SRTT plus the
-- penalty if that is more; no 32-bit cut changes it.
pub pto-exact :
    (srtt flight : ℕ) (cfg : TlpConfig)
    → srtt < 60_000_000
    → cfg.multiplier_x100 ≤ 200
    → pto_us (some srtt) cfg flight
      ≡ max (srtt * cfg.multiplier_x100 / 100 + penalty cfg flight srtt) cfg.floor_us
unfolding pto_us
pto-exact srtt flight cfg hs hm =
    let scaled : srtt * cfg.multiplier_x100 ≤ 60_000_000 * 200 = grind arith in ground arith
