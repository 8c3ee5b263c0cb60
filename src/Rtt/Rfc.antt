-- ===== src/Rtt/Rfc.antt =====
-- The estimator against RFC 6298 over unbounded numbers, and its exponential backoff.
use resd_dpdk_tcp.Base.{
  ℕ, zero, suc, ◌+◌, ◌-◌, ◌*◌, ◌/◌, ◌^◌, ◌≤◌, ◌<◌, ◌≡◌, min, max, Option, none, some, arith,
  u32_mod, ap, ◌∙◌,
}
use native.Mathlib.Decide.{dec_le}
use native.Mathlib.Nat.{pow-suc}
use resd_dpdk_tcp.Rtt.{RttEstimator, smooth, sample, apply_backoff, abs_diff, clamp}
use resd_dpdk_tcp.Rtt.Bounds.{IsValid, apply_backoff-IsValid}

-- RFC 6298, 2.2 and 2.3, with alpha = 1/8 and beta = 1/4 in whole microseconds and no word width.
abbrev pub rfc_smooth : Option ℕ → ℕ → ℕ → ℕ × ℕ
rfc_smooth none rttvar rtt = (rtt, rtt / 2)
rfc_smooth (some srtt) rttvar rtt =
    (srtt - srtt / 8 + rtt / 8, rttvar - rttvar / 4 + abs_diff srtt rtt / 4)

abbrev pub rfc_sample : RttEstimator → ℕ → RttEstimator
rfc_sample e rtt_us =
    let (srtt, rttvar) = rfc_smooth e.srtt_us e.rttvar_us (max rtt_us 1) in
    record e {
      srtt_us = some srtt;
      rttvar_us = rttvar;
      rto_us = clamp (srtt + 4 * rttvar) e.min_rto_us e.max_rto_us;
    }

-- The smoothed RTT moves towards the new sample and never past it.
pub sample-between :
    {e : RttEstimator} (s rtt : ℕ)
    → IsValid e
    → e.srtt_us ≡ some s
    → 1 ≤ rtt
    → rtt < u32_mod
    → (t : ℕ) × ((sample e rtt).srtt_us ≡ some t) × (min s rtt ≤ t) × (t ≤ max s rtt)
unfolding sample smooth
sample-between {e} s rtt v h h1 h2 = (s - s / 8 + rtt / 8, ground arith, omega arith, omega arith)

-- `n` timeouts in a row.
abbrev pub backoffs : ℕ → RttEstimator → RttEstimator
backoffs zero e = e
backoffs (suc n) e = backoffs n (apply_backoff e)

le-mul : (a b p : ℕ) → a ≤ b → 1 ≤ p → a ≤ b * p
le-mul a b p h q = grind arith

backoff_step :
    (a p hi : ℕ)
    → hi < u32_mod
    → a ≤ hi
    → 1 ≤ p
    → min (min (min (a * 2) (u32_mod - 1)) hi * p) hi ≡ min (a * (2 * p)) hi
backoff_step a p hi h k q = elim (dec_le (a * 2) hi) [
  | yes le ↦
      let e : min (min (a * 2) (u32_mod - 1)) hi ≡ a * 2 = omega arith in
      rw e (ap (λ t. min t hi) (omega arith))
  | no gt ↦
      let e : min (min (a * 2) (u32_mod - 1)) hi ≡ hi = omega arith in
      rw e (omega (arith, le-mul hi hi p (omega arith) q, le-mul hi (a * 2) p (omega arith) q))
]

pow_pos : (n : ℕ) → 1 ≤ 2 ^ n
pow_pos zero = omega arith
pow_pos (suc n) = rw pow-suc (omega (arith, pow_pos n))

double_pow : (n : ℕ) → 2 * 2 ^ n ≡ 2 ^ suc n
double_pow n = rw pow-suc (omega arith)

-- After `n` timeouts in a row on a valid estimator the RTO is the old one times 2 ^ n, up to
-- `max_rto_us`.
pub rto-backoffs :
    (n : ℕ) {e : RttEstimator}
    → IsValid e
    → (backoffs n e).rto_us ≡ min (e.rto_us * 2 ^ n) e.max_rto_us
unfolding apply_backoff
rto-backoffs zero {e} v = omega (arith, v)
rto-backoffs (suc n) {e} v =
    rto-backoffs n (apply_backoff-IsValid v)
    ∙ backoff_step e.rto_us (2 ^ n) e.max_rto_us v.max_word v.rto_le_max (pow_pos n)
    ∙ ap (λ t. min (e.rto_us * t) e.max_rto_us) (double_pow n)
