-- ===== src/Rtt/Bounds.antt =====
-- The invariant of the RTT estimator: the RTO stays between its configured bounds.
use resd_dpdk_tcp.Base.{ℕ, ◌≤◌, ◌<◌, max, Option, none, some, arith, u32_mod}
use resd_dpdk_tcp.Rtt.{RttEstimator, new, smooth, sample, apply_backoff}

-- A present SRTT is at least 1 µs.
abbrev pub IsSrtt : Option ℕ → Type 0
IsSrtt none = Unit {0}
IsSrtt (some s) = (1 ≤ s) × (s < u32_mod)

pub record IsValid (e : RttEstimator) : Type 0 where
  pub srtt : IsSrtt e.srtt_us
  pub rttvar_word : e.rttvar_us < u32_mod
  pub min_le_rto : e.min_rto_us ≤ e.rto_us
  pub rto_le_max : e.rto_us ≤ e.max_rto_us
  pub max_word : e.max_rto_us < u32_mod

pub new-IsValid : (lo init hi : ℕ) → lo ≤ init → init ≤ hi → hi < u32_mod → IsValid (new lo init hi)
unfolding new
new-IsValid lo init hi h1 h2 h3 = ground arith

pub smooth_bounds :
    (o : Option ℕ) (v r : ℕ)
    → IsSrtt o
    → v < u32_mod
    → 1 ≤ r
    → r < u32_mod
    → let (s', v') = smooth o v r in (1 ≤ s') × (s' < u32_mod) × (v' < u32_mod)
unfolding smooth
smooth_bounds none v r hs hv h1 h2 = omega arith
smooth_bounds (some s) v r hs hv h1 h2 = omega arith

-- A sample of 32 bits keeps an estimator valid: the RTO lies between `min_rto_us` and
-- `max_rto_us`, and a present SRTT is never 0.
pub sample-IsValid :
    {e : RttEstimator} (rtt : ℕ) → IsValid e → rtt < u32_mod → IsValid (sample e rtt)
unfolding sample
sample-IsValid {e} rtt v h = ground (
  arith,
  smooth_bounds e.srtt_us e.rttvar_us (max rtt 1) v.srtt v.rttvar_word (omega arith) (omega arith),
)

pub apply_backoff-IsValid : {e : RttEstimator} → IsValid e → IsValid (apply_backoff e)
unfolding apply_backoff
apply_backoff-IsValid v = ground arith
