-- ===== src/Rack/Order.antt =====
-- RACK's state is the newest acknowledged transmission.
use resd_dpdk_tcp.Base.{
  ℕ, ◌+◌, ◌*◌, ◌/◌, ◌≤◌, ◌<◌, ◌≡◌, ◌↔◌, ◌⊎◌, Bool, true, false, ltb, u32_mod, arith, some, max,
}
use resd_dpdk_tcp.Seq.{seq_lt}
use resd_dpdk_tcp.Seq.Order.{IsAhead, offset, seq_lt-offset}
use resd_dpdk_tcp.Rack.{RackState, update_on_ack, detect_lost, compute_reo_wnd_us}

-- The order of RFC 8985, 6.2: a later transmission, or the same time and a later end.
abbrev pub SentAfter : ℕ → ℕ → ℕ → ℕ → ℕ → Type 0
SentAfter base t1 s1 t2 s2 = (t2 < t1) ⊎ ((t1 ≡ t2) × (offset base s2 < offset base s1))

module _ (base : ℕ) (hb : base < u32_mod) where
  -- Acknowledging two segments in either order leaves the same RACK state. For ends within 2 ^ 31 of
  -- a base.
  pub update_on_ack_comm :
      (r : RackState) (t1 s1 t2 s2 : ℕ)
      → IsAhead base r.end_seq
      → IsAhead base s1
      → IsAhead base s2
      → update_on_ack (update_on_ack r t1 s1) t2 s2 ≡ update_on_ack (update_on_ack r t2 s2) t1 s1
  unfolding update_on_ack
  update_on_ack_comm r t1 s1 t2 s2 hr h1 h2 = ground (
    arith,
    seq_lt-offset base r.end_seq s1 hb hr h1,
    seq_lt-offset base r.end_seq s2 hb hr h2,
    seq_lt-offset base s1 s2 hb h1 h2,
    seq_lt-offset base s2 s1 hb h2 h1,
  )

  -- RACK declares a segment lost exactly if a segment sent after it was acknowledged and more than
  -- the reordering window has passed since it was sent. For ends within 2 ^ 31 of a base.
  pub detect_lost_iff :
      (r : RackState) (xmit stop now reo : ℕ)
      → IsAhead base r.end_seq
      → IsAhead base stop
      → (detect_lost r xmit stop now reo ≡ true)
        ↔ (SentAfter base r.xmit_ts_ns r.end_seq xmit stop × (xmit + reo * 1000 < now))
  unfolding detect_lost
  detect_lost_iff r xmit stop now reo hr hs =
      (λ t. (sent t, ground arith), λ (s, late). ground (arith, order))
    where
      order : seq_lt stop r.end_seq ≡ ltb (offset base stop) (offset base r.end_seq)
      order = seq_lt-offset base stop r.end_seq hb hs hr

      sent :
          detect_lost r xmit stop now reo ≡ true → SentAfter base r.xmit_ts_ns r.end_seq xmit stop
      sent t = ground (arith, order)

-- The reordering window is 0 in aggressive mode. Otherwise it is at least 1 ms, and above that never
-- more than half the least RTT, nor than a quarter of the smoothed one.
pub compute_reo_wnd_bounds :
    (aggressive : Bool) (min_rtt srtt : ℕ)
    → let w = compute_reo_wnd_us aggressive min_rtt (some srtt) in
      (aggressive ≡ true → w ≡ 0)
      × (aggressive ≡ false → (1000 ≤ w) × (w ≤ max 1000 (min_rtt / 2)) × (w ≤ max 1000 (srtt / 4)))
unfolding compute_reo_wnd_us
compute_reo_wnd_bounds true min_rtt srtt = (λ h. omega arith, λ h. cc)
compute_reo_wnd_bounds false min_rtt srtt = (λ h. cc, λ h. (omega arith, omega arith, omega arith))
