-- ===== src/TimerWheel/Levels.antt =====
-- Where a delay goes.
use resd_dpdk_tcp.Base.{ℕ, ◌+◌, ◌*◌, ◌/◌, ◌^◌, ◌≤◌, ◌<◌, arith, u64_mod}
use resd_dpdk_tcp.TimerWheel.{tick_ns, level_and_bucket_offset, search_level, bucket_count}

-- A delay of 64-bit nanoseconds goes to one of the seven lower levels, and to the bucket, at least
-- one ahead, whose span holds it; a delay below one tick goes to the next bucket.
pub level_and_bucket_offset-holds :
    (delay_ns : ℕ)
    → delay_ns < u64_mod
    → let delay = delay_ns / tick_ns in
      let (level, off) = level_and_bucket_offset delay in
      (level ≤ 6)
      × (1 ≤ off)
      × (off < bucket_count)
      × (delay < (off + 1) * 256 ^ level)
      × (1 ≤ delay → off * 256 ^ level ≤ delay)
unfolding level_and_bucket_offset search_level
level_and_bucket_offset-holds delay_ns h = ground arith
