-- ===== src/Histogram.antt =====
-- The RTT histogram, crates/dpdk-net-core/src/rtt_histogram.rs: 16 counters of 32 bits, and 15
-- edges that the engine owns.
pub mod Laws
use resd_dpdk_tcp.Base.{ℕ, ◌+◌, List, [], ◌∷◌, get_or, set, leb, if◌then◌else◌, wrapping_add32}

-- The loop of `select_bucket` over the edges from index `i` on.
unfoldable pub select_from : ℕ → List ℕ → ℕ → ℕ
select_from rtt_us [] i = 15
select_from rtt_us (e ∷ edges) i = if leb rtt_us e then i else select_from rtt_us edges (i + 1)

unfoldable pub select_bucket : ℕ → List ℕ → ℕ
unfolding select_from
select_bucket rtt_us edges = select_from rtt_us edges 0

-- An index out of range would panic in Rust; `Laws.select_bucket-lt` rules it out.
unfoldable pub update : List ℕ → ℕ → List ℕ → List ℕ
update buckets rtt_us edges =
    let b = select_bucket rtt_us edges in set buckets b (wrapping_add32 (get_or buckets b 0) 1)
