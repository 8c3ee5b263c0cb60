-- ===== src/Seq.antt =====
-- Sequence-number comparisons, crates/dpdk-net-core/src/tcp_seq.rs. Each function takes the
-- wrapped difference as an `i32`; an `i32` is its bit pattern, negative from 2 ^ 31 on.
pub mod Order
use resd_dpdk_tcp.Base.{
  ℕ, ◌^◌, Bool, false, not, ◌&&◌, ◌||◌, leb, ltb, ◌==◌, if◌then◌else◌, wrapping_sub32,
}

abbrev pub i32_min : ℕ
i32_min = 2 ^ 31

abbrev pub is_neg32 : ℕ → Bool
is_neg32 d = leb i32_min d

unfoldable pub seq_lt : ℕ → ℕ → Bool
seq_lt a b = is_neg32 (wrapping_sub32 a b)

unfoldable pub seq_le : ℕ → ℕ → Bool
seq_le a b = let d = wrapping_sub32 a b in is_neg32 d || (d == 0)

unfoldable pub seq_gt : ℕ → ℕ → Bool
seq_gt a b = let d = wrapping_sub32 a b in not (is_neg32 d) && not (d == 0)

unfoldable pub seq_ge : ℕ → ℕ → Bool
seq_ge a b = not (is_neg32 (wrapping_sub32 a b))

-- `seq` lies in the half-open window `[start, start + len)`.
unfoldable pub in_window : ℕ → ℕ → ℕ → Bool
in_window start seq len = if len == 0 then false else ltb (wrapping_sub32 seq start) len
