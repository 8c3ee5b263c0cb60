-- ===== src/Buffers/Recv.antt =====
-- `RecvQueue`. A sum of `u32`s wraps, as in a release build.
use resd_dpdk_tcp.Base.{ℕ, ◌-◌, List, [], ◌∷◌, wrapping_add32}
use resd_dpdk_tcp.Reassembly.{ReorderQueue, InOrderSegment}
use resd_dpdk_tcp.Reassembly

pub record RecvQueue : Type 0 where
  pub bytes : List InOrderSegment
  pub cap : ℕ
  pub reorder : ReorderQueue

unfoldable pub new : ℕ → RecvQueue
new cap = record { bytes = []; cap = cap; reorder = Reassembly.new cap }

unfoldable pub sum_len : List InOrderSegment → ℕ
sum_len [] = 0
sum_len (s ∷ segs) = wrapping_add32 s.len (sum_len segs)

unfoldable pub buffered_bytes : RecvQueue → ℕ
unfolding sum_len
buffered_bytes q = sum_len q.bytes

unfoldable pub free_space : RecvQueue → ℕ
unfolding buffered_bytes
free_space q = q.cap - buffered_bytes q

unfoldable pub free_space_total : RecvQueue → ℕ
unfolding buffered_bytes
free_space_total q = q.cap - buffered_bytes q - q.reorder.total_bytes
