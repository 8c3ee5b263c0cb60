-- ===== src/Buffers/Room.antt =====
-- The receive buffer within its capacity.
use resd_dpdk_tcp.Base.{◌+◌, ◌≤◌, ◌<◌, ◌≡◌, List, [], ◌∷◌, arith, u32_mod}
use resd_dpdk_tcp.Reassembly.{InOrderSegment}
use resd_dpdk_tcp.Reassembly.Delivered.{out_len}
use resd_dpdk_tcp.Buffers.Recv.{RecvQueue, sum_len, free_space}

pub record IsWithin (q : RecvQueue) : Type 0 where
  pub word : q.cap < u32_mod
  pub within : out_len q.bytes ≤ q.cap

sum_len-eq-out_len :
    (segs : List InOrderSegment) → out_len segs < u32_mod → sum_len segs ≡ out_len segs
unfolding sum_len
sum_len-eq-out_len [] h = omega arith
sum_len-eq-out_len (s ∷ segs) h = omega (arith, sum_len-eq-out_len segs (omega arith))

-- The room and the bytes held make up the capacity.
pub free_space_lem : (q : RecvQueue) → IsWithin q → out_len q.bytes + free_space q ≡ q.cap
unfolding free_space
free_space_lem q v =
    omega (arith, v.word, v.within, sum_len-eq-out_len q.bytes (omega (arith, v.word, v.within)))
