-- ===== src/Buffers/Send.antt =====
-- `SendQueue`. A byte is a number; the capacity that the `VecDeque` reserves is not modelled.
use resd_dpdk_tcp.Base.{ℕ, ◌-◌, min, List, [], ◌++◌, length, take, as_u32}

pub record SendQueue : Type 0 where
  pub pending : List ℕ
  pub cap : ℕ

unfoldable pub new : ℕ → SendQueue
new cap = record { pending = []; cap = cap }

unfoldable pub free_space : SendQueue → ℕ
free_space q = q.cap - as_u32 (length q.pending)

unfoldable pub push : SendQueue → List ℕ → SendQueue × ℕ
unfolding free_space
push q bytes =
    let n = min (length bytes) (free_space q) in
    (record q { pending = q.pending ++ take n bytes }, as_u32 n)
