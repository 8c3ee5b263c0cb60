-- ===== src/Reassembly.antt =====
-- The out-of-order queue of a connection, crates/dpdk-net-core/src/tcp_reassembly.rs.
-- An mbuf is its address. The reference counts that `shim_rte_mbuf_refcnt_update` and
-- `shim_rte_pktmbuf_free_seg` change are a function of the address, passed from call to call; what the
-- pool does with an mbuf at count 0 is the driver's. `insert` reads only the length of the payload.
pub mod Insert
pub mod Drain
pub mod Refs
pub mod Fill
pub mod Account
pub mod Gaps
pub mod Visit
pub mod Scan
pub mod Stored
pub mod Placed
pub mod Delivered
pub mod Room
use resd_dpdk_tcp.Base.{ℕ, ◌+◌, ◌-◌, Bool, List, [], ◌∷◌, ◌==◌, if◌then◌else◌, wrapping_add32}

pub record OooSegment : Type 0 where
  pub seq : ℕ
  pub mbuf : ℕ
  pub offset : ℕ
  pub len : ℕ

abbrev pub end_seq : OooSegment → ℕ
end_seq s = wrapping_add32 s.seq s.len

pub record InsertOutcome : Type 0 where
  pub newly_buffered : ℕ
  pub cap_dropped : ℕ
  pub mbuf_ref_retained : Bool

pub record ReorderQueue : Type 0 where
  pub segments : List OooSegment
  pub cap : ℕ
  pub total_bytes : ℕ

-- `tcp_conn::InOrderSegment`
pub record InOrderSegment : Type 0 where
  pub mbuf : ℕ
  pub offset : ℕ
  pub len : ℕ

unfoldable pub new : ℕ → ReorderQueue
new cap = record { segments = []; cap = cap; total_bytes = 0 }

-- Reference counts.
abbrev pub Refs : Type 0
Refs = ℕ → ℕ

abbrev pub add_refs : ℕ → ℕ → Refs → Refs
add_refs m n refs a = if a == m then refs a + n else refs a

abbrev pub drop_ref : ℕ → Refs → Refs
drop_ref m refs a = if a == m then refs a - 1 else refs a

-- The loop of `clear` and of `Drop`.
unfoldable pub drop_all : List OooSegment → Refs → Refs
drop_all [] refs = refs
drop_all (s ∷ segs) refs = drop_all segs (drop_ref s.mbuf refs)

unfoldable pub clear : ReorderQueue → Refs → ReorderQueue × Refs
unfolding drop_all
clear q refs = (record q { segments = []; total_bytes = 0 }, drop_all q.segments refs)
