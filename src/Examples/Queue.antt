-- ===== src/Examples/Queue.antt =====
-- The out-of-order queue.
use resd_dpdk_tcp.Base.{ℕ, List, ◌++◌, ◌+◌, ◌≤◌, ◌<◌, ◌≡◌, ◌⊎◌, [], ◌∷◌, arith, refl, ◌&&◌, ◌==◌}
use resd_dpdk_tcp.Seq.Order.{offset}
use resd_dpdk_tcp.Reassembly.{OooSegment, ReorderQueue, Refs}
use resd_dpdk_tcp.Reassembly.Insert.{insert, call_of}
use resd_dpdk_tcp.Reassembly.Drain.{drain_contiguous_into}
use resd_dpdk_tcp.Reassembly.Refs.{held, handed, one_if, insert_balance, drain_balance}
use resd_dpdk_tcp.Reassembly.Delivered.{out_len, Behind, drain_contiguous_into-Behind}
use resd_dpdk_tcp.Reassembly.Account.{IsSegment, IsQueue, IsCall, Stored}
use resd_dpdk_tcp.Reassembly.Stored.{segments_len, IsAccounted, insert-IsAccounted}
use resd_dpdk_tcp.Reassembly.Placed.{HoldsAt, IsByte, insert-HoldsAt}

abbrev segment : ℕ → ℕ → OooSegment
segment s n = record { seq = s; mbuf = 64; offset = 54; len = n }

-- Bytes 200 to 299 and 400 to 499 are stored; a payload of 300 bytes from 150 arrives.
abbrev partly : ReorderQueue
partly = record { segments = segment 200 100 ∷ segment 400 100 ∷ []; cap = 1000; total_bytes = 200 }

segment-IsSegment : (s n : ℕ) → 100 ≤ s → s < 1000 → 1 ≤ n → n < 1000 → IsSegment 100 (segment s n)
segment-IsSegment s n h k p q = record { word = omega arith; nonempty = p; near = omega arith }

partly-IsQueue : IsQueue 100 partly.segments
partly-IsQueue = (
  segment-IsSegment 200 100 (omega arith) (omega arith) (omega arith) (omega arith),
  (omega arith, tt),
  (segment-IsSegment 400 100 (omega arith) (omega arith) (omega arith) (omega arith), tt, tt),
)

partly-IsAccounted : IsAccounted partly
partly-IsAccounted = record { counted = refl; fits = omega arith; cap_word = omega arith }

arrival-IsCall : IsCall 100 (call_of partly 150 300 128 54)
arrival-IsCall = record {
  word = omega arith;
  near = omega arith;
  small = omega arith;
  cap_word = omega arith;
}

abbrev refs : Refs
refs a = 2

insert-IsAccounted_example :
    IsAccounted (insert partly 150 300 128 54 refs).0
    × ((insert partly 150 300 128 54 refs).0.total_bytes
        ≡ 200 + (insert partly 150 300 128 54 refs).1.newly_buffered)
    × ((insert partly 150 300 128 54 refs).1.newly_buffered
          + (insert partly 150 300 128 54 refs).1.cap_dropped
        ≤ 300)
insert-IsAccounted_example =
    insert-IsAccounted 100 (omega arith) partly 150 300 128 54 refs partly-IsQueue
      partly-IsAccounted arrival-IsCall

-- The byte at 330, which fills the gap, is byte 234 of the arriving mbuf.
insert-HoldsAt_example :
    (HoldsAt 100 partly.segments 230 128 234
      → HoldsAt 100 (insert partly 150 300 128 54 refs).0.segments 230 128 234)
    × (HoldsAt 100 (insert partly 150 300 128 54 refs).0.segments 230 128 234
        → HoldsAt 100 partly.segments 230 128 234
          ⊎ IsByte 100 (call_of partly 150 300 128 54) 230 128 234)
    × ((insert partly 150 300 128 54 refs).1.cap_dropped ≡ 0
        → offset 100 150 ≤ 230
        → 230 < offset 100 150 + 300
        → Stored 100 (insert partly 150 300 128 54 refs).0.segments 230)
insert-HoldsAt_example =
    insert-HoldsAt 100 partly 150 300 128 54 refs 230 128 234 (omega arith) partly-IsQueue
      partly-IsAccounted arrival-IsCall

insert_balance_example :
    ((insert partly 150 300 128 54 refs).2 64
        + held 64 partly.segments
        + one_if ((insert partly 150 300 128 54 refs).1.mbuf_ref_retained && (64 == 128))
      ≡ 2 + held 64 (insert partly 150 300 128 54 refs).0.segments)
    × ((◌≡◌ {A = ℕ} 64 128)
        ⊎ (((insert partly 150 300 128 54 refs).2 64 ≡ 2)
            × (held 64 (insert partly 150 300 128 54 refs).0.segments ≡ held 64 partly.segments)))
insert_balance_example = insert_balance partly 150 300 128 54 refs 64

drain_balance_example :
    (drain_contiguous_into partly 200 1000 [] refs).2 64 + held 64 partly.segments + handed 64 []
    ≡ 2
      + held 64 (drain_contiguous_into partly 200 1000 [] refs).0.segments
      + handed 64 (drain_contiguous_into partly 200 1000 [] refs).1
drain_balance_example = drain_balance partly 200 1000 [] refs 64 (omega arith)

drain_contiguous_into-Behind_example :
    (out_len (drain_contiguous_into partly 200 60 [] refs).1
      ≡ 0 + (drain_contiguous_into partly 200 60 [] refs).3)
    × ((drain_contiguous_into partly 200 60 [] refs).3 ≤ 60)
    × ((drain_contiguous_into partly 200 60 [] refs).0.total_bytes
        ≡ segments_len (drain_contiguous_into partly 200 60 [] refs).0.segments)
    × Behind 100
        (offset 100 200 + (drain_contiguous_into partly 200 60 [] refs).3)
        (drain_contiguous_into partly 200 60 [] refs).0.segments
    × ((taken : List OooSegment) × (partly.segments
          ≡ taken ++ (drain_contiguous_into partly 200 60 [] refs).0.segments))
drain_contiguous_into-Behind_example =
    drain_contiguous_into-Behind 100 partly 200 60 [] refs (omega arith) partly-IsQueue
      (omega arith, (omega arith, tt)) partly-IsAccounted
      (record { word = omega arith; near = omega arith })
