-- ===== src/Reassembly/Drain.antt =====
-- `ReorderQueue::drain_contiguous_into`.
use resd_dpdk_tcp.Base.{
  ℕ, ◌+◌, ◌-◌, min, List, [], ◌∷◌, ◌++◌, ltb, if◌then◌else◌, wrapping_add32, wrapping_sub32, as_u16,
  u16_mod, ◌%◌,
}
use resd_dpdk_tcp.Seq.{seq_lt, seq_le}
use resd_dpdk_tcp.Reassembly.{OooSegment, end_seq, ReorderQueue, InOrderSegment, Refs, drop_ref}

-- The variables of the loop, but for the segments that are left.
pub record Drained : Type 0 where
  pub total_bytes : ℕ
  pub rcv_nxt : ℕ
  pub cap_room : ℕ
  pub out : List InOrderSegment
  pub refs : Refs
  pub total : ℕ
  pub cap_dropped : ℕ

-- A segment that lies behind `rcv_nxt` as a whole.
unfoldable pub drop_stale : OooSegment → Drained → Drained
drop_stale seg d = record d {
  total_bytes = d.total_bytes - seg.len;
  refs = drop_ref seg.mbuf d.refs;
}

-- How many bytes of a segment lie behind `rcv_nxt`, and how many of the rest there is room for.
abbrev pub skip_of : OooSegment → Drained → ℕ
skip_of seg d = as_u16 (wrapping_sub32 d.rcv_nxt seg.seq)

abbrev pub appended_of : OooSegment → Drained → ℕ
appended_of seg d = as_u16 (min (seg.len - skip_of seg d) d.cap_room)

abbrev pub in_order : OooSegment → Drained → InOrderSegment
in_order seg d = record {
  mbuf = seg.mbuf;
  offset = (seg.offset + skip_of seg d) % u16_mod;
  len = appended_of seg d;
}

-- A segment that holds `rcv_nxt`: as much of its rest as there is room for goes to `out`.
unfoldable pub take_segment : OooSegment → Drained → Drained
take_segment seg d =
    let appended = appended_of seg d in
    let moved =
      if ltb 0 appended
      then record d {
        cap_room = d.cap_room - appended;
        out = d.out ++ (in_order seg d ∷ []);
        total = wrapping_add32 d.total appended;
      }
      else record d { refs = drop_ref seg.mbuf d.refs } in
    record moved {
      total_bytes = d.total_bytes - seg.len;
      cap_dropped = wrapping_add32 d.cap_dropped (seg.len - skip_of seg d - appended);
      rcv_nxt = wrapping_add32 d.rcv_nxt appended;
    }

unfoldable pub drain_from : List OooSegment → Drained → List OooSegment × Drained
unfolding drop_stale take_segment
drain_from [] d = ([], d)
drain_from (seg ∷ segs) d =
    let rest =
      drain_from segs
        (if seq_le (end_seq seg) d.rcv_nxt then drop_stale seg d else take_segment seg d) in
    if seq_lt d.rcv_nxt seg.seq then (seg ∷ segs, d) else rest

-- The queue, `out`, the reference counts, and the result `(bytes_appended, cap_dropped)`.
unfoldable pub drain_contiguous_into :
    ReorderQueue
    → ℕ
    → ℕ
    → List InOrderSegment
    → Refs
    → ReorderQueue × List InOrderSegment × Refs × ℕ × ℕ
unfolding drain_from
drain_contiguous_into q rcv_nxt cap_room out refs =
    let (segs, d) = drain_from q.segments (record {
      total_bytes = q.total_bytes;
      rcv_nxt = rcv_nxt;
      cap_room = cap_room;
      out = out;
      refs = refs;
      total = 0;
      cap_dropped = 0;
    }) in
    (
      record q { segments = segs; total_bytes = d.total_bytes },
      d.out,
      d.refs,
      d.total,
      d.cap_dropped,
    )
