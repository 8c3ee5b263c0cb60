-- ===== src/Reassembly/Room.antt =====
-- A drain stays within the room it is given, whatever the queue holds.
use resd_dpdk_tcp.Base.{
  ℕ, ◌+◌, ◌≤◌, ◌<◌, ◌≡◌, inl, inr, List, [], ◌∷◌, ltb, arith, refl, u32_mod, Bool-cases, if_either,
  if◌then◌else◌,
}
use resd_dpdk_tcp.Seq.{seq_lt, seq_le}
use resd_dpdk_tcp.Reassembly.{OooSegment, end_seq, ReorderQueue, InOrderSegment, Refs}
use resd_dpdk_tcp.Reassembly.Drain.{
  Drained, drop_stale, take_segment, drain_from, drain_contiguous_into, appended_of, in_order,
}
use resd_dpdk_tcp.Reassembly.Delivered.{out_len, out_len-append}

-- What the loop appends it counts, and takes from the room.
record InRoom (d e : Drained) : Type 0 where
  handed_out : out_len e.out + d.total ≡ out_len d.out + e.total
  room : e.cap_room + e.total ≡ d.cap_room + d.total

drop_stale-InRoom : (x : OooSegment) (d : Drained) → InRoom d (drop_stale x d)
unfolding drop_stale
drop_stale-InRoom x d = record { handed_out = refl; room = refl }

take_segment-InRoom :
    (x : OooSegment) (d : Drained) → d.cap_room + d.total < u32_mod → InRoom d (take_segment x d)
unfolding take_segment
take_segment-InRoom x d h =
    let fits : appended_of x d ≤ d.cap_room = omega arith in
    elim (Bool-cases (ltb 0 (appended_of x d))) [
      | inl t ↦ rw t (record {
        handed_out = omega (arith, out_len-append d.out (in_order x d));
        room = omega arith;
      })
      | inr f ↦ rw f (record { handed_out = refl; room = refl })
    ]

InRoom-trans : (d e f : Drained) → InRoom d e → InRoom e f → InRoom d f
InRoom-trans d e f p q = record {
  handed_out = omega (arith, p.handed_out, q.handed_out);
  room = omega (arith, p.room, q.room);
}

drain_from-InRoom :
    (segs : List OooSegment) (d : Drained)
    → d.cap_room + d.total < u32_mod
    → InRoom d (drain_from segs d).1
unfolding drain_from
drain_from-InRoom [] d h = record { handed_out = refl; room = refl }
drain_from-InRoom (x ∷ segs) d h =
    let stale = drop_stale x d in
    let taken = take_segment x d in
    let next : Drained = if seq_le (end_seq x) d.rcv_nxt then stale else taken in
    let round : InRoom d next =
      if_either (InRoom d) (seq_le (end_seq x) d.rcv_nxt) stale taken (λ p. drop_stale-InRoom x d)
        (λ p. take_segment-InRoom x d h) in
    let rest = drain_from-InRoom segs next (omega (arith, round.room)) in
    elim (Bool-cases (seq_lt d.rcv_nxt x.seq)) [
      | inl t ↦ rw t (record { handed_out = refl; room = refl })
      | inr f ↦ rw f (InRoom-trans d next _ round rest)
    ]

-- `drain_contiguous_into` appends exactly the bytes that it counts, and never more than there is room
-- for, on every queue.
pub drain_contiguous_into-room :
    (q : ReorderQueue) (rcv_nxt cap_room : ℕ) (out : List InOrderSegment) (refs : Refs)
    → cap_room < u32_mod
    → let r = drain_contiguous_into q rcv_nxt cap_room out refs in
      (out_len r.1 ≡ out_len out + r.3) × (r.3 ≤ cap_room)
unfolding drain_contiguous_into
drain_contiguous_into-room q rcv_nxt cap_room out refs h =
    let d : Drained = record {
      total_bytes = q.total_bytes;
      rcv_nxt = rcv_nxt;
      cap_room = cap_room;
      out = out;
      refs = refs;
      total = 0;
      cap_dropped = 0;
    } in
    let v = drain_from-InRoom q.segments d (omega arith) in
    (omega (arith, v.handed_out), omega (arith, v.room))
