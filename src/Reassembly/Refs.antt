-- ===== src/Reassembly/Refs.antt =====
-- Reference counts: the queue owns one for each stored segment.
use resd_dpdk_tcp.Base.{
  ℕ, ◌+◌, ◌≤◌, ◌≡◌, ◌⊎◌, Bool, ◌&&◌, List, [], ◌∷◌, ◌++◌, length, ltb, ◌==◌, if◌then◌else◌, arith,
  refl, Bool-cases, inl, inr, ap,
}
use resd_dpdk_tcp.Seq.{seq_lt, seq_le}
use resd_dpdk_tcp.Reassembly.{
  OooSegment, end_seq, ReorderQueue, InOrderSegment, Refs, drop_ref, drop_all, clear,
}
use resd_dpdk_tcp.Reassembly.Insert.{
  Call, Piece, insert_merged, segment_of, store, gaps, insert, call_of,
}
use resd_dpdk_tcp.Reassembly.Drain.{
  Drained, in_order, appended_of, drop_stale, take_segment, drain_from, drain_contiguous_into,
}

abbrev pub one_if : Bool → ℕ
one_if b = if b then 1 else 0

-- How many stored segments, and how many delivered ones, hold a reference to an mbuf.
abbrev pub held : ℕ → List OooSegment → ℕ
held m [] = 0
held m (s ∷ segs) = one_if (m == s.mbuf) + held m segs

abbrev pub handed : ℕ → List InOrderSegment → ℕ
handed m [] = 0
handed m (s ∷ out) = one_if (m == s.mbuf) + handed m out

held-insert_merged :
    (m : ℕ) (n : OooSegment) (segs : List OooSegment)
    → held m (insert_merged n segs) ≡ one_if (m == n.mbuf) + held m segs
unfolding insert_merged
held-insert_merged m n [] = refl
held-insert_merged m n (s ∷ segs) = ground (arith, held-insert_merged m n segs)

held-store :
    (m : ℕ) (c : Call) (ps : List Piece) (segs : List OooSegment)
    → held m (store c ps segs) ≡ held m segs + (if m == c.mbuf then length ps else 0)
unfolding store
held-store m c [] segs = ground arith
held-store m c (p ∷ ps) segs = ground (
  arith,
  held-store m c ps (insert_merged (segment_of c p) segs),
  held-insert_merged m (segment_of c p) segs,
)

-- An insertion consumes the reference that the caller added for the call exactly if it says so,
-- and adds one for each further segment that it stores: so every stored segment owns one. Of every
-- other mbuf both the count and the segments that hold it stay as they were.
pub insert_balance :
    (q : ReorderQueue) (seq len mbuf offset : ℕ) (refs : Refs) (m : ℕ)
    → let (q', outcome, refs') = insert q seq len mbuf offset refs in
      (refs' m + held m q.segments + one_if (outcome.mbuf_ref_retained && (m == mbuf))
        ≡ refs m + held m q'.segments)
      × ((m ≡ mbuf) ⊎ ((refs' m ≡ refs m) × (held m q'.segments ≡ held m q.segments)))
unfolding insert
insert_balance q seq len mbuf offset refs m =
    let stored = held-store m (call_of q seq len mbuf offset) pieces q.segments in
    (
      ground (arith, stored),
      elim (Bool-cases (m == mbuf)) [
        | inl e ↦ inl (ground arith)
        | inr e ↦ inr (ground (arith, stored), ground (arith, stored))
      ],
    )
  where
    pieces : List Piece
    pieces = (gaps (call_of q seq len mbuf offset) q.segments).to_insert

handed-append :
    (m : ℕ) (out : List InOrderSegment) (s : InOrderSegment)
    → handed m (out ++ (s ∷ [])) ≡ handed m out + one_if (m == s.mbuf)
handed-append m [] s = ground arith
handed-append m (x ∷ out) s = omega (arith, handed-append m out s)

drop_stale_balance :
    (m : ℕ) (s : OooSegment) (d : Drained)
    → one_if (m == s.mbuf) ≤ d.refs m
    → ((drop_stale s d).refs m + one_if (m == s.mbuf) ≡ d.refs m) × ((drop_stale s d).out ≡ d.out)
unfolding drop_stale
drop_stale_balance m s d h = ground arith

-- A delivered segment takes its reference with it; one that finds no room gives it back.
take_segment_balance :
    (m : ℕ) (s : OooSegment) (d : Drained)
    → one_if (m == s.mbuf) ≤ d.refs m
    → (take_segment s d).refs m + one_if (m == s.mbuf) + handed m d.out
      ≡ d.refs m + handed m (take_segment s d).out
unfolding take_segment
take_segment_balance m s d h = elim (Bool-cases (ltb 0 (appended_of s d))) [
  | inl t ↦ rw t (omega (arith, handed-append m d.out (in_order s d)))
  | inr f ↦ rw f (ground arith)
]

take_segment-keeps :
    (m : ℕ) (s : OooSegment) (segs : List OooSegment) (d : Drained)
    → one_if (m == s.mbuf) + held m segs ≤ d.refs m
    → held m segs ≤ (take_segment s d).refs m
unfolding take_segment
take_segment-keeps m s segs d h = elim (Bool-cases (ltb 0 (appended_of s d))) [
  | inl t ↦ rw t (omega arith)
  | inr f ↦ rw f (ground arith)
]

drop_stale-keeps :
    (m : ℕ) (s : OooSegment) (segs : List OooSegment) (d : Drained)
    → one_if (m == s.mbuf) + held m segs ≤ d.refs m
    → held m segs ≤ (drop_stale s d).refs m
unfolding drop_stale
drop_stale-keeps m s segs d h = ground arith

drain_from_balance :
    (m : ℕ) (segs : List OooSegment) (d : Drained)
    → held m segs ≤ d.refs m
    → let (left, d') = drain_from segs d in
      d'.refs m + held m segs + handed m d.out ≡ d.refs m + held m left + handed m d'.out
unfolding drain_from
drain_from_balance m [] d h = omega arith
drain_from_balance m (s ∷ segs) d h = elim (Bool-cases (seq_lt d.rcv_nxt s.seq)) [
  | inl t ↦ rw t (omega arith)
  | inr f ↦ elim (Bool-cases (seq_le (end_seq s) d.rcv_nxt)) [
    | inl old ↦
        rw (f, old)
          (omega (
            arith,
            drain_from_balance m segs (drop_stale s d) (drop_stale-keeps m s segs d h),
            drop_stale_balance m s d (omega arith),
            ap (handed m) (drop_stale_balance m s d (omega arith)).1,
          ))
    | inr new ↦
        rw (f, new)
          (omega (
            arith,
            drain_from_balance m segs (take_segment s d) (take_segment-keeps m s segs d h),
            take_segment_balance m s d (omega arith),
          ))
  ]
]

-- Draining moves references and loses none: what the count of an mbuf loses are the references of
-- the segments that left the queue and were not handed out. For counts that cover the segments of
-- the queue.
pub drain_balance :
    (q : ReorderQueue) (rcv_nxt cap_room : ℕ) (out : List InOrderSegment) (refs : Refs) (m : ℕ)
    → held m q.segments ≤ refs m
    → let (q', out', refs', total, dropped) = drain_contiguous_into q rcv_nxt cap_room out refs in
      refs' m + held m q.segments + handed m out ≡ refs m + held m q'.segments + handed m out'
unfolding drain_contiguous_into
drain_balance q rcv_nxt cap_room out refs m h = drain_from_balance m q.segments _ h

drop_all_balance :
    (m : ℕ) (segs : List OooSegment) (refs : Refs)
    → held m segs ≤ refs m
    → drop_all segs refs m + held m segs ≡ refs m
unfolding drop_all
drop_all_balance m [] refs h = omega arith
drop_all_balance m (s ∷ segs) refs h =
    ground (arith, drop_all_balance m segs (drop_ref s.mbuf refs))

-- Clearing the queue gives back exactly the references that it held.
pub clear_balance :
    (q : ReorderQueue) (refs : Refs) (m : ℕ)
    → held m q.segments ≤ refs m
    → let (q', refs') = clear q refs in
      (q'.segments ≡ []) × (q'.total_bytes ≡ 0) × (refs' m + held m q.segments ≡ refs m)
unfolding clear
clear_balance q refs m h = (refl, refl, drop_all_balance m q.segments refs h)
