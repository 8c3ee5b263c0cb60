-- ===== src/Reassembly/Delivered.antt =====
-- What a drain delivers.
use resd_dpdk_tcp.Base.{
  ℕ, ◌+◌, ◌-◌, ◌≤◌, ◌<◌, ◌≡◌, inl, inr, min, List, [], ◌∷◌, ◌++◌, ltb, leb, arith, refl, subst, ap,
  if◌then◌else◌, u16_mod, u32_mod, All, Bool-cases, wrapping_add32,
}
use resd_dpdk_tcp.Seq.{i32_min, seq_lt, seq_le}
use resd_dpdk_tcp.Seq.Order.{IsAhead, offset, seq_lt-offset, seq_le-offset}
use resd_dpdk_tcp.Reassembly.{OooSegment, end_seq, ReorderQueue, InOrderSegment, Refs}
use resd_dpdk_tcp.Reassembly.Drain.{
  Drained, drop_stale, take_segment, drain_from, drain_contiguous_into, appended_of, skip_of,
  in_order,
}
use resd_dpdk_tcp.Reassembly.Account.{
  IsSegment, lo, hi, IsQueue, start-IsAhead, offset-end, end-IsAhead,
}
use resd_dpdk_tcp.Reassembly.Stored.{segments_len, IsAccounted}

abbrev pub out_len : List InOrderSegment → ℕ
out_len [] = 0
out_len (x ∷ xs) = x.len + out_len xs

pub out_len-append :
    (xs : List InOrderSegment) (x : InOrderSegment) → out_len (xs ++ (x ∷ [])) ≡ out_len xs + x.len
out_len-append [] x = omega arith
out_len-append (y ∷ xs) x = omega (arith, out_len-append xs x)

-- Every segment left begins behind the point.
abbrev pub Behind : ℕ → ℕ → List OooSegment → Type 0
Behind base p segs = All (λ x. p < lo base x) segs

-- In a queue, what stands behind a segment that begins behind the point does so as well.
above-Behind :
    (base p : ℕ) (x : OooSegment) (xs : List OooSegment)
    → p < lo base x
    → All (λ y. hi base x ≤ lo base y) xs
    → Behind base p xs
above-Behind base p x [] h a = tt
above-Behind base p x (y ∷ xs) h (a, more) = (omega arith, above-Behind base p x xs h more)

-- The loop takes segments from the front only.
drain_from-append :
    (segs : List OooSegment) (d : Drained)
    → (taken : List OooSegment) × (segs ≡ taken ++ (drain_from segs d).0)
unfolding drain_from
drain_from-append [] d = ([], refl)
drain_from-append (x ∷ segs) d =
    let next = if seq_le (end_seq x) d.rcv_nxt then drop_stale x d else take_segment x d in
    elim (Bool-cases (seq_lt d.rcv_nxt x.seq)) [
      | inl t ↦ rw t ([], refl)
      | inr f ↦ let (taken, e) = drain_from-append segs next in rw f (x ∷ taken, ap (λ z. x ∷ z) e)
    ]

-- From `d` the loop delivered `total` bytes more, and `left` is left.
pub record Delivered (base : ℕ) (d : Drained) (left : List OooSegment) (e : Drained) : Type 0 where
  pub point : IsAhead base e.rcv_nxt
  pub moved : offset base e.rcv_nxt + d.total ≡ offset base d.rcv_nxt + e.total
  pub handed_out : out_len e.out + d.total ≡ out_len d.out + e.total
  pub room : e.cap_room + e.total ≡ d.cap_room + d.total
  pub counted : e.total_bytes ≡ segments_len left
  pub gap : Behind base (offset base e.rcv_nxt) left

-- What the loop needs of its variables.
record IsRunning (base : ℕ) (segs : List OooSegment) (d : Drained) : Type 0 where
  point : IsAhead base d.rcv_nxt
  counted : d.total_bytes ≡ segments_len segs
  few : d.total + segments_len segs < u32_mod

module _ (base : ℕ) (hb : base < u32_mod) where
  before :
      (x : OooSegment) (d : Drained)
      → IsSegment base x
      → IsAhead base d.rcv_nxt
      → seq_lt d.rcv_nxt x.seq ≡ ltb (offset base d.rcv_nxt) (lo base x)
  before x d hx v = seq_lt-offset base d.rcv_nxt x.seq hb v (start-IsAhead base hb x hx)

  past :
      (x : OooSegment) (d : Drained)
      → IsSegment base x
      → IsAhead base d.rcv_nxt
      → seq_le (end_seq x) d.rcv_nxt ≡ leb (hi base x) (offset base d.rcv_nxt)
  past x d hx v = ground (
    arith,
    seq_le-offset base (end_seq x) d.rcv_nxt hb (end-IsAhead base hb x hx) v,
    offset-end base hb x hx,
  )

  -- What is taken of a segment that holds the point.
  taken_lem :
      (x : OooSegment) (d : Drained)
      → IsSegment base x
      → x.len < u16_mod
      → IsAhead base d.rcv_nxt
      → lo base x ≤ offset base d.rcv_nxt
      → offset base d.rcv_nxt < hi base x
      → appended_of x d ≡ min (hi base x - offset base d.rcv_nxt) d.cap_room
  taken_lem x d hx hl v h k =
      let w : x.seq < u32_mod = hx.word in
      let z : d.rcv_nxt < u32_mod = v.word in
      let n : hi base x < i32_min = hx.near in
      let s : skip_of x d ≡ offset base d.rcv_nxt - lo base x = omega arith in omega arith

  stop_Delivered :
      (segs : List OooSegment) (d : Drained)
      → IsRunning base segs d
      → Behind base (offset base d.rcv_nxt) segs
      → Delivered base d segs d
  stop_Delivered segs d v b = record {
    point = v.point;
    moved = refl;
    handed_out = refl;
    room = refl;
    counted = v.counted;
    gap = b;
  }

  -- One round, and the rest of the loop.
  record IsRound (segs : List OooSegment) (d e : Drained) : Type 0 where
    running : IsRunning base segs e
    moved : offset base e.rcv_nxt + d.total ≡ offset base d.rcv_nxt + e.total
    handed_out : out_len e.out + d.total ≡ out_len d.out + e.total
    room : e.cap_room + e.total ≡ d.cap_room + d.total

  after_round :
      (segs left : List OooSegment) (d e f : Drained)
      → IsRound segs d e
      → Delivered base e left f
      → Delivered base d left f
  after_round segs left d e f r v = record {
    point = v.point;
    moved = omega (arith, v.moved, r.moved);
    handed_out = omega (arith, v.handed_out, r.handed_out);
    room = omega (arith, v.room, r.room);
    counted = v.counted;
    gap = v.gap;
  }

  drop_stale-IsRound :
      (x : OooSegment) (segs : List OooSegment) (d : Drained)
      → IsRunning base (x ∷ segs) d
      → IsRound segs d (drop_stale x d)
  unfolding drop_stale
  drop_stale-IsRound x segs d v = record {
    running = record {
      point = v.point;
      counted = omega (arith, v.counted);
      few = omega (arith, v.few);
    };
    moved = refl;
    handed_out = refl;
    room = refl;
  }

  take_segment-IsRound :
      (x : OooSegment) (segs : List OooSegment) (d : Drained)
      → IsSegment base x
      → x.len < u16_mod
      → lo base x ≤ offset base d.rcv_nxt
      → offset base d.rcv_nxt < hi base x
      → IsRunning base (x ∷ segs) d
      → IsRound segs d (take_segment x d)
  unfolding take_segment
  take_segment-IsRound x segs d hx hl h k v =
      let a = taken_lem x d hx hl v.point h k in
      let n : hi base x < i32_min = hx.near in
      let z : d.rcv_nxt < u32_mod = v.point.word in
      let g : offset base (wrapping_add32 d.rcv_nxt (appended_of x d))
          ≡ offset base d.rcv_nxt + appended_of x d =
        omega arith in
      let p : IsAhead base (wrapping_add32 d.rcv_nxt (appended_of x d)) = record {
        word = omega arith;
        near = omega arith;
      } in
      let w : wrapping_add32 d.total (appended_of x d) ≡ d.total + appended_of x d =
        omega (arith, v.few) in
      elim (Bool-cases (ltb 0 (appended_of x d))) [
        | inl t ↦ rw t (record {
          running = record {
            point = p;
            counted = omega (arith, v.counted);
            few = omega (arith, v.few);
          };
          moved = omega arith;
          handed_out = omega (arith, out_len-append d.out (in_order x d));
          room = omega arith;
        })
        | inr f ↦
            let zero_taken : appended_of x d ≡ 0 = ground arith in
            rw f (record {
              running = record {
                point = p;
                counted = omega (arith, v.counted);
                few = omega (arith, v.few);
              };
              moved = omega arith;
              handed_out = refl;
              room = refl;
            })
      ]

  drain_from-Delivered :
      (segs : List OooSegment) (d : Drained)
      → IsQueue base segs
      → All (λ x. x.len < u16_mod) segs
      → IsRunning base segs d
      → Delivered base d (drain_from segs d).0 (drain_from segs d).1
  unfolding drain_from
  drain_from-Delivered [] d q l v = stop_Delivered [] d v tt
  drain_from-Delivered (x ∷ segs) d (hx, above, q) (hl, l) v =
      elim (Bool-cases (seq_lt d.rcv_nxt x.seq)) [
        | inl t ↦ rw t (
            let ahead : offset base d.rcv_nxt < lo base x = ground (arith, before x d hx v.point) in
            stop_Delivered (x ∷ segs) d v
              (ahead, above-Behind base (offset base d.rcv_nxt) x segs ahead above))
        | inr f ↦ elim (Bool-cases (seq_le (end_seq x) d.rcv_nxt)) [
          | inl t ↦
              let r = drop_stale-IsRound x segs d v in
              let rest = drain_from-Delivered segs (drop_stale x d) q l r.running in
              rw (f, t)
                (after_round segs (drain_from segs (drop_stale x d)).0 d (drop_stale x d)
                  (drain_from segs (drop_stale x d)).1 r rest)
          | inr g ↦
              let r =
                take_segment-IsRound x segs d hx hl (ground (arith, before x d hx v.point))
                  (ground (arith, past x d hx v.point)) v in
              let rest = drain_from-Delivered segs (take_segment x d) q l r.running in
              rw (f, g)
                (after_round segs (drain_from segs (take_segment x d)).0 d (take_segment x d)
                  (drain_from segs (take_segment x d)).1 r rest)
        ]
      ]

-- A drain returns exactly the number of bytes that it appended to `out`, never more than there is room
-- for; it keeps the count of the queue exact, and stops only at a gap: every segment left begins behind
-- the last byte delivered. What is left is the end of the queue, unchanged and in its order. For a queue that is sorted without overlaps and counted correctly, with
-- segments of fewer than 2 ^ 16 bytes within 2 ^ 31 of a base.
pub drain_contiguous_into-Behind :
    (base : ℕ) (q : ReorderQueue) (rcv_nxt cap_room : ℕ) (out : List InOrderSegment) (refs : Refs)
    → base < u32_mod
    → IsQueue base q.segments
    → All (λ x. x.len < u16_mod) q.segments
    → IsAccounted q
    → IsAhead base rcv_nxt
    → let (q', out', refs', total, dropped) = drain_contiguous_into q rcv_nxt cap_room out refs in
      (out_len out' ≡ out_len out + total)
      × (total ≤ cap_room)
      × (q'.total_bytes ≡ segments_len q'.segments)
      × Behind base (offset base rcv_nxt + total) q'.segments
      × ((taken : List OooSegment) × (q.segments ≡ taken ++ q'.segments))
unfolding drain_contiguous_into
drain_contiguous_into-Behind base q rcv_nxt cap_room out refs hb hq hl ha hr =
    let d : Drained = record {
      total_bytes = q.total_bytes;
      rcv_nxt = rcv_nxt;
      cap_room = cap_room;
      out = out;
      refs = refs;
      total = 0;
      cap_dropped = 0;
    } in
    let v = drain_from-Delivered base hb q.segments d hq hl (record {
      point = hr;
      counted = ha.counted;
      few = omega (arith, ha.counted, ha.fits, ha.cap_word);
    }) in
    let m : offset base (drain_from q.segments d).1.rcv_nxt
        ≡ offset base rcv_nxt + (drain_from q.segments d).1.total =
      omega (arith, v.moved) in
    (
      omega (arith, v.handed_out),
      omega (arith, v.room),
      v.counted,
      subst (λ n. Behind base n (drain_from q.segments d).0) m v.gap,
      drain_from-append q.segments d,
    )
