-- ===== src/Reassembly/Visit.antt =====
-- One segment of the scan: the gap before it is filled, and the cursor goes to its end.
use resd_dpdk_tcp.Base.{
  ℕ, ◌+◌, ◌-◌, ◌≤◌, ◌<◌, ◌≡◌, inl, inr, min, true, ltb, if◌then◌else◌, arith, refl, u32_mod,
  Bool-cases, wrapping_sub32, wrapping_add32, subst,
}
use resd_dpdk_tcp.Seq.{seq_lt}
use resd_dpdk_tcp.Seq.Order.{IsAhead, offset, seq_lt-offset}
use resd_dpdk_tcp.Reassembly.{OooSegment, end_seq}
use resd_dpdk_tcp.Reassembly.Insert.{Call, Scan, fill, visit}
use resd_dpdk_tcp.Reassembly.Fill.{Filled, fill-Filled}
use resd_dpdk_tcp.Reassembly.Account.{
  IsSegment, lo, hi, IsCall, start-IsAhead, offset-end, end-IsAhead,
}
use resd_dpdk_tcp.Reassembly.Gaps.{stop, IsScan, cursor-distance}

pub record Visited (base : ℕ) (c : Call) (x : OooSegment) (s t : Scan) : Type 0 where
  pub filled : Filled base c (lo base x - offset base s.cursor) s t
  pub cursor : IsAhead base t.cursor
  pub at_end : offset base t.cursor ≡ hi base x

with_cursor :
    (base : ℕ) (c : Call) (w z : ℕ) (s t : Scan)
    → Filled base c w s t
    → Filled base c w s (record t { cursor = z })
with_cursor base c w z s t f = record {
  taken = f.taken;
  taken_le = f.taken_le;
  newly = f.newly;
  dropped = f.dropped;
  room = f.room;
  len = f.len;
  sound = f.sound;
  complete = f.complete;
  keeps = f.keeps;
}

nothing-Filled : (base : ℕ) (c : Call) (s : Scan) → IsScan base c s → Filled base c 0 s s
nothing-Filled base c s v = record {
  taken = 0;
  taken_le = omega arith;
  newly = omega arith;
  dropped = refl;
  room = v.room;
  len = omega arith;
  sound = λ x h. inl h;
  complete = λ x h k. absurd (omega arith);
  keeps = λ x h. h;
}

module _ (base : ℕ) (hb : base < u32_mod) (c : Call) (hc : IsCall base c) (x : OooSegment)
    (hx : IsSegment base x) (s : Scan) (v : IsScan base c s) where
  abbrev gap_wanted : ℕ
  gap_wanted = min (wrapping_sub32 x.seq s.cursor) (c.payload_len - wrapping_sub32 s.cursor c.seq)

  before_start : seq_lt s.cursor x.seq ≡ ltb (offset base s.cursor) (lo base x)
  before_start = seq_lt-offset base s.cursor x.seq hb v.cursor (start-IsAhead base hb x hx)

  before_stop : (z : ℕ) → IsAhead base z → offset base z < hi base x → seq_lt z (end_seq x) ≡ true
  before_stop z hz h = ground (
    arith,
    seq_lt-offset base z (end_seq x) hb hz (end-IsAhead base hb x hx),
    offset-end base hb x hx,
  )

  gap-distance :
      offset base s.cursor < lo base x
      → wrapping_sub32 x.seq s.cursor + offset base s.cursor ≡ lo base x
  gap-distance h =
      let w : x.seq < u32_mod = hx.word in let k : s.cursor < u32_mod = v.cursor.word in omega arith

  gap_wanted_lem :
      offset base s.cursor < lo base x
      → lo base x < stop base c
      → gap_wanted ≡ lo base x - offset base s.cursor
  gap_wanted_lem h k = omega (arith, gap-distance h, cursor-distance base hb c hc s v)

  abbrev moved : ℕ
  moved = wrapping_add32 s.cursor gap_wanted

  moved-seq : offset base s.cursor < lo base x → lo base x < stop base c → moved ≡ x.seq
  moved-seq h k =
      let w : x.seq < u32_mod = hx.word in
      let z : s.cursor < u32_mod = v.cursor.word in omega (arith, gap_wanted_lem h k)

  -- The second step of the body: from `z` to the end of the segment.
  at_end_lem :
      (w : ℕ) (t : Scan)
      → Filled base c w s t
      → w ≡ lo base x - offset base s.cursor
      → IsAhead base t.cursor
      → offset base t.cursor < hi base x
      → Visited base c x s
          (if seq_lt t.cursor (end_seq x) then record t { cursor = end_seq x } else t)
  at_end_lem w t f e hz h = rw (before_stop t.cursor hz h) (record {
    filled =
        subst (λ n. Filled base c n s (record t { cursor = end_seq x })) e
          (with_cursor base c w (end_seq x) s t f);
    cursor = end-IsAhead base hb x hx;
    at_end = offset-end base hb x hx;
  })

  gap-Filled :
      offset base s.cursor < lo base x
      → lo base x < stop base c
      → Filled base c gap_wanted s (record (fill c gap_wanted s) { cursor = moved })
  gap-Filled h k = with_cursor base c gap_wanted moved s (fill c gap_wanted s) (
      fill-Filled base c gap_wanted s hc.cap_word v.room
        (omega (arith, hc.small, gap_wanted_lem h k, v.budget))
        (omega (arith, hc.small, gap_wanted_lem h k, v.budget)))

  pub visit-Visited :
      lo base x < stop base c → offset base s.cursor < hi base x → Visited base c x s (visit c x s)
  unfolding visit
  visit-Visited k h = elim (Bool-cases (seq_lt s.cursor x.seq)) [
    | inl t ↦
        let b : offset base s.cursor < lo base x = ground (arith, before_start) in
        let m = moved-seq b k in
        rw t (
          at_end_lem gap_wanted (record (fill c gap_wanted s) { cursor = moved }) (gap-Filled b k)
            (gap_wanted_lem b k) (rw m (start-IsAhead base hb x hx))
            (rw m (omega (arith, hx.nonempty))))
    | inr f ↦
        let b : lo base x ≤ offset base s.cursor = ground (arith, before_start) in
        rw f (at_end_lem 0 s (nothing-Filled base c s v) (omega arith) v.cursor h)
  ]
