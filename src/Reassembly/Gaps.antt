-- ===== src/Reassembly/Gaps.antt =====
-- The scan over the stored segments, by induction on them.
use resd_dpdk_tcp.Base.{
  ℕ, ◌+◌, ◌-◌, ◌≤◌, ◌<◌, ◌≡◌, ◌⊎◌, inl, inr, List, ltb, arith, u32_mod, All, Bool-cases,
  wrapping_sub32, sym,
}
use resd_dpdk_tcp.Seq.{i32_min, seq_lt}
use resd_dpdk_tcp.Seq.Order.{IsAhead, offset, seq_lt-offset}
use resd_dpdk_tcp.Reassembly.{OooSegment}
use resd_dpdk_tcp.Reassembly.Insert.{Call, Scan, fill, scan_tail, incoming_end}
use resd_dpdk_tcp.Reassembly.Fill.{pieces_len, InPieces, Filled, fill-Filled}
use resd_dpdk_tcp.Reassembly.Account.{
  lo, Stored, IsCall, offset-incoming_end, incoming_end-IsAhead, not-Stored-below,
}

-- The distance of the end of the payload.
abbrev pub stop : ℕ → Call → ℕ
stop base c = offset base c.seq + c.payload_len

pub record IsScan (base : ℕ) (c : Call) (s : Scan) : Type 0 where
  pub cursor : IsAhead base s.cursor
  pub begun : offset base c.seq ≤ offset base s.cursor
  pub room : c.total_bytes + s.newly_buffered ≤ c.cap
  pub budget :
      s.newly_buffered + s.cap_dropped + (stop base c - offset base s.cursor) ≤ c.payload_len

-- What the rest of the scan adds to `s`, given the segments it has not seen.
pub record Scanned (base : ℕ) (c : Call) (segs : List OooSegment) (s t : Scan) : Type 0 where
  pub room : c.total_bytes + t.newly_buffered ≤ c.cap
  pub len : pieces_len t.to_insert + s.newly_buffered ≡ pieces_len s.to_insert + t.newly_buffered
  pub counted :
      t.newly_buffered + t.cap_dropped
      ≤ s.newly_buffered + s.cap_dropped + (stop base c - offset base s.cursor)
  pub grows : s.cap_dropped ≤ t.cap_dropped
  pub sound :
      (x : ℕ)
      → InPieces base t.to_insert x
      → InPieces base s.to_insert x
        ⊎ ((offset base s.cursor ≤ x) × (x < stop base c) × ¬ Stored base segs x)
  pub complete :
      t.cap_dropped ≡ s.cap_dropped
      → (x : ℕ) → offset base s.cursor ≤ x
      → x < stop base c
      → Stored base segs x ⊎ InPieces base t.to_insert x
  pub keeps : (x : ℕ) → InPieces base s.to_insert x → InPieces base t.to_insert x

module _ (base : ℕ) (hb : base < u32_mod) (c : Call) (hc : IsCall base c) where
  pub cursor-distance :
      (s : Scan)
      → IsScan base c s
      → wrapping_sub32 s.cursor c.seq + offset base c.seq ≡ offset base s.cursor
  cursor-distance s v =
      let w : c.seq < u32_mod = hc.word in
      let k : s.cursor < u32_mod = v.cursor.word in
      let n : offset base s.cursor < i32_min = v.cursor.near in
      let b : offset base c.seq ≤ offset base s.cursor = v.begun in omega arith

  tail_wanted : Scan → ℕ
  tail_wanted s = c.payload_len - wrapping_sub32 s.cursor c.seq

  tail_wanted_lem :
      (s : Scan) → IsScan base c s → tail_wanted s ≡ stop base c - offset base s.cursor
  unfolding tail_wanted
  tail_wanted_lem s v = omega (arith, cursor-distance s v)

  tail-Filled :
      (segs : List OooSegment) (s : Scan)
      → IsScan base c s
      → All (λ y. stop base c ≤ lo base y) segs
      → Filled base c (tail_wanted s) s (fill c (tail_wanted s) s)
      → Scanned base c segs s (fill c (tail_wanted s) s)
  tail-Filled segs s v above f = record {
    room = f.room;
    len = omega (arith, f.len, f.newly);
    counted = omega (arith, f.newly, f.dropped, tail_wanted_lem s v);
    grows = omega (arith, f.taken_le, f.dropped);
    sound = λ x h. elim (f.sound x h) [
      | inl y ↦ inl y
      | inr (p, q) ↦
          let k : x < stop base c = omega (arith, f.taken_le, tail_wanted_lem s v) in
          inr (p, k, not-Stored-below base hb segs (stop base c) x above k)
    ];
    complete = λ e x p q. inr (f.complete x p (omega (arith, f.dropped, tail_wanted_lem s v)));
    keeps = f.keeps;
  }

  tail_done :
      (segs : List OooSegment) (s : Scan)
      → IsScan base c s
      → stop base c ≤ offset base s.cursor
      → Scanned base c segs s s
  tail_done segs s v past = record {
    room = v.room;
    len = omega arith;
    counted = omega arith;
    grows = omega arith;
    sound = λ x h. inl h;
    complete = λ e x p q. absurd (omega arith);
    keeps = λ x h. h;
  }

  before_end :
      (s : Scan)
      → IsScan base c s
      → seq_lt s.cursor (incoming_end c) ≡ ltb (offset base s.cursor) (stop base c)
  before_end s v =
      rw (sym (offset-incoming_end base hb c hc)) (
        seq_lt-offset base s.cursor (incoming_end c) hb v.cursor
          (incoming_end-IsAhead base hb c hc))

  -- The tail, when every segment left lies behind the payload.
  pub tail-Scanned :
      (segs : List OooSegment) (s : Scan)
      → IsScan base c s
      → All (λ y. stop base c ≤ lo base y) segs
      → Scanned base c segs s (scan_tail c s)
  unfolding scan_tail tail_wanted
  tail-Scanned segs s v above = elim (Bool-cases (seq_lt s.cursor (incoming_end c))) [
    | inl t ↦ rw t (
        tail-Filled segs s v above (
          fill-Filled base c (tail_wanted s) s hc.cap_word v.room
            (omega (arith, hc.small, tail_wanted_lem s v, v.budget))
            (omega (arith, hc.small, tail_wanted_lem s v, v.budget))))
    | inr f ↦ rw f (tail_done segs s v (ground (arith, before_end s v)))
  ]
