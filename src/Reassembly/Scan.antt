-- ===== src/Reassembly/Scan.antt =====
-- The scan over the stored segments, by induction on them.
use resd_dpdk_tcp.Base.{
  ℕ, ◌≤◌, ◌<◌, ◌≡◌, ◌⊎◌, inl, inr, List, [], ◌∷◌, leb, arith, u32_mod, All, Bool-cases, sym,
}
use native.Mathlib.Decide.{dec_lt}
use resd_dpdk_tcp.Seq.{seq_le}
use resd_dpdk_tcp.Seq.Order.{offset, seq_le-offset}
use resd_dpdk_tcp.Reassembly.{OooSegment, end_seq}
use resd_dpdk_tcp.Reassembly.Insert.{Call, Scan, visit, scan, scan_tail, incoming_end}
use resd_dpdk_tcp.Reassembly.Fill.{InPieces}
use resd_dpdk_tcp.Reassembly.Account.{
  IsSegment, lo, hi, IsQueue, Stored, IsCall, start-IsAhead, offset-end, end-IsAhead,
  offset-incoming_end, incoming_end-IsAhead, not-Stored-below,
}
use resd_dpdk_tcp.Reassembly.Gaps.{stop, IsScan, Scanned, tail-Scanned}
use resd_dpdk_tcp.Reassembly.Visit.{Visited, visit-Visited}

module _ (base : ℕ) (hb : base < u32_mod) (c : Call) (hc : IsCall base c) where
  above-All :
      (e f : ℕ) (xs : List OooSegment)
      → e ≤ f
      → All (λ y. f ≤ lo base y) xs
      → All (λ y. e ≤ lo base y) xs
  above-All e f [] h k = k
  above-All e f (x ∷ xs) h (p, q) = (omega arith, above-All e f xs h q)

  Visited-IsScan :
      (x : OooSegment) (s t : Scan)
      → IsScan base c s
      → lo base x < stop base c
      → offset base s.cursor < hi base x
      → Visited base c x s t
      → IsScan base c t
  Visited-IsScan x s t v k h d = record {
    cursor = d.cursor;
    begun = omega (arith, v.begun, d.at_end);
    room = d.filled.room;
    budget = omega (arith, v.budget, d.filled.newly, d.filled.dropped, d.at_end);
  }

  skipped :
      (x : OooSegment) (segs : List OooSegment) (s u : Scan)
      → hi base x ≤ offset base s.cursor
      → Scanned base c segs s u
      → Scanned base c (x ∷ segs) s u
  skipped x segs s u past r = record {
    room = r.room;
    len = r.len;
    counted = r.counted;
    grows = r.grows;
    sound = λ y h. elim (r.sound y h) [
      | inl p ↦ inl p
      | inr (p, q, n) ↦ inr (p, q, λ z. elim z [ inl (a, b) ↦ absurd (omega arith) | inr w ↦ n w ])
    ];
    complete = λ e y p q. elim (r.complete e y p q) [ inl w ↦ inl (inr w) | inr w ↦ inr w ];
    keeps = r.keeps;
  }

  Visited-sound :
      (x : OooSegment) (segs : List OooSegment) (s t u : Scan)
      → All (λ y. hi base x ≤ lo base y) segs
      → lo base x < stop base c
      → offset base s.cursor < hi base x
      → Visited base c x s t
      → Scanned base c segs t u
      → (y : ℕ) → InPieces base u.to_insert y
      → InPieces base s.to_insert y
        ⊎ ((offset base s.cursor ≤ y) × (y < stop base c) × ¬ Stored base (x ∷ segs) y)
  Visited-sound x segs s t u above k h d r y i = elim (r.sound y i) [
    | inr (p, q, n) ↦
        let e = d.at_end in
        inr (omega arith, q, λ z. elim z [ inl (a, b) ↦ absurd (omega arith) | inr w ↦ n w ])
    | inl j ↦ elim (d.filled.sound y j) [
      | inl g ↦ inl g
      | inr (p, q) ↦
          let m = d.filled.taken_le in
          let below : y < lo base x = omega arith in
          inr (
            p,
            omega arith,
            λ z. elim z [
              | inl (a, b) ↦ absurd (omega arith)
              | inr w ↦
                  not-Stored-below base hb segs (lo base x) y
                    (above-All (lo base x) (hi base x) segs (omega arith) above) below w
            ],
          )
    ]
  ]

  Visited-complete :
      (x : OooSegment) (segs : List OooSegment) (s t u : Scan)
      → Visited base c x s t
      → Scanned base c segs t u
      → u.cap_dropped ≡ s.cap_dropped
      → (y : ℕ) → offset base s.cursor ≤ y
      → y < stop base c
      → Stored base (x ∷ segs) y ⊎ InPieces base u.to_insert y
  Visited-complete x segs s t u d r e y p q =
      let g = r.grows in
      let f = d.filled.dropped in
      let m = d.filled.taken_le in
      let a = d.at_end in
      elim (dec_lt y (lo base x)) [
        | yes l ↦ inr (r.keeps y (d.filled.complete y p (omega arith)))
        | no n ↦ elim (dec_lt y (hi base x)) [
          | yes l ↦ inl (inl (omega arith, l))
          | no o ↦ elim (r.complete (omega arith) y (omega arith) q) [
            | inl w ↦ inl (inr w)
            | inr w ↦ inr w
          ]
        ]
      ]

  visited :
      (x : OooSegment) (segs : List OooSegment) (s t u : Scan)
      → All (λ y. hi base x ≤ lo base y) segs
      → lo base x < stop base c
      → offset base s.cursor < hi base x
      → Visited base c x s t
      → Scanned base c segs t u
      → Scanned base c (x ∷ segs) s u
  visited x segs s t u above k h d r = record {
    room = r.room;
    len = omega (arith, r.len, d.filled.len, d.filled.newly);
    counted = omega (arith, r.counted, d.filled.newly, d.filled.dropped, d.at_end);
    grows = omega (arith, r.grows, d.filled.dropped, d.filled.taken_le);
    sound = Visited-sound x segs s t u above k h d r;
    complete = Visited-complete x segs s t u d r;
    keeps = λ y i. r.keeps y (d.filled.keeps y i);
  }

  breaks :
      (s : Scan) (x : OooSegment)
      → IsSegment base x
      → seq_le (incoming_end c) x.seq ≡ leb (stop base c) (lo base x)
  breaks s x hx = rw (sym (offset-incoming_end base hb c hc)) (
      seq_le-offset base (incoming_end c) x.seq hb (incoming_end-IsAhead base hb c hc)
        (start-IsAhead base hb x hx))

  skips :
      (s : Scan) (x : OooSegment)
      → IsScan base c s
      → IsSegment base x
      → seq_le (end_seq x) s.cursor ≡ leb (hi base x) (offset base s.cursor)
  skips s x v hx =
      rw (sym (offset-end base hb x hx))
        (seq_le-offset base (end_seq x) s.cursor hb (end-IsAhead base hb x hx) v.cursor)

  pub scan-Scanned :
      (segs : List OooSegment) (s : Scan)
      → IsQueue base segs
      → IsScan base c s
      → Scanned base c segs s (scan_tail c (scan c segs s))
  unfolding scan
  scan-Scanned [] s q v = tail-Scanned base hb c hc [] s v tt
  scan-Scanned (x ∷ segs) s (hx, above, q) v = elim (Bool-cases (seq_le (incoming_end c) x.seq)) [
    | inl t ↦
        let k : stop base c ≤ lo base x = ground (arith, breaks s x hx) in
        rw t (
          tail-Scanned base hb c hc (x ∷ segs) s v
            (k, above-All (stop base c) (hi base x) segs (omega arith) above))
    | inr f ↦
        let k : lo base x < stop base c = ground (arith, breaks s x hx) in
        elim (Bool-cases (seq_le (end_seq x) s.cursor)) [
          | inl t ↦
              let h : hi base x ≤ offset base s.cursor = ground (arith, skips s x v hx) in
              rw (f, t) (skipped x segs s (scan_tail c (scan c segs s)) h (scan-Scanned segs s q v))
          | inr g ↦
              let h : offset base s.cursor < hi base x = ground (arith, skips s x v hx) in
              let d = visit-Visited base hb c hc x hx s v k h in
              rw (f, g)
                (visited x segs s (visit c x s) (scan_tail c (scan c segs (visit c x s))) above k h
                  d (scan-Scanned segs (visit c x s) q (Visited-IsScan x s (visit c x s) v k h d)))
        ]
  ]
