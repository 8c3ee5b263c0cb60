-- ===== src/Reassembly/Stored.antt =====
-- Which bytes the queue holds after an insertion, and how it counts them.
use resd_dpdk_tcp.Base.{
  ℕ, ◌+◌, ◌≤◌, ◌<◌, ◌≡◌, ◌⊎◌, ◌↔◌, inl, inr, List, [], ◌∷◌, ◌==◌, arith, refl, u32_mod, Bool-cases,
  wrapping_add32,
}
use resd_dpdk_tcp.Seq.{seq_lt}
use resd_dpdk_tcp.Seq.Order.{offset}
use resd_dpdk_tcp.Reassembly.{OooSegment, ReorderQueue, Refs}
use resd_dpdk_tcp.Reassembly.Insert.{
  Call, Piece, gaps, start, call_of, segment_of, insert_merged, store, insert,
}
use resd_dpdk_tcp.Reassembly.Fill.{pieces_len, InPieces}
use resd_dpdk_tcp.Reassembly.Account.{IsQueue, Stored, IsCall}
use resd_dpdk_tcp.Reassembly.Gaps.{IsScan, Scanned}
use resd_dpdk_tcp.Reassembly.Scan.{scan-Scanned}

abbrev pub segments_len : List OooSegment → ℕ
segments_len [] = 0
segments_len (x ∷ xs) = x.len + segments_len xs

-- The queue counts the bytes of its segments, and they fit the cap.
pub record IsAccounted (q : ReorderQueue) : Type 0 where
  pub counted : q.total_bytes ≡ segments_len q.segments
  pub fits : q.total_bytes ≤ q.cap
  pub cap_word : q.cap < u32_mod

segments_len-insert_merged :
    (n : OooSegment) (xs : List OooSegment)
    → segments_len (insert_merged n xs) ≡ n.len + segments_len xs
unfolding insert_merged
segments_len-insert_merged n [] = refl
segments_len-insert_merged n (x ∷ xs) =
    let ih = segments_len-insert_merged n xs in
    elim (Bool-cases (seq_lt n.seq x.seq)) [ inl t ↦ rw t refl | inr f ↦ rw f (omega arith) ]

segments_len-store :
    (c : Call) (ps : List Piece) (xs : List OooSegment)
    → segments_len (store c ps xs) ≡ pieces_len ps + segments_len xs
unfolding store
segments_len-store c [] xs = omega arith
segments_len-store c (p ∷ ps) xs = omega (
  arith,
  segments_len-store c ps (insert_merged (segment_of c p) xs),
  segments_len-insert_merged (segment_of c p) xs,
)

module _ (base y : ℕ) where
  insert_merged-Stored :
      (n : OooSegment) (xs : List OooSegment)
      → Stored base (n ∷ xs) y ↔ Stored base (insert_merged n xs) y
  unfolding insert_merged
  insert_merged-Stored n [] = (λ h. h, λ h. h)
  insert_merged-Stored n (x ∷ xs) =
      let ih = insert_merged-Stored n xs in
      elim (Bool-cases (seq_lt n.seq x.seq)) [
        | inl t ↦ rw t (λ h. h, λ h. h)
        | inr f ↦ rw f (
          λ h. elim h [
            | inl a ↦ inr (ih.0 (inl a))
            | inr (inl b) ↦ inl b
            | inr (inr z) ↦ inr (ih.0 (inr z))
          ],
          λ h. elim h [
            | inl b ↦ inr (inl b)
            | inr z ↦ elim (ih.1 z) [ inl a ↦ inl a | inr w ↦ inr (inr w) ]
          ],
        )
      ]

  store-Stored :
      (c : Call) (ps : List Piece) (xs : List OooSegment)
      → (InPieces base ps y ⊎ Stored base xs y) ↔ Stored base (store c ps xs) y
  unfolding store
  store-Stored c [] xs = (λ h. elim h [ inl e ↦ absurd e | inr s ↦ s ], λ s. inr s)
  store-Stored c (p ∷ ps) xs =
      let n = segment_of c p in
      let ih = store-Stored c ps (insert_merged n xs) in
      let m = insert_merged-Stored n xs in
      (
        λ h. elim h [
          | inl (inl a) ↦ ih.0 (inr (m.0 (inl a)))
          | inl (inr b) ↦ ih.0 (inl b)
          | inr s ↦ ih.0 (inr (m.0 (inr s)))
        ],
        λ h. elim (ih.1 h) [
          | inl b ↦ inl (inr b)
          | inr s ↦ elim (m.1 s) [ inl a ↦ inl (inl a) | inr z ↦ inr z ]
        ],
      )

start-IsScan :
    (base : ℕ) (c : Call) → IsCall base c → c.total_bytes ≤ c.cap → IsScan base c (start c)
start-IsScan base c hc r = record {
  cursor = record { word = hc.word; near = omega (arith, hc.near) };
  begun = omega arith;
  room = omega arith;
  budget = omega arith;
}

pub gaps-Scanned :
    (base : ℕ)
    → base < u32_mod
    → (c : Call) (xs : List OooSegment) → IsCall base c
    → IsQueue base xs
    → c.total_bytes ≤ c.cap
    → Scanned base c xs (start c) (gaps c xs)
unfolding gaps
gaps-Scanned base hb c xs hc hq r =
    scan-Scanned base hb c hc xs (start c) hq (start-IsScan base c hc r)

module _ (base : ℕ) (hb : base < u32_mod) (q : ReorderQueue) (seq payload_len mbuf offset_in : ℕ)
    (refs : Refs) (hq : IsQueue base q.segments) (ha : IsAccounted q)
    (hc : IsCall base (call_of q seq payload_len mbuf offset_in)) where
  -- An insertion keeps the count of the queue exact and within the cap, and no byte of the
  -- payload is counted both as buffered and as dropped. For a queue that is sorted without
  -- overlaps and correctly counted, a payload of fewer than 2 ^ 16 bytes, and sequence numbers
  -- within 2 ^ 31 of a base.
  pub insert-IsAccounted :
      IsAccounted (insert q seq payload_len mbuf offset_in refs).0
      × ((insert q seq payload_len mbuf offset_in refs).0.total_bytes
          ≡ q.total_bytes + (insert q seq payload_len mbuf offset_in refs).1.newly_buffered)
      × ((insert q seq payload_len mbuf offset_in refs).1.newly_buffered
            + (insert q seq payload_len mbuf offset_in refs).1.cap_dropped
          ≤ payload_len)
  unfolding insert
  insert-IsAccounted = elim (Bool-cases (payload_len == 0)) [
    | inl t ↦ rw t (ha, omega arith, omega arith)
    | inr f ↦
        let c = call_of q seq payload_len mbuf offset_in in
        let r = gaps-Scanned base hb c q.segments hc hq ha.fits in
        let sum : q.total_bytes + (gaps c q.segments).newly_buffered < u32_mod =
          omega (arith, r.room, ha.cap_word) in
        let w : wrapping_add32 q.total_bytes (gaps c q.segments).newly_buffered
            ≡ q.total_bytes + (gaps c q.segments).newly_buffered =
          omega arith in
        rw f (
          record {
            counted = omega (
              arith,
              w,
              segments_len-store c (gaps c q.segments).to_insert q.segments,
              r.len,
              ha.counted,
            );
            fits = omega (arith, w, r.room);
            cap_word = ha.cap_word;
          },
          w,
          omega (arith, r.counted),
        )
  ]

  -- An insertion loses no byte of the queue and stores no byte that is not of the payload; when
  -- it reports nothing dropped, every byte of the payload is stored. For a queue that is sorted
  -- without overlaps and within its cap, a payload of fewer than 2 ^ 16 bytes, and sequence
  -- numbers within 2 ^ 31 of a base.
  pub insert-Stored :
      (y : ℕ)
      → (Stored base q.segments y
          → Stored base (insert q seq payload_len mbuf offset_in refs).0.segments y)
        × (Stored base (insert q seq payload_len mbuf offset_in refs).0.segments y
            → Stored base q.segments y
              ⊎ ((offset base seq ≤ y) × (y < offset base seq + payload_len)))
        × ((insert q seq payload_len mbuf offset_in refs).1.cap_dropped ≡ 0
            → offset base seq ≤ y
            → y < offset base seq + payload_len
            → Stored base (insert q seq payload_len mbuf offset_in refs).0.segments y)
  unfolding insert
  insert-Stored y = elim (Bool-cases (payload_len == 0)) [
    | inl t ↦ rw t (λ h. h, λ h. inl h, λ e p k. absurd (ground arith))
    | inr f ↦
        let c = call_of q seq payload_len mbuf offset_in in
        let r = gaps-Scanned base hb c q.segments hc hq ha.fits in
        let m = store-Stored base y c (gaps c q.segments).to_insert q.segments in
        rw f (
          λ h. m.0 (inr h),
          λ h. elim (m.1 h) [
            | inr s ↦ inl s
            | inl i ↦ elim (r.sound y i) [ inl e ↦ absurd e | inr (p, k, n) ↦ inr (p, k) ]
          ],
          λ e p k. elim (r.complete e y p k) [ inl s ↦ m.0 (inr s) | inr i ↦ m.0 (inl i) ],
        )
  ]
