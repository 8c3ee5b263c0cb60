-- ===== src/Reassembly/Placed.antt =====
-- Which byte of which mbuf the queue holds for a sequence number, before and after an insertion.
use resd_dpdk_tcp.Base.{
  ℕ, ◌+◌, ◌-◌, ◌%◌, ◌≤◌, ◌<◌, ◌≡◌, ◌⊎◌, ◌↔◌, inl, inr, min, List, [], ◌∷◌, map, ltb, ◌==◌, arith,
  if◌then◌else◌, u16_mod, u32_mod, wrapping_add32, wrapping_sub32, All, All-append, Bool-cases,
  if_either,
}
use resd_dpdk_tcp.Seq.{seq_lt, seq_le}
use resd_dpdk_tcp.Seq.Order.{offset}
use resd_dpdk_tcp.Reassembly.{OooSegment, end_seq, ReorderQueue, Refs}
use resd_dpdk_tcp.Reassembly.Insert.{
  Call, Piece, Scan, fill, visit, scan, scan_tail, gaps, start, call_of, segment_of, insert_merged,
  store, insert, incoming_end,
}
use resd_dpdk_tcp.Reassembly.Fill.{InPieces}
use resd_dpdk_tcp.Reassembly.Account.{IsQueue, Stored, IsCall, lo, hi}
use resd_dpdk_tcp.Reassembly.Stored.{IsAccounted, gaps-Scanned, insert-Stored}

-- The byte at a distance from the base is the byte `o` of the mbuf `m`.
abbrev pub HoldsAt : ℕ → List OooSegment → ℕ → ℕ → ℕ → Type 0
HoldsAt base [] y m o = ⊥
HoldsAt base (x ∷ xs) y m o =
    ((lo base x ≤ y)
      × (y < hi base x)
      × (x.mbuf ≡ m)
      × ((x.offset + (y - lo base x)) % u16_mod ≡ o))
    ⊎ HoldsAt base xs y m o

module _ (base y m o : ℕ) where
  insert_merged-HoldsAt :
      (n : OooSegment) (xs : List OooSegment)
      → HoldsAt base (n ∷ xs) y m o ↔ HoldsAt base (insert_merged n xs) y m o
  unfolding insert_merged
  insert_merged-HoldsAt n [] = (λ h. h, λ h. h)
  insert_merged-HoldsAt n (x ∷ xs) =
      let ih = insert_merged-HoldsAt n xs in
      elim (Bool-cases (seq_lt n.seq x.seq)) [
        | inl t ↦ rw t (λ h. h, λ h. h)
        | inr f ↦ rw f (
          λ h. elim h [
            | inl a ↦ inr (ih.0 (inl a))
            | inr (inl b) ↦ inl b
            | inr (inr z) ↦ inr (ih.0 (inr z))
          ],
          λ h. elim h [
            | inl b ↦ inr (inl b)
            | inr z ↦ elim (ih.1 z) [ inl a ↦ inl a | inr w ↦ inr (inr w) ]
          ],
        )
      ]

  store-HoldsAt :
      (c : Call) (ps : List Piece) (xs : List OooSegment)
      → (HoldsAt base (map (segment_of c) ps) y m o ⊎ HoldsAt base xs y m o)
        ↔ HoldsAt base (store c ps xs) y m o
  unfolding store
  store-HoldsAt c [] xs = (λ h. elim h [ inl e ↦ absurd e | inr s ↦ s ], λ s. inr s)
  store-HoldsAt c (p ∷ ps) xs =
      let n = segment_of c p in
      let ih = store-HoldsAt c ps (insert_merged n xs) in
      let k = insert_merged-HoldsAt n xs in
      (
        λ h. elim h [
          | inl (inl a) ↦ ih.0 (inr (k.0 (inl a)))
          | inl (inr b) ↦ ih.0 (inl b)
          | inr s ↦ ih.0 (inr (k.0 (inr s)))
        ],
        λ h. elim (ih.1 h) [
          | inl b ↦ inl (inr b)
          | inr s ↦ elim (k.1 s) [ inl a ↦ inl (inl a) | inr z ↦ inr z ]
        ],
      )

-- A piece starts in the mbuf where its first byte stands.
abbrev IsPlaced : Call → Piece → Type 0
IsPlaced c p = p.sub_offset ≡ (c.mbuf_payload_offset + wrapping_sub32 p.cursor_seq c.seq) % u16_mod

module _ (c : Call) where
  abbrev Placed : Scan → Type 0
  Placed s = All (IsPlaced c) s.to_insert

  fill-Placed : (wanted : ℕ) (s : Scan) → Placed s → Placed (fill c wanted s)
  unfolding fill
  fill-Placed wanted s h =
      let taken = min wanted (c.cap - wrapping_add32 c.total_bytes s.newly_buffered) in
      if_either (All (IsPlaced c)) (ltb 0 taken) _ s.to_insert
        (λ e. All-append (IsPlaced c) s.to_insert _ h (omega arith, tt)) (λ e. h)

  visit-Placed : (x : OooSegment) (s : Scan) → Placed s → Placed (visit c x s)
  unfolding visit
  visit-Placed x s h =
      let off = wrapping_sub32 s.cursor c.seq in
      let wanted = min (wrapping_sub32 x.seq s.cursor) (c.payload_len - off) in
      let filled : Scan = record (fill c wanted s) { cursor = wrapping_add32 s.cursor wanted } in
      let s' : Scan = if seq_lt s.cursor x.seq then filled else s in
      let p : Placed s' =
        if_either Placed (seq_lt s.cursor x.seq) filled s (λ e. fill-Placed wanted s h) (λ e. h) in
      if_either Placed (seq_lt s'.cursor (end_seq x)) (record s' { cursor = end_seq x }) s' (λ e. p)
        (λ e. p)

  scan-Placed : (xs : List OooSegment) (s : Scan) → Placed s → Placed (scan c xs s)
  unfolding scan
  scan-Placed [] s h = h
  scan-Placed (x ∷ xs) s h =
      let next : Scan = if seq_le (end_seq x) s.cursor then s else visit c x s in
      if_either Placed (seq_le (incoming_end c) x.seq) s (scan c xs next) (λ e. h)
        (λ e. scan-Placed xs next (
          if_either Placed (seq_le (end_seq x) s.cursor) s (visit c x s) (λ f. h)
            (λ f. visit-Placed x s h)))

  gaps-Placed : (xs : List OooSegment) → Placed (gaps c xs)
  unfolding gaps scan_tail
  gaps-Placed xs =
      let s = scan c xs (start c) in
      let p = scan-Placed xs (start c) tt in
      if_either Placed (seq_lt s.cursor (incoming_end c)) _ s (λ e. fill-Placed _ s p) (λ e. p)

-- The byte `y` of the payload that starts at `seq`, in its mbuf.
abbrev pub IsByte : ℕ → Call → ℕ → ℕ → ℕ → Type 0
IsByte base c y m o =
    (offset base c.seq ≤ y)
    × (y < offset base c.seq + c.payload_len)
    × (m ≡ c.mbuf)
    × (o ≡ (c.mbuf_payload_offset + (y - offset base c.seq)) % u16_mod)

module _ (base : ℕ) (hb : base < u32_mod) (c : Call) (hc : c.seq < u32_mod) where
  pieces-IsByte :
      (ps : List Piece) (y m o : ℕ)
      → All (IsPlaced c) ps
      → ((x : ℕ)
          → InPieces base ps x
          → (offset base c.seq ≤ x) × (x < offset base c.seq + c.payload_len))
      → HoldsAt base (map (segment_of c) ps) y m o
      → IsByte base c y m o
  pieces-IsByte [] y m o all range h = absurd h
  pieces-IsByte (p ∷ ps) y m o (e, all) range (inl (a, b, same, place)) =
      let (low, k) = range y (inl (a, b)) in
      let (first, l) = range (offset base p.cursor_seq) (inl (omega arith, omega arith)) in
      let d : wrapping_sub32 p.cursor_seq c.seq + offset base c.seq ≡ offset base p.cursor_seq =
        omega arith in
      (low, k, omega arith, omega (arith, e, place, d))
  pieces-IsByte (p ∷ ps) y m o (e, all) range (inr h) =
      pieces-IsByte ps y m o all (λ x i. range x (inr i)) h

-- An insertion keeps every byte of the queue, in its mbuf and at its place there, and each byte that it
-- stores is the byte of the payload with that sequence number, in the mbuf of the call; when it reports
-- nothing dropped, every byte of the payload is stored. For a queue that is sorted without overlaps and
-- correctly counted, a payload of fewer than 2 ^ 16 bytes, and sequence numbers within 2 ^ 31 of a base.
pub insert-HoldsAt :
    (base : ℕ) (q : ReorderQueue) (seq payload_len mbuf offset_in : ℕ) (refs : Refs) (y m o : ℕ)
    → base < u32_mod
    → IsQueue base q.segments
    → IsAccounted q
    → IsCall base (call_of q seq payload_len mbuf offset_in)
    → let (q', outcome, refs') = insert q seq payload_len mbuf offset_in refs in
      (HoldsAt base q.segments y m o → HoldsAt base q'.segments y m o)
      × (HoldsAt base q'.segments y m o
          → HoldsAt base q.segments y m o
            ⊎ IsByte base (call_of q seq payload_len mbuf offset_in) y m o)
      × (outcome.cap_dropped ≡ 0
          → offset base seq ≤ y
          → y < offset base seq + payload_len
          → Stored base q'.segments y)
unfolding insert
insert-HoldsAt base q seq payload_len mbuf offset_in refs y m o hb hq ha hc =
    let all = (insert-Stored base hb q seq payload_len mbuf offset_in refs hq ha hc y).2 in
    elim (Bool-cases (payload_len == 0)) [
      | inl t ↦ rw t (λ h. h, λ h. inl h, λ e p k. absurd (ground arith))
      | inr f ↦
          let c = call_of q seq payload_len mbuf offset_in in
          let r = gaps-Scanned base hb c q.segments hc hq ha.fits in
          let ps = (gaps c q.segments).to_insert in
          let k = store-HoldsAt base y m o c ps q.segments in
          rw f (
            λ h. k.0 (inr h),
            λ h. elim (k.1 h) [
              | inr s ↦ inl s
              | inl i ↦ inr (
                  pieces-IsByte base hb c hc.word ps y m o (gaps-Placed c q.segments)
                    (λ x z. elim (r.sound x z) [ inl e ↦ absurd e | inr (a, b, n) ↦ (a, b) ]) i)
            ],
            rw f at all,
          )
    ]
