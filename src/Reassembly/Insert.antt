-- ===== src/Reassembly/Insert.antt =====
-- `ReorderQueue::insert`: a scan over the stored segments collects the gaps that the payload fills,
-- and a second pass stores a segment for each.
use resd_dpdk_tcp.Base.{
  ℕ, ◌+◌, ◌-◌, min, false, List, [], ◌∷◌, ◌++◌, length, ltb, ◌==◌, if◌then◌else◌, wrapping_add32,
  wrapping_sub32, as_u16, u16_mod, ◌%◌,
}
use resd_dpdk_tcp.Seq.{seq_lt, seq_le}
use resd_dpdk_tcp.Reassembly.{OooSegment, end_seq, InsertOutcome, ReorderQueue, Refs, add_refs}

-- A gap to fill: `(cursor_seq, sub_offset, take_len)`.
pub record Piece : Type 0 where
  pub cursor_seq : ℕ
  pub sub_offset : ℕ
  pub take_len : ℕ

-- The local variables of the scan.
pub record Scan : Type 0 where
  pub cursor : ℕ
  pub newly_buffered : ℕ
  pub cap_dropped : ℕ
  pub to_insert : List Piece

-- The arguments of the call, and the queue's counters.
pub record Call : Type 0 where
  pub seq : ℕ
  pub payload_len : ℕ
  pub mbuf : ℕ
  pub mbuf_payload_offset : ℕ
  pub cap : ℕ
  pub total_bytes : ℕ

abbrev pub incoming_end : Call → ℕ
incoming_end c = wrapping_add32 c.seq c.payload_len

-- Takes what the cap allows of the `wanted` bytes at the cursor. This block stands in the loop and,
-- for the tail, behind it; `u32` sums wrap, as in a release build.
unfoldable pub fill : Call → ℕ → Scan → Scan
fill c wanted s =
    let off = wrapping_sub32 s.cursor c.seq in
    let remaining_cap = c.cap - wrapping_add32 c.total_bytes s.newly_buffered in
    let taken = min wanted remaining_cap in
    record s {
      newly_buffered =
          if ltb 0 taken then wrapping_add32 s.newly_buffered taken else s.newly_buffered;
      cap_dropped =
          if ltb taken wanted then wrapping_add32 s.cap_dropped (wanted - taken) else s.cap_dropped;
      to_insert =
          if ltb 0 taken
          then s.to_insert
            ++ (record {
              cursor_seq = s.cursor;
              sub_offset = (c.mbuf_payload_offset + as_u16 off) % u16_mod;
              take_len = as_u16 taken;
            }
                ∷ [])
          else s.to_insert;
    }

-- The body of the loop behind its `break` and its `continue`.
unfoldable pub visit : Call → OooSegment → Scan → Scan
unfolding fill
visit c existing s =
    let s' =
      if seq_lt s.cursor existing.seq
      then (let gap_len = wrapping_sub32 existing.seq s.cursor in
          let off = wrapping_sub32 s.cursor c.seq in
          let wanted = min gap_len (c.payload_len - off) in
          record (fill c wanted s) { cursor = wrapping_add32 s.cursor wanted })
      else s in
    if seq_lt s'.cursor (end_seq existing) then record s' { cursor = end_seq existing } else s'

unfoldable pub scan : Call → List OooSegment → Scan → Scan
unfolding visit
scan c [] s = s
scan c (existing ∷ segs) s =
    if seq_le (incoming_end c) existing.seq
    then s
    else scan c segs (if seq_le (end_seq existing) s.cursor then s else visit c existing s)

unfoldable pub scan_tail : Call → Scan → Scan
unfolding fill
scan_tail c s =
    if seq_lt s.cursor (incoming_end c)
    then fill c (c.payload_len - wrapping_sub32 s.cursor c.seq) s
    else s

unfoldable pub insert_merged : OooSegment → List OooSegment → List OooSegment
insert_merged new [] = new ∷ []
insert_merged new (s ∷ segs) =
    if seq_lt new.seq s.seq then new ∷ s ∷ segs else s ∷ insert_merged new segs

abbrev pub segment_of : Call → Piece → OooSegment
segment_of c p = record {
  seq = p.cursor_seq;
  mbuf = c.mbuf;
  offset = p.sub_offset;
  len = p.take_len;
}

-- The second pass.
unfoldable pub store : Call → List Piece → List OooSegment → List OooSegment
unfolding insert_merged
store c [] segs = segs
store c (p ∷ ps) segs = store c ps (insert_merged (segment_of c p) segs)

abbrev pub start : Call → Scan
start c = record { cursor = c.seq; newly_buffered = 0; cap_dropped = 0; to_insert = [] }

abbrev pub call_of : ReorderQueue → ℕ → ℕ → ℕ → ℕ → Call
call_of q seq payload_len mbuf offset = record {
  seq = seq;
  payload_len = payload_len;
  mbuf = mbuf;
  mbuf_payload_offset = offset;
  cap = q.cap;
  total_bytes = q.total_bytes;
}

-- Both passes over the gaps: the state of the scan when it is done.
unfoldable pub gaps : Call → List OooSegment → Scan
unfolding scan scan_tail
gaps c segs = scan_tail c (scan c segs (start c))

unfoldable pub insert : ReorderQueue → ℕ → ℕ → ℕ → ℕ → Refs → ReorderQueue × InsertOutcome × Refs
unfolding gaps store
insert q seq payload_len mbuf offset refs =
    let c = call_of q seq payload_len mbuf offset in
    let s = gaps c q.segments in
    let stored_count = length s.to_insert in
    if payload_len == 0
    then (q, record { newly_buffered = 0; cap_dropped = 0; mbuf_ref_retained = false }, refs)
    else (
      record q {
        segments = store c s.to_insert q.segments;
        total_bytes = wrapping_add32 q.total_bytes s.newly_buffered;
      },
      record {
        newly_buffered = s.newly_buffered;
        cap_dropped = s.cap_dropped;
        mbuf_ref_retained = ltb 0 stored_count;
      },
      if ltb 1 stored_count then add_refs mbuf (stored_count - 1) refs else refs,
    )
