-- ===== src/Output/Parsed.antt =====
-- What `parse_segment` reads of a segment that was built.
use resd_dpdk_tcp.Base.{
  ℕ, ◌+◌, ◌*◌, ◌/◌, ◌%◌, ◌≤◌, ◌<◌, ◌≡◌, true, false, ◌&&◌, List, [], ◌∷◌, ◌++◌, length, take, drop,
  ltb, ◌==◌, arith, refl, ap, sym, subst, ◌∙◌, length-append, u16_mod, u32_mod, as_u8, as_u16,
}
use resd_dpdk_tcp.Options.Bytes.{be16-bytes, be32-bytes}
use resd_dpdk_tcp.Net.{ok, u16_at, has_bit}
use resd_dpdk_tcp.Net.Checksum.{internet_checksum}
use resd_dpdk_tcp.Net.Fold.{internet_checksum-concat}
use resd_dpdk_tcp.Net.Segment.{
  ParsedSegment, parse_segment, segment_csum, pseudo, tcp_syn, tcp_fin, tcp_rst,
}
use resd_dpdk_tcp.Output.{SegmentTx, tcp_fields, tcp_checksum_split}
use resd_dpdk_tcp.Output.Matches.{append_assoc}

-- A segment whose header fields fit, with flags that a receiver does not refuse.
pub record IsSendable (seg : SegmentTx) : Type 0 where
  pub src_ip : seg.src_ip < u32_mod
  pub dst_ip : seg.dst_ip < u32_mod
  pub src_port : seg.src_port < u16_mod
  pub dst_port : seg.dst_port < u16_mod
  pub seq : seg.seq < u32_mod
  pub ack : seg.ack < u32_mod
  pub window : seg.window < u16_mod
  pub syn_fin : (has_bit seg.flags tcp_syn && has_bit seg.flags tcp_fin) ≡ false
  pub rst_syn : (has_bit seg.flags tcp_rst && has_bit seg.flags tcp_syn) ≡ false

pub drop-prefix : (xs ys : List ℕ) → drop (length xs) (xs ++ ys) ≡ ys
drop-prefix [] ys = refl
drop-prefix (x ∷ xs) ys = drop-prefix xs ys

pub take-prefix : (xs ys : List ℕ) → take (length xs) (xs ++ ys) ≡ xs
take-prefix [] ys = refl
take-prefix (x ∷ xs) ys = ap (λ z. x ∷ z) (take-prefix xs ys)

pub internet_checksum-le : (chunks : List (List ℕ)) → internet_checksum chunks < u16_mod
unfolding internet_checksum
internet_checksum-le chunks = omega arith

-- The receiver's checksum of the segment is the sender's.
segment_csum-eq-split :
    (seg : SegmentTx) (csum tcp_seg_len : ℕ) (options payload : List ℕ)
    → length (tcp_fields seg (20 + length options) csum options ++ payload) ≡ tcp_seg_len
    → segment_csum seg.src_ip seg.dst_ip
        (tcp_fields seg (20 + length options) csum options ++ payload)
      ≡ tcp_checksum_split seg.src_ip seg.dst_ip tcp_seg_len
          (tcp_fields seg (20 + length options) 0 options)
          payload
unfolding tcp_checksum_split
segment_csum-eq-split seg csum tcp_seg_len options payload h =
    let cells =
      pseudo seg.src_ip seg.dst_ip (as_u16 tcp_seg_len)
      ++ tcp_fields seg (20 + length options) 0 [] in
    let rest = append_assoc options payload [] in
    rw h (
      internet_checksum-concat _
      ∙ ap (λ z. internet_checksum ((cells ++ z) ∷ [])) rest
      ∙ sym (internet_checksum-concat _))

-- The segment as the receiver sees it.
abbrev pub received : SegmentTx → List ℕ → List ℕ → ParsedSegment
received seg options payload = record {
  src_port = seg.src_port;
  dst_port = seg.dst_port;
  seq = seg.seq;
  ack = seg.ack;
  flags = seg.flags;
  window = seg.window;
  header_len = 20 + length options;
  payload = payload;
  options = options;
}

module _ (seg : SegmentTx) (options payload : List ℕ) (v : IsSendable seg)
    (aligned : length options % 4 ≡ 0) (small : length options ≤ 40)
    (fits : 20 + length options + length payload < u16_mod) where
  abbrev hdr_len : ℕ
  hdr_len = 20 + length options

  abbrev csum : ℕ
  csum =
      tcp_checksum_split seg.src_ip seg.dst_ip (hdr_len + length payload)
        (tcp_fields seg hdr_len 0 options) payload

  abbrev tcp_bytes : List ℕ
  tcp_bytes = tcp_fields seg hdr_len csum options ++ payload

  length-tcp_bytes : length tcp_bytes ≡ hdr_len + length payload
  length-tcp_bytes = omega (arith, length-append options payload)

  csum-le : csum < u16_mod
  unfolding tcp_checksum_split
  csum-le = internet_checksum-le _

  pub parse_segment-eq-received :
      parse_segment tcp_bytes seg.src_ip seg.dst_ip false ≡ ok (received seg options payload)
  unfolding parse_segment
  parse_segment-eq-received =
      let offset : as_u8 (hdr_len / 4 * 16) / 16 ≡ hdr_len / 4 = omega arith in
      let words : hdr_len / 4 * 4 ≡ hdr_len = omega arith in
      let n = length-tcp_bytes in
      let sum = segment_csum-eq-split seg csum (hdr_len + length payload) options payload n in
      let f1 : ltb (length tcp_bytes) 20 ≡ false = ground (arith, n) in
      let f2 : ltb (hdr_len / 4) 5 ≡ false = ground arith in
      let f3 : ltb (length tcp_bytes) hdr_len ≡ false = ground (arith, n) in
      let f4 : (segment_csum seg.src_ip seg.dst_ip tcp_bytes == u16_at tcp_bytes 16) ≡ true =
        ground (arith, sum, csum-le, be16-bytes csum csum-le) in
      let fields = tcp_fields seg hdr_len csum options in
      let len : length fields ≡ hdr_len = omega arith in
      let after : drop hdr_len tcp_bytes ≡ payload =
        subst (λ n. drop n tcp_bytes ≡ payload) len (drop-prefix fields payload) in
      let before : take hdr_len tcp_bytes ≡ fields =
        subst (λ n. take n tcp_bytes ≡ fields) len (take-prefix fields payload) in
      rw
        (
          offset,
          words,
          f1,
          f2,
          f3,
          v.syn_fin,
          v.rst_syn,
          f4,
          after,
          before,
          be16-bytes seg.src_port v.src_port,
          be16-bytes seg.dst_port v.dst_port,
          be32-bytes seg.seq v.seq,
          be32-bytes seg.ack v.ack,
          be16-bytes seg.window v.window,
        )
        refl
