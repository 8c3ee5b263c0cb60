-- ===== src/Output/Built.antt =====
-- What the builders write: the frame as a whole, and the headers of a retransmission.
use resd_dpdk_tcp.Base.{
  ℕ, ◌+◌, ◌-◌, ◌≤◌, ◌<◌, ◌≡◌, false, some, List, [], ◌++◌, length, drop, ltb, arith, ap, sym, ◌∙◌,
  length-append, u16_mod, as_u32, wrapping_add32,
}
use resd_dpdk_tcp.Options.Encode.{encoded_len, bytes16}
use resd_dpdk_tcp.Options.RoundTrip.{wire}
use resd_dpdk_tcp.Options.Written.{length-wire, encoded_len_aligned}
use resd_dpdk_tcp.Net.Ethernet.{ethertype_ipv4}
use resd_dpdk_tcp.Output.{
  SegmentTx, tcp_fields, tcp_checksum_split, eth_header, ip_header, build_segment,
  build_segment_inner, build_retrans_header,
}
use resd_dpdk_tcp.Output.Matches.{append_assoc, option_bytes-eq-wire}
use resd_dpdk_tcp.Output.Parsed.{IsSendable, parse_segment-eq-received}
use resd_dpdk_tcp.Output.Received.{
  ip_decode-header, l2_decode-header, skip_eth, skip_ip, length-headers, IsReceived,
}

module _ (seg : SegmentTx) (v : IsSendable seg) (hs : length seg.src_mac ≡ 6)
    (hd : length seg.dst_mac ≡ 6)
    (hb : seg.options.sack_block_count ≤ length seg.options.sack_blocks)
    (small : encoded_len seg.options ≤ 40)
    (fits : 40 + encoded_len seg.options + length seg.payload < u16_mod) where
  abbrev opts : List ℕ
  opts = wire seg.options

  abbrev hdr : ℕ
  hdr = 20 + length opts

  abbrev tcp_only : List ℕ
  tcp_only =
      tcp_fields seg hdr
        (tcp_checksum_split seg.src_ip seg.dst_ip (hdr + length seg.payload)
          (tcp_fields seg hdr 0 opts) seg.payload)
        opts

  abbrev tcp_part : List ℕ
  tcp_part = tcp_only ++ seg.payload

  abbrev total : ℕ
  total = 20 + hdr + length seg.payload

  abbrev frame : List ℕ
  frame = seg.dst_mac ++ seg.src_mac ++ bytes16 ethertype_ipv4 ++ (ip_header seg total ++ tcp_part)

  length-tcp_part : length tcp_part ≡ hdr + length seg.payload
  length-tcp_part = omega (arith, length-append opts seg.payload)

  frame-IsReceived : IsReceived seg frame
  frame-IsReceived =
      let n = length-wire seg.options hb in
      let k = length-tcp_part in
      let len : length frame - 14 ≡ total =
        omega (arith, k, length-headers seg total seg.src_mac seg.dst_mac tcp_part hs hd) in
      record {
        l2 = l2_decode-header seg.src_mac seg.dst_mac (ip_header seg total ++ tcp_part) hs hd;
        l3 =
            rw (len, skip_eth seg.src_mac seg.dst_mac (ip_header seg total ++ tcp_part) hs hd)
              (ip_decode-header seg total tcp_part v (omega (arith, n)) (omega (arith, k)));
        l4 = rw (skip_ip seg total seg.src_mac seg.dst_mac tcp_part hs hd) (
            parse_segment-eq-received seg opts seg.payload v
              (omega (arith, n, encoded_len_aligned seg.options)) (omega (arith, n))
              (omega (arith, n)));
      }

  regroup :
      (out rest : List ℕ)
      → eth_header seg ++ (ip_header seg total ++ (tcp_only ++ (seg.payload ++ rest)))
        ≡ frame ++ rest
  regroup out rest =
      ap (λ z. eth_header seg ++ (ip_header seg total ++ z))
        (sym (append_assoc tcp_only seg.payload rest))
      ∙ sym (append_assoc (eth_header seg) (ip_header seg total ++ tcp_part) rest)

  -- The frame is what `build_segment` writes.
  built_lem :
      (out : List ℕ)
      → 54 + encoded_len seg.options + length seg.payload ≤ length out
      → build_segment seg out ≡ some (frame ++ drop (length frame) out, length frame)
  unfolding build_segment build_segment_inner
  built_lem out room =
      let n = length-wire seg.options hb in
      let k = length-tcp_part in
      let len : length frame ≡ 54 + encoded_len seg.options + length seg.payload =
        omega (arith, n, k, length-headers seg total seg.src_mac seg.dst_mac tcp_part hs hd) in
      let o = option_bytes-eq-wire seg.options out hb (omega arith) in
      let rest = drop (length frame) out in
      let written : 34 + hdr + length seg.payload ≡ length frame = omega (arith, n, len) in
      let ip_len : wrapping_add32 (20 + hdr) (as_u32 (length seg.payload)) ≡ total =
        omega (arith, n) in
      let tcp_len : wrapping_add32 hdr (as_u32 (length seg.payload)) ≡ hdr + length seg.payload =
        omega (arith, n) in
      let enough : ltb (length out) (length frame) ≡ false = ground (arith, len) in
      let short : ltb (u16_mod - 1) total ≡ false = ground (arith, n) in
      rw (o, sym n, ip_len, tcp_len, written, enough, short)
        (ap (λ z. some (z, length frame)) (regroup out rest))

  abbrev headers : List ℕ
  headers = eth_header seg ++ (ip_header seg total ++ tcp_only)

  headers_lem :
      (rest : List ℕ)
      → eth_header seg ++ (ip_header seg total ++ (tcp_only ++ rest)) ≡ headers ++ rest
  headers_lem rest =
      ap (λ z. eth_header seg ++ z) (sym (append_assoc (ip_header seg total) tcp_only rest))
      ∙ sym (append_assoc (eth_header seg) (ip_header seg total ++ tcp_only) rest)

  length-built : length headers ≡ 54 + encoded_len seg.options
  length-built = omega (
    arith,
    length-wire seg.options hb,
    length-headers seg total seg.src_mac seg.dst_mac tcp_only hs hd,
  )

  retransmitted_lem :
      (out : List ℕ)
      → 54 + encoded_len seg.options ≤ length out
      → build_retrans_header (record seg { payload = [] }) seg.payload out
        ≡ some (headers ++ drop (length headers) out, length headers)
  unfolding build_retrans_header build_segment_inner
  retransmitted_lem out room =
      let n = length-wire seg.options hb in
      let o = option_bytes-eq-wire seg.options out hb (omega arith) in
      let written : 34 + hdr + 0 ≡ length headers = omega (arith, n, length-built) in
      let ip_len : wrapping_add32 (20 + hdr) (as_u32 (length seg.payload)) ≡ total =
        omega (arith, n) in
      let tcp_len : wrapping_add32 hdr (as_u32 (length seg.payload)) ≡ hdr + length seg.payload =
        omega (arith, n) in
      let enough : ltb (length out) (length headers) ≡ false = ground (arith, length-built) in
      let short : ltb (u16_mod - 1) total ≡ false = ground (arith, n) in
      let few : ltb (u16_mod - 1) (length seg.payload) ≡ false = ground arith in
      rw (few, o, sym n, ip_len, tcp_len, written, enough, short)
        (ap (λ z. some (z, length headers)) (headers_lem (drop (length headers) out)))

  segment_lem :
      (out : List ℕ)
      → 54 + encoded_len seg.options + length seg.payload ≤ length out
      → build_segment seg out
        ≡ some (
          headers ++ (seg.payload ++ drop (length headers + length seg.payload) out),
          length headers + length seg.payload,
        )
  segment_lem out room =
      let len : length frame ≡ length headers + length seg.payload = omega (
        arith,
        length-wire seg.options hb,
        length-tcp_part,
        length-built,
        length-headers seg total seg.src_mac seg.dst_mac tcp_part hs hd,
      ) in
      built_lem out room
      ∙ rw len (
          ap (λ z. some (z, length headers + length seg.payload))
            (sym (regroup out _)
              ∙ headers_lem (seg.payload ++ drop (length headers + length seg.payload) out)))

  -- `build_segment` writes a frame to the front of a buffer that has room for it, and the receive path
  -- takes that frame: `l2_decode` at the destination's address, `ip_decode` with its checksum, and
  -- `parse_segment` with its checksum, which gives back the ports, the numbers, the flags, the window,
  -- the options and the payload. For fields that fit their width on the wire, flags that do not combine
  -- SYN with FIN or RST, MAC addresses of six bytes, at most 40 bytes of options, and a datagram of fewer
  -- than 2 ^ 16 bytes.
  pub build_segment-IsReceived :
      (out : List ℕ)
      → 54 + encoded_len seg.options + length seg.payload ≤ length out
      → (frame : List ℕ) × (build_segment seg out
          ≡ some (frame ++ drop (length frame) out, length frame))
        × IsReceived seg frame
  build_segment-IsReceived out room = (frame, built_lem out room, frame-IsReceived)

  -- `build_retrans_header` without the payload and `build_segment` with it write the same headers, with
  -- the lengths and the checksums of the whole segment: the one writes no more, and the other the payload
  -- behind them. For a segment as in the round trip.
  pub build_retrans_header-eq-build_segment :
      (out : List ℕ)
      → 54 + encoded_len seg.options + length seg.payload ≤ length out
      → (hdrs : List ℕ) × (build_retrans_header (record seg { payload = [] }) seg.payload out
          ≡ some (hdrs ++ drop (length hdrs) out, length hdrs))
        × (build_segment seg out
            ≡ some (
              hdrs ++ (seg.payload ++ drop (length hdrs + length seg.payload) out),
              length hdrs + length seg.payload,
            ))
  build_retrans_header-eq-build_segment out room =
      (headers, retransmitted_lem out (omega arith), segment_lem out room)
