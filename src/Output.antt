-- ===== src/Output.antt =====
-- The segment builders, crates/dpdk-net-core/src/tcp_output.rs. The buffer `out` is a list of bytes; the
-- builders overwrite its first bytes and leave the rest. A MAC address is its list of six bytes.
pub mod Matches
pub mod Parsed
pub mod Received
pub mod Built
use resd_dpdk_tcp.Base.{
  ℕ, ◌+◌, ◌*◌, ◌/◌, Option, none, some, List, [], ◌∷◌, ◌++◌, length, take, drop, ltb, if◌then◌else◌,
  wrapping_add32, as_u8, as_u16, as_u32, u16_mod, ◌-◌,
}
use resd_dpdk_tcp.Options.{TcpOpts}
use resd_dpdk_tcp.Options.Encode.{encoded_len, encode, bytes16, bytes32}
use resd_dpdk_tcp.Net.Checksum.{internet_checksum}
use resd_dpdk_tcp.Net.Ethernet.{ethertype_ipv4, eth_hdr_len}
use resd_dpdk_tcp.Net.Ipv4.{ipproto_tcp}
use resd_dpdk_tcp.Net.Segment.{pseudo}

abbrev pub tcp_hdr_min : ℕ
tcp_hdr_min = 20

abbrev pub ipv4_hdr_min : ℕ
ipv4_hdr_min = 20

abbrev pub frame_hdrs_min : ℕ
frame_hdrs_min = eth_hdr_len + ipv4_hdr_min + tcp_hdr_min

pub record SegmentTx : Type 0 where
  pub src_mac : List ℕ
  pub dst_mac : List ℕ
  pub src_ip : ℕ
  pub dst_ip : ℕ
  pub src_port : ℕ
  pub dst_port : ℕ
  pub seq : ℕ
  pub ack : ℕ
  pub flags : ℕ
  pub window : ℕ
  pub options : TcpOpts
  pub payload : List ℕ

unfoldable pub tcp_checksum_split : ℕ → ℕ → ℕ → List ℕ → List ℕ → ℕ
tcp_checksum_split src_ip dst_ip tcp_seg_len tcp_header_bytes payload_bytes =
    internet_checksum
      (pseudo src_ip dst_ip (as_u16 tcp_seg_len) ∷ tcp_header_bytes ∷ payload_bytes ∷ [])

unfoldable pub tcp_pseudo_header_checksum : ℕ → ℕ → ℕ → ℕ
tcp_pseudo_header_checksum src_ip dst_ip tcp_seg_len =
    internet_checksum (pseudo src_ip dst_ip (as_u16 tcp_seg_len) ∷ [])

-- The copies into `out`, header by header. A checksum is written last, over zeros.
abbrev pub eth_header : SegmentTx → List ℕ
eth_header seg = seg.dst_mac ++ seg.src_mac ++ bytes16 ethertype_ipv4

abbrev pub ip_fields : SegmentTx → ℕ → ℕ → List ℕ
ip_fields seg total_ip_len csum =
    69
    ∷ 0
    ∷ (bytes16 total_ip_len
        ++ bytes16 0
        ++ bytes16 16384
        ++ (64 ∷ ipproto_tcp ∷ (bytes16 csum ++ bytes32 seg.src_ip ++ bytes32 seg.dst_ip)))

abbrev pub ip_header : SegmentTx → ℕ → List ℕ
ip_header seg total_ip_len =
    ip_fields seg total_ip_len (internet_checksum (ip_fields seg total_ip_len 0 ∷ []))

abbrev pub tcp_fields : SegmentTx → ℕ → ℕ → List ℕ → List ℕ
tcp_fields seg tcp_hdr_len csum options =
    bytes16 seg.src_port
    ++ bytes16 seg.dst_port
    ++ bytes32 seg.seq
    ++ bytes32 seg.ack
    ++ (as_u8 (tcp_hdr_len / 4 * 16)
        ∷ seg.flags
        ∷ (bytes16 seg.window ++ bytes16 csum ++ bytes16 0 ++ options))

-- The bytes of `out` that the options take, once `encode` has written them; its `none` is a panic of
-- the source.
unfoldable pub option_bytes : TcpOpts → List ℕ → List ℕ
option_bytes o out =
    let slot = take (encoded_len o) (drop frame_hdrs_min out) in
    if ltb 0 (encoded_len o)
    then elim (encode o slot) [ none ↦ [] | some (bytes, n) ↦ bytes ]
    else []

unfoldable pub build_segment_inner : SegmentTx → List ℕ → ℕ → List ℕ → Option (List ℕ × ℕ)
unfolding tcp_checksum_split option_bytes
build_segment_inner seg payload_for_csum declared_payload_len out =
    let tcp_hdr_len = tcp_hdr_min + encoded_len seg.options in
    let total_written = eth_hdr_len + ipv4_hdr_min + tcp_hdr_len + length seg.payload in
    let total_ip_len = wrapping_add32 (ipv4_hdr_min + tcp_hdr_len) declared_payload_len in
    let tcp_seg_len = wrapping_add32 tcp_hdr_len declared_payload_len in
    let options = option_bytes seg.options out in
    let csum =
      tcp_checksum_split seg.src_ip seg.dst_ip tcp_seg_len (tcp_fields seg tcp_hdr_len 0 options)
        payload_for_csum in
    if ltb (length out) total_written
    then none
    else if ltb (u16_mod - 1) total_ip_len
    then none
    else some (
      eth_header seg
          ++ (ip_header seg total_ip_len
              ++ (tcp_fields seg tcp_hdr_len csum options
                  ++ (seg.payload ++ drop total_written out))),
      total_written,
    )

unfoldable pub build_segment : SegmentTx → List ℕ → Option (List ℕ × ℕ)
unfolding build_segment_inner
build_segment seg out = build_segment_inner seg seg.payload (as_u32 (length seg.payload)) out

unfoldable pub build_retrans_header : SegmentTx → List ℕ → List ℕ → Option (List ℕ × ℕ)
unfolding build_segment_inner
build_retrans_header seg payload_for_csum out =
    if ltb (u16_mod - 1) (length payload_for_csum)
    then none
    else build_segment_inner seg payload_for_csum (as_u32 (length payload_for_csum)) out
