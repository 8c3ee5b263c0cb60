-- ===== src/Net/Segment.antt =====
-- `parse_segment`: the fixed header of a TCP segment, its options and its payload.
use resd_dpdk_tcp.Base.{
  ℕ, ◌*◌, ◌/◌, Bool, not, ◌&&◌, List, [], ◌∷◌, length, ltb, ◌==◌, if◌then◌else◌, take, drop, as_u16,
}
use resd_dpdk_tcp.Options.Bytes.{byte3, byte2, byte1, byte0}
use resd_dpdk_tcp.Net.{Result, ok, err, byte, u16_at, u32_at, has_bit}
use resd_dpdk_tcp.Net.Checksum.{internet_checksum}
use resd_dpdk_tcp.Net.Ipv4.{ipproto_tcp}

-- The flag bits, of tcp_output.rs.
abbrev pub tcp_fin : ℕ
tcp_fin = 1

abbrev pub tcp_syn : ℕ
tcp_syn = 2

abbrev pub tcp_rst : ℕ
tcp_rst = 4

abbrev pub tcp_psh : ℕ
tcp_psh = 8

abbrev pub tcp_ack : ℕ
tcp_ack = 16

abbrev pub tcp_urg : ℕ
tcp_urg = 32

pub record ParsedSegment : Type 0 where
  pub src_port : ℕ
  pub dst_port : ℕ
  pub seq : ℕ
  pub ack : ℕ
  pub flags : ℕ
  pub window : ℕ
  pub header_len : ℕ
  pub payload : List ℕ
  pub options : List ℕ

pub data TcpParseError : Type 0 where
  short bad_data_offset bad_flags csum : TcpParseError

abbrev pub pseudo : ℕ → ℕ → ℕ → List ℕ
pseudo src_ip dst_ip len =
    byte3 src_ip
    ∷ byte2 src_ip
    ∷ byte1 src_ip
    ∷ byte0 src_ip
    ∷ byte3 dst_ip
    ∷ byte2 dst_ip
    ∷ byte1 dst_ip
    ∷ byte0 dst_ip
    ∷ 0
    ∷ ipproto_tcp
    ∷ byte1 len
    ∷ byte0 len
    ∷ []

-- The checksum over the pseudo-header and the segment with its checksum field zeroed.
abbrev pub segment_csum : ℕ → ℕ → List ℕ → ℕ
segment_csum src_ip dst_ip tcp_bytes = internet_checksum (
    pseudo src_ip dst_ip (as_u16 (length tcp_bytes))
    ∷ take 16 tcp_bytes
    ∷ (0 ∷ 0 ∷ [])
    ∷ drop 18 tcp_bytes
    ∷ [])

unfoldable pub parse_segment : List ℕ → ℕ → ℕ → Bool → Result TcpParseError ParsedSegment
parse_segment tcp_bytes src_ip dst_ip nic_csum_ok =
    let data_off_words = byte tcp_bytes 12 / 16 in
    let header_len = data_off_words * 4 in
    let flags = byte tcp_bytes 13 in
    if ltb (length tcp_bytes) 20
    then err short
    else if ltb data_off_words 5
    then err bad_data_offset
    else if ltb (length tcp_bytes) header_len
    then err bad_data_offset
    else if has_bit flags tcp_syn && has_bit flags tcp_fin
    then err bad_flags
    else if has_bit flags tcp_rst && has_bit flags tcp_syn
    then err bad_flags
    else if not nic_csum_ok && not (segment_csum src_ip dst_ip tcp_bytes == u16_at tcp_bytes 16)
    then err csum
    else ok (record {
      src_port = u16_at tcp_bytes 0;
      dst_port = u16_at tcp_bytes 2;
      seq = u32_at tcp_bytes 4;
      ack = u32_at tcp_bytes 8;
      flags = flags;
      window = u16_at tcp_bytes 14;
      header_len = header_len;
      payload = drop header_len tcp_bytes;
      options = drop 20 (take header_len tcp_bytes);
    })
