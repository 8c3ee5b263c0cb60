-- ===== src/Net/Ipv4.antt =====
-- `ip_decode`, and the entry point that first looks at what the NIC says of the checksum. Both
-- settings of the feature `hw-offload-rx-cksum` are an argument, `cksum_feature`.
use resd_dpdk_tcp.Base.{
  ℕ, ◌*◌, ◌/◌, ◌%◌, Bool, not, ◌&&◌, ◌||◌, List, [], ◌∷◌, length, ltb, ◌==◌, if◌then◌else◌, take,
  set,
}
use resd_dpdk_tcp.Net.{Result, ok, err, byte, u16_at, u32_at, has_bit}
use resd_dpdk_tcp.Net.Checksum.{internet_checksum}

abbrev pub ipproto_icmp : ℕ
ipproto_icmp = 1

abbrev pub ipproto_tcp : ℕ
ipproto_tcp = 6

pub record L3Decoded : Type 0 where
  pub protocol : ℕ
  pub src_ip : ℕ
  pub dst_ip : ℕ
  pub header_len : ℕ
  pub total_len : ℕ
  pub ttl : ℕ

pub data L3Drop : Type 0 where
  short bad_version bad_header_len bad_total_len csum_bad ttl_zero fragment not_ours
        unsupported_proto :
      L3Drop

-- The first `header_len` bytes with the checksum field zeroed, as `scratch` holds them.
abbrev pub scratch : ℕ → List ℕ → List ℕ
scratch header_len pkt = set (set (take header_len pkt) 10 0) 11 0

unfoldable pub ip_decode : List ℕ → ℕ → Bool → Result L3Drop L3Decoded
ip_decode pkt our_ip nic_csum_ok =
    let version = byte pkt 0 / 16 in
    let ihl = byte pkt 0 % 16 in
    let header_len = ihl * 4 in
    let total_len = u16_at pkt 2 in
    let flags_frag = u16_at pkt 6 in
    let mf = has_bit flags_frag 8192 in
    let frag_off = flags_frag % 8192 in
    let ttl = byte pkt 8 in
    let computed = internet_checksum (scratch header_len pkt ∷ []) in
    let stored = u16_at pkt 10 in
    let protocol = byte pkt 9 in
    let src_ip = u32_at pkt 12 in
    let dst_ip = u32_at pkt 16 in
    if ltb (length pkt) 20
    then err short
    else if not (version == 4)
    then err bad_version
    else if ltb ihl 5 || ltb (length pkt) header_len
    then err bad_header_len
    else if ltb total_len header_len || ltb (length pkt) total_len
    then err bad_total_len
    else if mf || not (frag_off == 0)
    then err fragment
    else if ttl == 0
    then err ttl_zero
    else if not nic_csum_ok && not (computed == stored)
    then err csum_bad
    else if not (our_ip == 0) && not (dst_ip == our_ip)
    then err not_ours
    else if not (protocol == ipproto_tcp) && not (protocol == ipproto_icmp)
    then err unsupported_proto
    else ok (record {
      protocol = protocol;
      src_ip = src_ip;
      dst_ip = dst_ip;
      header_len = header_len;
      total_len = total_len;
      ttl = ttl;
    })
