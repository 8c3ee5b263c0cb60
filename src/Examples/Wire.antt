-- ===== src/Examples/Wire.antt =====
-- Decoders, the checksum and ICMP.
use resd_dpdk_tcp.Base.{ℕ, ◌%◌, ◌<◌, ◌≡◌, true, some, List, [], ◌∷◌, arith, refl, u16_mod}
use resd_dpdk_tcp.Net.{ok}
use resd_dpdk_tcp.Net.Checksum.{internet_checksum, end_around, rounds}
use resd_dpdk_tcp.Net.Fold.{concat, internet_checksum-concat, end_around_lem}
use resd_dpdk_tcp.Net.Ipv4.{L3Decoded, ip_decode}
use resd_dpdk_tcp.Net.Segment.{ParsedSegment, parse_segment}
use resd_dpdk_tcp.Net.Icmp.{PmtuTable}

-- The boundary splits a word.
abbrev chunks : List (List ℕ)
chunks = (1 ∷ 2 ∷ 3 ∷ []) ∷ (4 ∷ 5 ∷ []) ∷ []

internet_checksum-concat_example : internet_checksum chunks ≡ internet_checksum (concat chunks ∷ [])
internet_checksum-concat_example = internet_checksum-concat chunks

end_around_lem_example :
    (end_around rounds 131070 < u16_mod)
    × (end_around rounds 131070 % 65535 ≡ 131070 % 65535)
    × (end_around rounds 131070 ≡ 0 → Path ℕ 131070 0)
end_around_lem_example = end_around_lem 131070 (omega arith)

-- A TCP packet without payload from 10.0.0.1 to 10.0.0.2.
abbrev packet : List ℕ
packet = 69 ∷ 0 ∷ 0 ∷ 20 ∷ 0 ∷ 0 ∷ 0 ∷ 0 ∷ 64 ∷ 6 ∷ 0 ∷ 0 ∷ 10 ∷ 0 ∷ 0 ∷ 1 ∷ 10 ∷ 0 ∷ 0 ∷ 2 ∷ []

abbrev decoded : L3Decoded
decoded = record {
  protocol = 6;
  src_ip = 167772161;
  dst_ip = 167772162;
  header_len = 20;
  total_len = 20;
  ttl = 64;
}

decodes : ip_decode packet 167772162 true ≡ ok decoded
unfolding ip_decode
decodes = refl

-- An ACK with two bytes of payload.
abbrev tcp_bytes : List ℕ
tcp_bytes =
    0 ∷ 80 ∷ 4 ∷ 0 ∷ 0 ∷ 0 ∷ 0 ∷ 1 ∷ 0 ∷ 0 ∷ 0 ∷ 2 ∷ 80 ∷ 16 ∷ 1 ∷ 0 ∷ 0 ∷ 0 ∷ 0 ∷ 0 ∷ 7 ∷ 8 ∷ []

abbrev segment : ParsedSegment
segment = record {
  src_port = 80;
  dst_port = 1024;
  seq = 1;
  ack = 2;
  flags = 16;
  window = 256;
  header_len = 20;
  payload = 7 ∷ 8 ∷ [];
  options = [];
}

parses : parse_segment tcp_bytes 1 2 true ≡ ok segment
unfolding parse_segment
parses = refl

abbrev known : PmtuTable
known a = some 1500

-- Fragmentation needed, with a next-hop MTU of 1400, for a packet as above.
abbrev message : List ℕ
message = 3 ∷ 4 ∷ 0 ∷ 0 ∷ 0 ∷ 0 ∷ 5 ∷ 120 ∷ packet
