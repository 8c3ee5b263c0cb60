-- ===== src/Net/Decoded.antt =====
-- What an accepted frame, packet or segment is.
use resd_dpdk_tcp.Base.{
  ℕ, ◌+◌, ◌*◌, ◌/◌, ◌%◌, ◌≤◌, ◌≡◌, ◌⊎◌, inl, inr, Bool, true, false, not, ◌&&◌, List, [], ◌∷◌,
  length, ltb, ◌==◌, if◌then◌else◌, take, drop, arith, length-take, length-drop, refl, subst,
}
use resd_dpdk_tcp.Net.{Result, ok, err, byte, u16_at, u32_at, has_bit}
use resd_dpdk_tcp.Net.Checksum.{internet_checksum}
use resd_dpdk_tcp.Net.Ethernet.{L2Decoded, l2_decode, for_us, ethertype_ipv4, ethertype_arp}
use resd_dpdk_tcp.Net.Ipv4.{L3Decoded, ip_decode, scratch, ipproto_tcp, ipproto_icmp}
use resd_dpdk_tcp.Net.Segment.{
  ParsedSegment, parse_segment, segment_csum, short, bad_data_offset, bad_flags, csum, tcp_syn,
  tcp_fin, tcp_rst,
}

-- The slices that the caller cuts lie in the packet, it is whole, alive and for us, and its checksum
-- was verified here unless the NIC had.
pub record IsPacket (pkt : List ℕ) (our_ip : ℕ) (nic_csum_ok : Bool) (d : L3Decoded) : Type 0 where
  pub header : (20 ≤ d.header_len) × (d.header_len ≤ 60)
  pub total : (d.header_len ≤ d.total_len) × (d.total_len ≤ length pkt)
  pub alive : 1 ≤ d.ttl
  pub whole : (has_bit (u16_at pkt 6) 8192 ≡ false) × (u16_at pkt 6 % 8192 ≡ 0)
  pub ours : (our_ip ≡ 0) ⊎ (d.dst_ip ≡ our_ip)
  pub protocol : (d.protocol ≡ ipproto_tcp) ⊎ (d.protocol ≡ ipproto_icmp)
  pub verified :
      (nic_csum_ok ≡ true) ⊎ (internet_checksum (scratch d.header_len pkt ∷ []) ≡ u16_at pkt 10)

-- A packet that `ip_decode` accepts is whole, alive and for us, the slices its lengths describe lie
-- in the buffer, and its checksum was verified unless the NIC had.
pub ip_decode-IsPacket :
    (pkt : List ℕ) (our_ip : ℕ) (nic_csum_ok : Bool) (d : L3Decoded)
    → ip_decode pkt our_ip nic_csum_ok ≡ ok d
    → IsPacket pkt our_ip nic_csum_ok d
unfolding ip_decode
ip_decode-IsPacket pkt our_ip nic_csum_ok d h = record {
  header = ground arith;
  total = ground arith;
  alive = ground arith;
  whole = ground arith;
  ours = ground arith;
  protocol = ground arith;
  verified = ground arith;
}

pub l2_decode-accepts :
    (frame our_mac : List ℕ) (d : L2Decoded)
    → l2_decode frame our_mac ≡ ok d
    → (d.payload_offset ≤ length frame)
      × (for_us d.dst_mac our_mac ≡ true)
      × ((d.ethertype ≡ ethertype_ipv4) ⊎ (d.ethertype ≡ ethertype_arp))
unfolding l2_decode
l2_decode-accepts frame our_mac d h = ground arith

pub record IsParsed (tcp_bytes : List ℕ) (src_ip dst_ip : ℕ) (nic_csum_ok : Bool)
    (p : ParsedSegment) : Type 0 where
  pub header : (20 ≤ p.header_len) × (p.header_len ≤ length tcp_bytes)
  pub options : length p.options + 20 ≡ p.header_len
  pub payload : length p.payload + p.header_len ≡ length tcp_bytes
  pub flags :
      has_bit p.flags tcp_syn ≡ true
      → (has_bit p.flags tcp_fin ≡ false) × (has_bit p.flags tcp_rst ≡ false)
  pub verified : (nic_csum_ok ≡ true) ⊎ (segment_csum src_ip dst_ip tcp_bytes ≡ u16_at tcp_bytes 16)

-- A guard in front of a result that is accepted.
passed :
    {E A : Type 0} (b : Bool) (e : E) (r : Result E A) (a : A)
    → (if b then err e else r) ≡ ok a
    → (b ≡ false) × (r ≡ ok a)
passed true e r a h = ground arith
passed false e r a h = (refl, h)

ok-injective : {E A : Type 0} (a b : A) → Path (Result E A) (ok a) (ok b) → a ≡ b
ok-injective a b h = ground arith

abbrev parsed : List ℕ → ParsedSegment
parsed tcp_bytes =
    let header_len = byte tcp_bytes 12 / 16 * 4 in
    record {
      src_port = u16_at tcp_bytes 0;
      dst_port = u16_at tcp_bytes 2;
      seq = u32_at tcp_bytes 4;
      ack = u32_at tcp_bytes 8;
      flags = byte tcp_bytes 13;
      window = u16_at tcp_bytes 14;
      header_len = header_len;
      payload = drop header_len tcp_bytes;
      options = drop 20 (take header_len tcp_bytes);
    }

both_false : (a b : Bool) → (a && b) ≡ false → a ≡ true → b ≡ false
both_false true b h k = h
both_false false b h k = ground arith

right_false : (a b : Bool) → (a && b) ≡ false → b ≡ true → a ≡ false
right_false true true h k = h
right_false true false h k = ground arith
right_false false b h k = refl

summed_ok :
    (ok_flag : Bool) (x y : ℕ) → (not ok_flag && not (x == y)) ≡ false → (ok_flag ≡ true) ⊎ (x ≡ y)
summed_ok true x y h = inl refl
summed_ok false x y h = inr (ground arith)

parsed-IsParsed :
    (tcp_bytes : List ℕ) (src_ip dst_ip : ℕ) (nic_csum_ok : Bool)
    → 20 ≤ length tcp_bytes
    → 5 ≤ byte tcp_bytes 12 / 16
    → byte tcp_bytes 12 / 16 * 4 ≤ length tcp_bytes
    → (has_bit (byte tcp_bytes 13) tcp_syn && has_bit (byte tcp_bytes 13) tcp_fin) ≡ false
    → (has_bit (byte tcp_bytes 13) tcp_rst && has_bit (byte tcp_bytes 13) tcp_syn) ≡ false
    → (not nic_csum_ok && not (segment_csum src_ip dst_ip tcp_bytes == u16_at tcp_bytes 16)) ≡ false
    → IsParsed tcp_bytes src_ip dst_ip nic_csum_ok (parsed tcp_bytes)
parsed-IsParsed tcp_bytes src_ip dst_ip nic_csum_ok long offset fits syn_fin rst_syn summed =
    let header_len = byte tcp_bytes 12 / 16 * 4 in
    record {
      header = (omega arith, fits);
      options =
          omega
            (arith, length-drop 20 (take header_len tcp_bytes), length-take header_len tcp_bytes);
      payload = omega (arith, length-drop header_len tcp_bytes);
      flags = λ s. (both_false _ _ syn_fin s, right_false _ _ rst_syn s);
      verified = summed_ok nic_csum_ok _ _ summed;
    }

-- A segment that `parse_segment` accepts splits without loss into the fixed header, the options and
-- the payload, its flags are consistent, and its checksum was verified unless the NIC had.
pub parse_segment-IsParsed :
    (tcp_bytes : List ℕ) (src_ip dst_ip : ℕ) (nic_csum_ok : Bool) (p : ParsedSegment)
    → parse_segment tcp_bytes src_ip dst_ip nic_csum_ok ≡ ok p
    → IsParsed tcp_bytes src_ip dst_ip nic_csum_ok p
unfolding parse_segment
parse_segment-IsParsed tcp_bytes src_ip dst_ip nic_csum_ok p h =
    let words = byte tcp_bytes 12 / 16 in
    let flags = byte tcp_bytes 13 in
    let (long, h1) = passed (ltb (length tcp_bytes) 20) short _ p h in
    let (offset, h2) = passed (ltb words 5) bad_data_offset _ p h1 in
    let (fits, h3) = passed (ltb (length tcp_bytes) (words * 4)) bad_data_offset _ p h2 in
    let (syn_fin, h4) = passed (has_bit flags tcp_syn && has_bit flags tcp_fin) bad_flags _ p h3 in
    let (rst_syn, h5) = passed (has_bit flags tcp_rst && has_bit flags tcp_syn) bad_flags _ p h4 in
    let (summed, h6) =
      passed (not nic_csum_ok && not (segment_csum src_ip dst_ip tcp_bytes == u16_at tcp_bytes 16))
        csum _ p h5 in
    subst (IsParsed tcp_bytes src_ip dst_ip nic_csum_ok) (ok-injective (parsed tcp_bytes) p h6) (
      parsed-IsParsed tcp_bytes src_ip dst_ip nic_csum_ok (ground (arith, long))
        (ground (arith, offset)) (ground (arith, fits)) syn_fin rst_syn summed)
