-- ===== src/Output/Received.antt =====
-- A frame that was built passes the receive path: Ethernet, IPv4 and TCP.
use resd_dpdk_tcp.Base.{
  ℕ, ◌+◌, ◌-◌, ◌<◌, ◌≡◌, inl, inr, Bool, true, false, not, ◌&&◌, ◌||◌, List, [], ◌∷◌, ◌++◌, length,
  drop, ltb, ◌==◌, arith, refl, u16_mod, Bool-cases,
}
use resd_dpdk_tcp.Options.Bytes.{be16-bytes, be32-bytes}
use resd_dpdk_tcp.Options.Encode.{bytes16}
use resd_dpdk_tcp.Options.RoundTrip.{wire}
use resd_dpdk_tcp.Net.{ok}
use resd_dpdk_tcp.Net.Checksum.{internet_checksum}
use resd_dpdk_tcp.Net.Ethernet.{l2_decode, same, for_us, zero_mac, broadcast_mac, ethertype_ipv4}
use resd_dpdk_tcp.Net.Ipv4.{ip_decode, ipproto_tcp}
use resd_dpdk_tcp.Net.Segment.{ParsedSegment, parse_segment}
use resd_dpdk_tcp.Output.{SegmentTx, ip_fields, ip_header}
use resd_dpdk_tcp.Output.Parsed.{IsSendable, internet_checksum-le, received}

pub ip_decode-header :
    (seg : SegmentTx) (total : ℕ) (rest : List ℕ)
    → IsSendable seg
    → total < u16_mod
    → 20 + length rest ≡ total
    → ip_decode (ip_header seg total ++ rest) seg.dst_ip false
      ≡ ok (record {
        protocol = ipproto_tcp;
        src_ip = seg.src_ip;
        dst_ip = seg.dst_ip;
        header_len = 20;
        total_len = total;
        ttl = 64;
      })
unfolding ip_decode
ip_decode-header seg total rest v h e =
    let csum = internet_checksum (ip_fields seg total 0 ∷ []) in
    let pkt = ip_header seg total ++ rest in
    let n : length pkt ≡ 20 + length rest = omega arith in
    let f1 : ltb (length pkt) 20 ≡ false = ground (arith, n) in
    let f2 : ltb total 20 ≡ false = ground arith in
    let f3 : ltb (length pkt) total ≡ false = ground (arith, n) in
    let f4 : (csum == csum) ≡ true = ground arith in
    let f5 : (seg.dst_ip == seg.dst_ip) ≡ true = ground arith in
    let c = be16-bytes csum (internet_checksum-le _) in
    elim (Bool-cases (seg.dst_ip == 0)) [
      | inl z ↦
          rw
            (
              be16-bytes total h,
              c,
              be32-bytes seg.src_ip v.src_ip,
              be32-bytes seg.dst_ip v.dst_ip,
              f1,
              f2,
              f3,
              f4,
              f5,
              z,
            )
            refl
      | inr z ↦
          rw
            (
              be16-bytes total h,
              c,
              be32-bytes seg.src_ip v.src_ip,
              be32-bytes seg.dst_ip v.dst_ip,
              f1,
              f2,
              f3,
              f4,
              f5,
              z,
            )
            refl
    ]

same_refl : (xs : List ℕ) → same xs xs ≡ true
same_refl [] = refl
same_refl (x ∷ xs) = let e : (x == x) ≡ true = ground arith in rw (e, same_refl xs) refl

for_us_self : (mac : List ℕ) → for_us mac mac ≡ true
for_us_self mac =
    let b = same mac broadcast_mac in
    let z = same mac zero_mac in rw (same_refl mac) (either_true b z)
  where
    either_true : (b z : Bool) → (b || (not z && true) || z) ≡ true
    either_true true true = refl
    either_true true false = refl
    either_true false true = refl
    either_true false false = refl

-- A list of six is its six elements.
six_lem : (xs : List ℕ) → length xs ≡ 6 → (a b c d e f : ℕ) × (xs ≡ a ∷ b ∷ c ∷ d ∷ e ∷ f ∷ [])
six_lem (a ∷ b ∷ c ∷ d ∷ e ∷ f ∷ []) h = (a, b, c, d, e, f, refl)
six_lem [] h = absurd (omega arith)
six_lem (a ∷ []) h = absurd (omega arith)
six_lem (a ∷ b ∷ []) h = absurd (omega arith)
six_lem (a ∷ b ∷ c ∷ []) h = absurd (omega arith)
six_lem (a ∷ b ∷ c ∷ d ∷ []) h = absurd (omega arith)
six_lem (a ∷ b ∷ c ∷ d ∷ e ∷ []) h = absurd (omega arith)
six_lem (a ∷ b ∷ c ∷ d ∷ e ∷ f ∷ g ∷ xs) h = absurd (omega arith)

cells_lem :
    (a b c d e f g h i j k l : ℕ) (rest : List ℕ)
    → let dst = a ∷ b ∷ c ∷ d ∷ e ∷ f ∷ [] in
      let src = g ∷ h ∷ i ∷ j ∷ k ∷ l ∷ [] in
      l2_decode (dst ++ src ++ bytes16 ethertype_ipv4 ++ rest) dst
      ≡ ok
          (record { ethertype = ethertype_ipv4; src_mac = src; dst_mac = dst; payload_offset = 14 })
unfolding l2_decode
cells_lem a b c d e f g h i j k l rest =
    let dst = a ∷ b ∷ c ∷ d ∷ e ∷ f ∷ [] in
    let src = g ∷ h ∷ i ∷ j ∷ k ∷ l ∷ [] in
    let n : ltb (length (dst ++ src ++ bytes16 ethertype_ipv4 ++ rest)) 14 ≡ false = ground arith in
    rw (n, for_us_self dst) refl

pub l2_decode-header :
    (src dst rest : List ℕ)
    → length src ≡ 6
    → length dst ≡ 6
    → l2_decode (dst ++ src ++ bytes16 ethertype_ipv4 ++ rest) dst
      ≡ ok
          (record { ethertype = ethertype_ipv4; src_mac = src; dst_mac = dst; payload_offset = 14 })
l2_decode-header src dst rest hs hd =
    let (a, b, c, d, e, f, p) = six_lem dst hd in
    let (g, h, i, j, k, l, q) = six_lem src hs in rw (p, q) (cells_lem a b c d e f g h i j k l rest)

pub skip_eth :
    (src dst rest : List ℕ)
    → length src ≡ 6
    → length dst ≡ 6
    → drop 14 (dst ++ src ++ bytes16 ethertype_ipv4 ++ rest) ≡ rest
skip_eth src dst rest hs hd = rw ((six_lem dst hd).6, (six_lem src hs).6) refl

pub skip_ip :
    (seg : SegmentTx) (total : ℕ) (src dst rest : List ℕ)
    → length src ≡ 6
    → length dst ≡ 6
    → drop 34 (dst ++ src ++ bytes16 ethertype_ipv4 ++ (ip_header seg total ++ rest)) ≡ rest
skip_ip seg total src dst rest hs hd = rw ((six_lem dst hd).6, (six_lem src hs).6) refl

pub length-headers :
    (seg : SegmentTx) (total : ℕ) (src dst rest : List ℕ)
    → length src ≡ 6
    → length dst ≡ 6
    → length (dst ++ src ++ bytes16 ethertype_ipv4 ++ (ip_header seg total ++ rest))
      ≡ 34 + length rest
length-headers seg total src dst rest hs hd =
    rw ((six_lem dst hd).6, (six_lem src hs).6) (omega arith)

-- What the receive path makes of a frame: the decoders in turn, on what each leaves to the next.
pub record IsReceived (seg : SegmentTx) (frame : List ℕ) : Type 0 where
  pub l2 :
      l2_decode frame seg.dst_mac
      ≡ ok (record {
        ethertype = ethertype_ipv4;
        src_mac = seg.src_mac;
        dst_mac = seg.dst_mac;
        payload_offset = 14;
      })
  pub l3 :
      ip_decode (drop 14 frame) seg.dst_ip false
      ≡ ok (record {
        protocol = ipproto_tcp;
        src_ip = seg.src_ip;
        dst_ip = seg.dst_ip;
        header_len = 20;
        total_len = length frame - 14;
        ttl = 64;
      })
  pub l4 :
      parse_segment (drop 34 frame) seg.src_ip seg.dst_ip false
      ≡ ok (received seg (wire seg.options) seg.payload)

-- The receive path at `dst_mac` and `dst_ip` takes the frame, and reads the segment `p` from it.
pub record Reads (frame src_mac dst_mac : List ℕ) (src_ip dst_ip : ℕ) (p : ParsedSegment)
    : Type 0 where
  pub l2 :
      l2_decode frame dst_mac
      ≡ ok (record {
        ethertype = ethertype_ipv4;
        src_mac = src_mac;
        dst_mac = dst_mac;
        payload_offset = 14;
      })
  pub l3 :
      ip_decode (drop 14 frame) dst_ip false
      ≡ ok (record {
        protocol = ipproto_tcp;
        src_ip = src_ip;
        dst_ip = dst_ip;
        header_len = 20;
        total_len = length frame - 14;
        ttl = 64;
      })
  pub l4 : parse_segment (drop 34 frame) src_ip dst_ip false ≡ ok p

pub received-Reads :
    (seg : SegmentTx) (frame : List ℕ)
    → IsReceived seg frame
    → Reads frame seg.src_mac seg.dst_mac seg.src_ip seg.dst_ip
        (received seg (wire seg.options) seg.payload)
received-Reads seg frame v = record { l2 = v.l2; l3 = v.l3; l4 = v.l4 }
