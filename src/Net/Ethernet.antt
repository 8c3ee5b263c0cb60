-- ===== src/Net/Ethernet.antt =====
-- `l2_decode`. A MAC address is its list of six bytes.
use resd_dpdk_tcp.Base.{
  ℕ, Bool, true, false, not, ◌&&◌, ◌||◌, List, [], ◌∷◌, length, ltb, ◌==◌, if◌then◌else◌, take,
  drop,
}
use resd_dpdk_tcp.Net.{Result, ok, err, u16_at}

abbrev pub ethertype_ipv4 : ℕ
ethertype_ipv4 = 2048

abbrev pub ethertype_arp : ℕ
ethertype_arp = 2054

abbrev pub eth_hdr_len : ℕ
eth_hdr_len = 14

abbrev pub broadcast_mac : List ℕ
broadcast_mac = 255 ∷ 255 ∷ 255 ∷ 255 ∷ 255 ∷ 255 ∷ []

abbrev pub zero_mac : List ℕ
zero_mac = 0 ∷ 0 ∷ 0 ∷ 0 ∷ 0 ∷ 0 ∷ []

pub record L2Decoded : Type 0 where
  pub ethertype : ℕ
  pub src_mac : List ℕ
  pub dst_mac : List ℕ
  pub payload_offset : ℕ

pub data L2Drop : Type 0 where
  short miss_mac unknown_ethertype : L2Drop

-- `==` of two arrays.
abbrev pub same : List ℕ → List ℕ → Bool
same [] [] = true
same (x ∷ xs) (y ∷ ys) = (x == y) && same xs ys
same _ _ = false

abbrev pub for_us : List ℕ → List ℕ → Bool
for_us dst our_mac =
    same dst broadcast_mac
    || (not (same our_mac zero_mac) && same dst our_mac)
    || same our_mac zero_mac

unfoldable pub l2_decode : List ℕ → List ℕ → Result L2Drop L2Decoded
l2_decode frame our_mac =
    let dst = take 6 frame in
    let src = take 6 (drop 6 frame) in
    let ethertype = u16_at frame 12 in
    if ltb (length frame) eth_hdr_len
    then err short
    else if not (for_us dst our_mac)
    then err miss_mac
    else if not (ethertype == ethertype_ipv4) && not (ethertype == ethertype_arp)
    then err unknown_ethertype
    else ok (record {
      ethertype = ethertype;
      src_mac = src;
      dst_mac = dst;
      payload_offset = eth_hdr_len;
    })
