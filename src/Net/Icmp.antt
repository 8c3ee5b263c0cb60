-- ===== src/Net/Icmp.antt =====
-- `PmtuTable` and `icmp_input`. The hash map is a function of the address.
use resd_dpdk_tcp.Base.{
  ℕ, ◌+◌, ◌*◌, ◌/◌, ◌%◌, max, Bool, true, false, not, ◌||◌, Option, none, some, List, length, ltb,
  leb, ◌==◌, if◌then◌else◌, drop,
}
use resd_dpdk_tcp.Net.{byte, u16_at, u32_at}

abbrev pub icmp_dest_unreach : ℕ
icmp_dest_unreach = 3

abbrev pub icmp_code_frag_needed : ℕ
icmp_code_frag_needed = 4

abbrev pub ipv4_min_mtu : ℕ
ipv4_min_mtu = 68

abbrev pub PmtuTable : Type 0
PmtuTable = ℕ → Option ℕ

abbrev pub store : PmtuTable → ℕ → ℕ → PmtuTable
store entries ip mtu a = if a == ip then some mtu else entries a

unfoldable pub update : PmtuTable → ℕ → ℕ → PmtuTable × Bool
update entries ip mtu =
    let floored = max mtu ipv4_min_mtu in
    elim (entries ip) [
      | none ↦ (store entries ip floored, true)
      | some existing ↦
          if leb existing floored then (entries, false) else (store entries ip floored, true)
    ]

pub data IcmpResult : Type 0 where
  frag_needed_pmtu_updated frag_needed_no_shrink other_dropped malformed : IcmpResult

unfoldable pub icmp_input : List ℕ → PmtuTable → PmtuTable × IcmpResult
unfolding update
icmp_input ip_payload pmtu =
    let ty = byte ip_payload 0 in
    let code = byte ip_payload 1 in
    let next_hop_mtu = u16_at ip_payload 6 in
    let inner = drop 8 ip_payload in
    let version = byte inner 0 / 16 in
    let ihl = byte inner 0 % 16 in
    let inner_dst = u32_at inner 16 in
    let (updated, shrunk) = update pmtu inner_dst next_hop_mtu in
    if ltb (length ip_payload) 8
    then (pmtu, malformed)
    else if not (ty == icmp_dest_unreach) || not (code == icmp_code_frag_needed)
    then (pmtu, other_dropped)
    else if ltb (length ip_payload) (8 + 20)
    then (pmtu, malformed)
    else if not (version == 4) || ltb ihl 5 || ltb (length inner) (ihl * 4)
    then (pmtu, malformed)
    else if next_hop_mtu == 0
    then (pmtu, malformed)
    else if shrunk
    then (updated, frag_needed_pmtu_updated)
    else (updated, frag_needed_no_shrink)
