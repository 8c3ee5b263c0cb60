-- ===== src/Net.antt =====
-- What comes off the wire: the Ethernet and IPv4 decoders, the Internet checksum, ICMP and the TCP
-- header, crates/dpdk-net-core/src/{l2,l3_ip,icmp,tcp_input}.rs. A frame is its list of bytes. Each
-- decoder tests the length before it reads, so the 0 that `byte` gives past the end is never used.
pub mod Checksum
pub mod Ethernet
pub mod Ipv4
pub mod Icmp
pub mod Segment
pub mod Fold
pub mod Decoded
pub mod Shrink
use resd_dpdk_tcp.Base.{ℕ, ◌+◌, ◌/◌, ◌%◌, Bool, List, get_or, ◌==◌}
use resd_dpdk_tcp.Options.Bytes.{be16, be32}

pub data Result (E A : Type 0) : Type 0 where
  ok : A → Result E A
  err : E → Result E A

abbrev pub byte : List ℕ → ℕ → ℕ
byte xs i = get_or xs i 0

-- `u16::from_be_bytes` and `u32::from_be_bytes` at an index.
abbrev pub u16_at : List ℕ → ℕ → ℕ
u16_at xs i = be16 (byte xs i) (byte xs (i + 1))

abbrev pub u32_at : List ℕ → ℕ → ℕ
u32_at xs i = be32 (byte xs i) (byte xs (i + 1)) (byte xs (i + 2)) (byte xs (i + 3))

-- `x & mask != 0` for a mask of one bit.
abbrev pub has_bit : ℕ → ℕ → Bool
has_bit x mask = x / mask % 2 == 1
