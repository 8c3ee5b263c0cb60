-- ===== src/Options.antt =====
-- TCP options, crates/dpdk-net-core/src/tcp_options.rs: the data, and the appends of SACK blocks.
-- The children hold `encode` and `parse_options`.
pub mod Bytes
pub mod Encode
pub mod Parse
pub mod Total
pub mod FastPath
pub mod RoundTrip
pub mod Written
use resd_dpdk_tcp.Base.{
  ℕ, ◌+◌, Bool, true, false, Option, none, List, set, replicate, leb, if◌then◌else◌,
}

abbrev pub opt_end : ℕ
opt_end = 0

abbrev pub opt_nop : ℕ
opt_nop = 1

abbrev pub opt_mss : ℕ
opt_mss = 2

abbrev pub opt_wscale : ℕ
opt_wscale = 3

abbrev pub opt_sack_permitted : ℕ
opt_sack_permitted = 4

abbrev pub opt_sack : ℕ
opt_sack = 5

abbrev pub opt_timestamp : ℕ
opt_timestamp = 8

abbrev pub len_mss : ℕ
len_mss = 4

abbrev pub len_wscale : ℕ
len_wscale = 3

abbrev pub len_sack_permitted : ℕ
len_sack_permitted = 2

abbrev pub len_timestamp : ℕ
len_timestamp = 10

abbrev pub max_sack_blocks_emit : ℕ
max_sack_blocks_emit = 3

abbrev pub max_sack_blocks_decode : ℕ
max_sack_blocks_decode = 4

pub record SackBlock : Type 0 where
  pub left : ℕ
  pub right : ℕ

abbrev pub zero_block : SackBlock
zero_block = record { left = 0; right = 0 }

-- `sack_blocks` is the array of four blocks, of which the first `sack_block_count` are in use.
pub record TcpOpts : Type 0 where
  pub mss : Option ℕ
  pub wscale : Option ℕ
  pub sack_permitted : Bool
  pub timestamps : Option (ℕ × ℕ)
  pub sack_blocks : List SackBlock
  pub sack_block_count : ℕ
  pub ws_clamped : Bool

-- `TcpOpts::default()`
abbrev pub default_opts : TcpOpts
default_opts = record {
  mss = none;
  wscale = none;
  sack_permitted = false;
  timestamps = none;
  sack_blocks = replicate max_sack_blocks_decode zero_block;
  sack_block_count = 0;
  ws_clamped = false;
}

push_up_to : ℕ → TcpOpts → SackBlock → TcpOpts × Bool
push_up_to limit o block = if leb limit o.sack_block_count then (o, false) else (
  record o {
    sack_blocks = set o.sack_blocks o.sack_block_count block;
    sack_block_count = o.sack_block_count + 1;
  },
  true,
)

unfoldable pub push_sack_block : TcpOpts → SackBlock → TcpOpts × Bool
unfolding push_up_to
push_sack_block = push_up_to max_sack_blocks_emit

unfoldable pub push_sack_block_decode : TcpOpts → SackBlock → TcpOpts × Bool
unfolding push_up_to
push_sack_block_decode = push_up_to max_sack_blocks_decode
