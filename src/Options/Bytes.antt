-- ===== src/Options/Bytes.antt =====
-- Big-endian words: `to_be_bytes` and `from_be_bytes` of `u16` and `u32`.
use resd_dpdk_tcp.Base.{ℕ, ◌+◌, ◌*◌, ◌/◌, ◌%◌, ◌^◌, ◌<◌, ◌≡◌, u16_mod, u32_mod, arith}

abbrev pub be16 : ℕ → ℕ → ℕ
be16 a b = a * 256 + b

abbrev pub be32 : ℕ → ℕ → ℕ → ℕ → ℕ
be32 a b c d = ((a * 256 + b) * 256 + c) * 256 + d

-- The bytes of a word, the highest first.
abbrev pub byte3 : ℕ → ℕ
byte3 x = x / 2 ^ 24 % 256

abbrev pub byte2 : ℕ → ℕ
byte2 x = x / 2 ^ 16 % 256

abbrev pub byte1 : ℕ → ℕ
byte1 x = x / 2 ^ 8 % 256

abbrev pub byte0 : ℕ → ℕ
byte0 x = x % 256

pub be16-bytes : (x : ℕ) → x < u16_mod → be16 (byte1 x) (byte0 x) ≡ x
be16-bytes x h = omega arith

pub be32-bytes : (x : ℕ) → x < u32_mod → be32 (byte3 x) (byte2 x) (byte1 x) (byte0 x) ≡ x
be32-bytes x h = omega arith
