-- ===== src/Base/Word.antt =====
-- Machine words as native numbers: what Rust's `wrapping_*` and `saturating_*` methods do on
-- `u32` and `u64`. A word is a number below the modulus of its width.
use Prim.Native.Nat.{ℕ, ◌+◌, ◌-◌, ◌*◌, ◌%◌, ◌^◌, min}

abbrev pub u8_mod : ℕ
u8_mod = 2 ^ 8

abbrev pub u16_mod : ℕ
u16_mod = 2 ^ 16

abbrev pub u32_mod : ℕ
u32_mod = 2 ^ 32

abbrev pub u64_mod : ℕ
u64_mod = 2 ^ 64

-- `u32::wrapping_add` and `u32::wrapping_sub`. `-` on ℕ stops at 0, so the modulus comes first.
abbrev pub wrapping_add32 : ℕ → ℕ → ℕ
wrapping_add32 a b = (a + b) % u32_mod

abbrev pub wrapping_sub32 : ℕ → ℕ → ℕ
wrapping_sub32 a b = (a + u32_mod - b) % u32_mod

-- `u32::saturating_add` and `u32::saturating_mul`. `saturating_sub` is `-` on ℕ.
abbrev pub saturating_add32 : ℕ → ℕ → ℕ
saturating_add32 a b = min (a + b) (u32_mod - 1)

abbrev pub saturating_mul32 : ℕ → ℕ → ℕ
saturating_mul32 a b = min (a * b) (u32_mod - 1)

-- `x as u32`, `x as u16` and `x as u8` of a wider word.
abbrev pub as_u32 : ℕ → ℕ
as_u32 x = x % u32_mod

abbrev pub as_u16 : ℕ → ℕ
as_u16 x = x % u16_mod

abbrev pub as_u8 : ℕ → ℕ
as_u8 x = x % u8_mod
