-- ===== src/Seq/Order.antt =====
-- What the comparisons decide: inside half of the sequence space they are the order of the
-- offsets from a common base.
use resd_dpdk_tcp.Base.{
  ℕ, ◌<◌, ◌≡◌, ◌↔◌, true, leb, ltb, arith, u32_mod, wrapping_sub32, wrapping_add32,
}
use resd_dpdk_tcp.Seq.{i32_min, seq_lt, seq_le, seq_gt, seq_ge, in_window}

-- The offset of a sequence number from a base.
abbrev pub offset : ℕ → ℕ → ℕ
offset base x = wrapping_sub32 x base

-- The sequence numbers that the comparisons order from a base: fewer than 2 ^ 31 steps ahead of it.
pub record IsAhead (base x : ℕ) : Type 0 where
  pub word : x < u32_mod
  pub near : offset base x < i32_min

module _ (base a b : ℕ) (hbase : base < u32_mod) (ha : IsAhead base a) (hb : IsAhead base b) where
  pub seq_lt-offset : seq_lt a b ≡ ltb (offset base a) (offset base b)
  unfolding seq_lt
  seq_lt-offset = ground arith

  pub seq_le-offset : seq_le a b ≡ leb (offset base a) (offset base b)
  unfolding seq_le
  seq_le-offset = ground arith

  seq_gt-offset : seq_gt a b ≡ ltb (offset base b) (offset base a)
  unfolding seq_gt
  seq_gt-offset = ground arith

  seq_ge-offset : seq_ge a b ≡ leb (offset base b) (offset base a)
  unfolding seq_ge
  seq_ge-offset = ground arith

  -- For two sequence numbers fewer than 2 ^ 31 steps ahead of a base, the four comparisons are the
  -- order of their offsets from the base, whether or not the range wraps round 2 ^ 32.
  pub compare-offset :
      (seq_lt a b ≡ ltb (offset base a) (offset base b))
      × (seq_le a b ≡ leb (offset base a) (offset base b))
      × (seq_gt a b ≡ ltb (offset base b) (offset base a))
      × (seq_ge a b ≡ leb (offset base b) (offset base a))
  compare-offset = (seq_lt-offset, seq_le-offset, seq_gt-offset, seq_ge-offset)

-- `in_window` accepts a word exactly when it is one of the `len` words that follow one another
-- from `start`, wrapping round 2 ^ 32; so an empty window accepts none.
pub in_window_iff :
    (start seq len : ℕ)
    → start < u32_mod
    → seq < u32_mod
    → len < u32_mod
    → (in_window start seq len ≡ true) ↔ ((k : ℕ) × (k < len) × (seq ≡ wrapping_add32 start k))
unfolding in_window
in_window_iff start seq len hs hq hl =
    (λ h. (offset start seq, ground arith, omega arith), λ (k, lt, e). ground arith)
