-- ===== src/Sack/Prune.antt =====
-- What `prune_below` keeps, for sequence numbers within 2 ^ 31 of a base.
use resd_dpdk_tcp.Base.{ℕ, ◌≤◌, ◌<◌, ◌≡◌, ◌&&◌, List, [], ◌∷◌, length, All, u32_mod, arith}
use resd_dpdk_tcp.Options.{SackBlock}
use resd_dpdk_tcp.Seq.{seq_le}
use resd_dpdk_tcp.Seq.Order.{IsAhead, seq_lt-offset, seq_le-offset}
use resd_dpdk_tcp.Sack.{is_sacked, prune_below}
use resd_dpdk_tcp.Sack.Union.{IsAheadBlock}

module _ (base : ℕ) (hb : base < u32_mod) (una q : ℕ) (hu : IsAhead base una)
    (hq : IsAhead base q) where
  -- After pruning at `una` a sequence number counts as received exactly if it did before and is
  -- not below `una`. For blocks and numbers within 2 ^ 31 of a base.
  pub prune_below-is_sacked :
      (bs : List SackBlock)
      → All (IsAheadBlock base) bs
      → is_sacked (prune_below bs una) q ≡ (seq_le una q && is_sacked bs q)
  unfolding is_sacked prune_below
  prune_below-is_sacked [] h = ground arith
  prune_below-is_sacked (b ∷ bs) h = ground (
    arith,
    prune_below-is_sacked bs h.1,
    seq_le-offset base b.right una hb h.0.right hu,
    seq_le-offset base b.left una hb h.0.left hu,
    seq_le-offset base b.left q hb h.0.left hq,
    seq_le-offset base una q hb hu hq,
    seq_lt-offset base q b.right hb hq h.0.right,
  )

pub length-prune_below : (bs : List SackBlock) (una : ℕ) → length (prune_below bs una) ≤ length bs
unfolding prune_below
length-prune_below [] una = omega arith
length-prune_below (b ∷ bs) una = ground (arith, length-prune_below bs una)
