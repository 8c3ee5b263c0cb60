-- ===== src/Retrans/Mark.antt =====
-- Which segments a SACK block marks.
use resd_dpdk_tcp.Base.{
  ℕ, zero, suc, ◌≤◌, ◌<◌, ◌≡◌, ◌↔◌, ◌⊎◌, inl, inr, Bool, true, ◌&&◌, ◌||◌, some, [], ◌∷◌, get_elem?,
  max, ltb, arith, u32_mod, Bool-cases,
}
use resd_dpdk_tcp.Options.{SackBlock}
use resd_dpdk_tcp.Seq.{seq_lt}
use resd_dpdk_tcp.Seq.Order.{IsAhead, offset, seq_lt-offset}
use resd_dpdk_tcp.Sack.Union.{IsAheadBlock}
use resd_dpdk_tcp.Retrans.{RetransEntry, SendRetrans, end_seq, mark_sacked}

-- A segment that is not empty, within 2 ^ 31 of a base.
pub record IsSegment (base : ℕ) (e : RetransEntry) : Type 0 where
  pub start : IsAhead base e.seq
  pub stop : IsAhead base (end_seq e)
  pub nonempty : offset base e.seq < offset base (end_seq e)

-- Some byte, at this distance from the base, is both in the segment and in the block.
abbrev pub Shares : ℕ → SackBlock → RetransEntry → Type 0
Shares base b e =
    (x : ℕ) × (offset base e.seq ≤ x)
    × (x < offset base (end_seq e))
    × (offset base b.left ≤ x)
    × (x < offset base b.right)

abbrev overlaps : RetransEntry → SackBlock → Bool
overlaps e b = seq_lt e.seq b.right && seq_lt b.left (end_seq e)

overlaps_iff :
    (base : ℕ) (b : SackBlock) (e : RetransEntry)
    → base < u32_mod
    → IsAheadBlock base b
    → offset base b.left < offset base b.right
    → IsSegment base e
    → (overlaps e b ≡ true) ↔ Shares base b e
overlaps_iff base b e hb hs hn v = (
  λ h. (
    max (offset base e.seq) (offset base b.left),
    ground arith,
    ground (arith, ends),
    ground arith,
    ground (arith, ends),
  ),
  λ (x, p, q, r, s). ground (arith, ends),
)
  where
    ends :
        (seq_lt e.seq b.right ≡ ltb (offset base e.seq) (offset base b.right))
        × (seq_lt b.left (end_seq e) ≡ ltb (offset base b.left) (offset base (end_seq e)))
    ends = (
      seq_lt-offset base e.seq b.right hb v.start hs.right,
      seq_lt-offset base b.left (end_seq e) hb hs.left v.stop,
    )

mark_sacked-get :
    (es : SendRetrans) (b : SackBlock) (i : ℕ) (e : RetransEntry)
    → get_elem? es i ≡ some e
    → get_elem? (mark_sacked es b) i ≡ some (record e { sacked = e.sacked || overlaps e b })
unfolding mark_sacked
mark_sacked-get [] b i e h = ground arith
mark_sacked-get (x ∷ es) b zero e h = ground arith
mark_sacked-get (x ∷ es) b (suc i) e h = mark_sacked-get es b i e h

-- A SACK block marks exactly the segments that share a byte with it, keeps the earlier marks, and
-- changes nothing else of any segment. For segments and a block that are not empty, within 2 ^ 31 of
-- a base.
pub mark_sacked_iff :
    (base : ℕ) (es : SendRetrans) (b : SackBlock) (i : ℕ) (e : RetransEntry)
    → base < u32_mod
    → IsAheadBlock base b
    → offset base b.left < offset base b.right
    → IsSegment base e
    → get_elem? es i ≡ some e
    → (s : Bool) × (get_elem? (mark_sacked es b) i ≡ some (record e { sacked = s }))
      × ((s ≡ true) ↔ ((e.sacked ≡ true) ⊎ Shares base b e))
mark_sacked_iff base es b i e hb hs hn v h = (
  e.sacked || overlaps e b,
  mark_sacked-get es b i e h,
  either (overlaps_iff base b e hb hs hn v),
)
  where
    either :
        (overlaps e b ≡ true) ↔ Shares base b e
        → ((e.sacked || overlaps e b) ≡ true) ↔ ((e.sacked ≡ true) ⊎ Shares base b e)
    either (f, g) = (
      λ t. elim (Bool-cases e.sacked) [ inl y ↦ inl y | inr n ↦ inr (f (rw n at t)) ],
      λ t. elim t [ inl y ↦ ground arith | inr x ↦ ground (arith, g x) ],
    )
