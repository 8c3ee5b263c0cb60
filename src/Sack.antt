-- ===== src/Sack.antt =====
-- The SACK scoreboard, crates/dpdk-net-core/src/tcp_sack.rs. The list is `blocks[..count]`: the
-- entries of the array behind `count` are never read.
pub mod Union
pub mod Disjoint
pub mod Prune
use resd_dpdk_tcp.Base.{
  ℕ, zero, suc, Bool, true, false, ◌&&◌, ◌||◌, Option, none, some, List, [], ◌∷◌, ◌++◌, length,
  drop, ltb, if◌then◌else◌,
}
use mathlib.Core.Option
use resd_dpdk_tcp.Options.{SackBlock}
use resd_dpdk_tcp.Seq.{seq_lt, seq_le}

abbrev pub max_sack_scoreboard_entries : ℕ
max_sack_scoreboard_entries = 4

abbrev pub covers : SackBlock → ℕ → Bool
covers b seq = seq_le b.left seq && seq_lt seq b.right

unfoldable pub is_sacked : List SackBlock → ℕ → Bool
is_sacked [] seq = false
is_sacked (b ∷ bs) seq = covers b seq || is_sacked bs seq

-- Two blocks overlap or touch.
abbrev pub touches : SackBlock → SackBlock → Bool
touches a b = seq_le a.left b.right && seq_le b.left a.right

-- The block from the lesser left to the greater right edge.
abbrev pub join : SackBlock → SackBlock → SackBlock
join a b = record {
  left = if seq_le a.left b.left then a.left else b.left;
  right = if seq_le b.right a.right then a.right else b.right;
}

-- The merge-with-existing pass of `insert`: the first block that the new one touches takes it in.
unfoldable pub merge_first : SackBlock → List SackBlock → Option (List SackBlock)
merge_first block [] = none
merge_first block (cur ∷ bs) =
    if touches block cur
    then some (join cur block ∷ bs)
    else Option.map (λ r. cur ∷ r) (merge_first block bs)

-- The inner loop of `collapse`, over `j`: the first later block that touches `a` goes into it.
unfoldable pub absorb : SackBlock → List SackBlock → Option (SackBlock × List SackBlock)
absorb a [] = none
absorb a (b ∷ bs) =
    if touches a b then some (join a b, bs) else Option.map (λ (x, r). (x, b ∷ r)) (absorb a bs)

-- One round of `collapse`: the outer loop, over `i`; `none` is its `break`.
unfoldable pub collapse_round : List SackBlock → Option (List SackBlock)
collapse_round [] = none
collapse_round (a ∷ bs) = elim (absorb a bs) [
  | some (x, r) ↦ some (x ∷ r)
  | none ↦ Option.map (λ r. a ∷ r) (collapse_round bs)
]

-- `collapse` on fuel. A round takes a block away, so `collapse` gives enough of it.
unfoldable pub collapse_on : ℕ → List SackBlock → List SackBlock
collapse_on zero bs = bs
collapse_on (suc fuel) bs = elim (collapse_round bs) [ none ↦ bs | some r ↦ collapse_on fuel r ]

unfoldable pub collapse : List SackBlock → List SackBlock
collapse bs = collapse_on (length bs) bs

-- `insert` always returns true.
unfoldable pub insert : List SackBlock → SackBlock → List SackBlock × Bool
insert bs block = elim (merge_first block bs) [
  | some r ↦ (collapse r, true)
  | none ↦ (
    if ltb (length bs) max_sack_scoreboard_entries
        then bs ++ (block ∷ [])
        else drop 1 bs ++ (block ∷ []),
    true,
  )
]

unfoldable pub prune_below : List SackBlock → ℕ → List SackBlock
prune_below [] snd_una = []
prune_below (b ∷ bs) snd_una =
    let rest = prune_below bs snd_una in
    if seq_le b.right snd_una
    then rest
    else record { left = if seq_le b.left snd_una then snd_una else b.left; right = b.right } ∷ rest
