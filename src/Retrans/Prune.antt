-- ===== src/Retrans/Prune.antt =====
-- What the pruning of acknowledged segments keeps and hands out.
use resd_dpdk_tcp.Base.{
  ℕ, ◌≤◌, ◌<◌, ◌≡◌, true, false, List, [], ◌∷◌, ◌++◌, All, ◌==◌, if◌then◌else◌, arith, refl, ◌∙◌,
  ap, u32_mod, Bool-cases, inl, inr,
}
use mathlib.Core.List.{append_assoc, append-nil}
use resd_dpdk_tcp.Seq.{seq_le}
use resd_dpdk_tcp.Seq.Order.{IsAhead, offset, seq_le-offset}
use resd_dpdk_tcp.Retrans.{RetransEntry, SendRetrans, end_seq, prune_below, prune_below_into_mbufs}

-- The mbufs that the engine has to release, in order.
abbrev pub mbufs : List RetransEntry → List ℕ
mbufs [] = []
mbufs (e ∷ es) = if e.mbuf == 0 then mbufs es else e.mbuf ∷ mbufs es

-- The segments in the order of their ends, all within 2 ^ 31 of a base.
abbrev pub IsOrdered : ℕ → SendRetrans → Type 0
IsOrdered base [] = Unit {0}
IsOrdered base (e ∷ es) =
    IsAhead base (end_seq e)
    × All (λ f. offset base (end_seq e) ≤ offset base (end_seq f)) es
    × IsOrdered base es

later_unacked :
    (base una : ℕ) (e : RetransEntry) (es : SendRetrans)
    → base < u32_mod
    → IsAhead base una
    → IsAhead base (end_seq e)
    → seq_le (end_seq e) una ≡ false
    → All (λ f. offset base (end_seq e) ≤ offset base (end_seq f)) es
    → IsOrdered base es
    → All (λ f. seq_le (end_seq f) una ≡ false) es
later_unacked base una e [] hb hu he ne le o = tt
later_unacked base una e (f ∷ es) hb hu he ne le o = (
  ground (
    arith,
    seq_le-offset base (end_seq e) una hb he hu,
    seq_le-offset base (end_seq f) una hb o.0 hu,
  ),
  later_unacked base una e es hb hu he ne le.1 o.2,
)

-- Pruning splits a queue whose segments stand in the order of their ends, within 2 ^ 31 of a
-- base: nothing is lost, duplicated or reordered, all that is dropped is acknowledged in full,
-- and nothing that is left is.
pub prune_below_splits :
    (base una : ℕ) (es : SendRetrans)
    → base < u32_mod
    → IsAhead base una
    → IsOrdered base es
    → let (left, dropped) = prune_below es una in
      (dropped ++ left ≡ es)
      × All (λ e. seq_le (end_seq e) una ≡ true) dropped
      × All (λ e. seq_le (end_seq e) una ≡ false) left
unfolding prune_below
prune_below_splits base una [] hb hu o = (refl, tt, tt)
prune_below_splits base una (e ∷ es) hb hu o = elim (Bool-cases (seq_le (end_seq e) una)) [
  | inl t ↦
      let (p, d, l) = prune_below_splits base una es hb hu o.2 in
      rw t (ap (λ x. e ∷ x) p, (t, d), l)
  | inr f ↦ rw f (refl, tt, (f, later_unacked base una e es hb hu o.0 f o.1 o.2))
]

-- The allocation-free variant leaves the same queue, and hands out the non-null mbufs of what
-- `prune_below` drops, each once and in order, behind what the caller's buffer held.
pub prune_below_into_mbufs-eq :
    (es : SendRetrans) (una : ℕ) (out : List ℕ)
    → prune_below_into_mbufs es una out
      ≡ ((prune_below es una).0, out ++ mbufs (prune_below es una).1)
unfolding prune_below prune_below_into_mbufs
prune_below_into_mbufs-eq [] una out = rw append-nil
prune_below_into_mbufs-eq (e ∷ es) una out = elim (Bool-cases (seq_le (end_seq e) una)) [
  | inr f ↦ rw (f, append-nil)
  | inl t ↦ elim (Bool-cases (e.mbuf == 0)) [
    | inl null ↦ rw (t, null) (prune_below_into_mbufs-eq es una out)
    | inr live ↦
        rw (t, live)
          (prune_below_into_mbufs-eq es una (out ++ (e.mbuf ∷ []))
            ∙ ap (λ l. ((prune_below es una).0, l)) (append_assoc out (e.mbuf ∷ []) _))
  ]
]
