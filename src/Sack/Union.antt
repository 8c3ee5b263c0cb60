-- ===== src/Sack/Union.antt =====
-- The scoreboard as a set of sequence numbers, for numbers within 2 ^ 31 of a base.
use resd_dpdk_tcp.Base.{
  ℕ, zero, suc, ◌<◌, ◌≡◌, true, ◌||◌, none, some, List, [], ◌∷◌, ◌++◌, length, drop, All, ltb,
  if◌then◌else◌, u32_mod, arith, refl, inl, inr, ◌⊎◌, ◌∙◌, ap, Bool-cases, Option-cases,
}
use resd_dpdk_tcp.Options.{SackBlock}
use resd_dpdk_tcp.Seq.Order.{IsAhead, seq_lt-offset, seq_le-offset}
use resd_dpdk_tcp.Sack.{
  covers, is_sacked, touches, join, merge_first, absorb, collapse_round, collapse_on, collapse,
  insert, max_sack_scoreboard_entries,
}

-- How `absorb` found its block: at once, or further on.
abbrev Found : SackBlock → SackBlock → List SackBlock → SackBlock → List SackBlock → Type 0
Found a b bs x r =
    ((touches a b ≡ true) × (x ≡ join a b) × (r ≡ bs))
    ⊎ ((s : List SackBlock) × (absorb a bs ≡ some (x, s)) × (r ≡ b ∷ s))

absorb_inv :
    (a b : SackBlock) (bs : List SackBlock) (x : SackBlock) (r : List SackBlock)
    → absorb a (b ∷ bs) ≡ some (x, r)
    → Found a b bs x r
unfolding absorb
absorb_inv a b bs x r e = elim (Bool-cases (touches a b)) [
  | inl t ↦ inl (t, ground arith, ground arith)
  | inr f ↦ elim (Option-cases (absorb a bs)) [
    | inl n ↦ cc (rw (f, n) at e)
    | inr (p, q) ↦ inr (p.1, ground arith, ground arith)
  ]
]

-- How a round of `collapse` found its pair: with the first block, or further on.
abbrev Round : SackBlock → List SackBlock → List SackBlock → Type 0
Round a bs r =
    ((x : SackBlock) × (s : List SackBlock) × (absorb a bs ≡ some (x, s)) × (r ≡ x ∷ s))
    ⊎ ((s : List SackBlock) × (collapse_round bs ≡ some s) × (r ≡ a ∷ s))

collapse_round_inv :
    (a : SackBlock) (bs r : List SackBlock) → collapse_round (a ∷ bs) ≡ some r → Round a bs r
unfolding collapse_round
collapse_round_inv a bs r e = elim (Option-cases (absorb a bs)) [
  | inr (p, q) ↦ inl (p.0, p.1, q, ground arith)
  | inl n ↦ elim (Option-cases (collapse_round bs)) [
    | inl m ↦ cc (rw (n, collapse_round, m) at e)
    | inr (s, q) ↦ inr (s, q, ground arith)
  ]
]

length-absorb :
    (a : SackBlock) (bs : List SackBlock) (x : SackBlock) (r : List SackBlock)
    → absorb a bs ≡ some (x, r)
    → length bs ≡ suc (length r)
unfolding absorb
length-absorb a [] x r e = cc
length-absorb a (b ∷ bs) x r e = elim (absorb_inv a b bs x r e) [
  | inl (t, p, q) ↦ rw q
  | inr (s, p, q) ↦ rw q (omega (arith, length-absorb a bs x s p))
]

pub length-collapse_round :
    (bs r : List SackBlock) → collapse_round bs ≡ some r → length bs ≡ suc (length r)
unfolding collapse_round
length-collapse_round [] r e = cc
length-collapse_round (a ∷ bs) r e = elim (collapse_round_inv a bs r e) [
  | inl (x, s, p, q) ↦ rw q (omega (arith, length-absorb a bs x s p))
  | inr (s, p, q) ↦ rw q (omega (arith, length-collapse_round bs s p))
]

-- What an insertion keeps: all, but not the oldest block if the new one joins none and four are stored.
abbrev pub survivors : List SackBlock → SackBlock → List SackBlock
survivors bs b = elim (merge_first b bs) [
  | some _ ↦ bs
  | none ↦ if ltb (length bs) max_sack_scoreboard_entries then bs else drop 1 bs
]

pub record IsAheadBlock (base : ℕ) (b : SackBlock) : Type 0 where
  pub left : IsAhead base b.left
  pub right : IsAhead base b.right

module _ (base : ℕ) (hb : base < u32_mod) where
  join-IsAheadBlock :
      (a b : SackBlock) → IsAheadBlock base a → IsAheadBlock base b → IsAheadBlock base (join a b)
  join-IsAheadBlock a b ha hb' = ground arith

  merge_first-All :
      (b : SackBlock) (bs r : List SackBlock)
      → IsAheadBlock base b
      → All (IsAheadBlock base) bs
      → merge_first b bs ≡ some r
      → All (IsAheadBlock base) r
  unfolding merge_first
  merge_first-All b [] r hb' h e = cc
  merge_first-All b (c ∷ bs) [] hb' h e = ground arith
  merge_first-All b (c ∷ bs) (x ∷ r) hb' h e =
      ground (arith, join-IsAheadBlock c b h.0 hb', merge_first-All b bs r hb' h.1)

  absorb-All :
      (a : SackBlock) (bs : List SackBlock) (x : SackBlock) (r : List SackBlock)
      → IsAheadBlock base a
      → All (IsAheadBlock base) bs
      → absorb a bs ≡ some (x, r)
      → IsAheadBlock base x × All (IsAheadBlock base) r
  unfolding absorb
  absorb-All a [] x r ha h e = cc
  absorb-All a (b ∷ bs) x r ha h e = elim (absorb_inv a b bs x r e) [
    | inl (t, p, q) ↦ (rw p (join-IsAheadBlock a b ha h.0), rw q h.1)
    | inr (s, p, q) ↦ let (hx, hs) = absorb-All a bs x s ha h.1 p in (hx, rw q (h.0, hs))
  ]

  collapse_round-All :
      (bs r : List SackBlock)
      → All (IsAheadBlock base) bs
      → collapse_round bs ≡ some r
      → All (IsAheadBlock base) r
  unfolding collapse_round
  collapse_round-All [] r h e = cc
  collapse_round-All (a ∷ bs) r h e = elim (collapse_round_inv a bs r e) [
    | inl (x, s, p, q) ↦ rw q (absorb-All a bs x s h.0 h.1 p)
    | inr (s, p, q) ↦ rw q (h.0, collapse_round-All bs s h.1 p)
  ]

  collapse_on-All :
      (n : ℕ) (bs : List SackBlock)
      → All (IsAheadBlock base) bs
      → All (IsAheadBlock base) (collapse_on n bs)
  unfolding collapse_on
  collapse_on-All zero bs h = h
  collapse_on-All (suc n) bs h = elim (Option-cases (collapse_round bs)) [
    | inl e ↦ rw (e, collapse_on) h
    | inr (r, e) ↦ rw (e, collapse_on) (collapse_on-All n r (collapse_round-All bs r h e))
  ]

  module _ (q : ℕ) (hq : IsAhead base q) where
    -- Two touching blocks and the block that replaces them hold the same sequence numbers.
    covers-join :
        (a b : SackBlock)
        → IsAheadBlock base a
        → IsAheadBlock base b
        → touches a b ≡ true
        → covers (join a b) q ≡ (covers a q || covers b q)
    covers-join a b ha hb' t = ground (
      arith,
      seq_le-offset base a.left b.left hb ha.left hb'.left,
      seq_le-offset base b.right a.right hb hb'.right ha.right,
      seq_le-offset base a.left b.right hb ha.left hb'.right,
      seq_le-offset base b.left a.right hb hb'.left ha.right,
      seq_le-offset base a.left q hb ha.left hq,
      seq_le-offset base b.left q hb hb'.left hq,
      seq_lt-offset base q a.right hb hq ha.right,
      seq_lt-offset base q b.right hb hq hb'.right,
    )

    merge_first-is_sacked :
        (b : SackBlock) (bs r : List SackBlock)
        → IsAheadBlock base b
        → All (IsAheadBlock base) bs
        → merge_first b bs ≡ some r
        → is_sacked r q ≡ (is_sacked bs q || covers b q)
    unfolding merge_first is_sacked
    merge_first-is_sacked b [] r hb' h e = cc
    merge_first-is_sacked b (c ∷ bs) [] hb' h e = ground arith
    merge_first-is_sacked b (c ∷ bs) (x ∷ r) hb' h e =
        ground (arith, covers-join c b h.0 hb', merge_first-is_sacked b bs r hb' h.1)

    absorb-is_sacked :
        (a : SackBlock) (bs : List SackBlock) (x : SackBlock) (r : List SackBlock)
        → IsAheadBlock base a
        → All (IsAheadBlock base) bs
        → absorb a bs ≡ some (x, r)
        → (covers x q || is_sacked r q) ≡ (covers a q || is_sacked bs q)
    unfolding is_sacked absorb
    absorb-is_sacked a [] x r ha h e = cc
    absorb-is_sacked a (b ∷ bs) x r ha h e = elim (absorb_inv a b bs x r e) [
      | inl (t, p, o) ↦ rw (p, o) (ground (arith, covers-join a b ha h.0 t))
      | inr (s, p, o) ↦ rw o (ground (arith, absorb-is_sacked a bs x s ha h.1 p))
    ]

    collapse_round-is_sacked :
        (bs r : List SackBlock)
        → All (IsAheadBlock base) bs
        → collapse_round bs ≡ some r
        → is_sacked r q ≡ is_sacked bs q
    unfolding is_sacked collapse_round
    collapse_round-is_sacked [] r h e = cc
    collapse_round-is_sacked (a ∷ bs) r h e = elim (collapse_round_inv a bs r e) [
      | inl (x, s, p, o) ↦ rw o (absorb-is_sacked a bs x s h.0 h.1 p)
      | inr (s, p, o) ↦ rw o (ap (λ t. covers a q || t) (collapse_round-is_sacked bs s h.1 p))
    ]

    collapse_on-is_sacked :
        (n : ℕ) (bs : List SackBlock)
        → All (IsAheadBlock base) bs
        → is_sacked (collapse_on n bs) q ≡ is_sacked bs q
    unfolding collapse_on
    collapse_on-is_sacked zero bs h = refl
    collapse_on-is_sacked (suc n) bs h = elim (Option-cases (collapse_round bs)) [
      | inl e ↦ rw (e, collapse_on)
      | inr (r, e) ↦
          rw (e, collapse_on)
            (collapse_on-is_sacked n r (collapse_round-All bs r h e)
              ∙ collapse_round-is_sacked bs r h e)
    ]

    is_sacked-append :
        (bs : List SackBlock) (b : SackBlock)
        → is_sacked (bs ++ (b ∷ [])) q ≡ (is_sacked bs q || covers b q)
    unfolding is_sacked
    is_sacked-append [] b = ground arith
    is_sacked-append (a ∷ bs) b = ground (arith, is_sacked-append bs b)

    -- After an insertion a sequence number counts as received exactly if it did before, in a block
    -- that was not dropped, or lies in the new block: merging and collapsing neither lose nor invent
    -- a byte. For blocks and numbers within 2 ^ 31 of a base.
    pub insert-is_sacked :
        (bs : List SackBlock) (b : SackBlock)
        → All (IsAheadBlock base) bs
        → IsAheadBlock base b
        → is_sacked (insert bs b).0 q ≡ (is_sacked (survivors bs b) q || covers b q)
    unfolding insert collapse
    insert-is_sacked bs b h hb' = elim (Option-cases (merge_first b bs)) [
      | inr (r, e) ↦
          rw (e, insert, survivors)
            (collapse_on-is_sacked (length r) r (merge_first-All b bs r hb' h e)
              ∙ merge_first-is_sacked b bs r hb' h e)
      | inl e ↦
          rw (e, insert, survivors)
            (ground (arith, is_sacked-append bs b, is_sacked-append (drop 1 bs) b))
    ]
