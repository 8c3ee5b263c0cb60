-- ===== src/Sack/Disjoint.antt =====
-- The invariant of the scoreboard: at most four blocks, no two of which overlap or touch.
use resd_dpdk_tcp.Base.{
  ℕ, zero, suc, ◌≤◌, ◌<◌, ◌≡◌, false, none, some, List, [], ◌∷◌, ◌++◌, length, drop, All, ltb,
  arith, refl, inl, inr, Bool-cases, Option-cases, length-append, ltb→lt,
}
use resd_dpdk_tcp.Options.{SackBlock}
use resd_dpdk_tcp.Sack.{
  touches, merge_first, absorb, collapse_round, collapse_on, collapse, insert,
  max_sack_scoreboard_entries,
}
use resd_dpdk_tcp.Sack.Union.{length-collapse_round}

-- No block touches a later one.
abbrev pub Apart : List SackBlock → Type 0
Apart [] = Unit {0}
Apart (a ∷ bs) = All (λ b. touches a b ≡ false) bs × Apart bs

pub record IsScoreboard (bs : List SackBlock) : Type 0 where
  pub fits : length bs ≤ max_sack_scoreboard_entries
  pub apart : Apart bs

absorb-none :
    (a : SackBlock) (bs : List SackBlock) → absorb a bs ≡ none → All (λ b. touches a b ≡ false) bs
unfolding absorb
absorb-none a [] e = tt
absorb-none a (b ∷ bs) e = elim (Bool-cases (touches a b)) [
  | inl t ↦ cc (rw (absorb, t) at e)
  | inr f ↦ elim (Option-cases (absorb a bs)) [
    | inl n ↦ (f, absorb-none a bs n)
    | inr (p, q) ↦ cc (rw (absorb, f, q) at e)
  ]
]

collapse_round-none : (bs : List SackBlock) → collapse_round bs ≡ none → Apart bs
unfolding collapse_round
collapse_round-none [] e = tt
collapse_round-none (a ∷ bs) e = elim (Option-cases (absorb a bs)) [
  | inr (p, q) ↦ cc (rw (q, collapse_round) at e)
  | inl n ↦ elim (Option-cases (collapse_round bs)) [
    | inl m ↦ (absorb-none a bs n, collapse_round-none bs m)
    | inr (s, q) ↦ cc (rw (n, collapse_round, q) at e)
  ]
]

-- The loop of `collapse` ends by its `break`: the fuel is enough, and no touching pair is left.
pub collapse-Apart : (n : ℕ) (bs : List SackBlock) → length bs ≤ n → Apart (collapse_on n bs)
unfolding collapse_on
collapse-Apart zero [] h = tt
collapse-Apart zero (b ∷ bs) h = absurd (omega arith)
collapse-Apart (suc n) bs h = elim (Option-cases (collapse_round bs)) [
  | inl e ↦ rw (e, collapse_on) (collapse_round-none bs e)
  | inr (r, e) ↦
      rw (e, collapse_on) (collapse-Apart n r (omega (arith, length-collapse_round bs r e)))
]

length-collapse_on : (n : ℕ) (bs : List SackBlock) → length (collapse_on n bs) ≤ length bs
unfolding collapse_on
length-collapse_on zero bs = omega arith
length-collapse_on (suc n) bs = elim (Option-cases (collapse_round bs)) [
  | inl e ↦ rw (e, collapse_on) (omega arith)
  | inr (r, e) ↦
      rw (e, collapse_on) (omega (arith, length-collapse_on n r, length-collapse_round bs r e))
]

length-merge_first :
    (b : SackBlock) (bs r : List SackBlock) → merge_first b bs ≡ some r → length r ≡ length bs
unfolding merge_first
length-merge_first b [] r e = cc
length-merge_first b (c ∷ bs) [] e = ground arith
length-merge_first b (c ∷ bs) (x ∷ r) e = ground (arith, length-merge_first b bs r)

-- The blocks that a block did not merge with do not touch it.
Apart-snoc :
    (b : SackBlock) (bs : List SackBlock)
    → Apart bs
    → merge_first b bs ≡ none
    → Apart (bs ++ (b ∷ []))
unfolding merge_first
Apart-snoc b [] h e = (tt, tt)
Apart-snoc b (c ∷ bs) h e = elim (Option-cases (merge_first b bs)) [
  | inr (r, q) ↦ ground arith
  | inl n ↦ (All-snoc b c bs h.0 (ground arith), Apart-snoc b bs h.1 n)
]
  where
    All-snoc :
        (b c : SackBlock) (bs : List SackBlock)
        → All (λ x. touches c x ≡ false) bs
        → touches c b ≡ false
        → All (λ x. touches c x ≡ false) (bs ++ (b ∷ []))
    All-snoc b c [] h f = (f, tt)
    All-snoc b c (x ∷ bs) h f = (h.0, All-snoc b c bs h.1 f)

oldest :
    (b : SackBlock) (bs : List SackBlock)
    → merge_first b bs ≡ none
    → merge_first b (drop 1 bs) ≡ none
unfolding merge_first
oldest b [] e = refl
oldest b (c ∷ bs) e = ground arith

Apart-drop : (bs : List SackBlock) → Apart bs → Apart (drop 1 bs)
Apart-drop [] h = tt
Apart-drop (b ∷ bs) h = h.1

appended : (bs : List SackBlock) (b : SackBlock) → length bs < 4 → length (bs ++ (b ∷ [])) ≤ 4
appended bs b h = omega (arith, length-append bs (b ∷ []))

-- An insertion into a scoreboard of at most four blocks, no two of which overlap or touch, leaves
-- such a scoreboard.
pub insert-IsScoreboard :
    (bs : List SackBlock) (b : SackBlock) → IsScoreboard bs → IsScoreboard (insert bs b).0
unfolding insert collapse
insert-IsScoreboard bs b v = elim (Option-cases (merge_first b bs)) [
  | inr (r, e) ↦
      rw (e, insert)
        (record {
          fits =
              omega (arith, length-collapse_on (length r) r, length-merge_first b bs r e, v.fits);
          apart = collapse-Apart (length r) r (omega arith);
        })
  | inl e ↦ elim (Bool-cases (ltb (length bs) max_sack_scoreboard_entries)) [
    | inl room ↦
        rw (e, insert, room)
          (record { fits = appended bs b (ltb→lt _ _ room); apart = Apart-snoc b bs v.apart e })
    | inr full ↦
        rw (e, insert, full)
          (record {
            fits = appended (drop 1 bs) b (shorter bs v.fits full);
            apart = Apart-snoc b (drop 1 bs) (Apart-drop bs v.apart) (oldest b bs e);
          })
  ]
]
  where
    shorter : (l : List SackBlock) → length l ≤ 4 → ltb (length l) 4 ≡ false → length (drop 1 l) < 4
    shorter [] h f = omega arith
    shorter (x ∷ l) h f = omega arith
