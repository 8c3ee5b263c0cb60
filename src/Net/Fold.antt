-- ===== src/Net/Fold.antt =====
-- The checksum of several chunks is that of their concatenation, and its final loop ends.
use resd_dpdk_tcp.Base.{
  ℕ, ◌%◌, ◌<◌, ◌≡◌, Option, none, some, List, [], ◌∷◌, ◌++◌, refl, ap, sym, ◌∙◌, arith, u16_mod,
  u32_mod, wrapping_add32,
}
use resd_dpdk_tcp.Options.Bytes.{be16}
use resd_dpdk_tcp.Net.Checksum.{
  Sum, fold_pairs, fold_chunk, fold_chunks, add_tail, end_around, rounds, start, internet_checksum,
  complement,
}

abbrev pub concat : List (List ℕ) → List ℕ
concat [] = []
concat (xs ∷ xss) = xs ++ concat xss

fold_pairs-append :
    (xs ys : List ℕ) (sum : ℕ) → fold_pairs (xs ++ ys) sum ≡ fold_chunk ys (fold_pairs xs sum)
unfolding fold_pairs fold_chunk
fold_pairs-append [] ys sum = refl
fold_pairs-append (a ∷ []) [] sum = refl
fold_pairs-append (a ∷ []) (b ∷ ys) sum = refl
fold_pairs-append (a ∷ b ∷ xs) ys sum = fold_pairs-append xs ys (wrapping_add32 sum (be16 a b))

append_at :
    (xs ys : List ℕ) (n : ℕ) (c : Option ℕ)
    → let s : Sum = record { sum = n; carry = c } in
      fold_chunk (xs ++ ys) s ≡ fold_chunk ys (fold_chunk xs s)
unfolding fold_chunk
append_at xs ys n none = fold_pairs-append xs ys n
append_at [] ys n (some high) = refl
append_at (low ∷ xs) ys n (some high) = fold_pairs-append xs ys (wrapping_add32 n (be16 high low))

fold_chunk-append :
    (xs ys : List ℕ) (s : Sum) → fold_chunk (xs ++ ys) s ≡ fold_chunk ys (fold_chunk xs s)
fold_chunk-append xs ys s = append_at xs ys s.sum s.carry

nil_at :
    (n : ℕ) (c : Option ℕ)
    → fold_chunk [] (record { sum = n; carry = c }) ≡ record { sum = n; carry = c }
unfolding fold_chunk fold_pairs
nil_at n none = refl
nil_at n (some high) = refl

fold_chunk-nil : (s : Sum) → fold_chunk [] s ≡ s
fold_chunk-nil s = nil_at s.sum s.carry

fold_chunks-concat :
    (chunks : List (List ℕ)) (s : Sum) → fold_chunks chunks s ≡ fold_chunk (concat chunks) s
unfolding fold_chunks
fold_chunks-concat [] s = sym (fold_chunk-nil s)
fold_chunks-concat (xs ∷ xss) s =
    fold_chunks-concat xss (fold_chunk xs s) ∙ sym (fold_chunk-append xs (concat xss) s)

-- The checksum of a list of chunks is the checksum of the one buffer that they make up, wherever
-- the boundaries lie, at an odd byte too.
pub internet_checksum-concat :
    (chunks : List (List ℕ)) → internet_checksum chunks ≡ internet_checksum (concat chunks ∷ [])
unfolding internet_checksum fold_chunks
internet_checksum-concat chunks =
    ap (λ s. complement (end_around rounds (add_tail s))) (fold_chunks-concat chunks start)

-- For a sum of 32 bits the loop that adds the carries back ends within two rounds, in a word of 16
-- bits that is congruent to the sum modulo 2 ^ 16 - 1 and is 0 only for the sum 0.
pub end_around_lem :
    (sum : ℕ)
    → sum < u32_mod
    → (end_around rounds sum < u16_mod)
      × (end_around rounds sum % 65535 ≡ sum % 65535)
      × (end_around rounds sum ≡ 0 → sum ≡ 0)
unfolding end_around
end_around_lem sum h = ground arith
