-- ===== src/Histogram/Laws.antt =====
-- A sample lands in the bucket of its range.
use resd_dpdk_tcp.Base.{
  ℕ, zero, suc, ◌+◌, ◌≤◌, ◌<◌, ◌≡◌, List, [], ◌∷◌, some, length, get_elem?, get_or, set,
  wrapping_add32, u32_mod, ◌%◌, arith, refl,
}
use resd_dpdk_tcp.Histogram.{select_from, select_bucket, update}

-- What the loop has found when it stops at an index: `rtt` is above each edge before it.
select_from-bounds :
    (rtt : ℕ) (es : List ℕ) (i : ℕ)
    → i + length es ≡ 15
    → (i ≤ select_from rtt es i) × (select_from rtt es i ≤ 15)
unfolding select_from
select_from-bounds rtt [] i h = omega arith
select_from-bounds rtt (e ∷ es) i h = ground (arith, select_from-bounds rtt es (i + 1))

select_from-above :
    (rtt : ℕ) (es : List ℕ) (i j d : ℕ)
    → i + length es ≡ 15
    → i + j < select_from rtt es i
    → get_elem? es j ≡ some d
    → d < rtt
unfolding select_from
select_from-above rtt [] i j d n h e = ground arith
select_from-above rtt (x ∷ es) i zero d n h e = ground arith
select_from-above rtt (x ∷ es) i (suc j) d n h e =
    ground (arith, select_from-above rtt es (i + 1) j d)

select_from-fits :
    (rtt : ℕ) (es : List ℕ) (i j : ℕ)
    → i + length es ≡ 15
    → i + j ≡ select_from rtt es i
    → j < length es
    → (d : ℕ) × (get_elem? es j ≡ some d) × (rtt ≤ d)
unfolding select_from
select_from-fits rtt [] i j n h l = absurd (omega arith)
select_from-fits rtt (x ∷ es) i zero n h l =
    (x, refl, ground (arith, select_from-bounds rtt es (i + 1)))
select_from-fits rtt (x ∷ es) i (suc j) n h l =
    select_from-fits rtt es (i + 1) j (omega arith) (ground arith) (omega arith)

-- With 15 edges the chosen bucket is the first whose edge is not below the sample, or the 16th
-- bucket if all edges are.
pub select_bucket_first :
    (rtt : ℕ) (edges : List ℕ)
    → length edges ≡ 15
    → let b = select_bucket rtt edges in
      (b ≤ 15)
      × ((j d : ℕ) → j < b → get_elem? edges j ≡ some d → d < rtt)
      × (b < 15 → (d : ℕ) × (get_elem? edges b ≡ some d) × (rtt ≤ d))
unfolding select_bucket
select_bucket_first rtt edges n = (
  (select_from-bounds rtt edges 0 (omega arith)).1,
  (λ j d h e. select_from-above rtt edges 0 j d (omega arith) (omega arith) e),
  λ h.
      select_from-fits rtt edges 0 (select_from rtt edges 0) (omega arith) (omega arith)
        (omega arith),
)

pub sum : List ℕ → ℕ
sum [] = 0
sum (x ∷ xs) = x + sum xs

sum-set : (xs : List ℕ) (i v : ℕ) → i < length xs → sum (set xs i v) + get_or xs i 0 ≡ sum xs + v
unfolding sum
sum-set [] i v h = absurd (omega arith)
sum-set (x ∷ xs) zero v h = omega arith
sum-set (x ∷ xs) (suc i) v h = omega (arith, sum-set xs i v)

-- Each sample is counted in exactly one bucket: modulo 2 ^ 32 the buckets' total grows by one.
pub sum-update :
    (buckets : List ℕ) (rtt : ℕ) (edges : List ℕ)
    → length buckets ≡ 16
    → length edges ≡ 15
    → sum (update buckets rtt edges) % u32_mod ≡ (sum buckets + 1) % u32_mod
unfolding update
sum-update buckets rtt edges hb he = omega (
  arith,
  (select_bucket_first rtt edges he).0,
  sum-set buckets (select_bucket rtt edges)
      (wrapping_add32 (get_or buckets (select_bucket rtt edges) 0) 1),
)
