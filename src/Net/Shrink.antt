-- ===== src/Net/Shrink.antt =====
-- The path MTU only shrinks, and never below the minimum.
use resd_dpdk_tcp.Base.{
  ℕ, ◌+◌, ◌*◌, ◌/◌, ◌%◌, ◌≤◌, ◌<◌, ◌≡◌, ◌≢◌, ◌⊎◌, inl, inr, max, Bool, true, false, not, ◌||◌,
  Option, none, some, List, length, ltb, leb, ◌==◌, if◌then◌else◌, arith, refl, drop, Bool-cases,
  Option-cases,
}
use resd_dpdk_tcp.Net.{byte, u16_at, u32_at}
use resd_dpdk_tcp.Net.Icmp.{
  PmtuTable, update, icmp_input, store, ipv4_min_mtu, icmp_dest_unreach, icmp_code_frag_needed,
  IcmpResult, frag_needed_pmtu_updated, frag_needed_no_shrink, malformed, other_dropped,
}

-- The entry of `b` is the entry of `a`, or a smaller one that is not below the minimum.
abbrev pub Shrinks : Option ℕ → Option ℕ → Type 0
Shrinks none none = Unit
Shrinks none (some m) = ipv4_min_mtu ≤ m
Shrinks (some n) none = ⊥
Shrinks (some n) (some m) = (m ≡ n) ⊎ ((ipv4_min_mtu ≤ m) × (m < n))

Shrinks-refl : (o : Option ℕ) → Shrinks o o
Shrinks-refl none = tt
Shrinks-refl (some n) = inl refl

stored :
    (t : PmtuTable) (ip a : ℕ) (m : ℕ) (o : Option ℕ)
    → t ip ≡ o
    → Shrinks o (some m)
    → Shrinks (t a) (store t ip m a)
stored t ip a m o e s = elim (Bool-cases (a == ip)) [
  | inl q ↦ let same : a ≡ ip = ground arith in rw (q, same, e) s
  | inr q ↦ rw q (Shrinks-refl (t a))
]

update-Shrinks : (t : PmtuTable) (ip mtu : ℕ) (a : ℕ) → Shrinks (t a) ((update t ip mtu).0 a)
unfolding update
update-Shrinks t ip mtu a = elim (Option-cases (t ip)) [
  | inl e ↦ rw (e, update) (stored t ip a (max mtu ipv4_min_mtu) none e (omega arith))
  | inr (n, e) ↦ elim (Bool-cases (leb n (max mtu ipv4_min_mtu))) [
    | inl q ↦ rw (e, update, q) (Shrinks-refl (t a))
    | inr q ↦
        rw (e, update, q)
          (stored t ip a (max mtu ipv4_min_mtu) (some n) e (inr (omega arith, ground arith)))
  ]
]

update-kept : (t : PmtuTable) (ip mtu : ℕ) → (update t ip mtu).1 ≡ false → (update t ip mtu).0 ≡ t
unfolding update
update-kept t ip mtu h = elim (Option-cases (t ip)) [
  | inl e ↦ absurd (cc (rw (e, update) at h))
  | inr (n, e) ↦ elim (Bool-cases (leb n (max mtu ipv4_min_mtu))) [
    | inl q ↦ rw (e, update, q) refl
    | inr q ↦ absurd (cc (rw (e, update, q) at h))
  ]
]

-- What an answer promises of the table that goes with it.
abbrev pub IsAnswer : PmtuTable → PmtuTable × IcmpResult → Type 0
IsAnswer t r = ((a : ℕ) → Shrinks (t a) (r.0 a)) × (r.1 ≢ frag_needed_pmtu_updated → r.0 ≡ t)

same_table : (t : PmtuTable) (r : IcmpResult) → IsAnswer t (t, r)
same_table t r = (λ a. Shrinks-refl (t a), λ h. refl)

guarded :
    (t : PmtuTable) (b : Bool) (x y : PmtuTable × IcmpResult)
    → IsAnswer t x
    → IsAnswer t y
    → IsAnswer t (if b then x else y)
guarded t true x y p q = p
guarded t false x y p q = q

no_shrink-IsAnswer :
    (t u : PmtuTable) (b : Bool)
    → ((a : ℕ) → Shrinks (t a) (u a))
    → (b ≡ false → u ≡ t)
    → IsAnswer t (if b then (u, frag_needed_pmtu_updated) else (u, frag_needed_no_shrink))
no_shrink-IsAnswer t u true s k = (s, λ h. absurd (h refl))
no_shrink-IsAnswer t u false s k = (s, λ h. k refl)

-- Whatever ICMP message arrives, no path MTU grows or falls below 68, and only the answer that
-- reports an update goes with a change of the table.
pub icmp_input-IsAnswer :
    (ip_payload : List ℕ) (pmtu : PmtuTable) → IsAnswer pmtu (icmp_input ip_payload pmtu)
unfolding icmp_input
icmp_input-IsAnswer ip_payload pmtu =
    let ip = u32_at (drop 8 ip_payload) 16 in
    let mtu = u16_at ip_payload 6 in
    let version = byte (drop 8 ip_payload) 0 / 16 in
    let ihl = byte (drop 8 ip_payload) 0 % 16 in
    let bad = same_table pmtu malformed in
    guarded pmtu (ltb (length ip_payload) 8) _ _ bad (
      guarded pmtu
        (not (byte ip_payload 0 == icmp_dest_unreach)
          || not (byte ip_payload 1 == icmp_code_frag_needed))
        _ _ (same_table pmtu other_dropped)
        (guarded pmtu (ltb (length ip_payload) (8 + 20)) _ _ bad (
          guarded pmtu
            (not (version == 4) || ltb ihl 5 || ltb (length (drop 8 ip_payload)) (ihl * 4)) _ _ bad
            (guarded pmtu (mtu == 0) _ _ bad (
              no_shrink-IsAnswer pmtu (update pmtu ip mtu).0 (update pmtu ip mtu).1
                (update-Shrinks pmtu ip mtu) (update-kept pmtu ip mtu))))))
