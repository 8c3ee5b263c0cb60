-- ===== src/Reassembly/Account.antt =====
-- The scan as a whole: which bytes of a payload an insertion stores. Distances are from a base that
-- no sequence number of the queue or of the call is 2 ^ 31 or more ahead of.
use resd_dpdk_tcp.Base.{
  ℕ, ◌+◌, ◌≤◌, ◌<◌, ◌≡◌, ◌⊎◌, inl, inr, List, [], ◌∷◌, arith, u16_mod, u32_mod, All,
}
use resd_dpdk_tcp.Seq.{i32_min}
use resd_dpdk_tcp.Seq.Order.{IsAhead, offset}
use resd_dpdk_tcp.Reassembly.{OooSegment, end_seq}
use resd_dpdk_tcp.Reassembly.Insert.{Call, incoming_end}

-- A stored segment: a word, not empty, that ends within 2 ^ 31 of the base.
pub record IsSegment (base : ℕ) (x : OooSegment) : Type 0 where
  pub word : x.seq < u32_mod
  pub nonempty : 1 ≤ x.len
  pub near : offset base x.seq + x.len < i32_min

abbrev pub lo : ℕ → OooSegment → ℕ
lo base x = offset base x.seq

abbrev pub hi : ℕ → OooSegment → ℕ
hi base x = offset base x.seq + x.len

-- Sorted, and no two overlap.
abbrev pub IsQueue : ℕ → List OooSegment → Type 0
IsQueue base [] = Unit {0}
IsQueue base (x ∷ xs) = IsSegment base x × All (λ y. hi base x ≤ lo base y) xs × IsQueue base xs

-- The byte at a distance from the base is stored.
abbrev pub Stored : ℕ → List OooSegment → ℕ → Type 0
Stored base [] d = ⊥
Stored base (x ∷ xs) d = ((lo base x ≤ d) × (d < hi base x)) ⊎ Stored base xs d

pub record IsCall (base : ℕ) (c : Call) : Type 0 where
  pub word : c.seq < u32_mod
  pub near : offset base c.seq + c.payload_len < i32_min
  pub small : c.payload_len < u16_mod
  pub cap_word : c.cap < u32_mod

module _ (base : ℕ) (hb : base < u32_mod) where
  pub start-IsAhead : (x : OooSegment) → IsSegment base x → IsAhead base x.seq
  start-IsAhead x v = record { word = v.word; near = omega arith }

  pub offset-end : (x : OooSegment) → IsSegment base x → offset base (end_seq x) ≡ hi base x
  offset-end x v = omega arith

  pub end-IsAhead : (x : OooSegment) → IsSegment base x → IsAhead base (end_seq x)
  end-IsAhead x v = record { word = omega arith; near = omega arith }

  pub offset-incoming_end :
      (c : Call) → IsCall base c → offset base (incoming_end c) ≡ offset base c.seq + c.payload_len
  offset-incoming_end c v = omega arith

  pub incoming_end-IsAhead : (c : Call) → IsCall base c → IsAhead base (incoming_end c)
  incoming_end-IsAhead c v = record { word = omega arith; near = omega arith }

  pub not-Stored-below :
      (xs : List OooSegment) (e d : ℕ) → All (λ y. e ≤ lo base y) xs → d < e → ¬ Stored base xs d
  not-Stored-below [] e d h k s = s
  not-Stored-below (x ∷ xs) e d h k (inl (p, q)) = omega arith
  not-Stored-below (x ∷ xs) e d h k (inr s) = not-Stored-below xs e d h.1 k s
