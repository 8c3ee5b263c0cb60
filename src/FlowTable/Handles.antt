-- ===== src/FlowTable/Handles.antt =====
-- The two indices of the flow table agree.
use resd_dpdk_tcp.Base.{
  ℕ, zero, suc, ◌<◌, ◌≡◌, ◌≢◌, inl, inr, true, Option, none, some, List, [], ◌∷◌, length, ◌==◌,
  get_or, set, as_u32, arith, refl, sym, ap, ◌∙◌, subst, u32_mod, Bool-cases, Option-cases,
  get_or-set_self, get_or-set_ne, some-injective, none-some, length-set,
}
use resd_dpdk_tcp.FlowTable.{FourTuple, FlowTable, same, put, first_free, occupy}

pub same_refl : (a : FourTuple) → same a a ≡ true
same_refl a = ground arith

pub same→eq : (a b : FourTuple) → same a b ≡ true → a ≡ b
same→eq a b h =
    let p : a.local_ip ≡ b.local_ip = ground arith in
    let q : a.local_port ≡ b.local_port = ground arith in
    let r : a.peer_ip ≡ b.peer_ip = ground arith in
    let s : a.peer_port ≡ b.peer_port = ground arith in cc

module _ {C : Type 0} where
  pub first_free_lem :
      (slots : List (Option C)) (i : ℕ)
      → first_free slots ≡ some i
      → (i < length slots) × (get_or slots i none ≡ none)
  first_free_lem [] i h = absurd (none-some i h)
  first_free_lem (none ∷ slots) i h =
      subst (λ z. (z < suc (length slots)) × (get_or (none ∷ slots) z none ≡ none))
        (some-injective 0 i h) (omega arith, refl)
  first_free_lem (some c ∷ slots) i h = elim (Option-cases (first_free slots)) [
    | inl e ↦ absurd (none-some i (rw e at h))
    | inr (k, e) ↦
        let r = first_free_lem slots k e in
        subst (λ z. (z < suc (length slots)) × (get_or (some c ∷ slots) z none ≡ none))
          (some-injective (suc k) i (rw e at h)) (omega (arith, r.0), r.1)
  ]

  pub full_lem :
      (slots : List (Option C)) (i : ℕ)
      → first_free slots ≡ none
      → i < length slots
      → get_or slots i none ≢ none
  full_lem [] i h k e = omega arith
  full_lem (none ∷ slots) i h k e = none-some 0 (sym h)
  full_lem (some c ∷ slots) zero h k e = none-some c (sym e)
  full_lem (some c ∷ slots) (suc i) h k e = elim (Option-cases (first_free slots)) [
    | inl f ↦ full_lem slots i f (omega arith) e
    | inr (j, f) ↦ none-some (suc j) (sym (rw f at h))
  ]

-- The hash map and the slots describe the same connections.
pub record IsTable {C : Type 0} (four_tuple : C → FourTuple) (t : FlowTable C) : Type 0 where
  pub small : length t.slots < u32_mod
  pub stored :
      (tuple : FourTuple) (i : ℕ)
      → t.by_tuple tuple ≡ some i
      → (c : C) × (get_or t.slots i none ≡ some c) × (four_tuple c ≡ tuple)
  pub indexed :
      (i : ℕ) (c : C) → get_or t.slots i none ≡ some c → t.by_tuple (four_tuple c) ≡ some i

module _ {C : Type 0} (four_tuple : C → FourTuple) where
  pub put_self : (k : FourTuple) (v : Option ℕ) (m : FourTuple → Option ℕ) → put k v m k ≡ v
  put_self k v m = rw (same_refl k) refl

  pub put_ne :
      (k t : FourTuple) (v : Option ℕ) (m : FourTuple → Option ℕ) → k ≢ t → put k v m t ≡ m t
  put_ne k t v m h = elim (Bool-cases (same t k)) [
    | inl q ↦ absurd (h (sym (same→eq t k q)))
    | inr q ↦ rw q refl
  ]

  pub occupy-IsTable :
      (t : FlowTable C) (conn : C) (i : ℕ)
      → IsTable four_tuple t
      → t.by_tuple (four_tuple conn) ≡ none
      → i < length t.slots
      → get_or t.slots i none ≡ none
      → IsTable four_tuple (occupy four_tuple i conn t)
  occupy-IsTable t conn i v new h free =
      let word : as_u32 i ≡ i = omega (arith, v.small) in
      record {
        small = rw (length-set t.slots i (some conn)) v.small;
        stored = λ tuple j e. elim (Bool-cases (same tuple (four_tuple conn))) [
          | inl q ↦
              let at : i ≡ j = sym word ∙ some-injective (as_u32 i) j (rw q at e) in
              (
                conn,
                subst (λ z. get_or (set t.slots i (some conn)) z none ≡ some conn) at
                    (get_or-set_self t.slots i (some conn) none h),
                sym (same→eq tuple (four_tuple conn) q),
              )
          | inr q ↦
              let (c, at, eq) = v.stored tuple j (rw q at e) in
              (
                c,
                get_or-set_ne t.slots i j (some conn) none
                      (λ z. none-some c (sym free ∙ ap (λ n. get_or t.slots n none) z ∙ at))
                    ∙ at,
                eq,
              )
        ];
        indexed = λ j c e. elim (Bool-cases (i == j)) [
          | inl q ↦
              let at : i ≡ j = ground arith in
              let is : conn ≡ c = some-injective conn c (
                sym (get_or-set_self t.slots i (some conn) none h)
                ∙ subst (λ z. get_or (set t.slots i (some conn)) z none ≡ some c) (sym at) e) in
              subst
                (λ z. put (four_tuple conn) (some (as_u32 i)) t.by_tuple (four_tuple z) ≡ some j) is
                (put_self (four_tuple conn) (some (as_u32 i)) t.by_tuple ∙ ap some (word ∙ at))
          | inr q ↦
              let ne : i ≢ j = λ z. ground arith in
              let old = v.indexed j c (sym (get_or-set_ne t.slots i j (some conn) none ne) ∙ e) in
              put_ne (four_tuple conn) (four_tuple c) (some (as_u32 i)) t.by_tuple
                (λ z. none-some j (sym new ∙ ap t.by_tuple z ∙ old))
              ∙ old
        ];
      }
