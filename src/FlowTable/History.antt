-- ===== src/FlowTable/History.antt =====
-- The flow table over its whole life, from `FlowTable::new` on.
use resd_dpdk_tcp.Base.{
  ℕ, zero, suc, ◌+◌, ◌<◌, ◌≡◌, ◌↔◌, Option, none, some, List, [], ◌∷◌, length, get_or, replicate,
  map, arith, refl, sym, ◌∙◌, subst, none-some, u32_mod,
}
use resd_dpdk_tcp.FlowTable.{
  FourTuple, FlowTable, new, get, lookup_by_tuple, insert, remove, clear_all,
}
use resd_dpdk_tcp.FlowTable.Handles.{IsTable}
use resd_dpdk_tcp.FlowTable.Registry.{insert-Registered, lookup_lem, remove_lem}

-- The tables that a sequence of calls leads to, from a new one with `max_connections` slots.
pub data Reach {C : Type 0} (four_tuple : C → FourTuple) (max_connections : ℕ)
    : FlowTable C → Type 0 where
  here : Reach four_tuple max_connections (new C max_connections)
  inserted :
      {t : FlowTable C} (conn : C)
      → Reach four_tuple max_connections t
      → Reach four_tuple max_connections (insert four_tuple conn t).0
  removed :
      {t : FlowTable C} (handle : ℕ)
      → Reach four_tuple max_connections t
      → Reach four_tuple max_connections (remove four_tuple handle t).0
  cleared :
      {t : FlowTable C}
      → Reach four_tuple max_connections t
      → Reach four_tuple max_connections (clear_all t)

module _ {C : Type 0} where
  get_or-replicate : (n i : ℕ) → Path (Option C) (get_or (replicate n none) i none) none
  get_or-replicate zero i = refl
  get_or-replicate (suc n) zero = refl
  get_or-replicate (suc n) (suc i) = get_or-replicate n i

  length-replicate : (n : ℕ) (o : Option C) → length (replicate n o) ≡ n
  length-replicate zero o = refl
  length-replicate (suc n) o = omega (arith, length-replicate n o)

  get_or-cleared :
      (xs : List (Option C)) (i : ℕ) → Path (Option C) (get_or (map (λ s. none) xs) i none) none
  get_or-cleared [] i = refl
  get_or-cleared (x ∷ xs) zero = refl
  get_or-cleared (x ∷ xs) (suc i) = get_or-cleared xs i

  length-cleared : (xs : List (Option C)) → length (map {B = Option C} (λ s. none) xs) ≡ length xs
  length-cleared [] = refl
  length-cleared (x ∷ xs) = omega (arith, length-cleared xs)

module _ {C : Type 0} (four_tuple : C → FourTuple) where
  -- A table without connections.
  empty-IsTable :
      (slots : List (Option C))
      → length slots < u32_mod
      → ((i : ℕ) → get_or slots i none ≡ none)
      → IsTable four_tuple (record { slots = slots; by_tuple = λ tuple. none })
  empty-IsTable slots h free = record {
    small = h;
    stored = λ tuple i e. absurd (none-some i e);
    indexed = λ i c e. absurd (none-some c (sym (free i) ∙ e));
  }

  remove-IsTable :
      (t : FlowTable C) (handle : ℕ)
      → IsTable four_tuple t
      → IsTable four_tuple (remove four_tuple handle t).0
  unfolding remove get
  remove-IsTable t zero v = v
  remove-IsTable t (suc i) v =
      let at : i + 1 ≡ suc i = omega arith in
      subst (λ h. IsTable four_tuple (remove four_tuple h t).0) at (remove_lem four_tuple t i v).0

  Reach-IsTable :
      (n : ℕ) {t : FlowTable C} → n < u32_mod → Reach four_tuple n t → IsTable four_tuple t
  Reach-IsTable n h here =
      empty-IsTable (replicate n none) (omega (arith, length-replicate n none)) (get_or-replicate n)
  Reach-IsTable n h (inserted conn r) =
      (insert-Registered four_tuple conn _ (Reach-IsTable n h r)).0
  Reach-IsTable n h (removed handle r) = remove-IsTable _ handle (Reach-IsTable n h r)
  Reach-IsTable n h (cleared {t} r) =
      let small = (Reach-IsTable n h r).small in
      empty-IsTable (map (λ s. none) t.slots) (omega (arith, length-cleared t.slots, small))
        (get_or-cleared t.slots)

  -- After any sequence of insertions, removals and clearings of a new table, a tuple leads to a handle
  -- exactly when the connection under the handle has that tuple. For fewer than 2 ^ 32 slots.
  pub lookup_by_tuple_iff :
      (max_connections : ℕ) (t : FlowTable C) (tuple : FourTuple) (i : ℕ)
      → max_connections < u32_mod
      → Reach four_tuple max_connections t
      → (lookup_by_tuple tuple t ≡ some (i + 1))
        ↔ ((c : C) × (get (i + 1) t ≡ some c) × (four_tuple c ≡ tuple))
  lookup_by_tuple_iff max_connections t tuple i h r =
      lookup_lem four_tuple t tuple i (Reach-IsTable max_connections h r)
