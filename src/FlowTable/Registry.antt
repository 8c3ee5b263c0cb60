-- ===== src/FlowTable/Registry.antt =====
-- What the operations of the flow table promise to its callers.
use resd_dpdk_tcp.Base.{
  ℕ, ◌+◌, ◌-◌, ◌<◌, ◌≡◌, ◌≢◌, ◌⊎◌, ◌↔◌, inl, inr, true, false, Option, none, some, List, length,
  ◌==◌, get_or, set, as_u32, arith, refl, sym, ap, ◌∙◌, subst, Bool-cases, Option-cases,
  get_or-set_self, get_or-set_ne, get_or-set_at, some-injective, none-some, length-set,
}
use resd_dpdk_tcp.FlowTable.{
  FourTuple, FlowTable, same, put, first_free, get, lookup_by_tuple, insert, remove, occupy,
  invalid_handle,
}
use resd_dpdk_tcp.FlowTable.Handles.{
  IsTable, first_free_lem, full_lem, put_self, put_ne, occupy-IsTable, same_refl,
}

-- The promise of an insertion by what it returned.
pub Registered : {C : Type 0} → (C → FourTuple) → C → FlowTable C → FlowTable C × Option ℕ → Type 0
Registered four_tuple conn t (t', some handle) =
    (lookup_by_tuple (four_tuple conn) t' ≡ some handle)
    × (get handle t' ≡ some conn)
    × (get handle t ≡ none)
    × ((other : ℕ) → other ≢ handle → get other t' ≡ get other t)
Registered four_tuple conn t (t', none) =
    (t' ≡ t)
    × ((t.by_tuple (four_tuple conn) ≢ none)
        ⊎ ((i : ℕ) → i < length t.slots → get_or t.slots i none ≢ none))

get_or-set-none : {C : Type 0} (xs : List (Option C)) (i : ℕ) → get_or (set xs i none) i none ≡ none
get_or-set-none xs i = elim (get_or-set_at xs i none none) [ inl e ↦ e | inr e ↦ e ]

-- What `get` sees of one slot that changed.
module _ {C : Type 0} where
  get-set_self :
      (t : FlowTable C) (i : ℕ) (o : Option C) (m : FourTuple → Option ℕ)
      → i < length t.slots
      → get (i + 1) (record { slots = set t.slots i o; by_tuple = m }) ≡ o
  unfolding get
  get-set_self t i o m h =
      let e : ((i + 1) == invalid_handle) ≡ false = ground arith in
      let at : i + 1 - 1 ≡ i = omega arith in rw (e, at) (get_or-set_self t.slots i o none h)

  get-set_ne :
      (t : FlowTable C) (i : ℕ) (o : Option C) (m : FourTuple → Option ℕ) (handle : ℕ)
      → handle ≢ i + 1
      → get handle (record { slots = set t.slots i o; by_tuple = m }) ≡ get handle t
  unfolding get
  get-set_ne t i o m handle h = elim (Bool-cases (handle == invalid_handle)) [
    | inl e ↦ rw e refl
    | inr e ↦ rw e (get_or-set_ne t.slots i (handle - 1) o none (λ z. ground arith))
  ]

  get-slot : (t : FlowTable C) (i : ℕ) → get (i + 1) t ≡ get_or t.slots i none
  unfolding get
  get-slot t i =
      let e : ((i + 1) == invalid_handle) ≡ false = ground arith in
      let at : i + 1 - 1 ≡ i = omega arith in rw (e, at) refl

module _ {C : Type 0} (four_tuple : C → FourTuple) where
  occupy-Registered :
      (t : FlowTable C) (conn : C) (i : ℕ)
      → IsTable four_tuple t
      → i < length t.slots
      → get_or t.slots i none ≡ none
      → Registered four_tuple conn t (occupy four_tuple i conn t, some (as_u32 i + 1))
  unfolding lookup_by_tuple Registered
  occupy-Registered t conn i v h free =
      let word : as_u32 i ≡ i = omega (arith, v.small) in
      let m = put (four_tuple conn) (some i) t.by_tuple in
      (
        rw (put_self four_tuple (four_tuple conn) (some (as_u32 i)) t.by_tuple, lookup_by_tuple)
            refl,
        rw word (get-set_self t i (some conn) m h),
        rw word (get-slot t i ∙ free),
        rw word (get-set_ne t i (some conn) m),
      )

  -- From a table whose two indices agree: an insertion keeps them in agreement. A handle that it
  -- returns was unused, now leads to the connection, by the tuple too, and changes no other
  -- handle; it returns none, and changes nothing, only when the tuple is taken or every slot is.
  pub insert-Registered :
      (conn : C) (t : FlowTable C)
      → IsTable four_tuple t
      → IsTable four_tuple (insert four_tuple conn t).0
        × Registered four_tuple conn t (insert four_tuple conn t)
  unfolding insert Registered
  insert-Registered conn t v = elim (Option-cases (t.by_tuple (four_tuple conn))) [
    | inr (j, e) ↦ rw (e, insert) (v, (refl, inl (λ z. none-some j (sym z ∙ e))))
    | inl new ↦ elim (Option-cases (first_free t.slots)) [
      | inl full ↦ rw (new, insert, full) (v, (refl, inr (λ i h. full_lem t.slots i full h)))
      | inr (i, e) ↦
          let f = first_free_lem t.slots i e in
          rw (new, insert, e)
            (occupy-IsTable four_tuple t conn i v new f.0 f.1, occupy-Registered t conn i v f.0 f.1)
    ]
  ]

  pub lookup_lem :
      (t : FlowTable C) (tuple : FourTuple) (i : ℕ)
      → IsTable four_tuple t
      → (lookup_by_tuple tuple t ≡ some (i + 1))
        ↔ ((c : C) × (get (i + 1) t ≡ some c) × (four_tuple c ≡ tuple))
  unfolding lookup_by_tuple
  lookup_lem t tuple i v = (
    λ e. elim (Option-cases (t.by_tuple tuple)) [
      | inl n ↦ absurd (none-some (i + 1) (rw (n, lookup_by_tuple) at e))
      | inr (j, n) ↦
          let k : j + 1 ≡ i + 1 = some-injective (j + 1) (i + 1) (rw (n, lookup_by_tuple) at e) in
          let same_slot : j ≡ i = omega arith in
          let (c, at, eq) = v.stored tuple i (n ∙ ap some same_slot) in (c, get-slot t i ∙ at, eq)
    ],
    λ (c, at, eq).
        let e : t.by_tuple tuple ≡ some i =
          subst (λ z. t.by_tuple z ≡ some i) eq (v.indexed i c (sym (get-slot t i) ∙ at)) in
        rw (e, lookup_by_tuple) refl,
  )

  removed-IsTable :
      (t : FlowTable C) (i : ℕ) (conn : C)
      → IsTable four_tuple t
      → get_or t.slots i none ≡ some conn
      → IsTable four_tuple
          (record { slots = set t.slots i none; by_tuple = put (four_tuple conn) none t.by_tuple })
  removed-IsTable t i conn v at = record {
    small = rw (length-set t.slots i none) v.small;
    stored = λ tuple j e. elim (Bool-cases (same tuple (four_tuple conn))) [
      | inl q ↦ absurd (none-some j (rw q at e))
      | inr q ↦
          let (c, there, eq) = v.stored tuple j (rw q at e) in
          let ne : i ≢ j = λ z.
            (let is : conn ≡ c =
                some-injective conn c (sym at ∙ ap (λ n. get_or t.slots n none) z ∙ there) in
              let full : same tuple (four_tuple conn) ≡ true =
                rw (ap four_tuple is, eq) (same_refl tuple) in
              ground arith) in
          (c, get_or-set_ne t.slots i j none none ne ∙ there, eq)
    ];
    indexed = λ j c e. elim (Bool-cases (i == j)) [
      | inl q ↦
          let there : i ≡ j = ground arith in
          absurd (
            none-some c (
              sym (get_or-set-none t.slots i)
              ∙ subst (λ z. get_or (set t.slots i none) z none ≡ some c) (sym there) e))
      | inr q ↦
          let ne : i ≢ j = λ z. ground arith in
          let there = sym (get_or-set_ne t.slots i j none none ne) ∙ e in
          let old = v.indexed j c there in
          put_ne four_tuple (four_tuple conn) (four_tuple c) none t.by_tuple
            (λ z. ne (some-injective i j (sym (v.indexed i conn at) ∙ ap t.by_tuple z ∙ old)))
          ∙ old
    ];
  }

  abbrev without : FlowTable C → ℕ → C → FlowTable C
  without t i conn = record {
    slots = set t.slots i none;
    by_tuple = put (four_tuple conn) none t.by_tuple;
  }

  remove-some :
      (t : FlowTable C) (i : ℕ) (conn : C)
      → get (i + 1) t ≡ some conn
      → remove four_tuple (i + 1) t ≡ (without t i conn, some conn)
  unfolding remove
  remove-some t i conn e = let back : i + 1 - 1 ≡ i = omega arith in rw (e, remove, back) refl

  -- From a table whose two indices agree: a removal keeps them in agreement and gives back what
  -- the handle led to; afterwards the handle and the tuple lead nowhere, and every other handle
  -- is as before.
  pub remove_lem :
      (t : FlowTable C) (i : ℕ)
      → IsTable four_tuple t
      → let (t', removed) = remove four_tuple (i + 1) t in
        IsTable four_tuple t'
        × (removed ≡ get (i + 1) t)
        × (get (i + 1) t' ≡ none)
        × ((other : ℕ) → other ≢ i + 1 → get other t' ≡ get other t)
        × ((c : C) → removed ≡ some c → lookup_by_tuple (four_tuple c) t' ≡ none)
  unfolding remove lookup_by_tuple
  remove_lem t i v = elim (Option-cases (get (i + 1) t)) [
    | inl e ↦ rw (e, remove) (v, refl, e, λ other h. refl, λ c h. absurd (none-some c h))
    | inr (conn, e) ↦
        let at : get_or t.slots i none ≡ some conn = sym (get-slot t i) ∙ e in
        let m = put (four_tuple conn) none t.by_tuple in
        rw (remove-some t i conn e) (
          removed-IsTable t i conn v at,
          sym e,
          get-slot (without t i conn) i ∙ get_or-set-none t.slots i,
          get-set_ne t i none m,
          λ c h.
              (let gone : m (four_tuple c) ≡ none =
                  subst (λ z. m (four_tuple z) ≡ none) (some-injective conn c h)
                    (put_self four_tuple (four_tuple conn) none t.by_tuple) in
                rw (gone, lookup_by_tuple) refl),
        )
  ]
