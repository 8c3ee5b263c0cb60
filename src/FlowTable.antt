-- ===== src/FlowTable.antt =====
-- The flow table, crates/dpdk-net-core/src/flow_table.rs. The table looks at a connection only
-- through `four_tuple()`, so connections are any type with that function. The hash map is a function
-- of the tuple; `siphash_4tuple` is of the standard library's hasher and its result is not used.
pub mod Handles
pub mod Registry
pub mod History
use resd_dpdk_tcp.Base.{
  ℕ, zero, suc, ◌+◌, ◌-◌, Bool, true, false, ◌&&◌, Option, none, some, List, [], ◌∷◌, length, ◌==◌,
  if◌then◌else◌, get_or, set, replicate, as_u32, map,
}

pub record FourTuple : Type 0 where
  pub local_ip : ℕ
  pub local_port : ℕ
  pub peer_ip : ℕ
  pub peer_port : ℕ

-- `==` of two tuples.
abbrev pub same : FourTuple → FourTuple → Bool
same a b =
    (a.local_ip == b.local_ip)
    && (a.local_port == b.local_port)
    && (a.peer_ip == b.peer_ip)
    && (a.peer_port == b.peer_port)

abbrev pub invalid_handle : ℕ
invalid_handle = 0

module _ (C : Type 0) where
  pub record FlowTable : Type 0 where
    pub slots : List (Option C)
    pub by_tuple : FourTuple → Option ℕ

  abbrev pub new : ℕ → FlowTable
  new max_connections = record { slots = replicate max_connections none; by_tuple = λ t. none }

  abbrev pub capacity : FlowTable → ℕ
  capacity t = as_u32 (length t.slots)

abbrev pub put : FourTuple → Option ℕ → (FourTuple → Option ℕ) → FourTuple → Option ℕ
put k v m t = if same t k then v else m t

module _ {C : Type 0} where
  -- `slots.iter().position(|s| s.is_none())`
  abbrev pub first_free : List (Option C) → Option ℕ
  first_free [] = none
  first_free (none ∷ slots) = some 0
  first_free (some c ∷ slots) = elim (first_free slots) [ none ↦ none | some i ↦ some (suc i) ]

  unfoldable pub get : ℕ → FlowTable C → Option C
  get handle t = if handle == invalid_handle then none else get_or t.slots (handle - 1) none

  unfoldable pub lookup_by_tuple : FourTuple → FlowTable C → Option ℕ
  lookup_by_tuple tuple t = elim (t.by_tuple tuple) [ none ↦ none | some i ↦ some (i + 1) ]

  abbrev pub lookup_by_hash : FourTuple → ℕ → FlowTable C → Option ℕ
  lookup_by_hash tuple bucket_hash t = lookup_by_tuple tuple t

  -- `iter_handles`, from a slot on.
  abbrev pub handles_from : ℕ → List (Option C) → List ℕ
  handles_from i [] = []
  handles_from i (none ∷ slots) = handles_from (i + 1) slots
  handles_from i (some c ∷ slots) = (as_u32 i + 1) ∷ handles_from (i + 1) slots

  abbrev pub iter_handles : FlowTable C → List ℕ
  iter_handles t = handles_from 0 t.slots

  abbrev pub clear_all : FlowTable C → FlowTable C
  clear_all t = record { slots = map (λ s. none) t.slots; by_tuple = λ tuple. none }

module _ {C : Type 0} (four_tuple : C → FourTuple) where
  -- A free slot is given: the connection goes there.
  abbrev pub occupy : ℕ → C → FlowTable C → FlowTable C
  occupy i conn t = record {
    slots = set t.slots i (some conn);
    by_tuple = put (four_tuple conn) (some (as_u32 i)) t.by_tuple;
  }

  unfoldable pub insert : C → FlowTable C → FlowTable C × Option ℕ
  insert conn t = elim (t.by_tuple (four_tuple conn)) [
    | some i ↦ (t, none)
    | none ↦ elim (first_free t.slots) [
      | none ↦ (t, none)
      | some i ↦ (occupy i conn t, some (as_u32 i + 1))
    ]
  ]

  unfoldable pub remove : ℕ → FlowTable C → FlowTable C × Option C
  unfolding get
  remove handle t = elim (get handle t) [
    | none ↦ (t, none)
    | some conn ↦ (
      record {
        slots = set t.slots (handle - 1) none;
        by_tuple = put (four_tuple conn) none t.by_tuple;
      },
      some conn,
    )
  ]
