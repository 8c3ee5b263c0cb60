-- ===== src/Examples/Wheel.antt =====
-- The timing wheel and the flow table.
use resd_dpdk_tcp.Base.{
  ℕ, zero, suc, get_or, none-some, ◌+◌, ◌/◌, ◌≡◌, ◌↔◌, max, min, false, Option, some, none, [], ◌∷◌,
  arith, refl, sym, ◌∙◌,
}
use resd_dpdk_tcp.TimerWheel.{
  TimerId, TimerNode, TimerWheel, rto, new, add, cancel, advance, tick_ns, with_bucket,
}
use resd_dpdk_tcp.TimerWheel.Generations.{IsCurrent, add-stale}
use resd_dpdk_tcp.TimerWheel.Advance.{IsSwept, advance-IsSwept}
use resd_dpdk_tcp.TimerWheel.Clears.{IsPast}
use resd_dpdk_tcp.TimerWheel.Fired.{advance-IsPast}
use resd_dpdk_tcp.FlowTable.{FourTuple, FlowTable, get, lookup_by_tuple, insert, remove}
use resd_dpdk_tcp.FlowTable
use resd_dpdk_tcp.FlowTable.Handles.{IsTable}
use resd_dpdk_tcp.FlowTable.Registry.{Registered, insert-Registered}
use resd_dpdk_tcp.FlowTable.History.{Reach, here, inserted, removed, lookup_by_tuple_iff}

abbrev node : TimerNode
node = record {
  fire_at_ns = 50000;
  owner_handle = 1;
  kind = rto;
  user_data = 0;
  generation = 4;
  cancelled = false;
}

-- A timer of generation 4 that is due in five ticks.
abbrev wheel : TimerWheel
wheel = record new {
  slots = some node ∷ none ∷ [];
  generations = 4 ∷ 7 ∷ [];
  free_list = 1 ∷ [];
  buckets = with_bucket (λ level i. []) 0 5 (0 ∷ []);
}

wheel-IsCurrent : IsCurrent wheel
wheel-IsCurrent zero n e = ground arith
wheel-IsCurrent (suc zero) n e = ground arith
wheel-IsCurrent (suc (suc i)) n e = ground arith

abbrev stale : TimerId
stale = record { slot = 1; generation = 7 }

add-stale_example : cancel stale (add 0 node wheel).0 ≡ ((add 0 node wheel).0, false)
add-stale_example =
    add-stale 0 node wheel 1 [] stale wheel-IsCurrent refl (omega arith) refl refl (omega arith)

advance-IsSwept_example :
    IsSwept (advance 60000 wheel).0
    × ((advance 60000 wheel).0.last_tick ≡ max 0 (min (60000 / tick_ns) (0 + 2048)))
advance-IsSwept_example =
    advance-IsSwept 60000 wheel (record { empty = refl; cursors = λ level. omega arith })

advance-IsPast_example : IsPast wheel (advance 60000 wheel)
advance-IsPast_example = advance-IsPast 60000 wheel

-- Connections that are their tuples.
abbrev itself : FourTuple → FourTuple
itself t = t

abbrev tuple : FourTuple
tuple = record { local_ip = 1; local_port = 2; peer_ip = 3; peer_port = 4 }

abbrev empty : FlowTable FourTuple
empty = FlowTable.new FourTuple 2

empty_slots : (i : ℕ) → Path (Option FourTuple) (get_or empty.slots i none) none
empty_slots zero = refl
empty_slots (suc zero) = refl
empty_slots (suc (suc i)) = refl

empty-IsTable : IsTable itself empty
empty-IsTable = record {
  small = omega arith;
  stored = λ t i e. absurd (none-some i e);
  indexed = λ i c e. absurd (none-some c (sym (empty_slots i) ∙ e));
}

insert-Registered_example :
    IsTable itself (insert itself tuple empty).0
    × Registered itself tuple empty (insert itself tuple empty)
insert-Registered_example = insert-Registered itself tuple empty empty-IsTable

abbrev peer : FourTuple
peer = record { local_ip = 1; local_port = 9; peer_ip = 3; peer_port = 4 }

abbrev table : FlowTable FourTuple
table = (remove itself 2 (insert itself peer (insert itself tuple empty).0).0).0

-- Two connections came and one went.
table-Reach : Reach itself 2 table
table-Reach = removed 2 (inserted peer (inserted tuple here))

lookup_by_tuple_iff_example :
    (lookup_by_tuple tuple table ≡ some (0 + 1))
    ↔ ((c : FourTuple) × (get (0 + 1) table ≡ some c) × (itself c ≡ tuple))
lookup_by_tuple_iff_example = lookup_by_tuple_iff itself 2 table tuple 0 (omega arith) table-Reach
