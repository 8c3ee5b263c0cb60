-- ===== src/Engine/Words.antt =====
-- Packed timer identifiers, ticks, histogram edges and the window shift.
use resd_dpdk_tcp.Base.{
  ℕ, ◌+◌, ◌*◌, ◌/◌, ◌%◌, ◌^◌, ◌≤◌, ◌<◌, ◌≡◌, arith, refl, as_u32, u32_mod, u64_mod,
}
use resd_dpdk_tcp.TimerWheel.{TimerId, tick_ns}
use resd_dpdk_tcp.Engine.{pack_timer_id, unpack_timer_id, align_up_to_tick_ns}

-- A packed timer identifier unpacks to itself, and a packed word packs again to itself. For words of 32
-- bits in the one and of 64 in the other.
pub unpack-pack_timer_id :
    (id : TimerId) (packed : ℕ)
    → id.slot < u32_mod
    → id.generation < u32_mod
    → packed < u64_mod
    → (unpack_timer_id (pack_timer_id id) ≡ id) × (pack_timer_id (unpack_timer_id packed) ≡ packed)
unfolding pack_timer_id unpack_timer_id
unpack-pack_timer_id id packed hs hg hp =
    let slot : as_u32 ((id.slot * 2 ^ 32 + id.generation) / 2 ^ 32) ≡ id.slot = omega arith in
    let generation : (id.slot * 2 ^ 32 + id.generation) % 2 ^ 32 ≡ id.generation = omega arith in
    (rw (slot, generation) refl, omega arith)

-- A deadline that is aligned is a tick, and the first one that is not before the deadline. For
-- deadlines a tick or more below 2 ^ 64.
pub align_up_to_tick_ns_lem :
    (deadline_ns : ℕ)
    → deadline_ns + tick_ns < u64_mod
    → (align_up_to_tick_ns deadline_ns % tick_ns ≡ 0)
      × (deadline_ns ≤ align_up_to_tick_ns deadline_ns)
      × (align_up_to_tick_ns deadline_ns < deadline_ns + tick_ns)
unfolding align_up_to_tick_ns
align_up_to_tick_ns_lem deadline_ns h = ground arith
