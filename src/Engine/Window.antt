-- ===== src/Engine/Window.antt =====
-- The window of an acknowledgement, and the shift of a SYN.
use resd_dpdk_tcp.Base.{
  ℕ, ◌-◌, ◌*◌, ◌/◌, ◌%◌, ◌^◌, ◌≤◌, ◌<◌, ◌≡◌, ◌⊎◌, min, Bool, true, Option, List, arith, u16_mod,
  ==_iff, ◌↔◌,
}
use native.Mathlib.Omega.{div_any}
use native.Mathlib.Nat.{mul-le-mul_left}
use resd_dpdk_tcp.Options.{SackBlock}
use resd_dpdk_tcp.Engine.{compute_ws_shift_for}
use resd_dpdk_tcp.Engine.Acks.{build_ack_outcome}

-- An acknowledgement never advertises more than there is room for: the window, scaled back up by the
-- shift, is at most the free space, and it fits the 16 bits of the header; `zero_window` says that there
-- is no room.
pub build_ack_outcome-window :
    (ws_shift_out : ℕ) (ts_enabled : Bool) (ts_recent now_us : ℕ) (sack_enabled : Bool)
    (blocks : List SackBlock) (trigger_range : Option (ℕ × ℕ)) (free_space : ℕ)
    → let o =
        build_ack_outcome ws_shift_out ts_enabled ts_recent now_us sack_enabled blocks trigger_range
          free_space in
      (2 ^ (ws_shift_out % 32) * o.window ≤ free_space)
      × (o.window < u16_mod)
      × ((o.zero_window ≡ true) ↔ (free_space ≡ 0))
unfolding build_ack_outcome
build_ack_outcome-window ws_shift_out ts_enabled ts_recent now_us sack_enabled blocks trigger_range
      free_space =
    let b = 2 ^ (ws_shift_out % 32) in
    let q = free_space / b in
    let le : b * min q (u16_mod - 1) ≤ b * q = mul-le-mul_left b (omega arith) in
    (omega (arith, le, div_any free_space b), omega arith, ==_iff free_space 0)

-- The shift that a SYN offers is the least one, up to 14, for which the receive buffer is smaller than
-- 2 ^ 16 scaled up by it.
pub compute_ws_shift_for_lem :
    (recv_buffer_bytes : ℕ)
    → let ws = compute_ws_shift_for recv_buffer_bytes in
      (ws ≤ 14)
      × ((recv_buffer_bytes < u16_mod * 2 ^ ws) ⊎ (ws ≡ 14))
      × ((ws ≡ 0) ⊎ (u16_mod * 2 ^ (ws - 1) ≤ recv_buffer_bytes))
unfolding compute_ws_shift_for
compute_ws_shift_for_lem recv_buffer_bytes = ground arith
