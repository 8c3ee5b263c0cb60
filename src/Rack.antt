-- ===== src/Rack.antt =====
-- RACK loss detection, crates/dpdk-net-core/src/tcp_rack.rs.
pub mod Order
pub mod Losses
use resd_dpdk_tcp.Base.{
  ℕ, zero, suc, ◌+◌, ◌-◌, ◌*◌, ◌/◌, min, max, Bool, true, false, not, ◌&&◌, ◌||◌, Option, none,
  some, List, [], ◌∷◌, ◌++◌, ◌==◌, ltb, leb, if◌then◌else◌, as_u16,
}
use resd_dpdk_tcp.Seq.{seq_lt, seq_le}
use resd_dpdk_tcp.Retrans.{RetransEntry, SendRetrans, end_seq}

pub record RackState : Type 0 where
  pub xmit_ts_ns : ℕ
  pub end_seq : ℕ
  pub reo_wnd_us : ℕ
  pub min_rtt_us : ℕ
  pub dsack_seen : Bool

abbrev pub new : RackState
new = record { xmit_ts_ns = 0; end_seq = 0; reo_wnd_us = 0; min_rtt_us = 0; dsack_seen = false }

unfoldable pub update_on_ack : RackState → ℕ → ℕ → RackState
update_on_ack r entry_xmit_ts_ns entry_end_seq =
    if ltb r.xmit_ts_ns entry_xmit_ts_ns
      || ((entry_xmit_ts_ns == r.xmit_ts_ns) && seq_lt r.end_seq entry_end_seq)
    then record r { xmit_ts_ns = entry_xmit_ts_ns; end_seq = entry_end_seq }
    else r

unfoldable pub update_min_rtt : RackState → ℕ → RackState
update_min_rtt r rtt_us =
    if (r.min_rtt_us == 0) || ltb rtt_us r.min_rtt_us then record r { min_rtt_us = rtt_us } else r

-- The arithmetic is in `u64`; `saturating_sub` is `-`, and the product of a `u32` with 1000 fits.
unfoldable pub detect_lost : RackState → ℕ → ℕ → ℕ → ℕ → Bool
detect_lost r entry_xmit_ts_ns entry_end_seq now_ns reo_wnd_us =
    let newer_ack_exists =
      ltb entry_xmit_ts_ns r.xmit_ts_ns
      || ((entry_xmit_ts_ns == r.xmit_ts_ns) && seq_lt entry_end_seq r.end_seq) in
    if not newer_ack_exists
    then false
    else let age_ns = now_ns - entry_xmit_ts_ns in ltb (reo_wnd_us * 1000) age_ns

unfoldable pub compute_reo_wnd_us : Bool → ℕ → Option ℕ → ℕ
compute_reo_wnd_us true min_rtt_us srtt_us = 0
compute_reo_wnd_us false min_rtt_us none = max (min_rtt_us / 2) 1000
compute_reo_wnd_us false min_rtt_us (some srtt) =
    let a = srtt / 4 in let b = min_rtt_us / 2 in max (min a b) 1000

unfoldable pub rto_age_expired : ℕ → ℕ → ℕ → ℕ → Bool
rto_age_expired xmit_ns now_ns rtt_us reo_wnd_us =
    let rtt_ns = rtt_us * 1000 in
    let reo_ns = reo_wnd_us * 1000 in let age_ns = now_ns - xmit_ns in leb (rtt_ns + reo_ns) age_ns

-- The tests of the loop body, in order: two `continue`s, then the push.
unfoldable pub is_newly_lost : RetransEntry → ℕ → ℕ → ℕ → ℕ → Bool
is_newly_lost e snd_una rtt_us reo_wnd_us now_ns =
    if e.sacked || e.lost
    then false
    else if seq_le (end_seq e) snd_una
    then false
    else (e.seq == snd_una) || rto_age_expired e.xmit_ts_ns now_ns rtt_us reo_wnd_us

-- The loop from entry `i` on; the indexes go behind those that `out` holds.
unfoldable pub mark_from : SendRetrans → ℕ → ℕ → ℕ → ℕ → ℕ → List ℕ → List ℕ
mark_from [] i snd_una rtt_us reo_wnd_us now_ns out = out
mark_from (e ∷ es) i snd_una rtt_us reo_wnd_us now_ns out =
    mark_from es (i + 1) snd_una rtt_us reo_wnd_us now_ns
      (if is_newly_lost e snd_una rtt_us reo_wnd_us now_ns then out ++ (as_u16 i ∷ []) else out)

unfoldable pub rack_mark_losses_on_rto_into : SendRetrans → ℕ → ℕ → ℕ → ℕ → List ℕ → List ℕ
unfolding mark_from
rack_mark_losses_on_rto_into es snd_una rtt_us reo_wnd_us now_ns out =
    mark_from es 0 snd_una rtt_us reo_wnd_us now_ns out

unfoldable pub rack_mark_losses_on_rto : SendRetrans → ℕ → ℕ → ℕ → ℕ → List ℕ
unfolding rack_mark_losses_on_rto_into
rack_mark_losses_on_rto es snd_una rtt_us reo_wnd_us now_ns =
    rack_mark_losses_on_rto_into es snd_una rtt_us reo_wnd_us now_ns []
