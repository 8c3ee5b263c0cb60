-- ===== src/Input/Losses.antt =====
-- The RACK pass of `handle_established`.
use resd_dpdk_tcp.Base.{
  ℕ, zero, suc, ◌+◌, Bool, true, false, ◌||◌, List, [], ◌∷◌, if◌then◌else◌, as_u16,
}
use resd_dpdk_tcp.Seq.{seq_le}
use resd_dpdk_tcp.Retrans.{SendRetrans, RetransEntry, end_seq}
use resd_dpdk_tcp.Rack.{RackState, update_on_ack, detect_lost, compute_reo_wnd_us}
use resd_dpdk_tcp.Conn.{TcpConn}
use resd_dpdk_tcp.Conn.Probes.{is_empty}

-- The loop over the entries that are delivered.
unfoldable pub note_delivered : SendRetrans → ℕ → RackState → RackState
note_delivered [] snd_una rack = rack
note_delivered (e ∷ es) snd_una rack = note_delivered es snd_una (
    if e.sacked || seq_le (end_seq e) snd_una
    then update_on_ack rack e.xmit_ts_ns (end_seq e)
    else rack)

-- The body of the loop for one entry: whether its index is pushed.
unfoldable pub is_rack_lost : RetransEntry → ℕ → RackState → ℕ → ℕ → Bool
is_rack_lost e snd_una rack now_ns reo_wnd_us =
    if e.sacked || e.lost
    then false
    else if seq_le (end_seq e) snd_una
    then false
    else detect_lost rack e.xmit_ts_ns (end_seq e) now_ns reo_wnd_us

-- The indexes from entry `i` on.
unfoldable pub lost_from : SendRetrans → ℕ → ℕ → RackState → ℕ → ℕ → List ℕ
unfolding is_rack_lost
lost_from [] i snd_una rack now_ns reo_wnd_us = []
lost_from (e ∷ es) i snd_una rack now_ns reo_wnd_us =
    let rest = lost_from es (i + 1) snd_una rack now_ns reo_wnd_us in
    if is_rack_lost e snd_una rack now_ns reo_wnd_us then as_u16 i ∷ rest else rest

-- `entries[i].lost = true`
unfoldable pub set_lost : ℕ → SendRetrans → SendRetrans
set_lost i [] = []
set_lost zero (e ∷ es) = record e { lost = true } ∷ es
set_lost (suc i) (e ∷ es) = e ∷ set_lost i es

unfoldable pub mark_lost : List ℕ → SendRetrans → SendRetrans
unfolding set_lost
mark_lost [] es = es
mark_lost (i ∷ is) es = mark_lost is (set_lost i es)

unfoldable pub rack_pass : TcpConn → ℕ → TcpConn × List ℕ
unfolding note_delivered lost_from mark_lost
rack_pass c now_ns =
    let noted = note_delivered c.snd_retrans c.snd_una c.rack in
    let reo_wnd_us = compute_reo_wnd_us c.rack_aggressive noted.min_rtt_us c.rtt_est.srtt_us in
    let rack : RackState = record noted { reo_wnd_us = reo_wnd_us } in
    let indexes = lost_from c.snd_retrans 0 c.snd_una rack now_ns reo_wnd_us in
    if is_empty c.snd_retrans
    then (c, [])
    else (record c { rack = rack; snd_retrans = mark_lost indexes c.snd_retrans }, indexes)
