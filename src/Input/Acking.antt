-- ===== src/Input/Acking.antt =====
-- The acknowledgement part of `handle_established`.
use resd_dpdk_tcp.Base.{
  ℕ, ◌*◌, ◌/◌, ◌%◌, ◌^◌, min, Bool, true, false, not, ◌&&◌, ◌||◌, Option, none, some, List, [], ◌∷◌,
  ltb, leb, ◌==◌, if◌then◌else◌, length, drop, wrapping_sub32, as_u32,
}
use resd_dpdk_tcp.Seq.{seq_lt, seq_le}
use resd_dpdk_tcp.Options.{TcpOpts}
use resd_dpdk_tcp.Retrans.{SendRetrans, end_seq}
use resd_dpdk_tcp.Net.{has_bit}
use resd_dpdk_tcp.Net.Segment.{ParsedSegment, tcp_syn, tcp_fin}
use resd_dpdk_tcp.Conn.{TcpConn}
use resd_dpdk_tcp.Conn.Probes.{is_empty, on_rtt_sample_tlp_hook, on_new_data_ack_tlp_hook}
use resd_dpdk_tcp.Sack
use resd_dpdk_tcp.Rtt
use resd_dpdk_tcp.Rack
use resd_dpdk_tcp.Histogram

-- A sample from 1 µs to under 60 s.
abbrev pub plausible : ℕ → Option ℕ
plausible rtt = if leb 1 rtt && ltb rtt 60000000 then some rtt else none

-- The sample of the timestamp echo, if timestamps are on.
unfoldable pub ts_sample : Bool → Option (ℕ × ℕ) → ℕ → Option ℕ
ts_sample false timestamps now_us = none
ts_sample true none now_us = none
ts_sample true (some (tsval, tsecr)) now_us =
    if tsecr == 0 then none else plausible (wrapping_sub32 now_us tsecr)

-- The sample of the oldest segment in flight, if it was sent once and is acknowledged as a whole.
unfoldable pub karn_sample : SendRetrans → ℕ → ℕ → Option ℕ
karn_sample [] snd_una now_us = none
karn_sample (front ∷ es) snd_una now_us =
    if (front.xmit_count == 1) && seq_le (end_seq front) snd_una
    then plausible (wrapping_sub32 now_us (as_u32 (front.first_tx_ts_ns / 1000)))
    else none

abbrev pub or_else : {A : Type 0} → Option A → Option A → Option A
or_else none y = y
or_else (some x) y = some x

unfoldable pub absorb_sample : Option ℕ → List ℕ → TcpConn → TcpConn
absorb_sample none edges c = on_new_data_ack_tlp_hook c
absorb_sample (some rtt) edges c = on_rtt_sample_tlp_hook (record c {
  rtt_est = Rtt.sample c.rtt_est rtt;
  rack = Rack.update_min_rtt c.rack rtt;
  rtt_histogram = Histogram.update c.rtt_histogram rtt edges;
})

-- `snd_wnd`, by the rule of SND.WL1 and SND.WL2.
unfoldable pub update_window : ParsedSegment → TcpConn → TcpConn
update_window seg c =
    if seq_lt c.snd_wl1 seg.seq || ((c.snd_wl1 == seg.seq) && seq_le c.snd_wl2 seg.ack)
    then record c {
      snd_wnd = as_u32 (seg.window * 2 ^ (c.ws_shift_in % 32));
      snd_wl1 = seg.seq;
      snd_wl2 = seg.ack;
    }
    else c

abbrev pub fires_writable : ℕ → TcpConn → Bool
fires_writable send_buffer_bytes c =
    c.send_refused_pending && leb (wrapping_sub32 c.snd_nxt c.snd_una) (send_buffer_bytes / 2)

-- The variables that this part assigns.
pub record Acked : Type 0 where
  pub dup_ack : Bool
  pub snd_una_advanced_to : Option ℕ
  pub rtt_sample_taken : Bool
  pub writable_hysteresis_fired : Bool

-- The acknowledged bytes leave the send buffer.
unfoldable pub pop_acked : ParsedSegment → TcpConn → TcpConn
pop_acked seg c =
    let acked = wrapping_sub32 seg.ack c.snd_una in
    record c {
      snd = record c.snd { pending = drop (min acked (length c.snd.pending)) c.snd.pending };
      snd_una = seg.ack;
    }

unfoldable pub rtt_sample_of : TcpConn → TcpOpts → ℕ → Option ℕ
unfolding ts_sample karn_sample
rtt_sample_of c opts now_ns =
    let now_us = as_u32 (now_ns / 1000) in
    or_else (ts_sample c.ts_enabled opts.timestamps now_us)
      (karn_sample c.snd_retrans c.snd_una now_us)

abbrev pub is_some : {A : Type 0} → Option A → Bool
is_some none = false
is_some (some a) = true

-- An acknowledgement of data in flight.
unfoldable pub take_ack : TcpConn → ParsedSegment → TcpOpts → ℕ → List ℕ → ℕ → TcpConn × Acked
unfolding pop_acked rtt_sample_of absorb_sample update_window
take_ack c seg opts now_ns edges send_buffer_bytes =
    let popped = pop_acked seg c in
    let sample = rtt_sample_of popped opts now_ns in
    let sampled = absorb_sample sample edges popped in
    let pruned =
      if sampled.sack_enabled
      then record sampled {
        sack_scoreboard = Sack.prune_below sampled.sack_scoreboard sampled.snd_una;
      }
      else sampled in
    let updated = update_window seg pruned in
    let fires = fires_writable send_buffer_bytes updated in
    (
      if fires then record updated { send_refused_pending = false } else updated,
      record {
        dup_ack = false;
        snd_una_advanced_to = some seg.ack;
        rtt_sample_taken = is_some sample;
        writable_hysteresis_fired = fires;
      },
    )

-- The five conditions of RFC 5681 §2.
unfoldable pub is_dup_ack : TcpConn → ParsedSegment → Bool
is_dup_ack c seg =
    (seg.ack == c.snd_una)
    && is_empty seg.payload
    && (seg.window == (c.snd_wnd / 2 ^ (c.ws_shift_in % 32)))
    && not (c.snd_una == c.snd_nxt)
    && not (has_bit seg.flags tcp_syn || has_bit seg.flags tcp_fin)

-- `none` is the acknowledgement of data that was never sent.
unfoldable pub process_ack :
    TcpConn → ParsedSegment → TcpOpts → ℕ → List ℕ → ℕ → Option (TcpConn × Acked)
unfolding take_ack is_dup_ack
process_ack c seg opts now_ns edges send_buffer_bytes =
    if seq_lt c.snd_una seg.ack && seq_le seg.ack c.snd_nxt
    then some (take_ack c seg opts now_ns edges send_buffer_bytes)
    else if seq_lt c.snd_nxt seg.ack
    then none
    else some (
      c,
      record {
        dup_ack = is_dup_ack c seg;
        snd_una_advanced_to = none;
        rtt_sample_taken = false;
        writable_hysteresis_fired = false;
      },
    )
