-- ===== src/Input/Closing.antt =====
-- `handle_close_path`: the states after a close has begun on either side.
use resd_dpdk_tcp.Base.{
  ℕ, ◌+◌, ◌-◌, ◌*◌, Bool, true, false, not, ◌&&◌, Option, none, some, List, [], ◌∷◌, ltb, ◌==◌,
  if◌then◌else◌, length, take, wrapping_add32, wrapping_sub32,
}
use resd_dpdk_tcp.Seq.{seq_lt, seq_le, in_window}
use resd_dpdk_tcp.Options.{SackBlock, TcpOpts, default_opts}
use resd_dpdk_tcp.Options.Parse.{Parsed, parse_options}
use resd_dpdk_tcp.Net.{Result, ok, err, has_bit}
use resd_dpdk_tcp.Net.Segment.{ParsedSegment, tcp_fin, tcp_rst, tcp_ack}
use resd_dpdk_tcp.Conn.{
  TcpState, closed, fin_wait1, fin_wait2, closing, last_ack, time_wait, TcpConn, fin_has_been_acked,
  attribute_dsack_to_recent_tlp_probe,
}
use resd_dpdk_tcp.Sack
use resd_dpdk_tcp.Retrans
use resd_dpdk_tcp.Input.{TxAction, no_tx, ack, Outcome, base, close_with, is_dsack}

abbrev pub ts_recent_expiry_ns : ℕ
ts_recent_expiry_ns = 24 * 86400 * 1000000000

abbrev pub fin_of : ParsedSegment → Bool
fin_of seg = has_bit seg.flags tcp_fin

-- The bytes of sequence space that a segment takes.
abbrev pub seg_len : ParsedSegment → ℕ
seg_len seg = length seg.payload + (if fin_of seg then 1 else 0)

unfoldable pub is_in_window : TcpConn → ParsedSegment → Bool
is_in_window c seg =
    let last = wrapping_sub32 (wrapping_add32 seg.seq (seg_len seg)) 1 in
    if seg_len seg == 0
    then seg.seq == c.rcv_nxt
    else in_window c.rcv_nxt seg.seq c.rcv_wnd && in_window c.rcv_nxt last c.rcv_wnd

-- A `panic` of `parse_options` counts as malformed.
unfoldable pub options_of : ParsedSegment → Option TcpOpts
options_of seg = elim seg.options [
  | [] ↦ some default_opts
  | _ ↦ elim (parse_options seg.options) [
    | Parsed.ok opts ↦ some opts
    | Parsed.err e ↦ none
    | Parsed.panic ↦ none
  ]
]

-- PAWS, for a segment with this timestamp: an outcome if it is dropped, or else the connection and
-- whether `ts_recent` had expired.
unfoldable pub check_paws : TcpConn → ParsedSegment → ℕ → ℕ → Result Outcome (TcpConn × Bool)
check_paws c seg ts_val now_ns =
    let skip = not (c.ts_recent_age == 0) && ltb ts_recent_expiry_ns (now_ns - c.ts_recent_age) in
    let updated = record c { ts_recent = ts_val; ts_recent_age = now_ns } in
    if skip
    then ok (updated, true)
    else if seq_lt ts_val c.ts_recent
    then err (record base { tx = ack; paws_rejected = true })
    else if seq_le seg.seq c.rcv_nxt
    then ok (updated, false)
    else ok (c, false)

unfoldable pub check_timestamps :
    TcpConn → ParsedSegment → TcpOpts → ℕ → Result Outcome (TcpConn × Bool)
unfolding check_paws
check_timestamps c seg opts now_ns =
    if c.ts_enabled
    then elim opts.timestamps [
      | none ↦ err (record base { bad_option = true })
      | some (ts_val, ts_ecr) ↦ check_paws c seg ts_val now_ns
    ]
    else ok (c, false)

-- The loop over the SACK blocks, with the counts of DSACKs and of spurious probes.
unfoldable pub take_block : SackBlock → ℕ → TcpConn × ℕ × ℕ → TcpConn × ℕ × ℕ
unfolding is_dsack
take_block block now_ns (c, dsacks, spurious) =
    let seen = record c { rack = record c.rack { dsack_seen = true } } in
    let (attributed, hit) =
      attribute_dsack_to_recent_tlp_probe seen block.left block.right now_ns in
    if is_dsack block c.snd_una c.sack_scoreboard
    then (attributed, dsacks + 1, if hit then spurious + 1 else spurious)
    else (
      record c {
        sack_scoreboard = (Sack.insert c.sack_scoreboard block).0;
        snd_retrans = Retrans.mark_sacked c.snd_retrans block;
      },
      dsacks,
      spurious,
    )

unfoldable pub take_blocks : List SackBlock → ℕ → TcpConn × ℕ × ℕ → TcpConn × ℕ × ℕ
unfolding take_block
take_blocks [] now_ns s = s
take_blocks (block ∷ blocks) now_ns s = take_blocks blocks now_ns (take_block block now_ns s)

abbrev pub has_blocks : TcpConn → TcpOpts → Bool
has_blocks c opts = c.sack_enabled && ltb 0 opts.sack_block_count

-- The `match` on the state, on whether our FIN is acknowledged, and on whether the peer's came.
unfoldable pub transition : TcpState → Bool → Bool → Option TcpState × TxAction
transition fin_wait1 true true = (some time_wait, ack)
transition fin_wait1 true false = (some fin_wait2, no_tx)
transition fin_wait1 false true = (some closing, ack)
transition fin_wait2 _ true = (some time_wait, ack)
transition closing true _ = (some time_wait, no_tx)
transition last_ack true _ = (some closed, no_tx)
transition _ _ _ = (none, no_tx)

abbrev pub is_state_closed : Option TcpState → Bool
is_state_closed (some closed) = true
is_state_closed _ = false

abbrev pub is_time_wait : TcpState → Bool
is_time_wait time_wait = true
is_time_wait _ = false

-- `snd_una` moves to an acknowledgement of data in flight.
abbrev pub advance_una : ParsedSegment → TcpConn → TcpConn
advance_una seg c =
    if seq_lt c.snd_una seg.ack && seq_le seg.ack c.snd_nxt
    then record c { snd_una = seg.ack }
    else c

abbrev pub peer_has_fin : ParsedSegment → TcpConn → Bool
peer_has_fin seg c = fin_of seg && (wrapping_add32 seg.seq (length seg.payload) == c.rcv_nxt)

-- The handler behind its checks.
unfoldable pub accept : TcpConn → ParsedSegment → TcpOpts → Bool → ℕ → TcpConn × Outcome
unfolding take_blocks transition
accept c seg opts expired now_ns =
    let (marked, dsacks, spurious) =
      if has_blocks c opts
      then take_blocks (take opts.sack_block_count opts.sack_blocks) now_ns (c, 0, 0)
      else (c, 0, 0) in
    let fin_acked = fin_has_been_acked marked seg.ack in
    let acked = advance_una seg marked in
    let fin = peer_has_fin seg acked in
    let received =
      if fin then record acked { rcv_nxt = wrapping_add32 acked.rcv_nxt 1 } else acked in
    let (new_state, tx) = transition received.state fin_acked fin in
    (
      received,
      record base {
        tx = tx;
        new_state = new_state;
        is_closed = is_state_closed new_state;
        sack_blocks_decoded = if has_blocks c opts then opts.sack_block_count else 0;
        rx_dsack_count = dsacks;
        tx_tlp_spurious_count = spurious;
        ts_recent_expired = expired;
      },
    )

-- The rest of the handler, from the parse of the options on.
unfoldable pub process : TcpConn → ParsedSegment → ℕ → TcpConn × Outcome
unfolding options_of check_timestamps accept
process c seg now_ns = elim (options_of seg) [
  | none ↦ (c, record base { bad_option = true })
  | some opts ↦ elim (check_timestamps c seg opts now_ns) [
    | err o ↦ (c, o)
    | ok (c', expired) ↦ accept c' seg opts expired now_ns
  ]
]

unfoldable pub handle_close_path : TcpConn → ParsedSegment → ℕ → TcpConn × Outcome
unfolding is_in_window process
handle_close_path c seg now_ns =
    if has_bit seg.flags tcp_rst
    then (c, close_with no_tx)
    else if is_time_wait c.state
    then (c, record base { tx = ack; bad_seq = not (is_in_window c seg) })
    else if not (has_bit seg.flags tcp_ack)
    then (c, base)
    else if not (is_in_window c seg)
    then (c, record base { tx = ack; bad_seq = true })
    else process c seg now_ns
