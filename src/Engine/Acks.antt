-- ===== src/Engine/Acks.antt =====
-- `build_ack_outcome` and `emit_ack`. `tx_tcp_frame` hands the frame to the device: whether that takes
-- it is the argument `sent`. Counters wrap at 64 bits.
use resd_dpdk_tcp.Base.{
  ℕ, zero, suc, ◌+◌, ◌-◌, ◌/◌, ◌%◌, ◌^◌, min, Bool, false, not, ◌&&◌, Option, none, some, List, [],
  ◌∷◌, ◌++◌, length, take, replicate, map, ltb, ◌==◌, if◌then◌else◌, as_u32, u16_mod, u64_mod,
}
use resd_dpdk_tcp.Seq.{seq_lt, seq_le}
use resd_dpdk_tcp.Options.{SackBlock, TcpOpts, default_opts, push_sack_block, max_sack_blocks_emit}
use resd_dpdk_tcp.Reassembly.{OooSegment, end_seq}
use resd_dpdk_tcp.Buffers.Recv.{free_space_total}
use resd_dpdk_tcp.Net.Segment.{tcp_ack}
use resd_dpdk_tcp.Conn.{TcpConn}
use resd_dpdk_tcp.Conn.Probes.{is_empty}
use resd_dpdk_tcp.Output.{SegmentTx, build_segment}

pub record AckOutcome : Type 0 where
  pub window : ℕ
  pub opts : TcpOpts
  pub zero_window : Bool
  pub sack_blocks_emitted : ℕ

-- The blocks with their indexes, the last first: `iter().enumerate().rev()` from index `i` on.
unfoldable pub indexed_rev : List SackBlock → ℕ → List (ℕ × SackBlock)
indexed_rev [] i = []
indexed_rev (b ∷ bs) i = indexed_rev bs (i + 1) ++ ((i, b) ∷ [])

-- `position` of the block that holds the trigger, with the block.
unfoldable pub find_trigger : List SackBlock → ℕ → ℕ → Option (ℕ × SackBlock)
find_trigger [] i t_left = none
find_trigger (b ∷ bs) i t_left =
    let rest = find_trigger bs (i + 1) t_left in
    if seq_le b.left t_left && seq_lt t_left b.right then some (i, b) else rest

-- The loop behind the trigger's block: `left` blocks more, and how many were pushed.
unfoldable pub push_others : List (ℕ × SackBlock) → ℕ → ℕ → TcpOpts → TcpOpts × ℕ
push_others [] idx left opts = (opts, 0)
push_others ((i, b) ∷ bs) idx zero opts =
    if i == idx then push_others bs idx zero opts else (opts, 0)
push_others ((i, b) ∷ bs) idx (suc left) opts =
    let pushed = push_others bs idx left (push_sack_block opts b).0 in
    if i == idx then push_others bs idx (suc left) opts else (pushed.0, pushed.1 + 1)

-- The loop without a trigger.
unfoldable pub push_blocks : List (ℕ × SackBlock) → TcpOpts → TcpOpts
push_blocks [] opts = opts
push_blocks ((i, b) ∷ bs) opts = push_blocks bs (push_sack_block opts b).0

-- The SACK blocks of an acknowledgement, and their count.
unfoldable pub add_blocks : List SackBlock → Option (ℕ × ℕ) → TcpOpts → TcpOpts × ℕ
unfolding indexed_rev find_trigger push_others push_blocks
add_blocks blocks trigger_range opts =
    let n = min (length blocks) max_sack_blocks_emit in
    let trigger : Option (ℕ × SackBlock) = elim trigger_range [
      | none ↦ none
      | some (t_left, t_right) ↦ find_trigger blocks 0 t_left
    ] in
    elim trigger [
      | none ↦ (push_blocks (take n (indexed_rev blocks 0)) opts, n)
      | some (idx, b) ↦
          let (pushed, more) =
            push_others (indexed_rev blocks 0) idx (n - 1) (push_sack_block opts b).0 in
          (pushed, 1 + more)
    ]

unfoldable pub build_ack_outcome :
    ℕ → Bool → ℕ → ℕ → Bool → List SackBlock → Option (ℕ × ℕ) → ℕ → AckOutcome
unfolding add_blocks
build_ack_outcome ws_shift_out ts_enabled ts_recent now_us sack_enabled blocks trigger_range
      free_space =
    let opts : TcpOpts = record default_opts {
      timestamps = if ts_enabled then some (now_us, ts_recent) else none;
    } in
    let (with_blocks, emitted) =
      if sack_enabled && not (is_empty blocks)
      then add_blocks blocks trigger_range opts
      else (opts, 0) in
    record {
      window = min (free_space / 2 ^ (ws_shift_out % 32)) (u16_mod - 1);
      opts = with_blocks;
      zero_window = free_space == 0;
      sack_blocks_emitted = emitted;
    }

-- The counters that an acknowledgement changes.
pub record AckCounters : Type 0 where
  pub tx_ack : ℕ
  pub tx_zero_window : ℕ
  pub tx_window_update : ℕ
  pub tx_sack_blocks : ℕ

abbrev pub block_of : OooSegment → SackBlock
block_of s = record { left = s.seq; right = end_seq s }

abbrev pub outcome_of : TcpConn → ℕ → AckOutcome
outcome_of c now_ns =
    build_ack_outcome c.ws_shift_out c.ts_enabled c.ts_recent (as_u32 (now_ns / 1000))
      c.sack_enabled (map block_of c.recv.reorder.segments) c.last_sack_trigger
      (free_space_total c.recv)

abbrev pub ack_segment : List ℕ → List ℕ → TcpConn → ℕ → SegmentTx
ack_segment our_mac gateway_mac c now_ns = record {
  src_mac = our_mac;
  dst_mac = gateway_mac;
  src_ip = c.four_tuple.local_ip;
  dst_ip = c.four_tuple.peer_ip;
  src_port = c.four_tuple.local_port;
  dst_port = c.four_tuple.peer_port;
  seq = c.snd_nxt;
  ack = c.rcv_nxt;
  flags = tcp_ack;
  window = (outcome_of c now_ns).window;
  options = (outcome_of c now_ns).opts;
  payload = [];
}

abbrev pub was_zero : Option ℕ → Bool
was_zero none = false
was_zero (some w) = w == 0

abbrev pub count : ℕ → ℕ → ℕ
count counter n = (counter + n) % u64_mod

abbrev pub count_if : Bool → ℕ → ℕ
count_if b counter = if b then count counter 1 else counter

-- The connection, the bytes handed to the device, and the counters.
unfoldable pub emit_ack :
    List ℕ → List ℕ → TcpConn → ℕ → Bool → AckCounters → TcpConn × Option (List ℕ) × AckCounters
unfolding build_ack_outcome
emit_ack our_mac gateway_mac c now_ns sent counters =
    let outcome = outcome_of c now_ns in
    elim (build_segment (ack_segment our_mac gateway_mac c now_ns) (replicate 128 0)) [
      | none ↦ (c, none, counters)
      | some (buf, n) ↦
          if sent
          then (
            record c { last_advertised_wnd = some outcome.window; last_sack_trigger = none },
            some (take n buf),
            record {
              tx_ack = count counters.tx_ack 1;
              tx_zero_window = count_if outcome.zero_window counters.tx_zero_window;
              tx_window_update =
                  count_if (was_zero c.last_advertised_wnd && ltb 0 outcome.window)
                    counters.tx_window_update;
              tx_sack_blocks = count counters.tx_sack_blocks outcome.sack_blocks_emitted;
            },
          )
          else (c, some (take n buf), counters)
    ]
