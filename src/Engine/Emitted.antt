-- ===== src/Engine/Emitted.antt =====
-- `emit_ack` as a whole: the frame, and what the connection remembers of it.
use resd_dpdk_tcp.Base.{
  ℕ, ◌*◌, ◌/◌, ◌%◌, ◌^◌, ◌≤◌, ◌<◌, ◌≡◌, Bool, true, false, none, some, List, [], ◌++◌, map, length,
  drop, get_or, replicate, if◌then◌else◌, arith, refl, sym, subst, u16_mod, u32_mod, as_u32, All,
  if_either,
}
use resd_dpdk_tcp.Options.{SackBlock, TcpOpts, zero_block}
use resd_dpdk_tcp.Options.Encode.{encoded_len}
use resd_dpdk_tcp.Options.Parse.{ok, parse_options}
use resd_dpdk_tcp.Options.RoundTrip.{IsTimestamps, IsWire, wire, parse_options-wire}
use resd_dpdk_tcp.Net.Segment.{ParsedSegment}
use resd_dpdk_tcp.Buffers.Recv.{free_space_total}
use resd_dpdk_tcp.Conn.{TcpConn}
use resd_dpdk_tcp.Output.{build_segment}
use resd_dpdk_tcp.Output.Parsed.{IsSendable, received, take-prefix}
use resd_dpdk_tcp.Output.Received.{Reads, received-Reads}
use resd_dpdk_tcp.Output.Built.{build_segment-IsReceived}
use resd_dpdk_tcp.Engine.Acks.{AckCounters, block_of, outcome_of, ack_segment, emit_ack}
use resd_dpdk_tcp.Engine.Blocks.{build_ack_outcome-IsPushed}
use resd_dpdk_tcp.Engine.Pushed.{IsPushed}
use resd_dpdk_tcp.Engine.Carried.{
  IsRange, IsCarried, map-IsCarried, pushed-IsWire, timestamps-build_ack_outcome,
}
use resd_dpdk_tcp.Engine.Window.{build_ack_outcome-window}

encoded_len-small : (P : SackBlock → Type 0) (o : TcpOpts) → IsPushed P o → encoded_len o ≤ 40
unfolding encoded_len
encoded_len-small P o v = let k = v.count in rw (v.mss, v.wscale, v.sack_permitted) (ground arith)

-- A connection whose addresses and numbers fit their width on the wire.
pub record IsAddressed (c : TcpConn) : Type 0 where
  pub local_ip : c.four_tuple.local_ip < u32_mod
  pub peer_ip : c.four_tuple.peer_ip < u32_mod
  pub local_port : c.four_tuple.local_port < u16_mod
  pub peer_port : c.four_tuple.peer_port < u16_mod
  pub snd_nxt : c.snd_nxt < u32_mod
  pub rcv_nxt : c.rcv_nxt < u32_mod
  pub ts_recent : c.ts_recent < u32_mod
  pub segments : All (λ s. s.seq < u32_mod) c.recv.reorder.segments

-- The acknowledgement that RFC 9293, 7323 and 2018 ask for: it has no payload, the number `SND.NXT`,
-- acknowledges everything up to `RCV.NXT`, offers no more than there is room for, and carries the
-- timestamps that were agreed on and ranges of the out-of-order queue.
pub record IsAck (c : TcpConn) (now_ns : ℕ) (p : ParsedSegment) : Type 0 where
  pub src_port : p.src_port ≡ c.four_tuple.local_port
  pub dst_port : p.dst_port ≡ c.four_tuple.peer_port
  pub seq : p.seq ≡ c.snd_nxt
  pub ack : p.ack ≡ c.rcv_nxt
  pub flags : p.flags ≡ 16
  pub payload : p.payload ≡ []
  pub window : 2 ^ (c.ws_shift_out % 32) * p.window ≤ free_space_total c.recv
  pub options : TcpOpts
  pub parsed : parse_options p.options ≡ ok options
  pub timestamps :
      options.timestamps
      ≡ (if c.ts_enabled then some (as_u32 (now_ns / 1000), c.ts_recent) else none)
  pub few : options.sack_block_count ≤ 3
  pub blocks :
      (i : ℕ)
      → i < options.sack_block_count
      → IsRange c.recv.reorder.segments (get_or options.sack_blocks i zero_block)

module _ (our_mac gateway_mac : List ℕ) (c : TcpConn) (now_ns : ℕ) (counters : AckCounters)
    (v : IsAddressed c) (ho : length our_mac ≡ 6) (hg : length gateway_mac ≡ 6) where
  outcome-IsPushed : IsPushed (IsCarried c.recv.reorder.segments) (outcome_of c now_ns).opts
  outcome-IsPushed =
      (build_ack_outcome-IsPushed (IsCarried c.recv.reorder.segments) c.ws_shift_out c.ts_enabled
        c.ts_recent (as_u32 (now_ns / 1000)) c.sack_enabled (map block_of c.recv.reorder.segments)
        c.last_sack_trigger (free_space_total c.recv)
        (map-IsCarried c.recv.reorder.segments v.segments)).0

  outcome_window :
      (2 ^ (c.ws_shift_out % 32) * (outcome_of c now_ns).window ≤ free_space_total c.recv)
      × ((outcome_of c now_ns).window < u16_mod)
  outcome_window =
      let w =
        build_ack_outcome-window c.ws_shift_out c.ts_enabled c.ts_recent (as_u32 (now_ns / 1000))
          c.sack_enabled (map block_of c.recv.reorder.segments) c.last_sack_trigger
          (free_space_total c.recv) in
      (w.0, w.1)

  stamped :
      (outcome_of c now_ns).opts.timestamps
      ≡ (if c.ts_enabled then some (as_u32 (now_ns / 1000), c.ts_recent) else none)
  stamped =
      timestamps-build_ack_outcome c.ws_shift_out c.ts_enabled c.ts_recent (as_u32 (now_ns / 1000))
        c.sack_enabled (map block_of c.recv.reorder.segments) c.last_sack_trigger
        (free_space_total c.recv)

  outcome-IsWire : IsWire (outcome_of c now_ns).opts
  outcome-IsWire =
      pushed-IsWire c.recv.reorder.segments (outcome_of c now_ns).opts outcome-IsPushed (
        subst IsTimestamps (sym stamped)
          (if_either IsTimestamps c.ts_enabled _ none (λ e. (omega arith, v.ts_recent)) (λ e. tt)))

  ack_segment-IsSendable : IsSendable (ack_segment our_mac gateway_mac c now_ns)
  ack_segment-IsSendable = record {
    src_ip = v.local_ip;
    dst_ip = v.peer_ip;
    src_port = v.local_port;
    dst_port = v.peer_port;
    seq = v.snd_nxt;
    ack = v.rcv_nxt;
    window = outcome_window.1;
    syn_fin = refl;
    rst_syn = refl;
  }

  emitted :
      (sent : Bool) (frame rest : List ℕ)
      → build_segment (ack_segment our_mac gateway_mac c now_ns) (replicate 128 0)
        ≡ some (frame ++ rest, length frame)
      → ((emit_ack our_mac gateway_mac c now_ns sent counters).1 ≡ some frame)
        × ((emit_ack our_mac gateway_mac c now_ns sent counters).0 ≡ (
            if sent
            then record c {
              last_advertised_wnd = some (outcome_of c now_ns).window;
              last_sack_trigger = none;
            }
            else c))
  unfolding emit_ack
  emitted true frame rest built = rw (built, emit_ack, take-prefix frame rest) (refl, refl)
  emitted false frame rest built = rw (built, emit_ack, take-prefix frame rest) (refl, refl)

  -- What the peer reads of the frame.
  abbrev read : ParsedSegment
  read = received (ack_segment our_mac gateway_mac c now_ns) (wire (outcome_of c now_ns).opts) []

  read-IsAck : IsAck c now_ns read
  read-IsAck = record {
    src_port = refl;
    dst_port = refl;
    seq = refl;
    ack = refl;
    flags = refl;
    payload = refl;
    window = outcome_window.0;
    options = (outcome_of c now_ns).opts;
    parsed = parse_options-wire (outcome_of c now_ns).opts outcome-IsWire;
    timestamps = stamped;
    few = outcome-IsPushed.count;
    blocks = λ i k. (outcome-IsPushed.blocks i k).1;
  }

  -- The frame that `emit_ack` hands to the device passes the peer's receive path, and what the peer
  -- reads there is the acknowledgement of everything received in order, from our port to the peer's, with
  -- a window that there is room for, the timestamps that were agreed on, and ranges of the out-of-order
  -- queue as its SACK blocks. When the device takes the frame, the connection remembers that window and
  -- forgets the trigger; else the connection is as it was. For MAC addresses of six bytes, and addresses
  -- and numbers that fit their width on the wire.
  pub emit_ack-IsAck :
      (sent : Bool)
      → (frame : List ℕ) × (p : ParsedSegment) × ((emit_ack our_mac gateway_mac c now_ns sent
            counters).1
          ≡ some frame)
        × Reads frame our_mac gateway_mac c.four_tuple.local_ip c.four_tuple.peer_ip p
        × IsAck c now_ns p
        × ((emit_ack our_mac gateway_mac c now_ns sent counters).0 ≡ (
            if sent
            then record c { last_advertised_wnd = some p.window; last_sack_trigger = none }
            else c))
  emit_ack-IsAck sent =
      let w = outcome-IsPushed in
      let opts = (outcome_of c now_ns).opts in
      let small = encoded_len-small (IsCarried c.recv.reorder.segments) opts w in
      let count = w.count in
      let seg = ack_segment our_mac gateway_mac c now_ns in
      let (frame, built, is) =
        build_segment-IsReceived seg ack_segment-IsSendable ho hg (omega (arith, count, w.array))
          small (omega (arith, small)) (replicate 128 0) (omega (arith, small)) in
      let (out, after) = emitted sent frame (drop (length frame) (replicate 128 0)) built in
      (frame, read, out, received-Reads seg frame is, read-IsAck, after)
