-- ===== src/Input/Rfc.antt =====
-- `dispatch` against the state machine of RFC 9293.
use resd_dpdk_tcp.Base.{
  ℕ, ◌<◌, ◌≡◌, inl, inr, ◌/◌, Bool, true, not, ◌&&◌, Option, none, some, List, length, ltb, leb,
  ◌==◌, if◌then◌else◌, refl, subst, ◌∙◌, Bool-cases, u16_mod, u32_mod, All, if_either,
  wrapping_sub32, as_u32,
}
use resd_dpdk_tcp.Reassembly.{Refs}
use resd_dpdk_tcp.Buffers.Room.{IsWithin}
use resd_dpdk_tcp.Options.{TcpOpts}
use resd_dpdk_tcp.Options.Parse.{Parsed, parse_options}
use resd_dpdk_tcp.Net.{has_bit}
use resd_dpdk_tcp.Net.Segment.{ParsedSegment, tcp_syn, tcp_rst, tcp_ack}
use resd_dpdk_tcp.Conn.{
  TcpState, closed, listen, syn_sent, syn_received, established, fin_wait1, fin_wait2, close_wait,
  closing, last_ack, time_wait, TcpConn, maybe_seed_srtt_from_syn,
}
use resd_dpdk_tcp.Rtt
use resd_dpdk_tcp.Rack
use resd_dpdk_tcp.Histogram
use resd_dpdk_tcp.Input.{rst, Outcome, close_with}
use resd_dpdk_tcp.Input.Handshake.{
  acks_syn, take_header, take_options, connect, handle_syn_sent, stamp, complete,
  handle_syn_received,
}
use resd_dpdk_tcp.Input.Closing.{handle_close_path}
use resd_dpdk_tcp.Input.Edges.{IsEdge, Edge}
use resd_dpdk_tcp.Input.Edges
use resd_dpdk_tcp.Input.Steps.{handle_close_path-IsStep}
use resd_dpdk_tcp.Input.Established.{Context, dispatch_on, dispatch}
use resd_dpdk_tcp.Input.Established.Receipt.{DataEdge, Reply}
use resd_dpdk_tcp.Input.Established.Receipt
use resd_dpdk_tcp.Input.Established.Answer.{handle_established-IsReceipt}

-- The arcs that an arriving segment can take.
pub data RfcEdge : TcpState → TcpState → Type 0 where
  abort : {s : TcpState} → RfcEdge s closed
  active_open : RfcEdge syn_sent established
  passive_open : RfcEdge syn_received established
  peer_closes : RfcEdge established close_wait
  our_fin_acked : RfcEdge fin_wait1 fin_wait2
  simultaneous : RfcEdge fin_wait1 closing
  both_done : RfcEdge fin_wait1 time_wait
  peer_done : RfcEdge fin_wait2 time_wait
  closing_done : RfcEdge closing time_wait

abbrev pub IsNext : TcpState → Option TcpState → Type 0
IsNext s none = Unit
IsNext s (some t) = RfcEdge s t

-- The connection keeps its state, and the outcome's is the next.
abbrev Proceeds : TcpState → TcpConn → TcpConn × Outcome → Type 0
Proceeds s c r = (r.0.state ≡ c.state) × IsNext s r.1.new_state

seed_state :
    (c : TcpConn) (now_ns : ℕ) (edges : List ℕ)
    → (maybe_seed_srtt_from_syn c now_ns edges).state ≡ c.state
unfolding maybe_seed_srtt_from_syn
seed_state c now_ns edges =
    let rtt_us = wrapping_sub32 (as_u32 (now_ns / 1000)) (as_u32 (c.syn_tx_ts_ns / 1000)) in
    let seeded : TcpConn = record c {
      rtt_est = Rtt.sample c.rtt_est rtt_us;
      rack = Rack.update_min_rtt c.rack rtt_us;
      rtt_histogram = Histogram.update c.rtt_histogram rtt_us edges;
    } in
    let in_range = if not (leb 1 rtt_us && ltb rtt_us 60000000) then c else seeded in
    let sent = if c.syn_tx_ts_ns == 0 then c else in_range in
    if_either (λ z. z.state ≡ c.state) (not (c.syn_retrans_count == 0)) c sent (λ e. refl)
      (λ e.
        if_either (λ z. z.state ≡ c.state) (c.syn_tx_ts_ns == 0) c in_range (λ e. refl)
          (λ e.
            if_either (λ z. z.state ≡ c.state) (not (leb 1 rtt_us && ltb rtt_us 60000000)) c seeded
              (λ e. refl) (λ e. refl)))

taken_state :
    (c : TcpConn) (seg : ParsedSegment) (opts : TcpOpts) (now_ns : ℕ)
    → (take_options (take_header c seg) opts now_ns).state ≡ c.state
unfolding take_options
taken_state c seg opts now_ns = refl

connect-Proceeds :
    (c : TcpConn) (seg : ParsedSegment) (opts : TcpOpts) (now_ns : ℕ) (edges : List ℕ)
    → Proceeds syn_sent c (connect c seg opts now_ns edges)
unfolding connect
connect-Proceeds c seg opts now_ns edges =
    let taken = take_options (take_header c seg) opts now_ns in
    (seed_state taken now_ns edges ∙ taken_state c seg opts now_ns, active_open)

parsed_Proceeds :
    (c : TcpConn) (seg : ParsedSegment) (now_ns : ℕ) (edges : List ℕ) (o : Parsed TcpOpts)
    → Proceeds syn_sent c (elim o [
      | Parsed.ok opts ↦ connect c seg opts now_ns edges
      | Parsed.err e ↦ (c, record (close_with rst) { bad_option = true })
      | Parsed.panic ↦ (c, record (close_with rst) { bad_option = true })
    ])
parsed_Proceeds c seg now_ns edges (Parsed.ok opts) = connect-Proceeds c seg opts now_ns edges
parsed_Proceeds c seg now_ns edges (Parsed.err e) = (refl, abort)
parsed_Proceeds c seg now_ns edges Parsed.panic = (refl, abort)

handle_syn_sent-Proceeds :
    (c : TcpConn) (seg : ParsedSegment) (now_ns : ℕ) (edges : List ℕ)
    → Proceeds syn_sent c (handle_syn_sent c seg now_ns edges)
unfolding handle_syn_sent
handle_syn_sent-Proceeds c seg now_ns edges = elim (Bool-cases (has_bit seg.flags tcp_rst)) [
  | inl p ↦ elim (Bool-cases (has_bit seg.flags tcp_ack && acks_syn c seg)) [
    | inl q ↦ rw (p, q) (refl, abort)
    | inr q ↦ rw (p, q) (refl, tt)
  ]
  | inr p ↦ elim (Bool-cases (has_bit seg.flags tcp_syn)) [
    | inr s ↦ rw (p, s) (refl, abort)
    | inl s ↦ elim (Bool-cases (has_bit seg.flags tcp_ack)) [
      | inr a ↦ rw (p, s, a) (refl, tt)
      | inl a ↦ elim (Bool-cases (acks_syn c seg)) [
        | inr q ↦ rw (p, s, a, q) (refl, abort)
        | inl q ↦ rw (p, s, a, q) (parsed_Proceeds c seg now_ns edges (parse_options seg.options))
      ]
    ]
  ]
]

stamp_state : (ts : Option ℕ) (now_ns : ℕ) (c : TcpConn) → (stamp ts now_ns c).state ≡ c.state
unfolding stamp
stamp_state none now_ns c = refl
stamp_state (some tsval) now_ns c = refl

complete-Proceeds :
    (c : TcpConn) (seg : ParsedSegment) (now_ns : ℕ)
    → Proceeds syn_received c (complete c seg now_ns)
unfolding complete
complete-Proceeds c seg now_ns =
    let ts : Option ℕ = elim (parse_options seg.options) [
      | Parsed.ok opts ↦ elim opts.timestamps [ none ↦ none | some (tsval, tsecr) ↦ some tsval ]
      | _ ↦ none
    ] in
    let acked : TcpConn = record c {
      snd_una = seg.ack;
      snd_wnd = seg.window;
      snd_wl1 = seg.seq;
      snd_wl2 = seg.ack;
    } in
    (
      if_either (λ z. z.state ≡ c.state) c.ts_enabled (stamp ts now_ns acked) acked
          (λ e. stamp_state ts now_ns acked) (λ e. refl),
      passive_open,
    )

handle_syn_received-Proceeds :
    (c : TcpConn) (seg : ParsedSegment) (now_ns : ℕ)
    → Proceeds syn_received c (handle_syn_received c seg now_ns)
unfolding handle_syn_received
handle_syn_received-Proceeds c seg now_ns = elim (Bool-cases (has_bit seg.flags tcp_rst)) [
  | inl p ↦ elim (Bool-cases c.is_passive_open) [
    | inl o ↦ rw (p, o) (refl, tt)
    | inr o ↦ rw (p, o) (refl, abort)
  ]
  | inr p ↦ elim (Bool-cases (has_bit seg.flags tcp_syn)) [
    | inl s ↦ elim (Bool-cases (seg.seq == c.irs)) [
      | inl q ↦ rw (p, s, q) (refl, tt)
      | inr q ↦ rw (p, s, q) (refl, abort)
    ]
    | inr s ↦ elim (Bool-cases (has_bit seg.flags tcp_ack)) [
      | inr a ↦ rw (p, s, a) (refl, tt)
      | inl a ↦ elim (Bool-cases (seg.seq == c.rcv_nxt)) [
        | inr n ↦ rw (p, s, a, n) (refl, tt)
        | inl n ↦ elim (Bool-cases (acks_syn c seg)) [
          | inr q ↦ rw (p, s, a, n, q) (refl, abort)
          | inl q ↦ rw (p, s, a, n, q) (complete-Proceeds c seg now_ns)
        ]
      ]
    ]
  ]
]

-- The edges of the close path and of ESTABLISHED are arcs.
Edge-arc : {r a f : Bool} {s t : TcpState} → Edge r a f s t → RfcEdge s t
Edge-arc (Edges.on_reset p) = abort
Edge-arc (Edges.on_fin_acked p) = our_fin_acked
Edge-arc (Edges.on_both p q) = both_done
Edge-arc (Edges.on_simultaneous p) = simultaneous
Edge-arc (Edges.on_peer_fin p) = peer_done
Edge-arc (Edges.on_closing_acked p) = closing_done
Edge-arc (Edges.on_last_acked p) = abort

close_path_arc : (r a f : Bool) (s : TcpState) (n : Option TcpState) → IsEdge r a f s n → IsNext s n
close_path_arc r a f s none e = tt
close_path_arc r a f s (some t) e = Edge-arc e

data_arc : {seg : ParsedSegment} {n : Option TcpState} → DataEdge seg n → IsNext established n
data_arc Receipt.stays = tt
data_arc (Receipt.on_reset p) = abort
data_arc (Receipt.on_fin p) = peer_closes

close_path-Proceeds :
    (s : TcpState) (c : TcpConn) (seg : ParsedSegment) (now_ns : ℕ)
    → c.state ≡ s
    → Proceeds s c (handle_close_path c seg now_ns)
close_path-Proceeds s c seg now_ns e =
    let r = handle_close_path-IsStep c seg now_ns in
    (
      r.state,
      subst (λ z. IsNext z (handle_close_path c seg now_ns).1.new_state) e
          (close_path_arc _ _ _ c.state _ r.edge),
    )

dispatch_on-Proceeds :
    (s : TcpState) (c : TcpConn) (seg : ParsedSegment) (ctx : Context) (refs : Refs)
    → c.state ≡ s
    → IsWithin c.recv
    → c.rcv_nxt < u32_mod
    → length seg.payload < u16_mod
    → All (λ l. l.data_len < u16_mod) ctx.chain.1
    → let r = dispatch_on s c seg ctx refs in (r.0.state ≡ c.state) × IsNext s r.1.new_state
unfolding dispatch_on
dispatch_on-Proceeds syn_sent c seg ctx refs e v hr small all =
    handle_syn_sent-Proceeds c seg ctx.now_ns ctx.edges
dispatch_on-Proceeds syn_received c seg ctx refs e v hr small all =
    handle_syn_received-Proceeds c seg ctx.now_ns
dispatch_on-Proceeds established c seg ctx refs e v hr small all =
    let r = handle_established-IsReceipt c seg ctx refs v hr small all in (r.state, data_arc r.edge)
dispatch_on-Proceeds closed c seg ctx refs e v hr small all = (refl, tt)
dispatch_on-Proceeds listen c seg ctx refs e v hr small all = (refl, tt)
dispatch_on-Proceeds fin_wait1 c seg ctx refs e v hr small all =
    close_path-Proceeds fin_wait1 c seg ctx.now_ns e
dispatch_on-Proceeds fin_wait2 c seg ctx refs e v hr small all =
    close_path-Proceeds fin_wait2 c seg ctx.now_ns e
dispatch_on-Proceeds closing c seg ctx refs e v hr small all =
    close_path-Proceeds closing c seg ctx.now_ns e
dispatch_on-Proceeds last_ack c seg ctx refs e v hr small all =
    close_path-Proceeds last_ack c seg ctx.now_ns e
dispatch_on-Proceeds close_wait c seg ctx refs e v hr small all =
    close_path-Proceeds close_wait c seg ctx.now_ns e
dispatch_on-Proceeds time_wait c seg ctx refs e v hr small all =
    close_path-Proceeds time_wait c seg ctx.now_ns e

-- Every segment of a connection: `dispatch` leaves the state to its caller, and the next state that the
-- outcome names, if any, is an arc of the state machine of RFC 9293 from the connection's state. For a
-- payload and chained mbufs of fewer than 2 ^ 16 bytes each, and a receive buffer within its capacity.
pub dispatch-IsNext :
    (c : TcpConn) (seg : ParsedSegment) (ctx : Context) (refs : Refs)
    → IsWithin c.recv
    → c.rcv_nxt < u32_mod
    → length seg.payload < u16_mod
    → All (λ l. l.data_len < u16_mod) ctx.chain.1
    → let r = dispatch c seg ctx refs in (r.0.state ≡ c.state) × IsNext c.state r.1.new_state
unfolding dispatch
dispatch-IsNext c seg ctx refs v hr small all =
    dispatch_on-Proceeds c.state c seg ctx refs refl v hr small all
