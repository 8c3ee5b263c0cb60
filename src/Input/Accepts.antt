-- ===== src/Input/Accepts.antt =====
-- What the handshake accepts, and what the close path never does.
use resd_dpdk_tcp.Base.{
  ℕ, ◌-◌, ◌≤◌, ◌<◌, ◌≡◌, ◌≢◌, ◌⊎◌, ◌↔◌, inl, inr, min, Bool, true, false, not, ◌&&◌, Option, none,
  some, List, ltb, leb, ◌==◌, if◌then◌else◌, length, wrapping_add32, wrapping_sub32, arith, refl,
  sym, ◌∙◌, Bool-cases, none-some, u32_mod, u16_mod, as_u32, ◌/◌,
}
use resd_dpdk_tcp.Rtt
use resd_dpdk_tcp.Rack
use resd_dpdk_tcp.Histogram
use resd_dpdk_tcp.Seq.{in_window, i32_min}
use resd_dpdk_tcp.Options.{TcpOpts}
use resd_dpdk_tcp.Options.Parse.{Parsed, parse_options}
use resd_dpdk_tcp.Net.{has_bit}
use resd_dpdk_tcp.Net.Segment.{ParsedSegment, tcp_syn, tcp_rst, tcp_ack}
use resd_dpdk_tcp.Conn.{TcpState, closed, established, TcpConn, maybe_seed_srtt_from_syn}
use resd_dpdk_tcp.Input.{no_tx, rst, Outcome, base, close_with}
use resd_dpdk_tcp.Input.Handshake.{acks_syn, take_header, take_options, connect, handle_syn_sent}
use resd_dpdk_tcp.Input.Closing.{
  fin_of, seg_len, is_in_window, peer_has_fin, handle_close_path, is_time_wait,
}
use resd_dpdk_tcp.Input.Steps.{handle_close_path-IsStep}

-- `unwrap_or`
abbrev pub get_or_else : ℕ → Option ℕ → ℕ
get_or_else d none = d
get_or_else d (some m) = m

-- A handler that does not touch the connection and does not establish it.
abbrev pub Refused : TcpConn → TcpConn × Outcome → Type 0
Refused c r = (r.0 ≡ c) × (r.1.is_connected ≡ false) × (r.1.new_state ≢ some established)

-- The connection that a SYN-ACK with these options established.
pub record Connected (c : TcpConn) (seg : ParsedSegment) (opts : TcpOpts) (r : TcpConn × Outcome)
    : Type 0 where
  pub connected : r.1.is_connected ≡ true
  pub state : r.1.new_state ≡ some established
  pub rcv_nxt : r.0.rcv_nxt ≡ wrapping_add32 seg.seq 1
  pub snd_una : r.0.snd_una ≡ seg.ack
  pub shift : r.0.ws_shift_in ≤ 14
  pub peer_mss : r.0.peer_mss ≡ get_or_else 536 opts.mss
  pub sack_enabled : r.0.sack_enabled ≡ opts.sack_permitted
  pub ts_enabled : (r.0.ts_enabled ≡ true) ↔ (opts.timestamps ≢ none)
  pub timer : r.0.syn_retrans_timer_id ≡ none
  pub cancels : r.1.syn_retrans_timer_to_cancel ≡ c.syn_retrans_timer_id

false-true : false ≡ true → ⊥
false-true e = ground arith

-- The seed of the round-trip time changes no field of the handshake.
record Seeded (c d : TcpConn) : Type 0 where
  rcv_nxt : d.rcv_nxt ≡ c.rcv_nxt
  snd_una : d.snd_una ≡ c.snd_una
  shift : d.ws_shift_in ≡ c.ws_shift_in
  peer_mss : d.peer_mss ≡ c.peer_mss
  sack_enabled : d.sack_enabled ≡ c.sack_enabled
  ts_enabled : d.ts_enabled ≡ c.ts_enabled
  timer : d.syn_retrans_timer_id ≡ c.syn_retrans_timer_id

Seeded-refl : (c : TcpConn) → Seeded c c
Seeded-refl c = record {
  rcv_nxt = refl;
  snd_una = refl;
  shift = refl;
  peer_mss = refl;
  sack_enabled = refl;
  ts_enabled = refl;
  timer = refl;
}

either-Seeded :
    (c : TcpConn) (b : Bool) (x y : TcpConn)
    → Seeded c x
    → Seeded c y
    → Seeded c (if b then x else y)
either-Seeded c true x y p q = p
either-Seeded c false x y p q = q

seed-Seeded :
    (c : TcpConn) (now_ns : ℕ) (edges : List ℕ) → Seeded c (maybe_seed_srtt_from_syn c now_ns edges)
unfolding maybe_seed_srtt_from_syn
seed-Seeded c now_ns edges =
    let rtt_us = wrapping_sub32 (as_u32 (now_ns / 1000)) (as_u32 (c.syn_tx_ts_ns / 1000)) in
    either-Seeded c (not (c.syn_retrans_count == 0)) c _ (Seeded-refl c) (
      either-Seeded c (c.syn_tx_ts_ns == 0) c _ (Seeded-refl c) (
        either-Seeded c (not (leb 1 rtt_us && ltb rtt_us 60000000)) c
          (record c {
            rtt_est = Rtt.sample c.rtt_est rtt_us;
            rack = Rack.update_min_rtt c.rack rtt_us;
            rtt_histogram = Histogram.update c.rtt_histogram rtt_us edges;
          })
          (Seeded-refl c)
          (record {
            rcv_nxt = refl;
            snd_una = refl;
            shift = refl;
            peer_mss = refl;
            sack_enabled = refl;
            ts_enabled = refl;
            timer = refl;
          })))

shift_bound :
    (c : TcpConn) (opts : TcpOpts) (now_ns : ℕ) → (take_options c opts now_ns).ws_shift_in ≤ 14
unfolding take_options
shift_bound c opts now_ns = clamp opts.wscale
  where
    clamp : (o : Option ℕ) → (elim o as (λ z. ℕ) [ none ↦ 0 | some ws_peer ↦ min ws_peer 14 ]) ≤ 14
    clamp none = omega arith
    clamp (some ws_peer) = omega arith

header_kept :
    (c : TcpConn) (seg : ParsedSegment) (opts : TcpOpts) (now_ns : ℕ)
    → let t = take_options (take_header c seg) opts now_ns in
      (t.rcv_nxt ≡ wrapping_add32 seg.seq 1)
      × (t.snd_una ≡ seg.ack)
      × (t.syn_retrans_timer_id ≡ c.syn_retrans_timer_id)
unfolding take_options
header_kept c seg opts now_ns = (refl, refl, refl)

taken_lem :
    (c : TcpConn) (opts : TcpOpts) (now_ns : ℕ)
    → ((take_options c opts now_ns).peer_mss ≡ get_or_else 536 opts.mss)
      × ((take_options c opts now_ns).sack_enabled ≡ opts.sack_permitted)
unfolding take_options
taken_lem c opts now_ns = (mss_lem opts.mss, refl)
  where
    mss_lem : (o : Option ℕ) → (elim o as (λ z. ℕ) [ none ↦ 536 | some m ↦ m ]) ≡ get_or_else 536 o
    mss_lem none = refl
    mss_lem (some m) = refl

stamps_lem :
    (c : TcpConn) (opts : TcpOpts) (now_ns : ℕ)
    → ((take_options c opts now_ns).ts_enabled ≡ true) ↔ (opts.timestamps ≢ none)
unfolding take_options
stamps_lem c opts now_ns = either opts.timestamps
  where
    either :
        (o : Option (ℕ × ℕ))
        → ((elim o as (λ z. Bool) [ none ↦ false | some t ↦ true ]) ≡ true) ↔ (o ≢ none)
    either none = (λ e. absurd (false-true e), λ n. absurd (n refl))
    either (some t) = (λ e z. none-some t (sym z), λ n. refl)

connect-Connected :
    (c : TcpConn) (seg : ParsedSegment) (opts : TcpOpts) (now_ns : ℕ) (edges : List ℕ)
    → Connected c seg opts (connect c seg opts now_ns edges)
unfolding connect
connect-Connected c seg opts now_ns edges =
    let taken = take_options (take_header c seg) opts now_ns in
    let d = seed-Seeded taken now_ns edges in
    record {
      connected = refl;
      state = refl;
      rcv_nxt = d.rcv_nxt ∙ (header_kept c seg opts now_ns).0;
      snd_una = d.snd_una ∙ (header_kept c seg opts now_ns).1;
      shift = rw d.shift (shift_bound (take_header c seg) opts now_ns);
      peer_mss = d.peer_mss ∙ (taken_lem (take_header c seg) opts now_ns).0;
      sack_enabled = d.sack_enabled ∙ (taken_lem (take_header c seg) opts now_ns).1;
      ts_enabled = rw d.ts_enabled (stamps_lem (take_header c seg) opts now_ns);
      timer = refl;
      cancels = d.timer ∙ (header_kept c seg opts now_ns).2;
    }

outside : (start seq len : ℕ) → len ≤ wrapping_sub32 seq start → in_window start seq len ≡ false
unfolding in_window
outside start seq len h = ground arith

behind :
    (c : TcpConn) (seg : ParsedSegment)
    → c.rcv_nxt < u32_mod
    → seg.seq < u32_mod
    → c.rcv_wnd < i32_min
    → 1 ≤ length seg.payload
    → length seg.payload < u16_mod
    → wrapping_add32 seg.seq (length seg.payload) ≡ c.rcv_nxt
    → is_in_window c seg ≡ true
    → ⊥
unfolding is_in_window
behind c seg hr hs hw hl hm e h =
    let d : wrapping_sub32 seg.seq c.rcv_nxt ≡ u32_mod - length seg.payload = omega arith in
    let n : (seg_len seg == 0) ≡ false = ground arith in
    let out : in_window c.rcv_nxt seg.seq c.rcv_wnd ≡ false =
      outside c.rcv_nxt seg.seq c.rcv_wnd (ground arith) in
    false-true (cc (rw (n, out) at h))

-- A FIN that carries data is never next in line: what is in the window ends behind `rcv_nxt`.
in_window-not_fin :
    (c : TcpConn) (seg : ParsedSegment)
    → c.rcv_nxt < u32_mod
    → seg.seq < u32_mod
    → c.rcv_wnd < i32_min
    → 1 ≤ length seg.payload
    → length seg.payload < u16_mod
    → is_in_window c seg ≡ true
    → peer_has_fin seg c ≡ false
in_window-not_fin c seg hr hs hw hl hm h = elim (Bool-cases (fin_of seg)) [
  | inl f ↦ elim (Bool-cases (wrapping_add32 seg.seq (length seg.payload) == c.rcv_nxt)) [
    | inr n ↦ rw (f, n) refl
    | inl e ↦ absurd (behind c seg hr hs hw hl hm (ground arith) h)
  ]
  | inr f ↦ rw f refl
]

-- On a segment that carries data the close path never moves `rcv_nxt`, not even over a FIN behind the
-- data. For a window below 2 ^ 31 and a payload of fewer than 2 ^ 16 bytes.
pub rcv_nxt-handle_close_path :
    (c : TcpConn) (seg : ParsedSegment) (now_ns : ℕ)
    → c.rcv_nxt < u32_mod
    → seg.seq < u32_mod
    → c.rcv_wnd < i32_min
    → 1 ≤ length seg.payload
    → length seg.payload < u16_mod
    → (handle_close_path c seg now_ns).0.rcv_nxt ≡ c.rcv_nxt
unfolding handle_close_path
rcv_nxt-handle_close_path c seg now_ns hr hs hw hl hm = elim (Bool-cases (is_in_window c seg)) [
  | inl w ↦ elim (handle_close_path-IsStep c seg now_ns).rcv_nxt [
    | inl e ↦ e
    | inr (f, e) ↦ absurd (false-true (sym (in_window-not_fin c seg hr hs hw hl hm w) ∙ f))
  ]
  | inr w ↦ elim (Bool-cases (has_bit seg.flags tcp_rst)) [
    | inl p ↦ rw p refl
    | inr p ↦ elim (Bool-cases (is_time_wait c.state)) [
      | inl t ↦ rw (p, t) refl
      | inr t ↦ elim (Bool-cases (has_bit seg.flags tcp_ack)) [
        | inl a ↦ rw (p, t, a, w) refl
        | inr a ↦ rw (p, t, a) refl
      ]
    ]
  ]
]

closed-not_established : Path (Option TcpState) (some closed) (some established) → ⊥
closed-not_established e = ground arith

reset_Refused : (c : TcpConn) (b : Bool) → Refused c (c, if b then close_with no_tx else base)
reset_Refused c true = (refl, refl, closed-not_established)
reset_Refused c false = (refl, refl, none-some established)

-- The options parse, and the connection took them.
abbrev pub Agreed : TcpConn → ParsedSegment → TcpConn × Outcome → Type 0
Agreed c seg r =
    (opts : TcpOpts) × (parse_options seg.options ≡ Parsed.ok opts) × Connected c seg opts r

parsed_lem :
    (c : TcpConn) (seg : ParsedSegment) (now_ns : ℕ) (edges : List ℕ) (o : Parsed TcpOpts)
    → parse_options seg.options ≡ o
    → let r : TcpConn × Outcome = elim o [
      | Parsed.ok opts ↦ connect c seg opts now_ns edges
      | Parsed.err e ↦ (c, record (close_with rst) { bad_option = true })
      | Parsed.panic ↦ (c, record (close_with rst) { bad_option = true })
    ] in
      Refused c r
      ⊎ ((false ≡ false) × (true ≡ true) × (true ≡ true) × (true ≡ true) × Agreed c seg r)
parsed_lem c seg now_ns edges (Parsed.ok opts) is =
    inr (refl, refl, refl, refl, (opts, is, connect-Connected c seg opts now_ns edges))
parsed_lem c seg now_ns edges (Parsed.err e) is = inl (refl, refl, closed-not_established)
parsed_lem c seg now_ns edges Parsed.panic is = inl (refl, refl, closed-not_established)

-- A segment leaves the connection as it was and does not establish it, or it is a SYN-ACK of our
-- SYN with options that parse and establishes the connection: then `rcv_nxt` is behind the peer's SYN,
-- the peer's MSS (536 without the option), SACK and timestamps are as those options say, the window
-- shift is at most 14, and the retransmission timer is handed over to be cancelled.
pub handle_syn_sent_lem :
    (c : TcpConn) (seg : ParsedSegment) (now_ns : ℕ) (edges : List ℕ)
    → let r = handle_syn_sent c seg now_ns edges in
      Refused c r
      ⊎ ((has_bit seg.flags tcp_rst ≡ false)
          × (has_bit seg.flags tcp_syn ≡ true)
          × (has_bit seg.flags tcp_ack ≡ true)
          × (acks_syn c seg ≡ true)
          × Agreed c seg r)
unfolding handle_syn_sent
handle_syn_sent_lem c seg now_ns edges = elim (Bool-cases (has_bit seg.flags tcp_rst)) [
  | inl p ↦ inl (rw p (reset_Refused c (has_bit seg.flags tcp_ack && acks_syn c seg)))
  | inr p ↦ elim (Bool-cases (has_bit seg.flags tcp_syn)) [
    | inr s ↦ inl (rw (p, s) (refl, refl, closed-not_established))
    | inl s ↦ elim (Bool-cases (has_bit seg.flags tcp_ack)) [
      | inr a ↦ inl (rw (p, s, a) (refl, refl, none-some established))
      | inl a ↦ elim (Bool-cases (acks_syn c seg)) [
        | inr w ↦ inl (rw (p, s, a, w) (refl, refl, closed-not_established))
        | inl w ↦ rw (p, s, a, w) (parsed_lem c seg now_ns edges (parse_options seg.options) refl)
      ]
    ]
  ]
]
