-- ===== src/Engine/Sent.antt =====
-- What `send_bytes` puts in flight.
use resd_dpdk_tcp.Base.{
  ℕ, ◌+◌, ◌≤◌, ◌<◌, ◌≡◌, ◌⊎◌, inl, inr, max, Bool, true, false, List, [], ◌∷◌, ◌++◌, length, ltb,
  if◌then◌else◌, arith, refl, ap, subst, ◌∙◌, as_u32, u16_mod, u32_mod, wrapping_add32, Bool-cases,
  if_either,
}
use resd_dpdk_tcp.Retrans.{RetransEntry}
use resd_dpdk_tcp.Net.{Result, ok, err}
use resd_dpdk_tcp.TimerWheel.{TimerWheel}
use resd_dpdk_tcp.Reassembly.{Refs}
use resd_dpdk_tcp.Conn.{TcpConn}
use resd_dpdk_tcp.Engine.Chain.{rest_of, SameRest, arm_tlp_pto-SameRest, append-nil, IsChain}
use resd_dpdk_tcp.Engine.Rounds.{IsSending, start-IsSending, IsLooped, send_loop-IsLooped}
use resd_dpdk_tcp.Engine.Send.{
  SendConfig, Attempt, SendCounters, Sending, SendError, send_buffer_full, is_established,
  invalid_conn_handle, mss_cap, in_flight, sendable, send_loop, arm_tlp_pto, start, end_send,
  send_bytes,
}

module _ (cfg : SendConfig) (c : TcpConn) (bytes : List ℕ) where
  -- What the caller of `send_bytes` finds when it took `n` bytes.
  pub record IsSent (d : TcpConn) (n : ℕ) : Type 0 where
    -- No more than was given, than the peer's window takes and than the send buffer holds.
    pub le_bytes : n ≤ length bytes
    pub in_window : in_flight d ≤ max (in_flight c) c.snd_wnd
    pub in_buffer : in_flight d ≤ max (in_flight c) cfg.send_buffer_bytes
    -- The bytes taken are the sequence space from `snd_nxt` on, and the new entries cover it.
    pub snd_nxt : d.snd_nxt ≡ wrapping_add32 c.snd_nxt n
    pub entries :
        (es : List RetransEntry) × (d.snd_retrans ≡ c.snd_retrans ++ es)
        × IsChain c.snd_nxt (mss_cap cfg c) es n
    -- A short count is remembered, and nothing else of the connection but its timers changes.
    pub short : (n ≡ length bytes) ⊎ (d.send_refused_pending ≡ true)
    pub rest : rest_of d ≡ rest_of c

  -- What `send_bytes` promises, by its result.
  pub IsResult : TcpConn → Result SendError ℕ → Type 0
  IsResult d (ok n) = IsSent d n
  IsResult d (err e) =
      (rest_of d ≡ rest_of c) × (d.snd_retrans ≡ c.snd_retrans) × (d.snd_nxt ≡ c.snd_nxt)

module _ (cfg : SendConfig) (c : TcpConn) (bytes : List ℕ) (hn : c.snd_nxt < u32_mod)
    (hw : c.snd_wnd < u32_mod) (hm : c.peer_mss < u16_mod) where
  end_send-IsSent :
      (now_ns : ℕ) (st : Sending)
      → length bytes < u32_mod
      → c.snd_una < u32_mod
      → IsSending cfg c bytes hn hw hm st
      → IsSent cfg c bytes (end_send cfg bytes now_ns st).conn st.accepted
  unfolding end_send
  end_send-IsSent now_ns st hb hu v =
      let short = ltb st.accepted (as_u32 (length bytes)) in
      let pending = if short then true else st.conn.send_refused_pending in
      let ended : TcpConn = record st.conn {
        snd_nxt = st.cur_seq;
        send_refused_pending = pending;
      } in
      let d = (end_send cfg bytes now_ns st).conn in
      let (rest, retrans, nxt, refused) : SameRest ended d =
        if_either (λ (r : TcpConn × TimerWheel). SameRest ended r.0) (ltb 0 st.accepted)
          (arm_tlp_pto cfg now_ns (ended, st.wheel)) (ended, st.wheel)
          (λ e. arm_tlp_pto-SameRest cfg now_ns ended st.wheel) (λ e. (refl, refl, refl, refl)) in
      let (es, eq, chain) = v.entries in
      let total = v.total in
      let same = rest ∙ v.conn in
      let una : d.snd_una ≡ c.snd_una = ap (λ (z : TcpConn). z.snd_una) same in
      let moved : d.snd_nxt ≡ wrapping_add32 c.snd_nxt st.accepted = nxt ∙ v.cur_seq in
      let flight : in_flight d ≤ in_flight c + st.accepted = omega (arith, una, moved) in
      record {
        le_bytes = omega (arith, total);
        in_window = omega (arith, total, flight);
        in_buffer = omega (arith, total, flight);
        snd_nxt = moved;
        entries = (es, retrans ∙ eq, chain);
        short = elim (Bool-cases short) [
          | inl e ↦ inr (refused ∙ ap (λ b. if b then true else st.conn.send_refused_pending) e)
          | inr e ↦ inl (ground (arith, total))
        ];
        rest = same;
      }

  IsChain-zero : (seq mss : ℕ) (es : List RetransEntry) → IsChain seq mss es 0 → es ≡ []
  IsChain-zero seq mss [] z = refl
  IsChain-zero seq mss (e ∷ es) (s, l1, lm, lt, more) = absurd (omega arith)

  refused_lem :
      (e : SendError) (st : Sending)
      → st.accepted ≡ 0
      → IsSending cfg c bytes hn hw hm st
      → IsResult cfg c bytes st.conn (err e)
  unfolding IsResult
  refused_lem e st z v =
      let (es, eq, chain) = v.entries in
      let none_left : es ≡ [] =
        IsChain-zero c.snd_nxt (mss_cap cfg c) es
          (subst (IsChain c.snd_nxt (mss_cap cfg c) es) z chain) in
      (v.conn, eq ∙ ap (λ es. c.snd_retrans ++ es) none_left ∙ append-nil c.snd_retrans, v.snd_nxt)

  Promised : Sending × Result SendError ℕ → Type 0
  Promised r = IsResult cfg c bytes r.0.conn r.1

  looped_lem :
      (now_ns : ℕ) (r : Sending × Bool)
      → length bytes < u32_mod
      → c.snd_una < u32_mod
      → IsLooped cfg c bytes hn hw hm r
      → Promised (
          if r.1
          then (r.0, err send_buffer_full)
          else (end_send cfg bytes now_ns r.0, ok r.0.accepted))
  unfolding IsLooped IsResult Promised
  looped_lem now_ns (st, false) hb hu (v, f) = end_send-IsSent now_ns st hb hu v
  looped_lem now_ns (st, true) hb hu (v, inl f) = absurd (ground (arith, f))
  looped_lem now_ns (st, true) hb hu (v, inr z) = refused_lem send_buffer_full st z v

  -- What `send_bytes` accepts is a prefix of the bytes that fits the peer's window and the send buffer;
  -- the entries that it puts in flight cover exactly that prefix of the sequence space, in order and in
  -- segments of one to MSS bytes, and `snd_nxt` moves over it; a short count is remembered for the
  -- application; an error puts nothing in flight. Nothing else of the connection changes but its timers.
  -- For numbers that fit their width.
  pub send_bytes-IsResult :
      (attempt : ℕ → Attempt) (now_ns : ℕ) (wheel : TimerWheel) (ring : List (ℕ × List ℕ))
      (refs : Refs) (counters : SendCounters)
      → length bytes < u32_mod
      → c.snd_una < u32_mod
      → let r = send_bytes cfg bytes attempt now_ns c wheel ring refs counters in
        IsResult cfg c bytes r.0.conn r.1
  unfolding send_bytes Promised
  send_bytes-IsResult attempt now_ns wheel ring refs counters hb hu =
      let st = start cfg c bytes wheel ring refs counters in
      let begun = start-IsSending cfg c bytes hn hw hm wheel ring refs counters in
      let looped = send_loop cfg c bytes attempt (sendable cfg c bytes) st in
      let v = send_loop-IsLooped cfg c bytes hn hw hm attempt (sendable cfg c bytes) st begun in
      if_either Promised (is_established c.state) _ (st, err invalid_conn_handle)
        (λ e. looped_lem now_ns looped hb hu v) (λ e. refused_lem invalid_conn_handle st refl begun)
