-- ===== src/Engine/Drained.antt =====
-- The loop of `send_bytes` ends, and sends everything when nothing fails.
use resd_dpdk_tcp.Base.{
  ℕ, zero, suc, ◌+◌, ◌-◌, ◌≤◌, ◌<◌, ◌≡◌, inl, inr, min, Bool, true, false, some, List, length,
  replicate, drop, ◌==◌, if◌then◌else◌, arith, refl, ap, ◌∙◌, as_u32, u16_mod, u32_mod,
  wrapping_add32, Bool-cases, Option-cases, length-take,
}
use resd_dpdk_tcp.Options.Encode.{encoded_len}
use resd_dpdk_tcp.Net.{Result, ok, err}
use resd_dpdk_tcp.Reassembly.{Refs}
use resd_dpdk_tcp.TimerWheel.{TimerWheel}
use resd_dpdk_tcp.Conn.{TcpConn, established}
use resd_dpdk_tcp.Output.{build_segment}
use resd_dpdk_tcp.Output.Matches.{build_segment-none}
use resd_dpdk_tcp.Engine.Send.{
  SendConfig, SendError, Attempt, SendCounters, Sending, next, mss_cap, sendable, send_buffer_full,
  invalid_conn_handle, is_established, data_segment, push_frame, send_round, send_loop, start,
  end_send, send_bytes,
}

-- The pool gives an mbuf with room in every round.
pub record IsServed (attempt : ℕ → Attempt) : Type 0 where
  pub mbuf : (i : ℕ) → (m : ℕ) × ((attempt i).mbuf ≡ some m)
  pub appended : (i : ℕ) → (attempt i).appended ≡ true

abbrev Returns : ℕ → Sending × Result SendError ℕ → Type 0
Returns n r = r.1 ≡ ok n

module _ (cfg : SendConfig) (c : TcpConn) (bytes : List ℕ) (hm : mss_cap cfg c + 52 < u16_mod) where
  options_lem :
      (a : Attempt) (offset cur_seq n : ℕ)
      → encoded_len (data_segment cfg c bytes offset a cur_seq n).options ≤ 12
  unfolding encoded_len
  options_lem a offset cur_seq n = ground arith

  length-replicate : (n a : ℕ) → length (replicate n a) ≡ n
  length-replicate zero a = refl
  length-replicate (suc n) a = omega (arith, length-replicate n a)

  room : (n : ℕ) → length (replicate {A = ℕ} (54 + 40 + n) 0) ≡ 94 + n
  room n = omega (arith, length-replicate (54 + 40 + n) 0)

  built_lem :
      (a : Attempt) (offset cur_seq n : ℕ)
      → n ≤ mss_cap cfg c
      → (built : List ℕ × ℕ) × (build_segment
            (data_segment cfg c bytes offset a cur_seq n)
            (replicate (54 + 40 + n) 0)
          ≡ some built)
  built_lem a offset cur_seq n h =
      let seg = data_segment cfg c bytes offset a cur_seq n in
      let small = options_lem a offset cur_seq n in
      let len = length-take n (drop offset bytes) in
      elim (Option-cases (build_segment seg (replicate (54 + 40 + n) 0))) [
        | inl e ↦
            let why =
              (build_segment-none seg (replicate (54 + 40 + n) 0) (omega (arith, small, len))).0
                e in
            absurd (elim why [
              | inl short ↦ omega (arith, small, len, short, room n)
              | inr long ↦ omega (arith, small, len, long)
            ])
        | inr (built, e) ↦ (built, e)
      ]

  served_lem :
      (a : Attempt) (m : ℕ) (frame : List ℕ) (n : ℕ) (st : Sending)
      → let taken = min st.remaining (mss_cap cfg c) in
        build_segment
            (data_segment cfg c bytes st.offset a st.cur_seq taken)
            (replicate (54 + 40 + taken) 0)
          ≡ some (frame, n)
        → a.mbuf ≡ some m
        → a.appended ≡ true
        → send_round cfg c bytes a st ≡ next (push_frame cfg taken a m frame n st)
  unfolding send_round
  served_lem a m frame n st e f g = rw (e, f, g, send_round) refl

  send_round-next :
      (a : Attempt) (m : ℕ) (st : Sending)
      → a.mbuf ≡ some m
      → a.appended ≡ true
      → (s : Sending) × (send_round cfg c bytes a st ≡ next s)
        × (s.remaining ≡ st.remaining - min st.remaining (mss_cap cfg c))
        × (s.accepted ≡ wrapping_add32 st.accepted (as_u32 (min st.remaining (mss_cap cfg c))))
  unfolding push_frame
  send_round-next a m st f g =
      let taken = min st.remaining (mss_cap cfg c) in
      let ((frame, n), e) = built_lem a st.offset st.cur_seq taken (omega arith) in
      (push_frame cfg taken a m frame n st, served_lem a m frame n st e f g, refl, refl)

  send_loop-all :
      (attempt : ℕ → Attempt) (fuel : ℕ) (st : Sending)
      → IsServed attempt
      → st.remaining ≤ fuel
      → st.accepted + st.remaining < u32_mod
      → ((send_loop cfg c bytes attempt fuel st).1 ≡ false)
        × ((send_loop cfg c bytes attempt fuel st).0.accepted ≡ st.accepted + st.remaining)
  unfolding send_loop
  send_loop-all attempt zero st v h k = (refl, omega arith)
  send_loop-all attempt (suc fuel) st v h k = elim (Bool-cases (st.remaining == 0)) [
    | inl e ↦ rw e (refl, ground arith)
    | inr e ↦
        let (m, f) = v.mbuf fuel in
        let (s, eq, left, sum) = send_round-next (attempt fuel) m st f (v.appended fuel) in
        let (done, all) =
          send_loop-all attempt fuel s v (ground (arith, left)) (ground (arith, left, sum)) in
        rw (e, eq) (done, all ∙ ground (arith, left, sum))
  ]

  ended :
      (now_ns : ℕ) (b : Bool) (r : Sending × Bool) (st : Sending) (n : ℕ)
      → b ≡ true
      → r.1 ≡ false
      → r.0.accepted ≡ n
      → Returns n (
          if b
          then (if r.1
              then (r.0, err send_buffer_full)
              else (end_send cfg bytes now_ns r.0, ok r.0.accepted))
          else (st, err invalid_conn_handle))
  ended now_ns true (s, false) st n hb hr e = ap (λ n. ok n) e
  ended now_ns true (s, true) st n hb hr e = absurd (ground (arith, hr))
  ended now_ns false r st n hb hr e = absurd (ground (arith, hb))

  -- When the pool serves every round and the connection is established, `send_bytes` accepts all that
  -- the bytes, the peer's window and the send buffer allow: the loop ends by itself. For an MSS whose
  -- datagrams fit 16 bits.
  pub send_bytes-all :
      (attempt : ℕ → Attempt) (now_ns : ℕ) (wheel : TimerWheel) (ring : List (ℕ × List ℕ))
      (refs : Refs) (counters : SendCounters)
      → IsServed attempt
      → c.state ≡ established
      → length bytes < u32_mod
      → (send_bytes cfg bytes attempt now_ns c wheel ring refs counters).1
        ≡ ok (sendable cfg c bytes)
  unfolding send_bytes
  send_bytes-all attempt now_ns wheel ring refs counters v opened hb =
      let st = start cfg c bytes wheel ring refs counters in
      let (done, all) =
        send_loop-all attempt (sendable cfg c bytes) st v (omega arith) (omega arith) in
      ended now_ns (is_established c.state)
        (send_loop cfg c bytes attempt (sendable cfg c bytes) st) st (sendable cfg c bytes)
        (ap is_established opened) done (all ∙ omega arith)
