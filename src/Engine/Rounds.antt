-- ===== src/Engine/Rounds.antt =====
-- The loop of `send_bytes`, round by round.
use resd_dpdk_tcp.Base.{
  ℕ, zero, suc, ◌+◌, ◌≤◌, ◌<◌, ◌≡◌, ◌⊎◌, inl, inr, min, Bool, false, List, [], ◌∷◌, ◌++◌, replicate,
  ◌==◌, arith, refl, ap, sym, subst, ◌∙◌, as_u16, as_u32, u16_mod, u32_mod, wrapping_add32,
  Bool-cases, Option-cases,
}
use resd_dpdk_tcp.Retrans.{RetransEntry, push_after_tx}
use resd_dpdk_tcp.TimerWheel.{TimerWheel}
use resd_dpdk_tcp.Reassembly.{Refs}
use resd_dpdk_tcp.Conn.{TcpConn}
use resd_dpdk_tcp.Conn.Probes.{is_empty}
use resd_dpdk_tcp.Output.{build_segment}
use resd_dpdk_tcp.Output.Matches.{append_assoc}
use resd_dpdk_tcp.Engine.Chain.{rest_of, arm_rto-SameRest, append-nil, IsChain, append-IsChain}
use resd_dpdk_tcp.Engine.Send.{
  SendConfig, Attempt, count, after, SendCounters, Sending, mss_cap, sendable, data_segment,
  entry_of, push_frame, Round, next, stop, refuse, drop_nomem, send_round, send_loop, start,
}

module _ (cfg : SendConfig) (c : TcpConn) (bytes : List ℕ) (hn : c.snd_nxt < u32_mod)
    (hw : c.snd_wnd < u32_mod) (hm : c.peer_mss < u16_mod) where
  -- The state of the loop: what was accepted is in flight, and nothing else of the connection but its
  -- timer changed.
  pub record IsSending (st : Sending) : Type 0 where
    pub offset : st.offset ≡ st.accepted
    pub total : st.accepted + st.remaining ≡ sendable cfg c bytes
    pub cur_seq : st.cur_seq ≡ wrapping_add32 c.snd_nxt st.accepted
    pub conn : rest_of st.conn ≡ rest_of c
    pub snd_nxt : st.conn.snd_nxt ≡ c.snd_nxt
    pub entries :
        (es : List RetransEntry) × (st.conn.snd_retrans ≡ c.snd_retrans ++ es)
        × IsChain c.snd_nxt (mss_cap cfg c) es st.accepted

  pub start-IsSending :
      (wheel : TimerWheel) (ring : List (ℕ × List ℕ)) (refs : Refs) (counters : SendCounters)
      → IsSending (start cfg c bytes wheel ring refs counters)
  start-IsSending wheel ring refs counters = record {
    offset = refl;
    total = omega arith;
    cur_seq = omega arith;
    conn = refl;
    snd_nxt = refl;
    entries = ([], sym (append-nil c.snd_retrans), refl);
  }

  push_frame-IsSending :
      (a : Attempt) (mbuf : ℕ) (frame : List ℕ) (n : ℕ) (st : Sending)
      → 1 ≤ st.remaining
      → IsSending st
      → IsSending (push_frame cfg (min st.remaining (mss_cap cfg c)) a mbuf frame n st)
  unfolding push_frame push_after_tx
  push_frame-IsSending a mbuf frame n st h v =
      let taken = min st.remaining (mss_cap cfg c) in
      let entry = entry_of st.cur_seq taken mbuf a.first_tx_ts_ns n in
      let pushed = record st.conn { snd_retrans = st.conn.snd_retrans ++ (entry ∷ []) } in
      let (rest, retrans, nxt, pending) =
        arm_rto-SameRest cfg (is_empty st.conn.snd_retrans) a.first_tx_ts_ns pushed st.wheel in
      let (es, eq, chain) = v.entries in
      let total = v.total in
      let cur_seq = v.cur_seq in
      let len : as_u16 taken ≡ taken = omega arith in
      let sum : wrapping_add32 st.accepted (as_u32 taken) ≡ st.accepted + as_u16 taken =
        omega (arith, total) in
      record {
        offset = omega (arith, v.offset, total);
        total = omega (arith, total);
        cur_seq = omega (arith, cur_seq, total);
        conn = rest ∙ v.conn;
        snd_nxt = nxt ∙ v.snd_nxt;
        entries = (
          es ++ (entry ∷ []),
          retrans ∙ ap (λ z. z ++ (entry ∷ [])) eq ∙ append_assoc c.snd_retrans es (entry ∷ []),
          subst (IsChain c.snd_nxt (mss_cap cfg c) (es ++ (entry ∷ []))) (sym sum) (
              append-IsChain c.snd_nxt (mss_cap cfg c) es entry st.accepted hn cur_seq (omega arith)
                (omega arith) chain),
        );
      }

  -- How a round ends.
  IsRound : Sending → Round → Type 0
  IsRound st (next s) = IsSending s × (s.remaining < st.remaining)
  IsRound st (stop s) = IsSending s
  IsRound st (refuse s) = IsSending s × (s.accepted ≡ 0)

  drop_nomem-IsRound : (st : Sending) → IsSending st → IsRound st (drop_nomem st)
  unfolding IsRound
  drop_nomem-IsRound st v =
      let dropped : IsSending (record st {
        counters = record st.counters { tx_drop_nomem = count st.counters.tx_drop_nomem 1 };
      }) =
        record {
          offset = v.offset;
          total = v.total;
          cur_seq = v.cur_seq;
          conn = v.conn;
          snd_nxt = v.snd_nxt;
          entries = v.entries;
        } in
      elim (Bool-cases (st.accepted == 0)) [
        | inl e ↦ rw e (dropped, ground arith)
        | inr e ↦ rw e dropped
      ]

  send_round-IsRound :
      (a : Attempt) (st : Sending)
      → 1 ≤ st.remaining
      → IsSending st
      → IsRound st (send_round cfg c bytes a st)
  unfolding send_round IsRound push_frame
  send_round-IsRound a st h v =
      let taken = min st.remaining (mss_cap cfg c) in
      elim (Option-cases (
        build_segment (data_segment cfg c bytes st.offset a st.cur_seq taken)
          (replicate (54 + 40 + taken) 0))) [
            | inl e ↦ rw (e, send_round) v
            | inr ((frame, n), e) ↦ elim (Option-cases a.mbuf) [
              | inl f ↦ rw (e, f, send_round) (drop_nomem-IsRound st v)
              | inr (m, f) ↦ elim (Bool-cases a.appended) [
                | inl g ↦
                    rw (e, f, g, send_round) (push_frame-IsSending a m frame n st h v, omega arith)
                | inr g ↦ rw (e, f, g, send_round) (drop_nomem-IsRound st v)
              ]
            ]
          ]

  -- The loop ends in such a state, and with an error only before anything was accepted.
  unfoldable pub IsLooped : Sending × Bool → Type 0
  IsLooped r = IsSending r.0 × ((r.1 ≡ false) ⊎ (r.0.accepted ≡ 0))

  after-IsLooped :
      (rest : Sending → Sending × Bool) (st : Sending) (r : Round)
      → IsRound st r
      → ((s : Sending) → IsSending s → IsLooped (rest s))
      → IsLooped (after r rest)
  unfolding IsRound IsLooped
  after-IsLooped rest st (next s) v more = more s v.0
  after-IsLooped rest st (stop s) v more = (v, inl refl)
  after-IsLooped rest st (refuse s) (v, z) more = (v, inr z)

  pub send_loop-IsLooped :
      (attempt : ℕ → Attempt) (fuel : ℕ) (st : Sending)
      → IsSending st
      → IsLooped (send_loop cfg c bytes attempt fuel st)
  unfolding send_loop IsLooped
  send_loop-IsLooped attempt zero st v = (v, inl refl)
  send_loop-IsLooped attempt (suc fuel) st v = elim (Bool-cases (st.remaining == 0)) [
    | inl e ↦ rw e (v, inl refl)
    | inr e ↦ rw e (
        after-IsLooped (send_loop cfg c bytes attempt fuel) st
          (send_round cfg c bytes (attempt fuel) st)
          (send_round-IsRound (attempt fuel) st (ground arith) v)
          (λ s w. send_loop-IsLooped attempt fuel s w))
  ]
