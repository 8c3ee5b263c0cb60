-- ===== src/Engine/Answers.antt =====
-- What a reset answers, and how its receiver takes it.
use resd_dpdk_tcp.Base.{
  ℕ, ◌+◌, ◌/◌, ◌%◌, ◌⊎◌, ◌<◌, ◌≡◌, Bool, true, false, Option, none, some, List, [], ◌++◌, length,
  replicate, arith, refl, u16_mod, u32_mod, wrapping_add32, Bool-cases, inl, inr,
}
use resd_dpdk_tcp.Options.{default_opts}
use resd_dpdk_tcp.Options.Encode.{encoded_len}
use resd_dpdk_tcp.Options.RoundTrip.{wire}
use resd_dpdk_tcp.Net.{has_bit}
use resd_dpdk_tcp.Net.Segment.{ParsedSegment, tcp_ack, tcp_rst, tcp_syn}
use resd_dpdk_tcp.FlowTable.{FourTuple}
use resd_dpdk_tcp.Conn.{TcpConn}
use resd_dpdk_tcp.Output.{SegmentTx, build_segment}
use resd_dpdk_tcp.Output.Parsed.{IsSendable, received, take-prefix}
use resd_dpdk_tcp.Output.Received.{IsReceived, Reads, received-Reads}
use resd_dpdk_tcp.Seq.{seq_le}
use resd_dpdk_tcp.Input.{close_with, no_tx}
use resd_dpdk_tcp.Input.Handshake.{acks_syn, handle_syn_sent}
use resd_dpdk_tcp.Output.Built.{build_segment-IsReceived}
use resd_dpdk_tcp.Engine.Resets.{reset_segment, ack_past, transmit_reset, send_rst_unmatched}

-- The part of `IsSendable` that the numbers of a reset decide.
pub record IsWords (t : FourTuple) : Type 0 where
  pub local_ip : t.local_ip < u32_mod
  pub peer_ip : t.peer_ip < u32_mod
  pub local_port : t.local_port < u16_mod
  pub peer_port : t.peer_port < u16_mod

-- RFC 9293, SEG.LEN: the bytes of the payload, and one for SYN and for FIN.
abbrev pub seg_len : ParsedSegment → ℕ
seg_len p = length p.payload + p.flags / 2 % 2 + p.flags % 2

-- RFC 9293, 3.10.7.1: the reset that answers a segment without a connection. A segment with ACK names the
-- number of the reset; for any other the reset has number 0 and acknowledges it as a whole.
abbrev pub Answers : ParsedSegment → ParsedSegment → Type 0
Answers incoming p =
    ((incoming.flags / 16 % 2 ≡ 1) × (p.seq ≡ incoming.ack) × (p.flags ≡ 4))
    ⊎ ((incoming.flags / 16 % 2 ≡ 0)
        × (p.seq ≡ 0)
        × (p.ack ≡ (incoming.seq + seg_len incoming) % u32_mod)
        × (p.flags ≡ 20))

-- The frame carries such a reset to the peer, from the port of the segment to that which sent it, and
-- the reset is not answered by another one.
abbrev pub IsFinal :
    List ℕ → List ℕ → FourTuple → FourTuple → ParsedSegment → Option (List ℕ) × ℕ → Type 0
IsFinal our_mac gateway_mac t tuple incoming r =
    (frame : List ℕ) × (p : ParsedSegment) × (r.0 ≡ some frame)
    × Reads frame our_mac gateway_mac t.local_ip t.peer_ip p
    × Answers incoming p
    × (p.src_port ≡ t.local_port)
    × (p.dst_port ≡ t.peer_port)
    × ((send_rst_unmatched gateway_mac our_mac tuple p true 0).0 ≡ none)

transmitted :
    (seg : SegmentTx) (frame rest : List ℕ) (sent : Bool) (tx_rst : ℕ)
    → build_segment seg (replicate 64 0) ≡ some (frame ++ rest, length frame)
    → (transmit_reset seg sent tx_rst).0 ≡ some frame
unfolding transmit_reset
transmitted seg frame rest sent tx_rst built =
    rw (built, transmit_reset, take-prefix frame rest) refl

module _ (our_mac gateway_mac : List ℕ) (t : FourTuple) (v : IsWords t) (ho : length our_mac ≡ 6)
    (hg : length gateway_mac ≡ 6) where
  transmit_lem :
      (seq ack flags : ℕ) (sent : Bool) (tx_rst : ℕ)
      → IsSendable (reset_segment our_mac gateway_mac t seq ack flags)
      → (frame : List ℕ) × ((transmit_reset
            (reset_segment our_mac gateway_mac t seq ack flags)
            sent
            tx_rst).0
          ≡ some frame)
        × IsReceived (reset_segment our_mac gateway_mac t seq ack flags) frame
  unfolding encoded_len
  transmit_lem seq ack flags sent tx_rst w =
      let (frame, built, is) =
        build_segment-IsReceived (reset_segment our_mac gateway_mac t seq ack flags) w ho hg
          (omega arith) (omega arith) (omega arith) (replicate 64 0) (omega arith) in
      (
        frame,
        transmitted (reset_segment our_mac gateway_mac t seq ack flags) frame _ sent tx_rst built,
        is,
      )

  sendable_lem :
      (seq ack flags : ℕ)
      → seq < u32_mod
      → ack < u32_mod
      → (has_bit flags tcp_syn ≡ false)
      → IsSendable (reset_segment our_mac gateway_mac t seq ack flags)
  sendable_lem seq ack flags hs ha f = record {
    src_ip = v.local_ip;
    dst_ip = v.peer_ip;
    src_port = v.local_port;
    dst_port = v.peer_port;
    seq = hs;
    ack = ha;
    window = omega arith;
    syn_fin = rw f refl;
    rst_syn = ground (arith, f);
  }

  reset_lem :
      (incoming : ParsedSegment) (seq ack flags : ℕ) (sent : Bool) (tx_rst : ℕ) (tuple : FourTuple)
      → seq < u32_mod
      → ack < u32_mod
      → has_bit flags tcp_syn ≡ false
      → has_bit flags tcp_rst ≡ true
      → Answers incoming
          (received (reset_segment our_mac gateway_mac t seq ack flags) (wire default_opts) [])
      → IsFinal our_mac gateway_mac t tuple incoming
          (transmit_reset (reset_segment our_mac gateway_mac t seq ack flags) sent tx_rst)
  unfolding send_rst_unmatched
  reset_lem incoming seq ack flags sent tx_rst tuple hs ha f r a =
      let seg = reset_segment our_mac gateway_mac t seq ack flags in
      let (frame, out, is) =
        transmit_lem seq ack flags sent tx_rst (sendable_lem seq ack flags hs ha f) in
      (
        frame,
        received seg (wire default_opts) [],
        out,
        received-Reads seg frame is,
        a,
        refl,
        refl,
        rw r refl,
      )

  ack_past_lem :
      (incoming : ParsedSegment) → ack_past incoming ≡ (incoming.seq + seg_len incoming) % u32_mod
  ack_past_lem incoming = ground arith

  -- A segment without a flow is answered by a frame that passes the peer's receive path as the reset of
  -- RFC 9293, between the ports of the segment, and to which a peer without a flow does not answer in
  -- turn. For a segment that is no reset itself, MAC addresses of six bytes, and addresses and numbers of
  -- their width.
  pub send_rst_unmatched-IsFinal :
      (incoming : ParsedSegment) (sent : Bool) (tx_rst : ℕ) (tuple : FourTuple)
      → incoming.ack < u32_mod
      → has_bit incoming.flags tcp_rst ≡ false
      → IsFinal our_mac gateway_mac t tuple incoming
          (send_rst_unmatched our_mac gateway_mac t incoming sent tx_rst)
  unfolding send_rst_unmatched
  send_rst_unmatched-IsFinal incoming sent tx_rst tuple ha f =
      elim (Bool-cases (has_bit incoming.flags tcp_ack)) [
        | inl e ↦
            rw (f, e)
              (reset_lem incoming incoming.ack 0 tcp_rst sent tx_rst tuple ha (omega arith) refl
                refl (inl (ground arith, refl, refl)))
        | inr e ↦
            rw (f, e)
              (reset_lem incoming 0 (ack_past incoming) (tcp_rst + tcp_ack) sent tx_rst tuple
                (omega arith) (omega arith) refl refl
                (inr (ground arith, refl, ack_past_lem incoming, refl)))
      ]

-- The reset that answers a SYN alone, which `snd_una` and `snd_nxt` enclose, is taken in SYN_SENT.
handle_syn_sent-Answers :
    (c : TcpConn) (syn p : ParsedSegment) (now_ns : ℕ) (edges : List ℕ)
    → c.snd_una < u32_mod
    → c.snd_nxt ≡ wrapping_add32 c.snd_una 1
    → syn.seq ≡ c.snd_una
    → syn.flags ≡ 2
    → length syn.payload ≡ 0
    → Answers syn p
    → handle_syn_sent c p now_ns edges ≡ (c, close_with no_tx)
unfolding handle_syn_sent seq_le
handle_syn_sent-Answers c syn p now_ns edges hu hn hs hf hl (inl (a, b, d)) =
    absurd (omega (arith, a, hf))
handle_syn_sent-Answers c syn p now_ns edges hu hn hs hf hl (inr (a, b, d, e)) =
    let number : p.ack ≡ c.snd_nxt = omega (arith, hn, hs, hf, hl, d) in
    let acks : acks_syn c p ≡ true = ground (arith, number, hn, hu) in
    let reset : has_bit p.flags tcp_rst ≡ true = ground (arith, e) in
    let flag : has_bit p.flags tcp_ack ≡ true = ground (arith, e) in rw (reset, flag, acks) refl

-- A SYN to a host without a flow for it: the host's answer passes the receive path of the connection that
-- sent the SYN, and closes that connection in SYN_SENT, without an answer in turn. For a SYN without a
-- payload, which `snd_una` and `snd_nxt` of the connection enclose, MAC addresses of six bytes, and
-- addresses and numbers of their width.
pub send_rst_unmatched-handle_syn_sent :
    (our_mac gateway_mac : List ℕ) (t : FourTuple) (syn : ParsedSegment) (sent : Bool) (tx_rst : ℕ)
    (c : TcpConn) (now_ns : ℕ) (edges : List ℕ)
    → IsWords t
    → length our_mac ≡ 6
    → length gateway_mac ≡ 6
    → c.snd_una < u32_mod
    → c.snd_nxt ≡ wrapping_add32 c.snd_una 1
    → syn.seq ≡ c.snd_una
    → syn.ack < u32_mod
    → syn.flags ≡ 2
    → length syn.payload ≡ 0
    → (frame : List ℕ) × (p : ParsedSegment) × ((send_rst_unmatched our_mac gateway_mac t syn sent
          tx_rst).0
        ≡ some frame)
      × Reads frame our_mac gateway_mac t.local_ip t.peer_ip p
      × (handle_syn_sent c p now_ns edges ≡ (c, close_with no_tx))
send_rst_unmatched-handle_syn_sent our_mac gateway_mac t syn sent tx_rst c now_ns edges v ho hg hu
      hn hs ha hf hl =
    let no_reset : has_bit syn.flags tcp_rst ≡ false = ground (arith, hf) in
    let r =
      send_rst_unmatched-IsFinal our_mac gateway_mac t v ho hg syn sent tx_rst t ha no_reset in
    (r.0, r.1, r.2, r.3, handle_syn_sent-Answers c syn r.1 now_ns edges hu hn hs hf hl r.4)
