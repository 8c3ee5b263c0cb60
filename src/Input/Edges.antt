-- ===== src/Input/Edges.antt =====
-- The edges that the close path takes in the state machine of RFC 9293.
use resd_dpdk_tcp.Base.{
  ℕ, ◌≡◌, ◌⊎◌, inl, inr, Bool, true, false, Option, none, some, List, [], ◌∷◌, wrapping_add32, refl,
  ◌∙◌, Bool-cases, Option-cases,
}
use resd_dpdk_tcp.Seq.{seq_lt, seq_le}
use resd_dpdk_tcp.Options.{SackBlock}
use resd_dpdk_tcp.Net.{has_bit}
use resd_dpdk_tcp.Net.Segment.{ParsedSegment, tcp_rst}
use resd_dpdk_tcp.Conn.{
  TcpState, closed, fin_wait1, fin_wait2, closing, last_ack, time_wait, established, close_wait,
  listen, syn_sent, syn_received, TcpConn, fin_has_been_acked, attribute_probe, probe_window_ns,
  attribute_dsack_to_recent_tlp_probe,
}
use resd_dpdk_tcp.Input.{Outcome, is_dsack}
use resd_dpdk_tcp.Input.Closing.{take_block, take_blocks, transition, peer_has_fin}

-- The edges, each with what the segment must have: a reset, the acknowledgement of our FIN, the FIN
-- of the peer.
pub data Edge (reset fin_acked fin : Bool) : TcpState → TcpState → Type 0 where
  on_reset : {s : TcpState} → reset ≡ true → Edge reset fin_acked fin s closed
  on_fin_acked : fin_acked ≡ true → Edge reset fin_acked fin fin_wait1 fin_wait2
  on_both : fin_acked ≡ true → fin ≡ true → Edge reset fin_acked fin fin_wait1 time_wait
  on_simultaneous : fin ≡ true → Edge reset fin_acked fin fin_wait1 closing
  on_peer_fin : fin ≡ true → Edge reset fin_acked fin fin_wait2 time_wait
  on_closing_acked : fin_acked ≡ true → Edge reset fin_acked fin closing time_wait
  on_last_acked : fin_acked ≡ true → Edge reset fin_acked fin last_ack closed

abbrev pub IsEdge : Bool → Bool → Bool → TcpState → Option TcpState → Type 0
IsEdge reset fin_acked fin s none = Unit
IsEdge reset fin_acked fin s (some t) = Edge reset fin_acked fin s t

pub transition-IsEdge : (r : Bool) (s : TcpState) (a f : Bool) → IsEdge r a f s (transition s a f).0
unfolding transition
transition-IsEdge r fin_wait1 true true = on_both refl refl
transition-IsEdge r fin_wait1 true false = on_fin_acked refl
transition-IsEdge r fin_wait1 false true = on_simultaneous refl
transition-IsEdge r fin_wait1 false false = tt
transition-IsEdge r fin_wait2 true true = on_peer_fin refl
transition-IsEdge r fin_wait2 false true = on_peer_fin refl
transition-IsEdge r fin_wait2 true false = tt
transition-IsEdge r fin_wait2 false false = tt
transition-IsEdge r closing true true = on_closing_acked refl
transition-IsEdge r closing true false = on_closing_acked refl
transition-IsEdge r closing false true = tt
transition-IsEdge r closing false false = tt
transition-IsEdge r last_ack true true = on_last_acked refl
transition-IsEdge r last_ack true false = on_last_acked refl
transition-IsEdge r last_ack false true = tt
transition-IsEdge r last_ack false false = tt
transition-IsEdge r close_wait a f = tt
transition-IsEdge r closed a f = tt
transition-IsEdge r listen a f = tt
transition-IsEdge r syn_sent a f = tt
transition-IsEdge r syn_received a f = tt
transition-IsEdge r established a f = tt
transition-IsEdge r time_wait a f = tt

-- What the checks and the SACK blocks leave alone.
pub record Kept (c d : TcpConn) : Type 0 where
  pub state : d.state ≡ c.state
  pub snd_una : d.snd_una ≡ c.snd_una
  pub snd_nxt : d.snd_nxt ≡ c.snd_nxt
  pub rcv_nxt : d.rcv_nxt ≡ c.rcv_nxt
  pub our_fin_seq : d.our_fin_seq ≡ c.our_fin_seq
  pub recv : d.recv ≡ c.recv

pub Kept-refl : (c : TcpConn) → Kept c c
Kept-refl c = record {
  state = refl;
  snd_una = refl;
  snd_nxt = refl;
  rcv_nxt = refl;
  our_fin_seq = refl;
  recv = refl;
}

pub Kept-trans : (c d e : TcpConn) → Kept c d → Kept d e → Kept c e
Kept-trans c d e p q = record {
  state = q.state ∙ p.state;
  snd_una = q.snd_una ∙ p.snd_una;
  snd_nxt = q.snd_nxt ∙ p.snd_nxt;
  rcv_nxt = q.rcv_nxt ∙ p.rcv_nxt;
  our_fin_seq = q.our_fin_seq ∙ p.our_fin_seq;
  recv = q.recv ∙ p.recv;
}

attribute-Kept :
    (c : TcpConn) (left right now_ns : ℕ)
    → Kept c (attribute_dsack_to_recent_tlp_probe c left right now_ns).0
unfolding attribute_dsack_to_recent_tlp_probe
attribute-Kept c left right now_ns =
    elim (Option-cases
      (attribute_probe left right now_ns (probe_window_ns c) c.tlp_recent_probes)) [
        | inl e ↦ rw (e, attribute_dsack_to_recent_tlp_probe) (Kept-refl c)
        | inr (ps, e) ↦
            rw (e, attribute_dsack_to_recent_tlp_probe)
              (record {
                state = refl;
                snd_una = refl;
                snd_nxt = refl;
                rcv_nxt = refl;
                our_fin_seq = refl;
                recv = refl;
              })
      ]

take_block-Kept :
    (block : SackBlock) (now_ns : ℕ) (s : TcpConn × ℕ × ℕ) → Kept s.0 (take_block block now_ns s).0
unfolding take_block
take_block-Kept block now_ns s =
    let c = s.0 in
    let seen : TcpConn = record c { rack = record c.rack { dsack_seen = true } } in
    let k = attribute-Kept seen block.left block.right now_ns in
    elim (Bool-cases (is_dsack block c.snd_una c.sack_scoreboard)) [
      | inl q ↦ rw q (record {
        state = k.state;
        snd_una = k.snd_una;
        snd_nxt = k.snd_nxt;
        rcv_nxt = k.rcv_nxt;
        our_fin_seq = k.our_fin_seq;
        recv = k.recv;
      })
      | inr q ↦ rw q (record {
        state = refl;
        snd_una = refl;
        snd_nxt = refl;
        rcv_nxt = refl;
        our_fin_seq = refl;
        recv = refl;
      })
    ]

pub take_blocks-Kept :
    (blocks : List SackBlock) (now_ns : ℕ) (s : TcpConn × ℕ × ℕ)
    → Kept s.0 (take_blocks blocks now_ns s).0
unfolding take_blocks
take_blocks-Kept [] now_ns s = Kept-refl s.0
take_blocks-Kept (block ∷ blocks) now_ns s =
    let t = take_block block now_ns s in
    Kept-trans s.0 t.0 (take_blocks blocks now_ns t).0 (take_block-Kept block now_ns s)
      (take_blocks-Kept blocks now_ns t)

-- What a handler did: an edge of the state machine if any, `rcv_nxt` over a FIN that is next in line,
-- and `snd_una` to an acknowledgement of data in flight.
pub record IsStep (c : TcpConn) (seg : ParsedSegment) (r : TcpConn × Outcome) : Type 0 where
  pub edge :
      IsEdge
        (has_bit seg.flags tcp_rst)
        (fin_has_been_acked c seg.ack)
        (peer_has_fin seg c)
        c.state
        r.1.new_state
  pub state : r.0.state ≡ c.state
  pub rcv_nxt :
      (r.0.rcv_nxt ≡ c.rcv_nxt)
      ⊎ ((peer_has_fin seg c ≡ true) × (r.0.rcv_nxt ≡ wrapping_add32 c.rcv_nxt 1))
  pub snd_una :
      (r.0.snd_una ≡ c.snd_una)
      ⊎ ((seq_lt c.snd_una seg.ack ≡ true)
          × (seq_le seg.ack c.snd_nxt ≡ true)
          × (r.0.snd_una ≡ seg.ack))
