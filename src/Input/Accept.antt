-- ===== src/Input/Accept.antt =====
-- The part of the close path behind its checks makes a step.
use resd_dpdk_tcp.Base.{
  ℕ, ◌≡◌, ◌⊎◌, inl, inr, Bool, true, false, none, if◌then◌else◌, take, wrapping_add32, refl, sym,
  ap, subst, Bool-cases,
}
use resd_dpdk_tcp.Seq.{seq_lt, seq_le}
use resd_dpdk_tcp.Options.{TcpOpts}
use resd_dpdk_tcp.Net.{has_bit}
use resd_dpdk_tcp.Net.Segment.{ParsedSegment, tcp_rst}
use resd_dpdk_tcp.Conn.{TcpConn, fin_has_been_acked}
use resd_dpdk_tcp.Input.{Outcome}
use resd_dpdk_tcp.Input.Closing.{
  take_blocks, transition, accept, advance_una, peer_has_fin, has_blocks,
}
use resd_dpdk_tcp.Input.Edges.{transition-IsEdge, Kept, Kept-refl, take_blocks-Kept, IsStep}

-- A handler that leaves the connection as far as `Kept` goes, and takes no edge.
pub stays :
    (c d : TcpConn) (seg : ParsedSegment) (o : Outcome)
    → Kept c d
    → o.new_state ≡ none
    → IsStep c seg (d, o)
stays c d seg o k n = record {
  edge = rw n tt;
  state = k.state;
  rcv_nxt = inl k.rcv_nxt;
  snd_una = inl k.snd_una;
}

blocks_taken : TcpConn → TcpOpts → ℕ → TcpConn × ℕ × ℕ
blocks_taken c opts now_ns =
    if has_blocks c opts
    then take_blocks (take opts.sack_block_count opts.sack_blocks) now_ns (c, 0, 0)
    else (c, 0, 0)

blocks_taken-Kept :
    (c : TcpConn) (opts : TcpOpts) (now_ns : ℕ) → Kept c (blocks_taken c opts now_ns).0
unfolding blocks_taken
blocks_taken-Kept c opts now_ns = elim (Bool-cases (has_blocks c opts)) [
  | inl q ↦ rw q (take_blocks-Kept (take opts.sack_block_count opts.sack_blocks) now_ns (c, 0, 0))
  | inr q ↦ rw q (Kept-refl c)
]

advance_una-cases :
    (seg : ParsedSegment) (c : TcpConn)
    → ((advance_una seg c ≡ c)
        ⊎ ((seq_lt c.snd_una seg.ack ≡ true)
            × (seq_le seg.ack c.snd_nxt ≡ true)
            × (advance_una seg c ≡ record c { snd_una = seg.ack })))
advance_una-cases seg c = elim (Bool-cases (seq_lt c.snd_una seg.ack)) [
  | inl p ↦ elim (Bool-cases (seq_le seg.ack c.snd_nxt)) [
    | inl q ↦ inr (p, q, rw (p, q) refl)
    | inr q ↦ inl (rw (p, q) refl)
  ]
  | inr p ↦ inl (rw p refl)
]

-- `snd_una` apart, the connection is as it was.
advanced-Kept :
    (seg : ParsedSegment) (c m : TcpConn)
    → Kept c m
    → ((advance_una seg m).state ≡ c.state)
      × ((advance_una seg m).rcv_nxt ≡ c.rcv_nxt)
      × (((advance_una seg m).snd_una ≡ c.snd_una)
          ⊎ ((seq_lt c.snd_una seg.ack ≡ true)
              × (seq_le seg.ack c.snd_nxt ≡ true)
              × ((advance_una seg m).snd_una ≡ seg.ack)))
advanced-Kept seg c m k = elim (advance_una-cases seg m) [
  | inl e ↦ rw e (k.state, k.rcv_nxt, inl k.snd_una)
  | inr (p, q, e) ↦
      let p' : seq_lt c.snd_una seg.ack ≡ true = subst (λ z. seq_lt z seg.ack ≡ true) k.snd_una p in
      let q' : seq_le seg.ack c.snd_nxt ≡ true = subst (λ z. seq_le seg.ack z ≡ true) k.snd_nxt q in
      rw e (k.state, k.rcv_nxt, inr (p', q', refl))
]

pub acked-Kept :
    (c m : TcpConn) (a : ℕ) → Kept c m → fin_has_been_acked m a ≡ fin_has_been_acked c a
unfolding fin_has_been_acked
acked-Kept c m a k = rw k.our_fin_seq refl

receive : Bool → TcpConn → TcpConn
receive fin a = if fin then record a { rcv_nxt = wrapping_add32 a.rcv_nxt 1 } else a

received-IsStep :
    (c a : TcpConn) (seg : ParsedSegment) (f g : Bool) (o : Outcome)
    → a.state ≡ c.state
    → a.rcv_nxt ≡ c.rcv_nxt
    → ((a.snd_una ≡ c.snd_una)
        ⊎ ((seq_lt c.snd_una seg.ack ≡ true)
            × (seq_le seg.ack c.snd_nxt ≡ true)
            × (a.snd_una ≡ seg.ack)))
    → f ≡ fin_has_been_acked c seg.ack
    → g ≡ peer_has_fin seg c
    → o.new_state ≡ (transition (receive g a).state f g).0
    → IsStep c seg (receive g a, o)
unfolding receive
received-IsStep c a seg f true o hs hr hu hf hg ho = record {
  edge = rw (ho, hs, sym hf, sym hg) (transition-IsEdge (has_bit seg.flags tcp_rst) c.state f true);
  state = hs;
  rcv_nxt = inr (sym hg, ap (λ z. wrapping_add32 z 1) hr);
  snd_una = hu;
}
received-IsStep c a seg f false o hs hr hu hf hg ho = record {
  edge =
      rw (ho, hs, sym hf, sym hg) (transition-IsEdge (has_bit seg.flags tcp_rst) c.state f false);
  state = hs;
  rcv_nxt = inl hr;
  snd_una = hu;
}

pub accept-IsStep :
    (c : TcpConn) (seg : ParsedSegment) (opts : TcpOpts) (expired : Bool) (now_ns : ℕ)
    → IsStep c seg (accept c seg opts expired now_ns)
unfolding accept receive blocks_taken
accept-IsStep c seg opts expired now_ns =
    let m = (blocks_taken c opts now_ns).0 in
    let k = blocks_taken-Kept c opts now_ns in
    let (hs, hr, hu) = advanced-Kept seg c m k in
    received-IsStep c (advance_una seg m) seg (fin_has_been_acked m seg.ack)
      (peer_has_fin seg (advance_una seg m)) (accept c seg opts expired now_ns).1 hs hr hu
      (acked-Kept c m seg.ack k) (rw hr refl) refl
