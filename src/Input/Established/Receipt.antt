-- ===== src/Input/Established/Receipt.antt =====
-- What `handle_established` does to a connection.
use resd_dpdk_tcp.Base.{
  ℕ, ◌+◌, ◌≤◌, ◌<◌, ◌≡◌, ◌⊎◌, inl, inr, Bool, true, false, ◌&&◌, ◌||◌, Option, none, some, length,
  ◌==◌, arith, refl, ap, sym, subst, ◌∙◌, u16_mod, u32_mod, All, Bool-cases, and-true,
  wrapping_add32,
}
use resd_dpdk_tcp.Seq.{seq_lt, seq_le}
use resd_dpdk_tcp.Reassembly.{Refs}
use resd_dpdk_tcp.Reassembly.Delivered.{out_len}
use resd_dpdk_tcp.Buffers.Room.{IsWithin}
use resd_dpdk_tcp.Net.{has_bit}
use resd_dpdk_tcp.Net.Segment.{ParsedSegment, tcp_rst, tcp_ack, tcp_urg}
use resd_dpdk_tcp.Conn.{TcpState, closed, close_wait, TcpConn}
use resd_dpdk_tcp.Input.{Outcome}
use resd_dpdk_tcp.Input.Closing.{fin_of, is_in_window}
use resd_dpdk_tcp.Input.Deliver.{Received}
use resd_dpdk_tcp.Input.Established.{Context, early_drop, takes_fin, finish}
use resd_dpdk_tcp.Input.Established.Una.{Moves}
use resd_dpdk_tcp.Input.Established.Accounted.{Delivers}

-- The next state: none, or CLOSED on a reset, or CLOSE_WAIT on a FIN.
pub data DataEdge (seg : ParsedSegment) : Option TcpState → Type 0 where
  stays : DataEdge seg none
  on_reset : has_bit seg.flags tcp_rst ≡ true → DataEdge seg (some closed)
  on_fin : fin_of seg ≡ true → DataEdge seg (some close_wait)

-- The FIN takes one number of the sequence space.
abbrev pub fin_len : Option TcpState → ℕ
fin_len (some close_wait) = 1
fin_len _ = 0

abbrev pub Reply : Type 0
Reply = TcpConn × Outcome × Refs

-- The outcomes of the early returns, but for the one of a segment without an acknowledgement.
abbrev pub is_refused : Outcome → Bool
is_refused o =
    o.urgent_dropped || o.is_closed || o.bad_seq || o.bad_option || o.paws_rejected || o.bad_ack

either_refuses : (a b c d e f : Bool) → (d || e) ≡ true → (a || b || c || d || e || f) ≡ true
either_refuses true b c d e f h = refl
either_refuses false true c d e f h = refl
either_refuses false false true d e f h = refl
either_refuses false false false true e f h = refl
either_refuses false false false false true f h = refl
either_refuses false false false false false f h = absurd (ground arith)

-- A drop by the options or by PAWS is among them.
pub refused_by_options :
    (o : Outcome) → (o.bad_option || o.paws_rejected) ≡ true → is_refused o ≡ true
refused_by_options o h =
    either_refuses o.urgent_dropped o.is_closed o.bad_seq o.bad_option o.paws_rejected o.bad_ack h

abbrev pub Unanswered : ParsedSegment → Outcome → Type 0
Unanswered seg o = (has_bit seg.flags tcp_ack ≡ false) ⊎ (is_refused o ≡ true)

pub record IsReceipt (c : TcpConn) (seg : ParsedSegment) (r : Reply) : Type 0 where
  pub state : r.0.state ≡ c.state
  pub edge : DataEdge seg r.1.new_state
  pub snd_nxt : r.0.snd_nxt ≡ c.snd_nxt
  pub snd_una :
      (r.0.snd_una ≡ c.snd_una)
      ⊎ ((seq_lt c.snd_una seg.ack ≡ true)
          × (seq_le seg.ack c.snd_nxt ≡ true)
          × (r.0.snd_una ≡ seg.ack))
  pub rcv_nxt : r.0.rcv_nxt ≡ wrapping_add32 c.rcv_nxt (r.1.delivered + fin_len r.1.new_state)
  pub fin :
      seg.seq ≡ c.rcv_nxt
      → fin_of seg ≡ true
      → Unanswered seg r.1 ⊎ (r.1.new_state ≡ some close_wait)
  pub cap : r.0.recv.cap ≡ c.recv.cap
  pub count : out_len r.0.recv.bytes ≡ out_len c.recv.bytes + r.1.delivered
  pub within : out_len r.0.recv.bytes ≤ c.recv.cap

-- A drop: the outcome delivers nothing and takes no FIN.
abbrev pub Drops : ParsedSegment → Outcome → Type 0
Drops seg o =
    (o.delivered ≡ 0) × (fin_len o.new_state ≡ 0) × DataEdge seg o.new_state × Unanswered seg o

-- The same of an early return, if there is one.
abbrev pub MayDrop : ParsedSegment → Option Outcome → Type 0
MayDrop seg none = Unit
MayDrop seg (some o) = Drops seg o

pub early_drop-MayDrop : (c : TcpConn) (seg : ParsedSegment) → MayDrop seg (early_drop c seg)
unfolding early_drop
early_drop-MayDrop c seg =
    let zero_window = seg.window == 0 in
    elim (Bool-cases (has_bit seg.flags tcp_urg)) [
      | inl u ↦ rw u (refl, refl, stays, inr refl)
      | inr u ↦ elim (Bool-cases (has_bit seg.flags tcp_rst)) [
        | inl p ↦ rw (u, p) (refl, refl, on_reset p, inr refl)
        | inr p ↦ elim (Bool-cases (has_bit seg.flags tcp_ack)) [
          | inr a ↦ rw (u, p, a) (refl, refl, stays, inl a)
          | inl a ↦ elim (Bool-cases (is_in_window c seg)) [
            | inr w ↦ rw (u, p, a, w) (refl, refl, stays, inr refl)
            | inl w ↦ rw (u, p, a, w) tt
          ]
        ]
      ]
    ]

module _ (c : TcpConn) (seg : ParsedSegment) (ctx : Context) (v : IsWithin c.recv)
    (hr : c.rcv_nxt < u32_mod) (small : length seg.payload < u16_mod)
    (all : All (λ l. l.data_len < u16_mod) ctx.chain.1) where
  -- A connection that only its acknowledgement moved.
  pub moved_IsReceipt :
      (d : TcpConn) (o : Outcome) (refs : Refs)
      → Moves c d seg
      → Drops seg o
      → IsReceipt c seg (d, o, refs)
  moved_IsReceipt d o refs m (none_delivered, no_fin, edge, unanswered) = record {
    state = m.state;
    edge = edge;
    snd_nxt = m.snd_nxt;
    snd_una = m.snd_una;
    rcv_nxt = omega (arith, m.rcv_nxt, none_delivered, no_fin);
    fin = λ h k. inl unanswered;
    cap = ap (λ q. q.cap) m.recv;
    count = ap (λ q. out_len q.bytes) m.recv ∙ omega (arith, none_delivered);
    within = subst (λ q. out_len q.bytes ≤ c.recv.cap) (sym m.recv) v.within;
  }

  moved_una :
      (d : TcpConn) (r : Received)
      → Moves c d seg
      → Delivers d r
      → (r.conn.snd_una ≡ c.snd_una)
        ⊎ ((seq_lt c.snd_una seg.ack ≡ true)
            × (seq_le seg.ack c.snd_nxt ≡ true)
            × (r.conn.snd_una ≡ seg.ack))
  moved_una d r m e = elim m.snd_una [
    | inl k ↦ inl (e.snd_una ∙ k)
    | inr (p, q, k) ↦ inr (p, q, e.snd_una ∙ k)
  ]

  not_both :
      {x y : ℕ} (w : ℕ)
      → seg.seq ≡ c.rcv_nxt
      → fin_of seg ≡ true
      → x ≡ c.rcv_nxt
      → y ≡ wrapping_add32 x w
      → (fin_of seg && (wrapping_add32 seg.seq w == y)) ≡ false
      → ⊥
  not_both w h k dn rn f = ground arith

  pub finish-IsReceipt :
      (d : TcpConn) (r : Received) (refs : Refs)
      → Moves c d seg
      → Delivers d r
      → IsReceipt c seg ((finish seg r).0, (finish seg r).1, refs)
  unfolding finish
  finish-IsReceipt d r refs m e =
      let dn : d.rcv_nxt ≡ c.rcv_nxt = m.rcv_nxt in
      let rn : r.conn.rcv_nxt ≡ wrapping_add32 d.rcv_nxt r.delivered = e.rcv_nxt in
      let una = moved_una d r m e in
      let cap = e.cap ∙ ap (λ q. q.cap) m.recv in
      let count = e.count ∙ ap (λ q. out_len q.bytes + r.delivered) m.recv in
      let within = subst (λ q. out_len r.conn.recv.bytes ≤ q.cap) m.recv e.within in
      elim (Bool-cases (takes_fin seg r)) [
        | inl f ↦ rw f (record {
          state = e.state ∙ m.state;
          edge = on_fin (and-true (fin_of seg) _ f).0;
          snd_nxt = e.snd_nxt ∙ m.snd_nxt;
          snd_una = una;
          rcv_nxt = omega (arith, dn, rn);
          fin = λ h k. inr refl;
          cap = cap;
          count = count;
          within = within;
        })
        | inr f ↦
            let not_next : seg.seq ≡ c.rcv_nxt → fin_of seg ≡ true → ⊥ =
              λ h k. not_both r.delivered h k dn rn f in
            rw f (record {
              state = e.state ∙ m.state;
              edge = stays;
              snd_nxt = e.snd_nxt ∙ m.snd_nxt;
              snd_una = una;
              rcv_nxt = omega (arith, dn, rn);
              fin = λ h k. absurd (not_next h k);
              cap = cap;
              count = count;
              within = within;
            })
      ]
