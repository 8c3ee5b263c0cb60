-- ===== src/Input/Steps.antt =====
-- The close path as a whole makes a step.
use resd_dpdk_tcp.Base.{
  ℕ, ◌-◌, ◌≡◌, inl, inr, Bool, true, false, not, ◌&&◌, ◌||◌, Option, none, some, ltb, ◌==◌,
  if◌then◌else◌, wrapping_add32, refl, sym, ap, ◌∙◌, subst, Bool-cases, Option-cases,
}
use resd_dpdk_tcp.Seq.{seq_lt, seq_le}
use resd_dpdk_tcp.Options.{TcpOpts}
use resd_dpdk_tcp.Net.{Result, ok, err, has_bit}
use resd_dpdk_tcp.Net.Segment.{ParsedSegment, tcp_rst, tcp_ack}
use resd_dpdk_tcp.Conn.{TcpConn, fin_has_been_acked}
use resd_dpdk_tcp.Input.{Outcome, base}
use resd_dpdk_tcp.Input.Closing.{
  ts_recent_expiry_ns, is_in_window, options_of, check_paws, check_timestamps, accept, process,
  handle_close_path, peer_has_fin, is_time_wait,
}
use resd_dpdk_tcp.Input.Edges.{IsEdge, on_reset, Kept, Kept-refl, IsStep}
use resd_dpdk_tcp.Input.Accept.{stays, acked-Kept, accept-IsStep}

-- What the timestamp check leaves to the rest, and what it answers itself.
abbrev pub Checked : TcpConn → Result Outcome (TcpConn × Bool) → Type 0
Checked c (err o) =
    (o.new_state ≡ none) × (o.delivered ≡ 0) × ((o.bad_option || o.paws_rejected) ≡ true)
Checked c (ok (d, expired)) = Kept c d

check_paws-Checked :
    (c : TcpConn) (seg : ParsedSegment) (ts_val now_ns : ℕ)
    → Checked c (check_paws c seg ts_val now_ns)
unfolding check_paws
check_paws-Checked c seg ts_val now_ns =
    elim (Bool-cases
      (not (c.ts_recent_age == 0) && ltb ts_recent_expiry_ns (now_ns - c.ts_recent_age))) [
        | inl p ↦ rw p (record {
          state = refl;
          snd_una = refl;
          snd_nxt = refl;
          rcv_nxt = refl;
          our_fin_seq = refl;
          recv = refl;
        })
        | inr p ↦ elim (Bool-cases (seq_lt ts_val c.ts_recent)) [
          | inl q ↦ rw (p, q) (refl, refl, refl)
          | inr q ↦ elim (Bool-cases (seq_le seg.seq c.rcv_nxt)) [
            | inl r ↦
                rw (p, q, r)
                  (record {
                    state = refl;
                    snd_una = refl;
                    snd_nxt = refl;
                    rcv_nxt = refl;
                    our_fin_seq = refl;
                    recv = refl;
                  })
            | inr r ↦ rw (p, q, r) (Kept-refl c)
          ]
        ]
      ]

kept-Checked : (c : TcpConn) → Checked c (ok (c, false))
kept-Checked c = Kept-refl c

either-Checked :
    (c : TcpConn) (b : Bool) (x y : Result Outcome (TcpConn × Bool))
    → Checked c x
    → Checked c y
    → Checked c (if b then x else y)
either-Checked c true x y p q = p
either-Checked c false x y p q = q

stamp-Checked :
    (c : TcpConn) (seg : ParsedSegment) (now_ns : ℕ) (o : Option (ℕ × ℕ))
    → Checked c (elim o [
      | none ↦ err (record base { bad_option = true })
      | some (ts_val, ts_ecr) ↦ check_paws c seg ts_val now_ns
    ])
stamp-Checked c seg now_ns none = (refl, refl, refl)
stamp-Checked c seg now_ns (some t) = check_paws-Checked c seg t.0 now_ns

pub check_timestamps-Checked :
    (c : TcpConn) (seg : ParsedSegment) (opts : TcpOpts) (now_ns : ℕ)
    → Checked c (check_timestamps c seg opts now_ns)
unfolding check_timestamps
check_timestamps-Checked c seg opts now_ns =
    either-Checked c c.ts_enabled _ (ok (c, false)) (stamp-Checked c seg now_ns opts.timestamps)
      (kept-Checked c)

-- A step from a connection that the checks left as it was.
from_Kept :
    (c d : TcpConn) (seg : ParsedSegment) (r : TcpConn × Outcome)
    → Kept c d
    → IsStep d seg r
    → IsStep c seg r
from_Kept c d seg r k v =
    let reset = has_bit seg.flags tcp_rst in
    let fin : peer_has_fin seg d ≡ peer_has_fin seg c = rw k.rcv_nxt refl in
    record {
      edge =
          subst
            (λ z. IsEdge reset (fin_has_been_acked c seg.ack) (peer_has_fin seg c) z r.1.new_state)
            k.state
            (subst (λ z. IsEdge reset (fin_has_been_acked c seg.ack) z d.state r.1.new_state) fin
              (subst (λ z. IsEdge reset z (peer_has_fin seg d) d.state r.1.new_state)
                (acked-Kept c d seg.ack k) v.edge));
      state = v.state ∙ k.state;
      rcv_nxt = elim v.rcv_nxt [
        | inl e ↦ inl (e ∙ k.rcv_nxt)
        | inr (p, e) ↦ inr (sym fin ∙ p, e ∙ ap (λ z. wrapping_add32 z 1) k.rcv_nxt)
      ];
      snd_una = elim v.snd_una [
        | inl e ↦ inl (e ∙ k.snd_una)
        | inr (p, q, e) ↦ inr (
          subst (λ z. seq_lt z seg.ack ≡ true) k.snd_una p,
          subst (λ z. seq_le seg.ack z ≡ true) k.snd_nxt q,
          e,
        )
      ];
    }

process-Checked :
    (c : TcpConn) (seg : ParsedSegment) (opts : TcpOpts) (now_ns : ℕ)
    (x : Result Outcome (TcpConn × Bool))
    → Checked c x
    → IsStep c seg (elim x [ err o ↦ (c, o) | ok (d, expired) ↦ accept d seg opts expired now_ns ])
process-Checked c seg opts now_ns (err o) h = stays c c seg o (Kept-refl c) h.0
process-Checked c seg opts now_ns (ok (d, expired)) h =
    from_Kept c d seg (accept d seg opts expired now_ns) h (accept-IsStep d seg opts expired now_ns)

process-IsStep :
    (c : TcpConn) (seg : ParsedSegment) (now_ns : ℕ) → IsStep c seg (process c seg now_ns)
unfolding process
process-IsStep c seg now_ns = elim (Option-cases (options_of seg)) [
  | inl e ↦ rw (e, process) (stays c c seg _ (Kept-refl c) refl)
  | inr (opts, e) ↦
      rw (e, process)
        (process-Checked c seg opts now_ns (check_timestamps c seg opts now_ns)
          (check_timestamps-Checked c seg opts now_ns))
]

-- On every segment the close path takes an edge of the state machine or none; it moves `rcv_nxt` over
-- the FIN of the peer only when that is next in line, and `snd_una` only to an acknowledgement of data
-- in flight.
pub handle_close_path-IsStep :
    (c : TcpConn) (seg : ParsedSegment) (now_ns : ℕ) → IsStep c seg (handle_close_path c seg now_ns)
unfolding handle_close_path
handle_close_path-IsStep c seg now_ns =
    let quiet : (o : Outcome) → o.new_state ≡ none → IsStep c seg (c, o) =
      λ o. stays c c seg o (Kept-refl c) in
    elim (Bool-cases (has_bit seg.flags tcp_rst)) [
      | inl p ↦
          rw p (record { edge = on_reset p; state = refl; rcv_nxt = inl refl; snd_una = inl refl })
      | inr p ↦ elim (Bool-cases (is_time_wait c.state)) [
        | inl t ↦ rw (p, t) (quiet _ refl)
        | inr t ↦ elim (Bool-cases (has_bit seg.flags tcp_ack)) [
          | inr a ↦ rw (p, t, a) (quiet _ refl)
          | inl a ↦ elim (Bool-cases (is_in_window c seg)) [
            | inr w ↦ rw (p, t, a, w) (quiet _ refl)
            | inl w ↦ rw (p, t, a, w) (process-IsStep c seg now_ns)
          ]
        ]
      ]
    ]
