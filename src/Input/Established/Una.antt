-- ===== src/Input/Established/Una.antt =====
-- What the checks, the acknowledgement and the RACK pass leave alone, and where `snd_una` moves.
use resd_dpdk_tcp.Base.{
  ℕ, ◌≡◌, ◌⊎◌, inl, inr, Bool, true, false, ◌&&◌, ◌||◌, Option, none, some, List, ◌==◌,
  if◌then◌else◌, refl, ◌∙◌, subst, Bool-cases, if_either, and-true, as_u32, ◌*◌, ◌%◌, ◌^◌,
}
use resd_dpdk_tcp.Seq.{seq_lt, seq_le}
use resd_dpdk_tcp.Options.{TcpOpts}
use resd_dpdk_tcp.Net.Segment.{ParsedSegment}
use resd_dpdk_tcp.Conn.{TcpConn}
use resd_dpdk_tcp.Conn.Probes.{is_empty, on_rtt_sample_tlp_hook, on_new_data_ack_tlp_hook}
use resd_dpdk_tcp.Sack
use resd_dpdk_tcp.Input.Closing.{has_blocks}
use resd_dpdk_tcp.Input.Edges.{Kept, Kept-refl, Kept-trans, take_blocks-Kept}
use resd_dpdk_tcp.Input.Acking.{
  Acked, fires_writable, rtt_sample_of, absorb_sample, update_window, pop_acked, take_ack,
  is_dup_ack, process_ack,
}
use resd_dpdk_tcp.Input.Losses.{rack_pass}
use resd_dpdk_tcp.Input.Established.{take_sack}

either-Kept :
    (c : TcpConn) (b : Bool) (x y : TcpConn) → Kept c x → Kept c y → Kept c (if b then x else y)
either-Kept c true x y p q = p
either-Kept c false x y p q = q

pub take_sack-Kept :
    (c : TcpConn) (opts : TcpOpts) (now_ns : ℕ) → Kept c (take_sack c opts now_ns).0
take_sack-Kept c opts now_ns = elim (Bool-cases (has_blocks c opts)) [
  | inl b ↦ rw b (take_blocks-Kept _ now_ns (c, 0, 0))
  | inr b ↦ rw b (Kept-refl c)
]

absorb_sample-Kept :
    (sample : Option ℕ) (edges : List ℕ) (c : TcpConn) → Kept c (absorb_sample sample edges c)
unfolding absorb_sample on_rtt_sample_tlp_hook on_new_data_ack_tlp_hook
absorb_sample-Kept none edges c = record {
  state = refl;
  snd_una = refl;
  snd_nxt = refl;
  rcv_nxt = refl;
  our_fin_seq = refl;
  recv = refl;
}
absorb_sample-Kept (some rtt) edges c = record {
  state = refl;
  snd_una = refl;
  snd_nxt = refl;
  rcv_nxt = refl;
  our_fin_seq = refl;
  recv = refl;
}

update_window-Kept : (seg : ParsedSegment) (c : TcpConn) → Kept c (update_window seg c)
unfolding update_window
update_window-Kept seg c =
    either-Kept c (seq_lt c.snd_wl1 seg.seq || ((c.snd_wl1 == seg.seq) && seq_le c.snd_wl2 seg.ack))
      (record c {
        snd_wnd = as_u32 (seg.window * 2 ^ (c.ws_shift_in % 32));
        snd_wl1 = seg.seq;
        snd_wl2 = seg.ack;
      })
      c
      (record {
        state = refl;
        snd_una = refl;
        snd_nxt = refl;
        rcv_nxt = refl;
        our_fin_seq = refl;
        recv = refl;
      })
      (Kept-refl c)

prune-Kept :
    (c : TcpConn)
    → Kept c (
        if c.sack_enabled
        then record c { sack_scoreboard = Sack.prune_below c.sack_scoreboard c.snd_una }
        else c)
prune-Kept c =
    either-Kept c c.sack_enabled
      (record c { sack_scoreboard = Sack.prune_below c.sack_scoreboard c.snd_una }) c
      (record {
        state = refl;
        snd_una = refl;
        snd_nxt = refl;
        rcv_nxt = refl;
        our_fin_seq = refl;
        recv = refl;
      })
      (Kept-refl c)

unlatch-Kept :
    (b : Bool) (c : TcpConn) → Kept c (if b then record c { send_refused_pending = false } else c)
unlatch-Kept b c =
    either-Kept c b (record c { send_refused_pending = false }) c
      (record {
        state = refl;
        snd_una = refl;
        snd_nxt = refl;
        rcv_nxt = refl;
        our_fin_seq = refl;
        recv = refl;
      })
      (Kept-refl c)

pub take_ack-Kept :
    (c : TcpConn) (seg : ParsedSegment) (opts : TcpOpts) (now_ns : ℕ) (edges : List ℕ)
    (send_buffer_bytes : ℕ)
    → Kept (pop_acked seg c) (take_ack c seg opts now_ns edges send_buffer_bytes).0
unfolding take_ack
take_ack-Kept c seg opts now_ns edges send_buffer_bytes =
    let popped = pop_acked seg c in
    let sample = rtt_sample_of popped opts now_ns in
    let sampled = absorb_sample sample edges popped in
    let pruned : TcpConn =
      if sampled.sack_enabled
      then record sampled {
        sack_scoreboard = Sack.prune_below sampled.sack_scoreboard sampled.snd_una;
      }
      else sampled in
    let updated = update_window seg pruned in
    Kept-trans popped sampled _ (absorb_sample-Kept sample edges popped) (
      Kept-trans sampled pruned _ (prune-Kept sampled) (
        Kept-trans pruned updated _ (update_window-Kept seg pruned)
          (unlatch-Kept (fires_writable send_buffer_bytes updated) updated)))

pub rack_pass-Kept : (c : TcpConn) (now_ns : ℕ) → Kept c (rack_pass c now_ns).0
unfolding rack_pass
rack_pass-Kept c now_ns = elim (Bool-cases (is_empty c.snd_retrans)) [
  | inl b ↦ rw b (Kept-refl c)
  | inr b ↦ rw b (record {
    state = refl;
    snd_una = refl;
    snd_nxt = refl;
    rcv_nxt = refl;
    our_fin_seq = refl;
    recv = refl;
  })
]

-- `snd_una` stays, or moves to an acknowledgement of data in flight; nothing else of the sequence
-- state moves.
pub record Moves (c d : TcpConn) (seg : ParsedSegment) : Type 0 where
  pub state : d.state ≡ c.state
  pub snd_nxt : d.snd_nxt ≡ c.snd_nxt
  pub rcv_nxt : d.rcv_nxt ≡ c.rcv_nxt
  pub recv : d.recv ≡ c.recv
  pub snd_una :
      (d.snd_una ≡ c.snd_una)
      ⊎ ((seq_lt c.snd_una seg.ack ≡ true)
          × (seq_le seg.ack c.snd_nxt ≡ true)
          × (d.snd_una ≡ seg.ack))

pub Kept-Moves : (c d : TcpConn) (seg : ParsedSegment) → Kept c d → Moves c d seg
Kept-Moves c d seg k = record {
  state = k.state;
  snd_nxt = k.snd_nxt;
  rcv_nxt = k.rcv_nxt;
  recv = k.recv;
  snd_una = inl k.snd_una;
}

pub Moves-between :
    (c d e f : TcpConn) (seg : ParsedSegment) → Kept c d → Moves d e seg → Kept e f → Moves c f seg
Moves-between c d e f seg k m l = record {
  state = l.state ∙ m.state ∙ k.state;
  snd_nxt = l.snd_nxt ∙ m.snd_nxt ∙ k.snd_nxt;
  rcv_nxt = l.rcv_nxt ∙ m.rcv_nxt ∙ k.rcv_nxt;
  recv = l.recv ∙ m.recv ∙ k.recv;
  snd_una = elim m.snd_una [
    | inl e ↦ inl (l.snd_una ∙ e ∙ k.snd_una)
    | inr (p, q, e) ↦ inr (
      subst (λ z. seq_lt z seg.ack ≡ true) k.snd_una p,
      subst (λ z. seq_le seg.ack z ≡ true) k.snd_nxt q,
      l.snd_una ∙ e,
    )
  ];
}

-- What an acknowledgement that is not refused leaves.
abbrev pub AckMoves : TcpConn → ParsedSegment → Option (TcpConn × Acked) → Type 0
AckMoves c seg none = Unit
AckMoves c seg (some (d, acked)) = Moves c d seg

popped-Moves :
    (c : TcpConn) (seg : ParsedSegment)
    → seq_lt c.snd_una seg.ack ≡ true
    → seq_le seg.ack c.snd_nxt ≡ true
    → Moves c (pop_acked seg c) seg
unfolding pop_acked
popped-Moves c seg p q = record {
  state = refl;
  snd_nxt = refl;
  rcv_nxt = refl;
  recv = refl;
  snd_una = inr (p, q, refl);
}

quiet_ack : TcpConn → ParsedSegment → Acked
quiet_ack c seg = record {
  dup_ack = is_dup_ack c seg;
  snd_una_advanced_to = none;
  rtt_sample_taken = false;
  writable_hysteresis_fired = false;
}

pub process_ack-AckMoves :
    (c : TcpConn) (seg : ParsedSegment) (opts : TcpOpts) (now_ns : ℕ) (edges : List ℕ)
    (send_buffer_bytes : ℕ)
    → AckMoves c seg (process_ack c seg opts now_ns edges send_buffer_bytes)
unfolding process_ack quiet_ack
process_ack-AckMoves c seg opts now_ns edges send_buffer_bytes =
    if_either (AckMoves c seg) (seq_lt c.snd_una seg.ack && seq_le seg.ack c.snd_nxt)
      (some (take_ack c seg opts now_ns edges send_buffer_bytes))
      (if seq_lt c.snd_nxt seg.ack then none else some (c, quiet_ack c seg))
      (λ p.
        let (lt, le) = and-true (seq_lt c.snd_una seg.ack) (seq_le seg.ack c.snd_nxt) p in
        Moves-between c c (pop_acked seg c) _ seg (Kept-refl c) (popped-Moves c seg lt le)
          (take_ack-Kept c seg opts now_ns edges send_buffer_bytes))
      (λ p.
        if_either (AckMoves c seg) (seq_lt c.snd_nxt seg.ack) none (some (c, quiet_ack c seg))
          (λ q. tt) (λ q. Kept-Moves c c seg (Kept-refl c)))
