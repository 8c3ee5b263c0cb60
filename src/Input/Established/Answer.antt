-- ===== src/Input/Established/Answer.antt =====
-- What `handle_established` does to a connection: the handler as a whole.
use resd_dpdk_tcp.Base.{
  ℕ, ◌<◌, ◌≡◌, inl, inr, Bool, true, ◌||◌, Option, none, some, length, ◌==◌, refl, ap, sym, subst,
  u16_mod, u32_mod, All, Option-cases,
}
use resd_dpdk_tcp.Options.{TcpOpts}
use resd_dpdk_tcp.Reassembly.{Refs}
use resd_dpdk_tcp.Buffers.Room.{IsWithin}
use resd_dpdk_tcp.Net.{Result, ok, err}
use resd_dpdk_tcp.Net.Segment.{ParsedSegment}
use resd_dpdk_tcp.Conn.{TcpConn}
use resd_dpdk_tcp.Input.{ack, Outcome, base}
use resd_dpdk_tcp.Input.Closing.{options_of, check_timestamps}
use resd_dpdk_tcp.Input.Edges.{Kept, Kept-refl, Kept-trans}
use resd_dpdk_tcp.Input.Steps.{Checked, check_timestamps-Checked}
use resd_dpdk_tcp.Input.Acking.{Acked, process_ack}
use resd_dpdk_tcp.Input.Losses.{rack_pass}
use resd_dpdk_tcp.Input.Deliver.{deliver}
use resd_dpdk_tcp.Input.Established.{
  Context, early_drop, check_options, take_sack, decoded_of, receive, accept_data,
  handle_established,
}
use resd_dpdk_tcp.Input.Established.Una.{
  take_sack-Kept, rack_pass-Kept, Moves, Kept-Moves, Moves-between, AckMoves, process_ack-AckMoves,
}
use resd_dpdk_tcp.Input.Established.Accounted.{deliver-Delivers}
use resd_dpdk_tcp.Input.Established.Receipt.{
  DataEdge, stays, fin_len, IsReceipt, MayDrop, refused_by_options, early_drop-MayDrop,
  moved_IsReceipt, finish-IsReceipt,
}

module _ (c : TcpConn) (seg : ParsedSegment) (ctx : Context) (v : IsWithin c.recv)
    (hr : c.rcv_nxt < u32_mod) (small : length seg.payload < u16_mod)
    (all : All (λ l. l.data_len < u16_mod) ctx.chain.1) where
  receive-IsReceipt :
      (d : TcpConn) (acked : Acked) (refs : Refs)
      → Moves c d seg
      → IsReceipt c seg (receive d acked seg ctx refs)
  unfolding receive
  receive-IsReceipt d acked refs m =
      let racked = (rack_pass d ctx.now_ns).0 in
      let n = Moves-between c c d racked seg (Kept-refl c) m (rack_pass-Kept d ctx.now_ns) in
      let w : IsWithin racked.recv = subst IsWithin (sym n.recv) v in
      let e =
        deliver-Delivers racked w (subst (λ z. z < u32_mod) (sym n.rcv_nxt) hr) seg ctx.chain refs
          small all in
      let f =
        finish-IsReceipt c seg ctx v hr small all racked (deliver racked seg ctx.chain refs) refs n
          e in
      record {
        state = f.state;
        edge = f.edge;
        snd_nxt = f.snd_nxt;
        snd_una = f.snd_una;
        rcv_nxt = f.rcv_nxt;
        fin = f.fin;
        cap = f.cap;
        count = f.count;
        within = f.within;
      }

  answered_IsReceipt :
      (d : TcpConn) (decoded dsacks spurious : ℕ) (expired : Bool) (refs : Refs)
      (x : Option (TcpConn × Acked))
      → Kept c d
      → AckMoves d seg x
      → IsReceipt c seg (elim x [
        | none ↦ (
          d,
          record base {
            tx = ack;
            bad_ack = true;
            rx_zero_window = seg.window == 0;
            sack_blocks_decoded = decoded;
          },
          refs,
        )
        | some (updated, acked) ↦
            let (received, o, refs') = receive updated acked seg ctx refs in
            (
              received,
              record o {
                sack_blocks_decoded = decoded;
                rx_dsack_count = dsacks;
                tx_tlp_spurious_count = spurious;
                ts_recent_expired = expired;
              },
              refs',
            )
      ])
  answered_IsReceipt d decoded dsacks spurious expired refs none k m =
      moved_IsReceipt c seg ctx v hr small all d _ refs (Kept-Moves c d seg k)
        (refl, refl, stays, inr refl)
  answered_IsReceipt d decoded dsacks spurious expired refs (some (e, acked)) k m =
      let f = receive-IsReceipt e acked refs (Moves-between c d e e seg k m (Kept-refl e)) in
      record {
        state = f.state;
        edge = f.edge;
        snd_nxt = f.snd_nxt;
        snd_una = f.snd_una;
        rcv_nxt = f.rcv_nxt;
        fin = f.fin;
        cap = f.cap;
        count = f.count;
        within = f.within;
      }

  accept_data-IsReceipt :
      (d : TcpConn) (opts : TcpOpts) (expired : Bool) (refs : Refs)
      → Kept c d
      → IsReceipt c seg (accept_data d seg opts expired ctx refs)
  unfolding accept_data
  accept_data-IsReceipt d opts expired refs k =
      let s = take_sack d opts ctx.now_ns in
      answered_IsReceipt s.0 (decoded_of d opts) s.1 s.2 expired refs
        (process_ack s.0 seg opts ctx.now_ns ctx.edges ctx.send_buffer_bytes)
        (Kept-trans c d s.0 k (take_sack-Kept d opts ctx.now_ns))
        (process_ack-AckMoves s.0 seg opts ctx.now_ns ctx.edges ctx.send_buffer_bytes)

  -- What the options leave to the rest.
  Checks : Result Outcome (TcpConn × Bool × TcpOpts) → Type 0
  Checks (err o) =
      (o.new_state ≡ none) × (o.delivered ≡ 0) × ((o.bad_option || o.paws_rejected) ≡ true)
  Checks (ok (d, expired, opts)) = Kept c d

  stamped_Checks :
      (opts : TcpOpts) (x : Result Outcome (TcpConn × Bool))
      → Checked c x
      → Checks (elim x [ err o ↦ err o | ok (d, expired) ↦ ok (d, expired, opts) ])
  unfolding Checks
  stamped_Checks opts (err o) h = h
  stamped_Checks opts (ok (d, expired)) h = h

  check_options-Checks : Checks (check_options c seg ctx.now_ns)
  unfolding check_options Checks
  check_options-Checks = elim (Option-cases (options_of seg)) [
    | inl e ↦ rw (e, check_options) (refl, refl, refl)
    | inr (opts, e) ↦
        rw (e, check_options)
          (stamped_Checks opts (check_timestamps c seg opts ctx.now_ns)
            (check_timestamps-Checked c seg opts ctx.now_ns))
  ]

  checked_IsReceipt :
      (refs : Refs) (x : Result Outcome (TcpConn × Bool × TcpOpts))
      → Checks x
      → IsReceipt c seg (elim x [
        | err o ↦ (c, record o { rx_zero_window = seg.window == 0 }, refs)
        | ok (d, expired, opts) ↦ accept_data d seg opts expired ctx refs
      ])
  unfolding Checks
  checked_IsReceipt refs (err o) h =
      moved_IsReceipt c seg ctx v hr small all c _ refs (Kept-Moves c c seg (Kept-refl c))
        (h.1, ap fin_len h.0, subst (DataEdge seg) (sym h.0) stays, inr (refused_by_options o h.2))
  checked_IsReceipt refs (ok (d, expired, opts)) h = accept_data-IsReceipt d opts expired refs h

  early_IsReceipt :
      (refs : Refs) (x : Option Outcome)
      → MayDrop seg x
      → IsReceipt c seg (elim x [
        | some o ↦ (c, o, refs)
        | none ↦ elim (check_options c seg ctx.now_ns) [
          | err o ↦ (c, record o { rx_zero_window = seg.window == 0 }, refs)
          | ok (d, expired, opts) ↦ accept_data d seg opts expired ctx refs
        ]
      ])
  early_IsReceipt refs none h =
      checked_IsReceipt refs (check_options c seg ctx.now_ns) check_options-Checks
  early_IsReceipt refs (some o) h =
      moved_IsReceipt c seg ctx v hr small all c o refs (Kept-Moves c c seg (Kept-refl c)) h

-- In ESTABLISHED, every segment leaves the connection with: `rcv_nxt` moved by exactly the bytes
-- delivered, and by 1 more for a FIN, which alone leads to CLOSE_WAIT; the receive buffer longer by
-- exactly the bytes delivered and within its capacity; `snd_nxt` as it was, and `snd_una` as it was or
-- at an acknowledgement of data in flight; CLOSED as the next state only on a reset. For a payload and
-- chained mbufs of fewer than 2 ^ 16 bytes each, and a buffer within its capacity before.
pub handle_established-IsReceipt :
    (c : TcpConn) (seg : ParsedSegment) (ctx : Context) (refs : Refs)
    → IsWithin c.recv
    → c.rcv_nxt < u32_mod
    → length seg.payload < u16_mod
    → All (λ l. l.data_len < u16_mod) ctx.chain.1
    → IsReceipt c seg (handle_established c seg ctx refs)
unfolding handle_established
handle_established-IsReceipt c seg ctx refs v hr small all =
    early_IsReceipt c seg ctx v hr small all refs (early_drop c seg) (early_drop-MayDrop c seg)
