-- ===== src/Input/Established/Accounted.antt =====
-- The delivery part as a whole: `rcv_nxt` and the receive buffer move by the bytes delivered.
use resd_dpdk_tcp.Base.{
  ℕ, ◌+◌, ◌≤◌, ◌<◌, ◌≡◌, inl, inr, min, none, some, List, [], ◌∷◌, length, ltb, ◌==◌, if◌then◌else◌,
  arith, refl, u16_mod, u32_mod, All, Bool-cases, if_either, wrapping_add32, as_u32,
}
use resd_dpdk_tcp.Seq.{seq_lt}
use resd_dpdk_tcp.Reassembly.{Refs, add_refs}
use resd_dpdk_tcp.Reassembly.Insert
use resd_dpdk_tcp.Reassembly.Delivered.{out_len}
use resd_dpdk_tcp.Reassembly.Room.{drain_contiguous_into-room}
use resd_dpdk_tcp.Buffers.Recv.{free_space, free_space_total}
use resd_dpdk_tcp.Buffers.Room.{IsWithin, free_space_lem}
use resd_dpdk_tcp.Net.Segment.{ParsedSegment}
use resd_dpdk_tcp.Conn.{TcpConn}
use resd_dpdk_tcp.Conn.Probes.{is_empty}
use resd_dpdk_tcp.Input.Deliver.{
  MbufInsertCtx, Link, Chain, drop_links, Received, nothing_received, drain_reorder, take_in_order,
  deliver_in_order, insert_link, insert_links, insert_head, deliver_ahead, deliver,
}
use resd_dpdk_tcp.Input.Established.Delivered.{append_chain-Holds}

-- From `c` the delivery part took `delivered` bytes in order.
pub record Delivers (c : TcpConn) (r : Received) : Type 0 where
  pub state : r.conn.state ≡ c.state
  pub snd_una : r.conn.snd_una ≡ c.snd_una
  pub snd_nxt : r.conn.snd_nxt ≡ c.snd_nxt
  pub rcv_nxt : r.conn.rcv_nxt ≡ wrapping_add32 c.rcv_nxt r.delivered
  pub cap : r.conn.recv.cap ≡ c.recv.cap
  pub count : out_len r.conn.recv.bytes ≡ out_len c.recv.bytes + r.delivered
  pub within : out_len r.conn.recv.bytes ≤ c.recv.cap

module _ (c : TcpConn) (v : IsWithin c.recv) (hr : c.rcv_nxt < u32_mod) where
  drain_reorder-Delivers : (r : Received) → Delivers c r → Delivers c (drain_reorder r)
  unfolding drain_reorder
  drain_reorder-Delivers r d =
      let q = r.conn.recv in
      let w : IsWithin q = record { word = rw d.cap v.word; within = rw d.cap d.within } in
      let room : free_space q < u32_mod = omega (arith, free_space_lem q w, w.word) in
      let z =
        drain_contiguous_into-room q.reorder r.conn.rcv_nxt (free_space q) q.bytes r.refs room in
      let fits = free_space_lem q w in
      let k : c.recv.cap < u32_mod = v.word in
      let n = d.count in
      elim (Bool-cases (is_empty q.reorder.segments)) [
        | inl e ↦ rw e d
        | inr e ↦ rw e (record {
          state = d.state;
          snd_una = d.snd_una;
          snd_nxt = d.snd_nxt;
          rcv_nxt = omega (arith, d.rcv_nxt);
          cap = d.cap;
          count = omega (arith, z.0, z.1, fits, d.within, d.cap, d.count);
          within = omega (arith, z.0, z.1, fits, d.cap);
        })
      ]

  nothing-Delivers : (refs : Refs) → Delivers c (nothing_received c refs)
  nothing-Delivers refs = record {
    state = refl;
    snd_una = refl;
    snd_nxt = refl;
    rcv_nxt = omega arith;
    cap = refl;
    count = omega arith;
    within = v.within;
  }

  pub take_in_order-Delivers :
      (seg : ParsedSegment) (chain : Chain) (refs : Refs)
      → length seg.payload < u16_mod
      → All (λ l. l.data_len < u16_mod) chain.1
      → Delivers c (take_in_order c seg chain refs)
  unfolding take_in_order
  take_in_order-Delivers seg chain refs small all =
      let payload_len = as_u32 (length seg.payload) in
      let head_take = min payload_len (free_space c.recv) in
      let h = append_chain-Holds c.recv v chain head_take refs (omega arith) (omega arith) all in
      record {
        state = refl;
        snd_una = refl;
        snd_nxt = refl;
        rcv_nxt = refl;
        cap = h.cap;
        count = h.count;
        within = h.within;
      }

  deliver_in_order-Delivers :
      (seg : ParsedSegment) (chain : Chain) (refs : Refs)
      → length seg.payload < u16_mod
      → All (λ l. l.data_len < u16_mod) chain.1
      → Delivers c (deliver_in_order c seg chain refs)
  unfolding deliver_in_order
  deliver_in_order-Delivers seg chain refs small all =
      drain_reorder-Delivers (take_in_order c seg chain refs)
        (take_in_order-Delivers seg chain refs small all)

  -- The queue of segments ahead of `rcv_nxt` is all that changes.
  insert_link-Delivers :
      (l : Link) (link_seq : ℕ) (r : Received)
      → Delivers c r
      → Delivers c (insert_link l link_seq r)
  unfolding insert_link
  insert_link-Delivers l link_seq r d =
      let o =
        Insert.insert r.conn.recv.reorder link_seq l.data_len l.mbuf 0 (add_refs l.mbuf 1 r.refs) in
      elim (Bool-cases (ltb 0 o.1.newly_buffered)) [
        | inl e ↦ rw e (record {
          state = d.state;
          snd_una = d.snd_una;
          snd_nxt = d.snd_nxt;
          rcv_nxt = d.rcv_nxt;
          cap = d.cap;
          count = d.count;
          within = d.within;
        })
        | inr e ↦ rw e (record {
          state = d.state;
          snd_una = d.snd_una;
          snd_nxt = d.snd_nxt;
          rcv_nxt = d.rcv_nxt;
          cap = d.cap;
          count = d.count;
          within = d.within;
        })
      ]

  insert_links-Delivers :
      (links : List Link) (link_seq : ℕ) (r : Received)
      → Delivers c r
      → Delivers c (insert_links links link_seq r)
  unfolding insert_links
  insert_links-Delivers [] link_seq r d = d
  insert_links-Delivers (l ∷ links) link_seq r d =
      let after = insert_link l link_seq r in
      if_either (Delivers c) (l.data_len == 0) (insert_links links link_seq r)
        (insert_links links (wrapping_add32 link_seq l.data_len) after)
        (λ e. insert_links-Delivers links link_seq r d)
        (λ e.
          insert_links-Delivers links (wrapping_add32 link_seq l.data_len) after
            (insert_link-Delivers l link_seq r d))

  insert_head-Delivers :
      (ctx : MbufInsertCtx) (head_take : ℕ) (seg : ParsedSegment) (refs : Refs)
      → Delivers c (insert_head ctx head_take c seg refs)
  unfolding insert_head
  insert_head-Delivers ctx head_take seg refs =
      let o = Insert.insert c.recv.reorder seg.seq head_take ctx.mbuf ctx.payload_offset refs in
      let n = nothing-Delivers refs in
      elim (Bool-cases (ltb 0 o.1.newly_buffered)) [
        | inl e ↦ rw e (record {
          state = refl;
          snd_una = refl;
          snd_nxt = refl;
          rcv_nxt = n.rcv_nxt;
          cap = refl;
          count = n.count;
          within = v.within;
        })
        | inr e ↦ rw e (record {
          state = refl;
          snd_una = refl;
          snd_nxt = refl;
          rcv_nxt = n.rcv_nxt;
          cap = refl;
          count = n.count;
          within = v.within;
        })
      ]

  dropped_Delivers :
      (refs : Refs) (dropped : ℕ)
      → Delivers c (record (nothing_received c refs) { buf_full_drop = dropped })
  dropped_Delivers refs dropped =
      let n = nothing-Delivers refs in
      record {
        state = refl;
        snd_una = refl;
        snd_nxt = refl;
        rcv_nxt = n.rcv_nxt;
        cap = refl;
        count = n.count;
        within = v.within;
      }

  deliver_ahead-Delivers :
      (seg : ParsedSegment) (chain : Chain) (refs : Refs)
      → Delivers c (deliver_ahead c seg chain refs)
  unfolding deliver_ahead
  deliver_ahead-Delivers seg (none, links) refs =
      let payload_len = as_u32 (length seg.payload) in
      if_either (Delivers c) (ltb 0 (free_space_total c.recv)) (nothing_received c refs)
        (record (nothing_received c refs) { buf_full_drop = payload_len })
        (λ e. nothing-Delivers refs) (λ e. dropped_Delivers refs payload_len)
  deliver_ahead-Delivers seg (some ctx, links) refs =
      let payload_len = as_u32 (length seg.payload) in
      let total_cap = free_space_total c.recv in
      let head = insert_head ctx (min payload_len total_cap) c seg refs in
      if_either (Delivers c) (ltb 0 total_cap)
        (insert_links links (wrapping_add32 seg.seq payload_len) head)
        (record (nothing_received c refs) { buf_full_drop = drop_links links payload_len })
        (λ e.
          insert_links-Delivers links _ head
            (insert_head-Delivers ctx (min payload_len total_cap) seg refs))
        (λ e. dropped_Delivers refs (drop_links links payload_len))

  pub deliver-Delivers :
      (seg : ParsedSegment) (chain : Chain) (refs : Refs)
      → length seg.payload < u16_mod
      → All (λ l. l.data_len < u16_mod) chain.1
      → Delivers c (deliver c seg chain refs)
  unfolding deliver
  deliver-Delivers seg chain refs small all =
      let idle = nothing_received c refs in
      let ahead = deliver_ahead c seg chain refs in
      let in_order = deliver_in_order c seg chain refs in
      if_either (Delivers c) (is_empty seg.payload) idle
        (if seg.seq == c.rcv_nxt
          then in_order
          else if seq_lt c.rcv_nxt seg.seq
          then ahead
          else idle)
        (λ e. nothing-Delivers refs)
        (λ e.
          if_either (Delivers c) (seg.seq == c.rcv_nxt) in_order
            (if seq_lt c.rcv_nxt seg.seq then ahead else idle)
            (λ e. deliver_in_order-Delivers seg chain refs small all)
            (λ e.
              if_either (Delivers c) (seq_lt c.rcv_nxt seg.seq) ahead idle
                (λ e. deliver_ahead-Delivers seg chain refs) (λ e. nothing-Delivers refs)))
