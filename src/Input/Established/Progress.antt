-- ===== src/Input/Established/Progress.antt =====
-- Delivery makes progress.
use resd_dpdk_tcp.Base.{
  ℕ, ◌≤◌, ◌<◌, ◌≡◌, inl, inr, min, true, some, List, [], ◌∷◌, length, ltb, ◌==◌, if◌then◌else◌,
  arith, ap, u16_mod, u32_mod, All, Bool-cases, if_either, as_u32,
}
use resd_dpdk_tcp.Reassembly.{Refs}
use resd_dpdk_tcp.Seq.{seq_lt}
use resd_dpdk_tcp.Reassembly.Room.{drain_contiguous_into-room}
use resd_dpdk_tcp.Buffers.Recv.{RecvQueue, free_space}
use resd_dpdk_tcp.Buffers.Room.{IsWithin, free_space_lem}
use resd_dpdk_tcp.Net.Segment.{ParsedSegment}
use resd_dpdk_tcp.Conn.{TcpConn}
use resd_dpdk_tcp.Conn.Probes.{is_empty, is_empty-nil}
use resd_dpdk_tcp.Input.Deliver.{
  MbufInsertCtx, Link, Delivery, drop_links, push_link, push_links, push_head, append_chain,
  Received, nothing_received, Chain, deliver_ahead, take_in_order, drain_reorder, deliver_in_order,
  deliver,
}
use resd_dpdk_tcp.Input.Established.Accounted.{Delivers, take_in_order-Delivers}

-- A sum that saturates at the largest word.
push_link-le :
    (l : Link) (room : ℕ) (d : Delivery)
    → d.delivered < u32_mod
    → (d.delivered ≤ (push_link l room d).delivered) × ((push_link l room d).delivered < u32_mod)
unfolding push_link
push_link-le l room d h =
    let took = min l.data_len room in
    elim (Bool-cases (ltb 0 took)) [
      | inl t ↦ elim (Bool-cases (ltb took l.data_len)) [
        | inl u ↦ rw (t, u) (omega arith, omega arith)
        | inr u ↦ rw (t, u) (omega arith, omega arith)
      ]
      | inr t ↦ elim (Bool-cases (ltb took l.data_len)) [
        | inl u ↦ rw (t, u) (omega arith, h)
        | inr u ↦ rw (t, u) (omega arith, h)
      ]
    ]

push_links-le :
    (links : List Link) (d : Delivery)
    → d.delivered < u32_mod
    → d.delivered ≤ (push_links links d).delivered
unfolding push_links
push_links-le [] d h = omega arith
push_links-le (l ∷ links) d h =
    let room = free_space d.recv in
    let after = push_link l room d in
    let one = push_link-le l room d h in
    let rest = push_links-le links after one.1 in
    if_either (λ z. d.delivered ≤ z.delivered) (room == 0)
      (record d { buf_full_drop = drop_links (l ∷ links) d.buf_full_drop }) (push_links links after)
      (λ e. omega arith) (λ e. omega (arith, one.0, rest))

append_chain-le :
    (ctx : MbufInsertCtx) (links : List Link) (head_take : ℕ) (recv : RecvQueue) (refs : Refs)
    → head_take < u32_mod
    → head_take ≤ (append_chain (some ctx, links) head_take recv refs).delivered
unfolding append_chain push_head
append_chain-le ctx links head_take recv refs h =
    if_either (λ z. head_take ≤ z.delivered) (ltb 0 head_take)
      (push_links links (push_head ctx head_take recv refs))
      (record { recv = recv; refs = refs; delivered = 0; buf_full_drop = 0 })
      (λ e. push_links-le links (push_head ctx head_take recv refs) h) (λ e. ground arith)

-- The drain only adds to what was delivered: the bytes it appends stand behind those.
drain_reorder-le :
    (c : TcpConn) (r : Received)
    → IsWithin c.recv
    → Delivers c r
    → r.delivered ≤ (drain_reorder r).delivered
unfolding drain_reorder
drain_reorder-le c r v d =
    let q = r.conn.recv in
    let w : IsWithin q = record { word = rw d.cap v.word; within = rw d.cap d.within } in
    let k : c.recv.cap < u32_mod = v.word in
    let fits = free_space_lem q w in
    let room : free_space q < u32_mod = omega (arith, fits, w.word) in
    let z =
      drain_contiguous_into-room q.reorder r.conn.rcv_nxt (free_space q) q.bytes r.refs room in
    elim (Bool-cases (is_empty q.reorder.segments)) [
      | inl e ↦ rw e (omega arith)
      | inr e ↦ rw e (omega (arith, z.1, fits, d.cap, d.count))
    ]

-- A payload at `rcv_nxt` that an mbuf backs is delivered as far as the receive buffer has room for it.
-- For a payload and chained mbufs of fewer than 2 ^ 16 bytes each, and a buffer within its capacity
-- before.
pub deliver-le :
    (c : TcpConn) (seg : ParsedSegment) (ctx : MbufInsertCtx) (links : List Link) (refs : Refs)
    → IsWithin c.recv
    → c.rcv_nxt < u32_mod
    → length seg.payload < u16_mod
    → All (λ l. l.data_len < u16_mod) links
    → seg.seq ≡ c.rcv_nxt
    → min (length seg.payload) (free_space c.recv)
      ≤ (deliver c seg (some ctx, links) refs).delivered
unfolding deliver deliver_in_order take_in_order
deliver-le c seg ctx links refs v hr small all e =
    let chain : Chain = (some ctx, links) in
    let head_take = min (as_u32 (length seg.payload)) (free_space c.recv) in
    let head = append_chain-le ctx links head_take c.recv refs (omega arith) in
    let rest =
      drain_reorder-le c (take_in_order c seg chain refs) v
        (take_in_order-Delivers c v hr seg chain refs small all) in
    let next : (seg.seq == c.rcv_nxt) ≡ true = ground (arith, e) in
    if_either (λ z. min (length seg.payload) (free_space c.recv) ≤ z.delivered)
      (is_empty seg.payload) (nothing_received c refs)
      (if seg.seq == c.rcv_nxt
        then deliver_in_order c seg chain refs
        else if seq_lt c.rcv_nxt seg.seq
        then deliver_ahead c seg chain refs
        else nothing_received c refs)
      (λ k. omega (arith, ap length (is_empty-nil seg.payload k)))
      (λ k. rw next (omega (arith, head, rest)))
