-- ===== src/Input/Deliver.antt =====
-- The delivery part of `handle_established`: payload in order, payload ahead of `rcv_nxt`, and the
-- mbufs chained behind the first. `shim_rte_pktmbuf_next` and `shim_rte_pktmbuf_data_len` are DPDK's:
-- what a walk along the chain reads is the argument `links`.
use resd_dpdk_tcp.Base.{
  ℕ, ◌-◌, min, Bool, false, Option, none, some, List, [], ◌∷◌, ◌++◌, length, ltb, ◌==◌,
  if◌then◌else◌, wrapping_add32, saturating_add32, as_u16, as_u32,
}
use resd_dpdk_tcp.Seq.{seq_lt}
use resd_dpdk_tcp.Reassembly.{InOrderSegment, ReorderQueue, Refs, add_refs, drop_ref}
use resd_dpdk_tcp.Reassembly.Drain.{drain_contiguous_into}
use resd_dpdk_tcp.Reassembly.Insert
use resd_dpdk_tcp.Buffers.Recv.{RecvQueue, free_space, free_space_total}
use resd_dpdk_tcp.Net.Segment.{ParsedSegment}
use resd_dpdk_tcp.Conn.{TcpConn}
use resd_dpdk_tcp.Conn.Probes.{is_empty}

pub record MbufInsertCtx : Type 0 where
  pub mbuf : ℕ
  pub payload_offset : ℕ

-- An mbuf behind the first of a chain, and its `data_len`.
pub record Link : Type 0 where
  pub mbuf : ℕ
  pub data_len : ℕ

-- The mbuf of a segment and the links behind it.
abbrev pub Chain : Type 0
Chain = Option MbufInsertCtx × List Link

-- The variables of the in-order branch.
pub record Delivery : Type 0 where
  pub recv : RecvQueue
  pub refs : Refs
  pub delivered : ℕ
  pub buf_full_drop : ℕ

-- The inner loop that counts the rest of the chain as dropped.
unfoldable pub drop_links : List Link → ℕ → ℕ
drop_links [] dropped = dropped
drop_links (l ∷ links) dropped = drop_links links (saturating_add32 dropped l.data_len)

abbrev pub append : InOrderSegment → RecvQueue → RecvQueue
append s q = record q { bytes = q.bytes ++ (s ∷ []) }

-- One link, with `room` bytes left for it.
unfoldable pub push_link : Link → ℕ → Delivery → Delivery
push_link l room d =
    let link_take = min l.data_len room in
    let pushed : Delivery =
      if ltb 0 link_take
      then record d {
        recv = append (record { mbuf = l.mbuf; offset = 0; len = as_u16 link_take }) d.recv;
        refs = add_refs l.mbuf 1 d.refs;
        delivered = saturating_add32 d.delivered link_take;
      }
      else d in
    if ltb link_take l.data_len
    then record pushed {
      buf_full_drop = saturating_add32 pushed.buf_full_drop (l.data_len - link_take);
    }
    else pushed

unfoldable pub push_links : List Link → Delivery → Delivery
unfolding drop_links push_link
push_links [] d = d
push_links (l ∷ links) d =
    let room = free_space d.recv in
    let rest = push_links links (push_link l room d) in
    if room == 0 then record d { buf_full_drop = drop_links (l ∷ links) d.buf_full_drop } else rest

-- The first mbuf of the chain, with `head_take` bytes of it.
unfoldable pub push_head : MbufInsertCtx → ℕ → RecvQueue → Refs → Delivery
push_head ctx head_take recv refs = record {
  recv =
      append (record { mbuf = ctx.mbuf; offset = ctx.payload_offset; len = as_u16 head_take }) recv;
  refs = add_refs ctx.mbuf 1 refs;
  delivered = head_take;
  buf_full_drop = 0;
}

unfoldable pub append_chain : Chain → ℕ → RecvQueue → Refs → Delivery
unfolding push_head push_links
append_chain (none, links) head_take recv refs = record {
  recv = recv;
  refs = refs;
  delivered = 0;
  buf_full_drop = 0;
}
append_chain (some ctx, links) head_take recv refs =
    let rest = push_links links (push_head ctx head_take recv refs) in
    if ltb 0 head_take
    then rest
    else record { recv = recv; refs = refs; delivered = 0; buf_full_drop = 0 }

-- What the delivery part leaves, with its variables.
pub record Received : Type 0 where
  pub conn : TcpConn
  pub refs : Refs
  pub delivered : ℕ
  pub buf_full_drop : ℕ
  pub reassembly_queued_bytes : ℕ
  pub reassembly_hole_filled : ℕ
  pub mbuf_ref_retained : Bool
  pub in_order_delivered_from_seg : ℕ

abbrev pub nothing_received : TcpConn → Refs → Received
nothing_received c refs = record {
  conn = c;
  refs = refs;
  delivered = 0;
  buf_full_drop = 0;
  reassembly_queued_bytes = 0;
  reassembly_hole_filled = 0;
  mbuf_ref_retained = false;
  in_order_delivered_from_seg = 0;
}

-- The drain of the out-of-order queue behind the bytes delivered. Sums of `u32`s wrap.
unfoldable pub drain_reorder : Received → Received
drain_reorder r =
    let q = r.conn.recv in
    let (reorder, bytes, refs, drained, dropped) =
      drain_contiguous_into q.reorder r.conn.rcv_nxt (free_space q) q.bytes r.refs in
    let drained_conn : TcpConn = record r.conn {
      recv = record q { reorder = reorder; bytes = bytes };
      rcv_nxt = wrapping_add32 r.conn.rcv_nxt drained;
    } in
    if is_empty q.reorder.segments then r else record r {
      conn = drained_conn;
      refs = refs;
      delivered = wrapping_add32 r.delivered drained;
      buf_full_drop = wrapping_add32 r.buf_full_drop dropped;
      reassembly_hole_filled = as_u32 (length bytes - length q.bytes);
    }

-- The chain at `rcv_nxt`, before the drain.
unfoldable pub take_in_order : TcpConn → ParsedSegment → Chain → Refs → Received
unfolding append_chain
take_in_order c seg chain refs =
    let payload_len = as_u32 (length seg.payload) in
    let head_take = min payload_len (free_space c.recv) in
    let d = append_chain chain head_take c.recv refs in
    record {
      conn = record c { recv = d.recv; rcv_nxt = wrapping_add32 c.rcv_nxt d.delivered };
      refs = d.refs;
      delivered = d.delivered;
      buf_full_drop = saturating_add32 d.buf_full_drop (payload_len - head_take);
      reassembly_queued_bytes = 0;
      reassembly_hole_filled = 0;
      mbuf_ref_retained = false;
      in_order_delivered_from_seg = d.delivered;
    }

-- A payload at `rcv_nxt`.
unfoldable pub deliver_in_order : TcpConn → ParsedSegment → Chain → Refs → Received
unfolding take_in_order drain_reorder
deliver_in_order c seg chain refs = drain_reorder (take_in_order c seg chain refs)

abbrev pub with_reorder : ReorderQueue → TcpConn → TcpConn
with_reorder q c = record c { recv = record c.recv { reorder = q } }

abbrev pub grow_trigger : Option (ℕ × ℕ) → ℕ → ℕ → Option (ℕ × ℕ)
grow_trigger none left right = some (left, right)
grow_trigger (some (l, r)) left right = some (l, right)

-- One link, stored at `link_seq`: its reference is given back when nothing of it is kept.
unfoldable pub insert_link : Link → ℕ → Received → Received
insert_link l link_seq r =
    let c = r.conn in
    let (reorder, o, refs) =
      Insert.insert c.recv.reorder link_seq l.data_len l.mbuf 0 (add_refs l.mbuf 1 r.refs) in
    let stored = with_reorder reorder c in
    record r {
      conn =
          if ltb 0 o.newly_buffered
          then record stored {
            last_sack_trigger =
                grow_trigger c.last_sack_trigger link_seq (wrapping_add32 link_seq l.data_len);
          }
          else stored;
      refs = if o.mbuf_ref_retained then refs else drop_ref l.mbuf refs;
      buf_full_drop = saturating_add32 r.buf_full_drop o.cap_dropped;
      reassembly_queued_bytes = saturating_add32 r.reassembly_queued_bytes o.newly_buffered;
    }

unfoldable pub insert_links : List Link → ℕ → Received → Received
unfolding insert_link
insert_links [] link_seq r = r
insert_links (l ∷ links) link_seq r =
    if l.data_len == 0
    then insert_links links link_seq r
    else insert_links links (wrapping_add32 link_seq l.data_len) (insert_link l link_seq r)

-- The first mbuf of the chain, `head_take` bytes of it; the engine holds a reference for it.
unfoldable pub insert_head : MbufInsertCtx → ℕ → TcpConn → ParsedSegment → Refs → Received
insert_head ctx head_take c seg refs =
    let payload_len = length seg.payload in
    let (reorder, o, refs') =
      Insert.insert c.recv.reorder seg.seq head_take ctx.mbuf ctx.payload_offset refs in
    let stored = with_reorder reorder c in
    record (nothing_received c refs') {
      conn =
          if ltb 0 o.newly_buffered
          then record stored {
            last_sack_trigger = some (seg.seq, wrapping_add32 seg.seq head_take);
          }
          else stored;
      buf_full_drop =
          if ltb head_take payload_len
          then wrapping_add32 o.cap_dropped (as_u32 payload_len - head_take)
          else o.cap_dropped;
      reassembly_queued_bytes = o.newly_buffered;
      mbuf_ref_retained = o.mbuf_ref_retained;
    }

-- A payload ahead of `rcv_nxt`.
unfoldable pub deliver_ahead : TcpConn → ParsedSegment → Chain → Refs → Received
unfolding insert_head insert_links drop_links
deliver_ahead c seg (none, links) refs =
    let payload_len = as_u32 (length seg.payload) in
    let none_taken = nothing_received c refs in
    if ltb 0 (free_space_total c.recv)
    then none_taken
    else record none_taken { buf_full_drop = payload_len }
deliver_ahead c seg (some ctx, links) refs =
    let payload_len = as_u32 (length seg.payload) in
    let total_cap = free_space_total c.recv in
    if ltb 0 total_cap
    then insert_links links (wrapping_add32 seg.seq payload_len)
        (insert_head ctx (min payload_len total_cap) c seg refs)
    else record (nothing_received c refs) { buf_full_drop = drop_links links payload_len }

unfoldable pub deliver : TcpConn → ParsedSegment → Chain → Refs → Received
unfolding deliver_in_order deliver_ahead
deliver c seg chain refs =
    if is_empty seg.payload
    then nothing_received c refs
    else if seg.seq == c.rcv_nxt
    then deliver_in_order c seg chain refs
    else if seq_lt c.rcv_nxt seg.seq
    then deliver_ahead c seg chain refs
    else nothing_received c refs
