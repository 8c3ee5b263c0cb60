-- ===== src/Input/Established/Delivered.antt =====
-- What the delivery part does to the receive buffer and to `rcv_nxt`.
use resd_dpdk_tcp.Base.{
  ℕ, ◌+◌, ◌≤◌, ◌<◌, ◌≡◌, inl, inr, min, none, some, List, [], ◌∷◌, ltb, ◌==◌, arith, refl, u16_mod,
  u32_mod, All, Bool-cases, if_either, as_u16,
}
use resd_dpdk_tcp.Reassembly.{InOrderSegment, Refs}
use resd_dpdk_tcp.Reassembly.Delivered.{out_len, out_len-append}
use resd_dpdk_tcp.Buffers.Recv.{RecvQueue, free_space}
use resd_dpdk_tcp.Buffers.Room.{IsWithin, free_space_lem}
use resd_dpdk_tcp.Input.Deliver.{
  MbufInsertCtx, Link, Chain, Delivery, drop_links, push_link, push_links, push_head, append_chain,
}

-- A receive buffer with `delivered` bytes more than `q` has, within the capacity.
pub record Holds (q : RecvQueue) (d : Delivery) : Type 0 where
  pub cap : d.recv.cap ≡ q.cap
  pub reorder : d.recv.reorder ≡ q.reorder
  pub count : out_len d.recv.bytes ≡ out_len q.bytes + d.delivered
  pub within : out_len d.recv.bytes ≤ q.cap

Holds-IsWithin : (q : RecvQueue) (d : Delivery) → IsWithin q → Holds q d → IsWithin d.recv
Holds-IsWithin q d v h = record { word = rw h.cap v.word; within = rw h.cap h.within }

module _ (q : RecvQueue) (v : IsWithin q) where
  pushed_Holds :
      (l : Link) (room : ℕ) (d : Delivery)
      → l.data_len < u16_mod
      → out_len d.recv.bytes + room ≤ q.cap
      → Holds q d
      → Holds q (push_link l room d)
  unfolding push_link
  pushed_Holds l room d small h k =
      let took = min l.data_len room in
      let s : InOrderSegment = record { mbuf = l.mbuf; offset = 0; len = as_u16 took } in
      let w : q.cap < u32_mod = v.word in
      let n : out_len d.recv.bytes ≡ out_len q.bytes + d.delivered = k.count in
      elim (Bool-cases (ltb 0 took)) [
        | inl t ↦ elim (Bool-cases (ltb took l.data_len)) [
          | inl u ↦
              rw (t, u)
                (record {
                  cap = k.cap;
                  reorder = k.reorder;
                  count = omega (arith, out_len-append d.recv.bytes s);
                  within = omega (arith, out_len-append d.recv.bytes s);
                })
          | inr u ↦
              rw (t, u)
                (record {
                  cap = k.cap;
                  reorder = k.reorder;
                  count = omega (arith, out_len-append d.recv.bytes s);
                  within = omega (arith, out_len-append d.recv.bytes s);
                })
        ]
        | inr f ↦ elim (Bool-cases (ltb took l.data_len)) [
          | inl u ↦
              rw (f, u)
                (record { cap = k.cap; reorder = k.reorder; count = k.count; within = k.within })
          | inr u ↦ rw (f, u) k
        ]
      ]

  pub push_links-Holds :
      (links : List Link) (d : Delivery)
      → All (λ l. l.data_len < u16_mod) links
      → Holds q d
      → Holds q (push_links links d)
  unfolding push_links
  push_links-Holds [] d small k = k
  push_links-Holds (l ∷ links) d small k =
      let room = free_space d.recv in
      let fits : out_len d.recv.bytes + room ≤ q.cap =
        omega (arith, free_space_lem d.recv (Holds-IsWithin q d v k), k.cap) in
      if_either (Holds q) (room == 0)
        (record d { buf_full_drop = drop_links (l ∷ links) d.buf_full_drop })
        (push_links links (push_link l room d))
        (λ e. record { cap = k.cap; reorder = k.reorder; count = k.count; within = k.within })
        (λ e.
          push_links-Holds links (push_link l room d) small.1
            (pushed_Holds l room d small.0 fits k))

  untouched_Holds :
      (refs : Refs) → Holds q (record { recv = q; refs = refs; delivered = 0; buf_full_drop = 0 })
  untouched_Holds refs = record {
    cap = refl;
    reorder = refl;
    count = omega arith;
    within = v.within;
  }

  push_head-Holds :
      (ctx : MbufInsertCtx) (head_take : ℕ) (refs : Refs)
      → head_take < u16_mod
      → head_take ≤ free_space q
      → Holds q (push_head ctx head_take q refs)
  unfolding push_head
  push_head-Holds ctx head_take refs small h =
      let s : InOrderSegment = record {
        mbuf = ctx.mbuf;
        offset = ctx.payload_offset;
        len = as_u16 head_take;
      } in
      record {
        cap = refl;
        reorder = refl;
        count = omega (arith, out_len-append q.bytes s);
        within = omega (arith, out_len-append q.bytes s, free_space_lem q v);
      }

  pub append_chain-Holds :
      (chain : Chain) (head_take : ℕ) (refs : Refs)
      → head_take < u16_mod
      → head_take ≤ free_space q
      → All (λ l. l.data_len < u16_mod) chain.1
      → Holds q (append_chain chain head_take q refs)
  unfolding append_chain
  append_chain-Holds (none, links) head_take refs small h all = untouched_Holds refs
  append_chain-Holds (some ctx, links) head_take refs small h all =
      if_either (Holds q) (ltb 0 head_take) (push_links links (push_head ctx head_take q refs))
        (record { recv = q; refs = refs; delivered = 0; buf_full_drop = 0 })
        (λ e.
          push_links-Holds links (push_head ctx head_take q refs) all
            (push_head-Holds ctx head_take refs small h))
        (λ e. untouched_Holds refs)
