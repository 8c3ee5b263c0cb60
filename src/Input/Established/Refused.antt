-- ===== src/Input/Established/Refused.antt =====
-- The error paths of `handle_established`.
use resd_dpdk_tcp.Base.{ℕ, ◌≡◌, Bool, true, false, ◌||◌, Option, none, some, ◌==◌, arith, refl}
use resd_dpdk_tcp.Options.{TcpOpts}
use resd_dpdk_tcp.Reassembly.{Refs}
use resd_dpdk_tcp.Net.{Result, ok, err}
use resd_dpdk_tcp.Net.Segment.{ParsedSegment}
use resd_dpdk_tcp.Conn.{TcpConn}
use resd_dpdk_tcp.Input.{ack, Outcome, base}
use resd_dpdk_tcp.Input.Acking.{Acked, process_ack}
use resd_dpdk_tcp.Input.Established.{
  Context, early_drop, check_options, finish, take_sack, decoded_of, receive, accept_data,
  handle_established,
}
use resd_dpdk_tcp.Input.Established.Receipt.{Reply}

-- The outcomes of a segment that is refused before its SACK blocks.
abbrev pub is_rejected : Outcome → Bool
is_rejected o = o.urgent_dropped || o.is_closed || o.bad_seq || o.bad_option || o.paws_rejected

-- A refusal does not touch the connection or the reference counts.
abbrev Untouched : TcpConn → Refs → Reply → Type 0
Untouched c refs r = is_rejected r.1 ≡ true → (r.0 ≡ c) × (r.2 ≡ refs)

not_rejected : {A : Type 0} → false ≡ true → A
not_rejected e = absurd (ground arith)

accepted_lem :
    (c d : TcpConn) (seg : ParsedSegment) (ctx : Context) (refs : Refs)
    (decoded dsacks spurious : ℕ) (expired : Bool) (x : Option (TcpConn × Acked))
    → Untouched c refs (elim x [
      | none ↦ (
        d,
        record base {
          tx = ack;
          bad_ack = true;
          rx_zero_window = seg.window == 0;
          sack_blocks_decoded = decoded;
        },
        refs,
      )
      | some (updated, acked) ↦
          let (received, o, refs') = receive updated acked seg ctx refs in
          (
            received,
            record o {
              sack_blocks_decoded = decoded;
              rx_dsack_count = dsacks;
              tx_tlp_spurious_count = spurious;
              ts_recent_expired = expired;
            },
            refs',
          )
    ])
unfolding receive finish
accepted_lem c d seg ctx refs decoded dsacks spurious expired none h = not_rejected h
accepted_lem c d seg ctx refs decoded dsacks spurious expired (some (e, acked)) h = not_rejected h

accept_data-Untouched :
    (c d : TcpConn) (seg : ParsedSegment) (opts : TcpOpts) (expired : Bool) (ctx : Context)
    (refs : Refs)
    → Untouched c refs (accept_data d seg opts expired ctx refs)
unfolding accept_data
accept_data-Untouched c d seg opts expired ctx refs =
    let s = take_sack d opts ctx.now_ns in
    accepted_lem c s.0 seg ctx refs (decoded_of d opts) s.1 s.2 expired
      (process_ack s.0 seg opts ctx.now_ns ctx.edges ctx.send_buffer_bytes)

checked_Untouched :
    (c : TcpConn) (seg : ParsedSegment) (ctx : Context) (refs : Refs)
    (x : Result Outcome (TcpConn × Bool × TcpOpts))
    → Untouched c refs (elim x [
      | err o ↦ (c, record o { rx_zero_window = seg.window == 0 }, refs)
      | ok (d, expired, opts) ↦ accept_data d seg opts expired ctx refs
    ])
checked_Untouched c seg ctx refs (err o) h = (refl, refl)
checked_Untouched c seg ctx refs (ok (d, expired, opts)) h =
    accept_data-Untouched c d seg opts expired ctx refs h

early_Untouched :
    (c : TcpConn) (seg : ParsedSegment) (ctx : Context) (refs : Refs) (x : Option Outcome)
    → Untouched c refs (elim x [
      | some o ↦ (c, o, refs)
      | none ↦ elim (check_options c seg ctx.now_ns) [
        | err o ↦ (c, record o { rx_zero_window = seg.window == 0 }, refs)
        | ok (d, expired, opts) ↦ accept_data d seg opts expired ctx refs
      ]
    ])
early_Untouched c seg ctx refs (some o) h = (refl, refl)
early_Untouched c seg ctx refs none h =
    checked_Untouched c seg ctx refs (check_options c seg ctx.now_ns) h

-- In ESTABLISHED, a segment whose outcome is an urgent pointer, a reset, a sequence number outside the
-- window, a bad option or a timestamp that PAWS rejects changes neither the connection nor a reference
-- count.
pub handle_established-rejected :
    (c : TcpConn) (seg : ParsedSegment) (ctx : Context) (refs : Refs)
    → let r = handle_established c seg ctx refs in is_rejected r.1 ≡ true → (r.0 ≡ c) × (r.2 ≡ refs)
unfolding handle_established
handle_established-rejected c seg ctx refs h = early_Untouched c seg ctx refs (early_drop c seg) h
