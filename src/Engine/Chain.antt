-- ===== src/Engine/Chain.antt =====
-- What the timers leave of a connection, and entries that cover a part of the sequence space.
use resd_dpdk_tcp.Base.{
  ℕ, ◌+◌, ◌-◌, ◌≤◌, ◌<◌, ◌≡◌, Bool, false, ◌&&◌, none, List, [], ◌∷◌, ◌++◌, ltb, arith, refl, ap,
  subst, u32_mod, wrapping_add32, if_either,
}
use resd_dpdk_tcp.Retrans.{RetransEntry}
use resd_dpdk_tcp.TimerWheel.{TimerWheel}
use resd_dpdk_tcp.Conn.{TcpConn}
use resd_dpdk_tcp.Conn.Probes.{tlp_arm_gate_passes, is_none}
use resd_dpdk_tcp.Engine.Send.{SendConfig, arm_rto, arm_tlp_pto}

-- A connection without the fields that `send_bytes` changes.
abbrev pub rest_of : TcpConn → TcpConn
rest_of c = record c {
  snd_nxt = 0;
  snd_retrans = [];
  rto_timer_id = none;
  tlp_timer_id = none;
  timer_ids = [];
  send_refused_pending = false;
}

abbrev pub SameRest : TcpConn → TcpConn → Type 0
SameRest c d =
    (rest_of d ≡ rest_of c)
    × (d.snd_retrans ≡ c.snd_retrans)
    × (d.snd_nxt ≡ c.snd_nxt)
    × (d.send_refused_pending ≡ c.send_refused_pending)

pub arm_rto-SameRest :
    (cfg : SendConfig) (was_empty : Bool) (now_ns : ℕ) (c : TcpConn) (wheel : TimerWheel)
    → SameRest c (arm_rto cfg was_empty now_ns (c, wheel)).0
unfolding arm_rto
arm_rto-SameRest cfg was_empty now_ns c wheel =
    if_either (λ (r : TcpConn × TimerWheel). SameRest c r.0)
      (was_empty && is_none c.rto_timer_id && ltb 0 c.rtt_est.rto_us) _ (c, wheel)
      (λ e. (refl, refl, refl, refl)) (λ e. (refl, refl, refl, refl))

pub arm_tlp_pto-SameRest :
    (cfg : SendConfig) (now_ns : ℕ) (c : TcpConn) (wheel : TimerWheel)
    → SameRest c (arm_tlp_pto cfg now_ns (c, wheel)).0
unfolding arm_tlp_pto
arm_tlp_pto-SameRest cfg now_ns c wheel =
    if_either (λ (r : TcpConn × TimerWheel). SameRest c r.0) (tlp_arm_gate_passes c) _ (c, wheel)
      (λ e. (refl, refl, refl, refl)) (λ e. (refl, refl, refl, refl))

pub append-nil : (es : List RetransEntry) → es ++ [] ≡ es
append-nil [] = refl
append-nil (e ∷ es) = ap (λ z. e ∷ z) (append-nil es)

-- Entries that cover `total` bytes of the sequence space from `seq` on without a gap, each of one to
-- `mss` bytes.
abbrev pub IsChain : ℕ → ℕ → List RetransEntry → ℕ → Type 0
IsChain seq mss [] total = total ≡ 0
IsChain seq mss (e ∷ es) total =
    (e.seq ≡ seq)
    × (1 ≤ e.len)
    × (e.len ≤ mss)
    × (e.len ≤ total)
    × IsChain (wrapping_add32 seq e.len) mss es (total - e.len)

pub append-IsChain :
    (seq mss : ℕ) (es : List RetransEntry) (e : RetransEntry) (total : ℕ)
    → seq < u32_mod
    → e.seq ≡ wrapping_add32 seq total
    → 1 ≤ e.len
    → e.len ≤ mss
    → IsChain seq mss es total
    → IsChain seq mss (es ++ (e ∷ [])) (total + e.len)
append-IsChain seq mss [] e total hs he h1 hm z =
    (omega (arith, he, z), h1, hm, omega arith, omega (arith, z))
append-IsChain seq mss (f ∷ es) e total hs he h1 hm (s, l1, lm, lt, more) = (
  s,
  l1,
  lm,
  omega arith,
  subst (IsChain (wrapping_add32 seq f.len) mss (es ++ (e ∷ []))) (omega arith) (
      append-IsChain (wrapping_add32 seq f.len) mss es e (total - f.len) (omega arith)
        (omega (arith, he)) h1 hm more),
)
