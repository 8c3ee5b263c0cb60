-- ===== src/Conn/Budget.antt =====
-- The probe budget, and the ring of recent probes.
use resd_dpdk_tcp.Base.{
  ℕ, ◌+◌, ◌-◌, ◌≤◌, ◌<◌, ◌≡◌, inl, inr, min, true, false, not, Option, some, List, [], ◌∷◌, length,
  get_elem?, leb, arith, refl, ◌∙◌, u8_mod, Bool-cases, length-set, get_elem?-set_self,
}
use resd_dpdk_tcp.Conn.{TcpConn, RecentProbe}
use resd_dpdk_tcp.Conn.Probes.{
  is_none, is_empty, tlp_arm_gate_passes, on_tlp_probe_fired, on_new_data_ack_tlp_hook,
}

-- Probes fired one after another, `(seq, len, tx_ts_ns)`.
abbrev pub fire_all : List (ℕ × ℕ × ℕ) → TcpConn → TcpConn
fire_all [] c = c
fire_all ((seq, len, tx_ts_ns) ∷ ps) c = fire_all ps (on_tlp_probe_fired c seq len tx_ts_ns)

fired_lem :
    (ps : List (ℕ × ℕ × ℕ)) (c : TcpConn)
    → ((fire_all ps c).tlp_max_consecutive_probes ≡ c.tlp_max_consecutive_probes)
      × (min (c.tlp_consecutive_probes_fired + length ps) (u8_mod - 1)
          ≤ (fire_all ps c).tlp_consecutive_probes_fired)
unfolding on_tlp_probe_fired
fired_lem [] c = (refl, omega arith)
fired_lem ((seq, len, tx_ts_ns) ∷ ps) c =
    let d = on_tlp_probe_fired c seq len tx_ts_ns in
    let r = fired_lem ps d in (r.0, omega (arith, r.1))

-- A gate that is open has budget left.
gate_budget :
    (c : TcpConn)
    → tlp_arm_gate_passes c ≡ true
    → c.tlp_consecutive_probes_fired < c.tlp_max_consecutive_probes
unfolding tlp_arm_gate_passes
gate_budget c h =
    elim (Bool-cases (leb c.tlp_max_consecutive_probes c.tlp_consecutive_probes_fired)) [
      | inr n ↦ ground arith
      | inl y ↦ elim (Bool-cases (is_empty c.snd_retrans)) [
        | inl e ↦ absurd (ground (arith, rw e at h))
        | inr e ↦ elim (Bool-cases (not (is_none c.tlp_timer_id))) [
          | inl t ↦ absurd (ground (arith, rw (e, t) at h))
          | inr t ↦ absurd (ground (arith, rw (e, t, y) at h))
        ]
      ]
    ]

-- After an acknowledgement of new data, the gate arms a probe only while fewer probes have fired than
-- the connection allows in a row. The allowance is a byte.
pub tlp_arm_gate_passes-fire_all :
    (c : TcpConn) (ps : List (ℕ × ℕ × ℕ))
    → c.tlp_max_consecutive_probes < u8_mod
    → tlp_arm_gate_passes (fire_all ps (on_new_data_ack_tlp_hook c)) ≡ true
    → length ps < c.tlp_max_consecutive_probes
unfolding on_new_data_ack_tlp_hook
tlp_arm_gate_passes-fire_all c ps h g =
    let reset = on_new_data_ack_tlp_hook c in
    let r = fired_lem ps reset in
    let b = gate_budget (fire_all ps reset) g in omega (arith, r.0, r.1, b)

-- The ring has five slots, and the next is one of them.
pub record IsRing (c : TcpConn) : Type 0 where
  pub slots : length c.tlp_recent_probes ≡ 5
  pub next : c.tlp_recent_probes_next_slot < 5

-- A probe that fires takes a slot of the ring, and leaves a ring.
pub on_tlp_probe_fired-IsRing :
    (c : TcpConn) (seq len tx_ts_ns : ℕ)
    → IsRing c
    → let d = on_tlp_probe_fired c seq len tx_ts_ns in
      IsRing d
      × (get_elem? d.tlp_recent_probes c.tlp_recent_probes_next_slot
          ≡ some (some (record { seq = seq; len = len; tx_ts_ns = tx_ts_ns; attributed = false })))
unfolding on_tlp_probe_fired
on_tlp_probe_fired-IsRing c seq len tx_ts_ns r =
    let slot = c.tlp_recent_probes_next_slot in
    let probe : Option RecentProbe =
      some (record { seq = seq; len = len; tx_ts_ns = tx_ts_ns; attributed = false }) in
    (
      record {
        slots = length-set c.tlp_recent_probes slot probe ∙ r.slots;
        next = rw r.slots (omega arith);
      },
      get_elem?-set_self c.tlp_recent_probes slot probe (omega (arith, r.slots, r.next)),
    )
