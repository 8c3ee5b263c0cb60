-- ===== src/Rack/Losses.antt =====
-- Which segments a retransmission timeout marks as lost.
use resd_dpdk_tcp.Base.{
  ℕ, zero, suc, ◌+◌, ◌-◌, ◌*◌, ◌≤◌, ◌<◌, ◌≡◌, ◌↔◌, ◌⊎◌, inl, inr, Bool, true, false, some, List, [],
  ◌∷◌, ◌++◌, length, get_elem?, u16_mod, u32_mod, as_u16, arith, Bool-cases, refl, ◌∙◌, subst,
  if◌then◌else◌,
}
use mathlib.Core.List.{append_assoc, append-nil}
use resd_dpdk_tcp.Retrans.{RetransEntry, SendRetrans, end_seq}
use resd_dpdk_tcp.Seq.Order.{IsAhead, offset, seq_le-offset}
use resd_dpdk_tcp.Rack.{is_newly_lost, mark_from, rack_mark_losses_on_rto, rto_age_expired}

abbrev pub Holds : List ℕ → ℕ → Type 0
Holds [] x = ⊥
Holds (y ∷ ys) x = (x ≡ y) ⊎ Holds ys x

-- RFC 8985, 6.3: in flight, neither SACKed nor known as lost, and either the first unacknowledged
-- segment or old enough.
pub record IsLost (base snd_una rtt_us reo_wnd_us now_ns : ℕ) (e : RetransEntry) : Type 0 where
  pub unsacked : e.sacked ≡ false
  pub unmarked : e.lost ≡ false
  pub in_flight : offset base snd_una < offset base (end_seq e)
  pub first_or_old : (e.seq ≡ snd_una) ⊎ ((rtt_us + reo_wnd_us) * 1000 ≤ now_ns - e.xmit_ts_ns)

module _ (base snd_una rtt_us reo_wnd_us now_ns : ℕ) (hb : base < u32_mod)
    (hu : IsAhead base snd_una) where
  abbrev lost : RetransEntry → Bool
  lost e = is_newly_lost e snd_una rtt_us reo_wnd_us now_ns

  is_newly_lost_iff :
      (e : RetransEntry)
      → IsAhead base (end_seq e)
      → (lost e ≡ true) ↔ IsLost base snd_una rtt_us reo_wnd_us now_ns e
  unfolding is_newly_lost rto_age_expired
  is_newly_lost_iff e he = (
    λ t. ground (arith, seq_le-offset base (end_seq e) snd_una hb he hu),
    λ l. ground (arith, seq_le-offset base (end_seq e) snd_una hb he hu),
  )

  abbrev indexes : SendRetrans → ℕ → List ℕ
  indexes [] i = []
  indexes (e ∷ es) i = if lost e then i ∷ indexes es (i + 1) else indexes es (i + 1)

  mark_from-eq-indexes :
      (es : SendRetrans) (i : ℕ) (out : List ℕ)
      → i + length es ≤ u16_mod
      → mark_from es i snd_una rtt_us reo_wnd_us now_ns out ≡ out ++ indexes es i
  unfolding mark_from
  mark_from-eq-indexes [] i out h = rw append-nil
  mark_from-eq-indexes (e ∷ es) i out h = elim (Bool-cases (lost e)) [
    | inl t ↦
        let small : as_u16 i ≡ i = omega arith in
        rw (t, small)
          (mark_from-eq-indexes es (i + 1) (out ++ (i ∷ [])) (omega arith)
            ∙ append_assoc out (i ∷ []) (indexes es (i + 1)))
    | inr f ↦ rw f (mark_from-eq-indexes es (i + 1) out (omega arith))
  ]

  abbrev LostAt : SendRetrans → ℕ → Type 0
  LostAt es j = (e : RetransEntry) × (get_elem? es j ≡ some e) × (lost e ≡ true)

  Holds-indexes :
      (es : SendRetrans) (i x : ℕ) → Holds (indexes es i) x → (j : ℕ) × (x ≡ i + j) × LostAt es j
  Holds-indexes [] i x h = absurd h
  Holds-indexes (e ∷ es) i x h = elim (Bool-cases (lost e)) [
    | inl t ↦ elim (rw t at h) [
      | inl p ↦ (0, omega arith, (e, refl, t))
      | inr k ↦ later (Holds-indexes es (i + 1) x k)
    ]
    | inr f ↦ later (Holds-indexes es (i + 1) x (rw f at h))
  ]
    where
      later : ((j : ℕ) × (x ≡ i + 1 + j) × LostAt es j) → (j : ℕ) × (x ≡ i + j) × LostAt (e ∷ es) j
      later (j, p, l) = (suc j, omega arith, l)

  indexes-Holds : (es : SendRetrans) (i j : ℕ) → LostAt es j → Holds (indexes es i) (i + j)
  indexes-Holds [] i j (e, p, t) = cc
  indexes-Holds (x ∷ es) i zero (e, p, t) =
      let same : x ≡ e = ground arith in rw (same, t) (inl (omega arith))
  indexes-Holds (x ∷ es) i (suc j) (e, p, t) =
      let shift : i + suc j ≡ i + 1 + j = omega arith in
      rw shift (skip (indexes-Holds es (i + 1) j (e, p, t)))
    where
      skip : Holds (indexes es (i + 1)) (i + 1 + j) → Holds (indexes (x ∷ es) i) (i + 1 + j)
      skip h = elim (Bool-cases (lost x)) [ inl y ↦ rw y (inr h) | inr n ↦ rw n h ]

-- On a retransmission timeout exactly the segments are reported that RFC 8985, 6.3, calls lost, each
-- under its own index. For at most 65536 segments, within 2 ^ 31 of a base.
pub rack_mark_losses_iff :
    (base snd_una rtt reo now : ℕ) (es : SendRetrans) (j : ℕ) (e : RetransEntry)
    → base < u32_mod
    → IsAhead base snd_una
    → length es ≤ u16_mod
    → IsAhead base (end_seq e)
    → get_elem? es j ≡ some e
    → Holds (rack_mark_losses_on_rto es snd_una rtt reo now) j ↔ IsLost base snd_una rtt reo now e
unfolding rack_mark_losses_on_rto
rack_mark_losses_iff base snd_una rtt reo now es j e hb hu hl he p =
    rw (mark_from-eq-indexes base snd_una rtt reo now hb hu es 0 [] (omega arith)) (
      λ h. lem.0 (found (Holds-indexes base snd_una rtt reo now hb hu es 0 j h)),
      λ l.
          subst (Holds (indexes base snd_una rtt reo now hb hu es 0)) start
            (indexes-Holds base snd_una rtt reo now hb hu es 0 j (e, p, lem.1 l)),
    )
  where
    lem : (is_newly_lost e snd_una rtt reo now ≡ true) ↔ IsLost base snd_una rtt reo now e
    lem = is_newly_lost_iff base snd_una rtt reo now hb hu e he

    start : 0 + j ≡ j
    start = omega arith

    found :
        ((k : ℕ) × (j ≡ 0 + k)
          × ((x : RetransEntry) × (get_elem? es k ≡ some x)
              × (is_newly_lost x snd_una rtt reo now ≡ true)))
        → is_newly_lost e snd_una rtt reo now ≡ true
    found (k, q, (x, g, t)) =
        let same : k ≡ j = omega arith in
        let g' : get_elem? es j ≡ some x = rw same at g in let ex : e ≡ x = ground arith in rw ex t
