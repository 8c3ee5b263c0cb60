-- ===== src/TimerWheel/Fired.antt =====
-- What an advance of the wheel fires, and what it keeps.
use resd_dpdk_tcp.Base.{
  ℕ, zero, suc, ◌-◌, ◌*◌, ◌/◌, ◌≡◌, ◌⊎◌, inl, inr, min, false, none, some, List, [], ◌∷◌, ◌++◌, leb,
  ◌==◌, refl, sym, ap, ◌∙◌, subst, get_or, set, Bool-cases, Option-cases, All, All-append,
  some-injective, none-some, if_either,
}
use resd_dpdk_tcp.TimerWheel.{
  TimerId, TimerNode, TimerWheel, slot_at, fire, fire_all, cascade, tick, ticks, advance,
  fire_bucket, begun, tick_ns, bucket_count, levels,
}
use resd_dpdk_tcp.TimerWheel.Clears.{
  Clears, Fired, HasFired, IsFired, IsPast, cascade-Clears, false-true, freed, set-none,
}

HasFired-append :
    (i : ℕ) (n : TimerNode) (fired more : Fired)
    → HasFired i n fired ⊎ HasFired i n more
    → HasFired i n (fired ++ more)
HasFired-append i n [] more (inl h) = absurd h
HasFired-append i n [] more (inr h) = h
HasFired-append i n (x ∷ fired) more (inl (inl h)) = inl h
HasFired-append i n (x ∷ fired) more (inl (inr h)) = inr (HasFired-append i n fired more (inl h))
HasFired-append i n (x ∷ fired) more (inr h) = inr (HasFired-append i n fired more (inr h))

module _ (w : TimerWheel) where
  -- What has fired stays free, as slots are freed only.
  later-IsFired :
      (u v : TimerWheel) (fired : Fired)
      → ((i : ℕ) → slot_at u i ≡ none → slot_at v i ≡ none)
      → All (IsFired w u) fired
      → All (IsFired w v) fired
  later-IsFired u v [] h all = tt
  later-IsFired u v ((id, n) ∷ fired) h ((a, b, c, d), all) =
      ((a, b, c, h id.slot d), later-IsFired u v fired h all)

  Clears-IsPast :
      (u v : TimerWheel) (fired : Fired) → Clears u v → IsPast w (u, fired) → IsPast w (v, fired)
  Clears-IsPast u v fired k p = record {
    slots = λ i. elim (k i) [
      | inr (e, rest) ↦ inr e
      | inl e ↦ elim (p.slots i) [ inl f ↦ inl (e ∙ f) | inr f ↦ inr (e ∙ f) ]
    ];
    sound =
        later-IsFired u v fired (λ i e. elim (k i) [ inl f ↦ f ∙ e | inr (f, rest) ↦ f ]) p.sound;
    complete = λ i n e c. elim (p.complete i n e c) [
      | inr f ↦ inr f
      | inl f ↦ elim (k i) [
        | inl g ↦ inl (g ∙ f)
        | inr (g, (m, at, x)) ↦
            let same : m ≡ n = some-injective m n (sym at ∙ f) in
            absurd (false-true (sym c ∙ ap (λ (z : TimerNode). z.cancelled) (sym same) ∙ x))
      ]
    ];
  }

  -- One timer more has fired.
  fired_IsPast :
      (slot : ℕ) (u : TimerWheel) (fired : Fired) (n : TimerNode)
      → slot_at u slot ≡ some n
      → n.cancelled ≡ false
      → IsPast w (u, fired)
      → IsPast w (
        record u { slots = set u.slots slot none; free_list = slot ∷ u.free_list },
        fired ++ ((record { slot = slot; generation = n.generation }, n) ∷ []),
      )
  fired_IsPast slot u fired n e q p =
      let v : TimerWheel = record u {
        slots = set u.slots slot none;
        free_list = slot ∷ u.free_list;
      } in
      let entry : TimerId × TimerNode = (record { slot = slot; generation = n.generation }, n) in
      let was : slot_at w slot ≡ some n = elim (p.slots slot) [
        | inl f ↦ sym f ∙ e
        | inr f ↦ absurd (none-some n (sym f ∙ e))
      ] in
      record {
        slots = λ i. elim (freed u.slots slot i) [
          | inr (same, f) ↦ inr f
          | inl f ↦ elim (p.slots i) [ inl g ↦ inl (f ∙ g) | inr g ↦ inr (f ∙ g) ]
        ];
        sound =
            All-append (IsFired w v) fired (entry ∷ [])
              (later-IsFired u v fired
                (λ i z. elim (freed u.slots slot i) [ inl f ↦ f ∙ z | inr (same, f) ↦ f ]) p.sound)
              ((was, q, refl, set-none u.slots slot), tt);
        complete = λ i m at c. elim (p.complete i m at c) [
          | inr f ↦ inr (HasFired-append i m fired (entry ∷ []) (inl f))
          | inl f ↦ elim (freed u.slots slot i) [
            | inl g ↦ inl (g ∙ f)
            | inr (same, g) ↦
                let is : n ≡ m = some-injective n m (sym e ∙ ap (slot_at u) same ∙ f) in
                inr (
                  HasFired-append i m fired (entry ∷ [])
                    (inr (inl (same, ap (λ (z : TimerNode). z.generation) is, is))))
          ]
        ];
      }

  fire-IsPast :
      (slot : ℕ) (u : TimerWheel) (fired : Fired)
      → IsPast w (u, fired)
      → IsPast w (fire slot (u, fired))
  unfolding fire
  fire-IsPast slot u fired p = elim (Option-cases (slot_at u slot)) [
    | inl e ↦ rw (e, fire) p
    | inr (n, e) ↦
        let v : TimerWheel = record u {
          slots = set u.slots slot none;
          free_list = slot ∷ u.free_list;
        } in
        let entry : TimerId × TimerNode = (record { slot = slot; generation = n.generation }, n) in
        rw (e, fire)
          (if_either (λ (z : Fired). IsPast w (v, z)) n.cancelled fired (fired ++ (entry ∷ []))
            (λ q.
              Clears-IsPast u v fired
                (λ i. elim (freed u.slots slot i) [
                  | inl f ↦ inl f
                  | inr (same, f) ↦ inr (f, (n, subst (λ z. slot_at u z ≡ some n) same e, q))
                ])
                p)
            (λ q. fired_IsPast slot u fired n e q p))
  ]

  fire_all-IsPast :
      (slots : List ℕ) (s : TimerWheel × Fired) → IsPast w s → IsPast w (fire_all slots s)
  unfolding fire_all
  fire_all-IsPast [] s p = p
  fire_all-IsPast (slot ∷ slots) s p =
      fire_all-IsPast slots (fire slot s) (fire-IsPast slot s.0 s.1 p)

  same_slots :
      (u v : TimerWheel) (fired : Fired)
      → v.slots ≡ u.slots
      → IsPast w (u, fired)
      → IsPast w (v, fired)
  same_slots u v fired e p = Clears-IsPast u v fired (λ i. inl (ap (λ z. get_or z i none) e)) p

  fire_bucket-IsPast : (s : TimerWheel × Fired) → IsPast w s → IsPast w (fire_bucket s)
  unfolding fire_bucket
  fire_bucket-IsPast s p =
      let b = begun s.0 in
      let slots = b.buckets 0 (b.cursors 0) in
      let r = fire_all slots (b, s.1) in
      same_slots r.0 (fire_bucket s).0 r.1 refl
        (fire_all-IsPast slots (b, s.1) (same_slots s.0 b s.1 refl p))

  tick-IsPast : (s : TimerWheel × Fired) → IsPast w s → IsPast w (tick s)
  unfolding tick
  tick-IsPast s p =
      let r = fire_bucket s in
      let q = fire_bucket-IsPast s p in
      elim (Bool-cases (r.0.cursors 0 == 0)) [
        | inl e ↦ rw e (
            Clears-IsPast r.0 (cascade (levels - 1) 1 r.0) r.1 (cascade-Clears (levels - 1) 1 r.0)
              q)
        | inr e ↦ rw e q
      ]

  ticks-IsPast : (n : ℕ) (s : TimerWheel × Fired) → IsPast w s → IsPast w (ticks n s)
  unfolding ticks
  ticks-IsPast zero s p = p
  ticks-IsPast (suc n) s p = ticks-IsPast n (tick s) (tick-IsPast s p)

  start-IsPast : IsPast w (w, [])
  start-IsPast = record { slots = λ i. inl refl; sound = tt; complete = λ i n e c. inl e }

-- What an advance fires is, for each id, the timer that the wheel held in the slot of that id, under its
-- generation and not cancelled, and the slot is free afterwards. No other timer is lost: one that was not
-- cancelled either has fired or is still in its slot.
pub advance-IsPast : (now_ns : ℕ) (w : TimerWheel) → IsPast w (advance now_ns w)
unfolding advance
advance-IsPast now_ns w = elim (Bool-cases (leb (now_ns / tick_ns) w.last_tick)) [
  | inl q ↦ rw q (start-IsPast w)
  | inr q ↦ rw q (
      ticks-IsPast w (min (now_ns / tick_ns - w.last_tick) (bucket_count * levels)) (w, [])
        (start-IsPast w))
]
