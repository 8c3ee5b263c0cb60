-- ===== src/Events/Newest.antt =====
-- The queue against its specification: the newest events, in the order they came.
use resd_dpdk_tcp.Base.{
  ℕ, zero, suc, ◌+◌, ◌-◌, ◌≤◌, ◌<◌, ◌≡◌, ◌%◌, inl, inr, min, none, some, List, [], ◌∷◌, ◌++◌,
  length, drop, leb, arith, refl, ap, sym, subst, ◌∙◌, some-injective, none-some, u64_mod,
  Bool-cases, length-append, length-drop,
}
use resd_dpdk_tcp.Events.{
  InternalEvent, EventQueue, ObsCounters, pop_front, push, pop, with_cap, min_soft_cap,
}

abbrev pub push_all : List InternalEvent → EventQueue × ObsCounters → EventQueue × ObsCounters
push_all [] s = s
push_all (ev ∷ evs) s = push_all evs (push ev s)

drop-append :
    (n : ℕ) (xs : List InternalEvent) (ev : InternalEvent)
    → n ≤ length xs
    → drop n (xs ++ (ev ∷ [])) ≡ drop n xs ++ (ev ∷ [])
drop-append zero xs ev h = refl
drop-append (suc n) [] ev h = absurd (omega arith)
drop-append (suc n) (x ∷ xs) ev h = drop-append n xs ev (omega arith)

pop_front-drop : (n : ℕ) (xs : List InternalEvent) → pop_front (drop n xs) ≡ drop (suc n) xs
pop_front-drop zero [] = refl
pop_front-drop zero (x ∷ xs) = refl
pop_front-drop (suc n) [] = refl
pop_front-drop (suc n) (x ∷ xs) = pop_front-drop n xs

-- After the events `xs`, from empty: the last `cap` of them are held, and the others counted.
pub record Holds (cap : ℕ) (xs : List InternalEvent) (s : EventQueue × ObsCounters) : Type 0 where
  pub soft_cap : s.0.soft_cap ≡ cap
  pub newest : s.0.q ≡ drop (length xs - cap) xs
  pub dropped : s.1.events_dropped ≡ (length xs - cap) % u64_mod
  pub high_water : s.1.events_queue_high_water ≡ min (length xs) cap

push-Holds :
    (cap : ℕ) (xs : List InternalEvent) (ev : InternalEvent) (s : EventQueue × ObsCounters)
    → 1 ≤ cap
    → Holds cap xs s
    → Holds cap (xs ++ (ev ∷ [])) (push ev s)
unfolding push
push-Holds cap xs ev s h v =
    let n = length xs in
    let len : length s.0.q ≡ n - (n - cap) = ap length v.newest ∙ length-drop (n - cap) xs in
    let more : length (xs ++ (ev ∷ [])) ≡ n + 1 = length-append xs (ev ∷ []) in
    let sc = v.soft_cap in
    elim (Bool-cases (leb s.0.soft_cap (length s.0.q))) [
      | inl t ↦
          let full : cap ≤ n = ground (arith, len, sc) in
          let popped : pop_front s.0.q ≡ drop (suc (n - cap)) xs =
            ap pop_front v.newest ∙ pop_front-drop (n - cap) xs in
          let count : suc (n - cap) ≡ length (xs ++ (ev ∷ [])) - cap = omega (arith, more) in
          let front : length (pop_front s.0.q) ≡ n - suc (n - cap) =
            ap length popped ∙ length-drop (suc (n - cap)) xs in
          rw t (record {
            soft_cap = sc;
            newest =
                ap (λ z. z ++ (ev ∷ [])) popped
                ∙ sym (drop-append (suc (n - cap)) xs ev (omega arith))
                ∙ ap (λ k. drop k (xs ++ (ev ∷ []))) count;
            dropped = omega (arith, more, v.dropped);
            high_water =
                omega (arith, more, v.high_water, front, length-append (pop_front s.0.q) (ev ∷ []));
          })
      | inr f ↦
          let room : n < cap = ground (arith, len, sc) in
          let same : n - cap ≡ length (xs ++ (ev ∷ [])) - cap = omega (arith, more) in
          rw f (record {
            soft_cap = sc;
            newest =
                ap (λ z. z ++ (ev ∷ [])) v.newest
                ∙ sym (drop-append (n - cap) xs ev (omega arith))
                ∙ ap (λ k. drop k (xs ++ (ev ∷ []))) same;
            dropped = v.dropped ∙ ap (λ k. k % u64_mod) same;
            high_water = omega (arith, more, v.high_water, len, length-append s.0.q (ev ∷ []));
          })
    ]

append_assoc :
    (xs : List InternalEvent) (ev : InternalEvent) (evs : List InternalEvent)
    → (xs ++ (ev ∷ [])) ++ evs ≡ xs ++ (ev ∷ evs)
append_assoc [] ev evs = refl
append_assoc (x ∷ xs) ev evs = ap (λ z. x ∷ z) (append_assoc xs ev evs)

push_all-from :
    (cap : ℕ) (xs evs : List InternalEvent) (s : EventQueue × ObsCounters)
    → 1 ≤ cap
    → Holds cap xs s
    → Holds cap (xs ++ evs) (push_all evs s)
push_all-from cap xs [] s h v = subst (λ z. Holds cap z s) (sym (append_nil xs)) v
  where
    append_nil : (ys : List InternalEvent) → ys ++ [] ≡ ys
    append_nil [] = refl
    append_nil (y ∷ ys) = ap (λ z. y ∷ z) (append_nil ys)
push_all-from cap xs (ev ∷ evs) s h v =
    subst (λ z. Holds cap z (push_all evs (push ev s))) (append_assoc xs ev evs)
      (push_all-from cap (xs ++ (ev ∷ [])) evs (push ev s) h (push-Holds cap xs ev s h v))

-- From a new queue and counters at 0, any sequence of events leaves the newest of them in the queue, as
-- many as the capacity allows and in the order they came; `events_dropped` counts the others modulo
-- 2 ^ 64, and `events_queue_high_water` is the greatest length that the queue had.
pub push_all-Holds :
    (cap : ℕ) (queue : EventQueue) (evs : List InternalEvent)
    → with_cap cap ≡ some queue
    → Holds cap evs
        (push_all evs (queue, record { events_dropped = 0; events_queue_high_water = 0 }))
unfolding with_cap
push_all-Holds cap queue evs h = elim (Bool-cases (leb min_soft_cap cap)) [
  | inr f ↦ absurd (none-some queue (rw f at h))
  | inl t ↦
      let fresh : EventQueue = record { q = []; soft_cap = cap } in
      let e : fresh ≡ queue = some-injective fresh queue (rw t at h) in
      subst
        (λ z.
          Holds cap evs
            (push_all evs (z, record { events_dropped = 0; events_queue_high_water = 0 })))
        e
        (push_all-from cap [] evs
          (fresh, record { events_dropped = 0; events_queue_high_water = 0 }) (ground (arith, t))
          (record {
            soft_cap = refl;
            newest = none_left (0 - cap);
            dropped = omega arith;
            high_water = omega arith;
          }))
]
  where
    none_left : (n : ℕ) → Path (List InternalEvent) [] (drop n [])
    none_left zero = refl
    none_left (suc n) = refl

-- The events that up to `n` calls of `pop` return.
abbrev pub pops : ℕ → EventQueue → List InternalEvent
pops zero queue = []
pops (suc n) queue = elim (pop queue).1 [ none ↦ [] | some ev ↦ ev ∷ pops n (pop queue).0 ]

pops_lem :
    (cap : ℕ) (evs : List InternalEvent)
    → pops (length evs) (record { q = evs; soft_cap = cap }) ≡ evs
unfolding pop
pops_lem cap [] = refl
pops_lem cap (ev ∷ evs) = ap (λ z. ev ∷ z) (pops_lem cap evs)

-- What is pushed onto a new queue is popped in the order it came, but for the oldest events beyond the
-- capacity.
pub pops-push_all :
    (cap : ℕ) (queue : EventQueue) (evs : List InternalEvent) (obs : ObsCounters)
    → with_cap cap ≡ some queue
    → obs ≡ record { events_dropped = 0; events_queue_high_water = 0 }
    → let q = (push_all evs (queue, obs)).0 in pops (length q.q) q ≡ drop (length evs - cap) evs
pops-push_all cap queue evs obs h e =
    let q = (push_all evs (queue, obs)).0 in
    let v =
      subst (λ z. Holds cap evs (push_all evs (queue, z))) (sym e)
        (push_all-Holds cap queue evs h) in
    pops_lem q.soft_cap q.q ∙ v.newest
