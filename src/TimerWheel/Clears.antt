-- ===== src/TimerWheel/Clears.antt =====
-- Which slots a cascade frees, and what is to be said of the timers of a wheel.
use resd_dpdk_tcp.Base.{
  ℕ, zero, suc, ◌+◌, ◌*◌, ◌≡◌, ◌⊎◌, inl, inr, true, false, Option, none, some, List, [], ◌∷◌, ◌==◌,
  arith, refl, sym, ◌∙◌, subst, get_or, set, Bool-cases, Option-cases, All, get_or-set_ne,
  get_or-set_at, none-some,
}
use resd_dpdk_tcp.TimerWheel.{
  TimerId, TimerNode, TimerWheel, slot_at, move_down, move_all, cascade_level, cascade, opened,
  tick_ns,
}

abbrev pub Fired : Type 0
Fired = List (TimerId × TimerNode)

-- A timer of the wheel `w`, not cancelled, under the id of its slot and generation; its slot is free in
-- the wheel `w'`.
abbrev pub IsFired : TimerWheel → TimerWheel → TimerId × TimerNode → Type 0
IsFired w w' (id, n) =
    (slot_at w id.slot ≡ some n)
    × (n.cancelled ≡ false)
    × (id.generation ≡ n.generation)
    × (slot_at w' id.slot ≡ none)

abbrev pub HasFired : ℕ → TimerNode → Fired → Type 0
HasFired i n [] = ⊥
HasFired i n ((id, m) ∷ fired) =
    ((id.slot ≡ i) × (id.generation ≡ n.generation) × (m ≡ n)) ⊎ HasFired i n fired

-- What became of the timers of `w`.
pub record IsPast (w : TimerWheel) (s : TimerWheel × Fired) : Type 0 where
  pub slots : (i : ℕ) → (slot_at s.0 i ≡ slot_at w i) ⊎ (slot_at s.0 i ≡ none)
  pub sound : All (IsFired w s.0) s.1
  pub complete :
      (i : ℕ) (n : TimerNode)
      → slot_at w i ≡ some n
      → n.cancelled ≡ false
      → (slot_at s.0 i ≡ some n) ⊎ HasFired i n s.1

-- From `w` to `w'` only slots of cancelled timers are freed.
abbrev pub Clears : TimerWheel → TimerWheel → Type 0
Clears w w' =
    (i : ℕ)
    → (slot_at w' i ≡ slot_at w i)
      ⊎ ((slot_at w' i ≡ none) × ((n : TimerNode) × (slot_at w i ≡ some n) × (n.cancelled ≡ true)))

pub false-true : false ≡ true → ⊥
false-true e = ground arith

pub set-none :
    (slots : List (Option TimerNode)) (slot : ℕ) → get_or (set slots slot none) slot none ≡ none
set-none slots slot = elim (get_or-set_at slots slot none none) [ inl e ↦ e | inr e ↦ e ]

-- Freeing one slot.
pub freed :
    (slots : List (Option TimerNode)) (slot i : ℕ)
    → (get_or (set slots slot none) i none ≡ get_or slots i none)
      ⊎ ((slot ≡ i) × (get_or (set slots slot none) i none ≡ none))
freed slots slot i = elim (Bool-cases (slot == i)) [
  | inl e ↦
      let same : slot ≡ i = ground arith in
      inr (same, subst (λ z. get_or (set slots slot none) z none ≡ none) same (set-none slots slot))
  | inr e ↦ inl (get_or-set_ne slots slot i none none (λ q. ground (arith, q)))
]

pub Clears-trans : (a b c : TimerWheel) → Clears a b → Clears b c → Clears a c
Clears-trans a b c p q i = elim (q i) [
  | inr (e, (n, at, x)) ↦ elim (p i) [
    | inl f ↦ inr (e, (n, sym f ∙ at, x))
    | inr (f, rest) ↦ absurd (none-some n (sym f ∙ at))
  ]
  | inl e ↦ elim (p i) [ inl f ↦ inl (e ∙ f) | inr (f, rest) ↦ inr (e ∙ f, rest) ]
]

pub move_down-Clears : (now_ns slot : ℕ) (w : TimerWheel) → Clears w (move_down now_ns slot w)
unfolding move_down
move_down-Clears now_ns slot w i = elim (Option-cases (slot_at w slot)) [
  | inl e ↦ rw (e, move_down) (inl refl)
  | inr (n, e) ↦ elim (Bool-cases n.cancelled) [
    | inr q ↦ rw (e, move_down, q) (inl refl)
    | inl q ↦
        rw (e, move_down, q)
          (elim (freed w.slots slot i) [
            | inl f ↦ inl f
            | inr (same, f) ↦ inr (f, (n, subst (λ z. slot_at w z ≡ some n) same e, q))
          ])
  ]
]

pub move_all-Clears :
    (now_ns : ℕ) (slots : List ℕ) (w : TimerWheel) → Clears w (move_all now_ns slots w)
unfolding move_all
move_all-Clears now_ns [] w = λ i. inl refl
move_all-Clears now_ns (slot ∷ slots) w =
    let d = move_down now_ns slot w in
    Clears-trans w d (move_all now_ns slots d) (move_down-Clears now_ns slot w)
      (move_all-Clears now_ns slots d)

pub cascade_level-Clears : (level : ℕ) (w : TimerWheel) → Clears w (cascade_level level w)
unfolding cascade_level
cascade_level-Clears level w =
    let o = opened level w in move_all-Clears (w.last_tick * tick_ns) o.drain_scratch o

pub cascade-Clears : (left level : ℕ) (w : TimerWheel) → Clears w (cascade left level w)
unfolding cascade
cascade-Clears zero level w = λ i. inl refl
cascade-Clears (suc left) level w =
    let c = cascade_level level w in
    let one = cascade_level-Clears level w in
    elim (Bool-cases (c.cursors level == 0)) [
      | inl q ↦
          rw q
            (Clears-trans w c (cascade left (level + 1) c) one (cascade-Clears left (level + 1) c))
      | inr q ↦ rw q one
    ]
