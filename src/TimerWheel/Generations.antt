-- ===== src/TimerWheel/Generations.antt =====
-- The generation counts keep a stale id from a timer that took over its slot.
use resd_dpdk_tcp.Base.{
  ℕ, zero, suc, ◌+◌, ◌-◌, ◌<◌, ◌≡◌, ◌≢◌, inl, inr, false, not, ◌&&◌, Option, none, some, List, [],
  ◌∷◌, length, get_or, set, leb, ◌/◌, ◌*◌, min, ◌==◌, arith, refl, ap, sym, ◌∙◌, subst, u32_mod,
  wrapping_add32, Bool-cases, Option-cases, get_or-set_self, get_or-set_ne, get_or-set_default,
  get_or-set_at, get_or-snoc, some-injective, none-some,
}
use resd_dpdk_tcp.TimerWheel.{
  TimerId, TimerNode, TimerWheel, slot_at, generation_at, add, cancel, take_slot, fire, fire_all,
  move_down, move_all, cascade_level, cascade, tick, ticks, advance, fire_bucket, begun, opened,
  tick_ns, bucket_count, levels,
}

-- Every timer carries the generation of its slot.
abbrev pub IsCurrent : TimerWheel → Type 0
IsCurrent w = (i : ℕ) (n : TimerNode) → slot_at w i ≡ some n → n.generation ≡ generation_at w i

-- A slot that is emptied, or given a timer of its generation, leaves the others alone.
set-IsCurrent :
    (w : TimerWheel) (free : List ℕ) (i : ℕ) (o : Option TimerNode)
    → IsCurrent w
    → ((n : TimerNode) → o ≡ some n → n.generation ≡ generation_at w i)
    → IsCurrent (record w { slots = set w.slots i o; free_list = free })
set-IsCurrent w free i o h k j n e = elim (get_or-set_default w.slots i j o none) [
  | inl q ↦ h j n (sym q ∙ e)
  | inr (p, q) ↦ subst (λ z. n.generation ≡ generation_at w z) p (k n (sym q ∙ e))
]

take_slot-IsCurrent :
    (free : List ℕ) (w : TimerWheel)
    → IsCurrent w
    → let (slot, taken) = take_slot free w in
      (j : ℕ) (n : TimerNode)
      → slot ≢ j
      → slot_at taken j ≡ some n
      → n.generation ≡ generation_at taken j
unfolding take_slot
take_slot-IsCurrent [] w h j n ne e =
    h j n (sym (get_or-snoc w.slots j none) ∙ e) ∙ sym (get_or-snoc w.generations j 0)
take_slot-IsCurrent (s ∷ free) w h j n ne e = h j n e ∙ sym (get_or-set_ne w.generations s j _ 0 ne)

pub add-IsCurrent :
    (now_ns : ℕ) (node : TimerNode) (w : TimerWheel) → IsCurrent w → IsCurrent (add now_ns node w).0
unfolding add
add-IsCurrent now_ns node w h j n e =
    let (slot, taken) = take_slot w.free_list w in
    let placed = some (record node { generation = generation_at taken slot; cancelled = false }) in
    elim (Bool-cases (slot == j)) [
      | inl q ↦
          let same : slot ≡ j = ground arith in
          let e' : get_or (set taken.slots slot placed) slot none ≡ some n =
            subst (λ z. get_or (set taken.slots slot placed) z none ≡ some n) (sym same) e in
          elim (get_or-set_at taken.slots slot placed none) [
            | inl v ↦
                subst (λ z. n.generation ≡ generation_at taken z) same
                  (ap (λ m. m.generation) (sym (some-injective _ n (sym v ∙ e'))))
            | inr v ↦ absurd (none-some n (sym v ∙ e'))
          ]
      | inr q ↦
          let ne : slot ≢ j = λ same. ground arith in
          take_slot-IsCurrent w.free_list w h j n ne
            (sym (get_or-set_ne taken.slots slot j placed none ne) ∙ e)
    ]

pub cancel-IsCurrent : (id : TimerId) (w : TimerWheel) → IsCurrent w → IsCurrent (cancel id w).0
unfolding cancel
cancel-IsCurrent id w h = elim (Option-cases (slot_at w id.slot)) [
  | inl e ↦ rw (e, cancel) h
  | inr (n, e) ↦ elim (Bool-cases ((n.generation == id.generation) && not n.cancelled)) [
    | inl q ↦
        rw (e, cancel, q)
          (set-IsCurrent w w.free_list id.slot _ h
            (λ m k. ap (λ z. z.generation) (sym (some-injective _ m k)) ∙ h id.slot n e))
    | inr q ↦ rw (e, cancel, q) h
  ]
]

-- An id whose generation is not the slot's cancels nothing.
pub cancel_stale :
    (id : TimerId) (w : TimerWheel)
    → IsCurrent w
    → generation_at w id.slot ≢ id.generation
    → cancel id w ≡ (w, false)
unfolding cancel
cancel_stale id w h ne = elim (Option-cases (slot_at w id.slot)) [
  | inl e ↦ rw (e, cancel) refl
  | inr (n, e) ↦
      let g : n.generation ≡ generation_at w id.slot = h id.slot n e in
      let q : (n.generation == id.generation) ≡ false = ground arith in rw (e, cancel, q) refl
]

fire-IsCurrent :
    (slot : ℕ) (w : TimerWheel) (fired : List (TimerId × TimerNode))
    → IsCurrent w
    → IsCurrent (fire slot (w, fired)).0
unfolding fire
fire-IsCurrent slot w fired h = elim (Option-cases (slot_at w slot)) [
  | inl e ↦ rw (e, fire) h
  | inr (n, e) ↦
      rw (e, fire)
        (set-IsCurrent w (slot ∷ w.free_list) slot none h (λ m k. absurd (none-some m k)))
]

fire_all-IsCurrent :
    (slots : List ℕ) (s : TimerWheel × List (TimerId × TimerNode))
    → IsCurrent s.0
    → IsCurrent (fire_all slots s).0
unfolding fire_all
fire_all-IsCurrent [] s h = h
fire_all-IsCurrent (slot ∷ slots) s h =
    fire_all-IsCurrent slots (fire slot s) (fire-IsCurrent slot s.0 s.1 h)

move_down-IsCurrent :
    (now_ns slot : ℕ) (w : TimerWheel) → IsCurrent w → IsCurrent (move_down now_ns slot w)
unfolding move_down
move_down-IsCurrent now_ns slot w h = elim (Option-cases (slot_at w slot)) [
  | inl e ↦ rw (e, move_down) h
  | inr (n, e) ↦ elim (Bool-cases n.cancelled) [
    | inl q ↦
        rw (e, move_down, q)
          (set-IsCurrent w (slot ∷ w.free_list) slot none h (λ m k. absurd (none-some m k)))
    | inr q ↦ rw (e, move_down, q) h
  ]
]

move_all-IsCurrent :
    (now_ns : ℕ) (slots : List ℕ) (w : TimerWheel)
    → IsCurrent w
    → IsCurrent (move_all now_ns slots w)
unfolding move_all
move_all-IsCurrent now_ns [] w h = h
move_all-IsCurrent now_ns (slot ∷ slots) w h =
    move_all-IsCurrent now_ns slots (move_down now_ns slot w) (move_down-IsCurrent now_ns slot w h)

cascade_level-IsCurrent :
    (level : ℕ) (w : TimerWheel) → IsCurrent w → IsCurrent (cascade_level level w)
unfolding cascade_level
cascade_level-IsCurrent level w h =
    let o = opened level w in move_all-IsCurrent (w.last_tick * tick_ns) o.drain_scratch o h

cascade-IsCurrent :
    (left level : ℕ) (w : TimerWheel) → IsCurrent w → IsCurrent (cascade left level w)
unfolding cascade
cascade-IsCurrent zero level w h = h
cascade-IsCurrent (suc left) level w h =
    let v = cascade_level-IsCurrent level w h in
    elim (Bool-cases ((cascade_level level w).cursors level == 0)) [
      | inl q ↦ rw q (cascade-IsCurrent left (level + 1) (cascade_level level w) v)
      | inr q ↦ rw q v
    ]

fire_bucket-IsCurrent :
    (s : TimerWheel × List (TimerId × TimerNode)) → IsCurrent s.0 → IsCurrent (fire_bucket s).0
unfolding fire_bucket
fire_bucket-IsCurrent s h =
    let b = begun s.0 in fire_all-IsCurrent (b.buckets 0 (b.cursors 0)) (b, s.1) h

tick-IsCurrent :
    (s : TimerWheel × List (TimerId × TimerNode)) → IsCurrent s.0 → IsCurrent (tick s).0
unfolding tick
tick-IsCurrent s h =
    let w = (fire_bucket s).0 in
    let f = fire_bucket-IsCurrent s h in
    elim (Bool-cases (w.cursors 0 == 0)) [
      | inl q ↦ rw q (cascade-IsCurrent 7 1 w f)
      | inr q ↦ rw q f
    ]

ticks-IsCurrent :
    (n : ℕ) (s : TimerWheel × List (TimerId × TimerNode)) → IsCurrent s.0 → IsCurrent (ticks n s).0
unfolding ticks
ticks-IsCurrent zero s h = h
ticks-IsCurrent (suc n) s h = ticks-IsCurrent n (tick s) (tick-IsCurrent s h)

-- If every timer in a wheel carries the generation of its slot, every timer does after an
-- advance.
pub advance-IsCurrent : (now_ns : ℕ) (w : TimerWheel) → IsCurrent w → IsCurrent (advance now_ns w).0
unfolding advance
advance-IsCurrent now_ns w h = elim (Bool-cases (leb (now_ns / tick_ns) w.last_tick)) [
  | inl q ↦ rw q h
  | inr q ↦
      rw q
        (ticks-IsCurrent (min (now_ns / tick_ns - w.last_tick) (bucket_count * levels)) (w, []) h)
]

add-generation :
    (now_ns : ℕ) (node : TimerNode) (w : TimerWheel) (s : ℕ) (free : List ℕ)
    → w.free_list ≡ s ∷ free
    → s < length w.generations
    → generation_at (add now_ns node w).0 s ≡ wrapping_add32 (generation_at w s) 1
unfolding add take_slot
add-generation now_ns node w s free e hs = rw (e, add) (get_or-set_self w.generations s _ 0 hs)

-- When an insertion reuses a slot, the id of the timer that was there before cancels nothing,
-- neither the new timer nor anything else. For a wheel whose timers carry the generations of
-- their slots, and a generation of 32 bits.
pub add-stale :
    (now_ns : ℕ) (node : TimerNode) (w : TimerWheel) (s : ℕ) (free : List ℕ) (id : TimerId)
    → IsCurrent w
    → w.free_list ≡ s ∷ free
    → s < length w.generations
    → id.slot ≡ s
    → id.generation ≡ generation_at w s
    → generation_at w s < u32_mod
    → cancel id (add now_ns node w).0 ≡ ((add now_ns node w).0, false)
add-stale now_ns node w s free id h e hs hi hg word =
    cancel_stale id (add now_ns node w).0 (add-IsCurrent now_ns node w h) (λ same.
      let g = add-generation now_ns node w s free e hs in
      let k : generation_at (add now_ns node w).0 id.slot ≡ wrapping_add32 (generation_at w s) 1 =
        rw hi g in
      omega arith)
