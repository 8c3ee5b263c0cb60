-- ===== src/TimerWheel/Advance.antt =====
-- How an advance leaves the wheel: its scratch buffer, its cursors and its tick.
use resd_dpdk_tcp.Base.{
  ℕ, zero, suc, ◌+◌, ◌-◌, ◌*◌, ◌/◌, ◌%◌, ◌≤◌, ◌<◌, ◌≡◌, inl, inr, min, max, true, false, ◌&&◌, List,
  [], ◌∷◌, leb, ◌==◌, arith, refl, ap, ◌∙◌, subst, Bool-cases, Option-cases,
}
use resd_dpdk_tcp.TimerWheel.{
  TimerId, TimerNode, TimerWheel, slot_at, fire, fire_all, move_down, move_all, cascade_level,
  cascade, tick, ticks, advance, target, fire_bucket, begun, opened, tick_ns, bucket_count, levels,
  level_and_bucket_offset, search_level, with_bucket, step_cursor,
}

-- The scratch buffer is empty and the cursors point into their levels.
pub record IsSwept (w : TimerWheel) : Type 0 where
  pub empty : w.drain_scratch ≡ []
  pub cursors : (level : ℕ) → w.cursors level < bucket_count

offset_range :
    (delay : ℕ)
    → (1 ≤ (level_and_bucket_offset delay).1) × ((level_and_bucket_offset delay).1 < bucket_count)
unfolding level_and_bucket_offset search_level
offset_range delay = ground arith

ahead :
    (cursors : ℕ → ℕ) (level l off : ℕ)
    → cursors level < bucket_count
    → (1 ≤ off) × (off < bucket_count)
    → ((level == l) && (cursors level == (cursors l + off) % bucket_count)) ≡ false
ahead cursors level l off h (p, q) = elim (Bool-cases (level == l)) [
  | inl e ↦
      let same : level ≡ l = ground arith in
      let k : cursors level ≡ cursors l = ap cursors same in rw e (ground arith)
  | inr e ↦ rw e refl
]

-- A timer never goes to the bucket at a cursor.
target-ahead :
    (w : TimerWheel) (now_ns fire_at_ns level : ℕ)
    → w.cursors level < bucket_count
    → ((level == (target w now_ns fire_at_ns).0)
        && (w.cursors level == (target w now_ns fire_at_ns).1))
      ≡ false
unfolding target
target-ahead w now_ns fire_at_ns level h =
    let at = level_and_bucket_offset ((fire_at_ns - now_ns) / tick_ns) in
    ahead w.cursors level at.0 at.1 h (offset_range ((fire_at_ns - now_ns) / tick_ns))

-- A bucket at its cursor stays as it is while slots move down.
module _ (now_ns level : ℕ) where
  move_down-keeps :
      (slot : ℕ) (w : TimerWheel)
      → w.cursors level < bucket_count
      → ((move_down now_ns slot w).buckets level (w.cursors level)
          ≡ w.buckets level (w.cursors level))
        × ((move_down now_ns slot w).cursors ≡ w.cursors)
        × ((move_down now_ns slot w).last_tick ≡ w.last_tick)
  unfolding move_down
  move_down-keeps slot w h = elim (Option-cases (slot_at w slot)) [
    | inl e ↦ rw (e, move_down) (refl, refl, refl)
    | inr (n, e) ↦ elim (Bool-cases n.cancelled) [
      | inl q ↦ rw (e, move_down, q) (refl, refl, refl)
      | inr q ↦
          rw (e, move_down, q) (rw (target-ahead w now_ns n.fire_at_ns level h) refl, refl, refl)
    ]
  ]

  move_all-keeps :
      (slots : List ℕ) (w : TimerWheel)
      → w.cursors level < bucket_count
      → ((move_all now_ns slots w).buckets level (w.cursors level)
          ≡ w.buckets level (w.cursors level))
        × ((move_all now_ns slots w).cursors ≡ w.cursors)
        × ((move_all now_ns slots w).last_tick ≡ w.last_tick)
  unfolding move_all
  move_all-keeps [] w h = (refl, refl, refl)
  move_all-keeps (slot ∷ slots) w h =
      let d = move_down now_ns slot w in
      let (b, c, t) = move_down-keeps slot w h in
      let r = move_all-keeps slots d (rw c h) in
      let at : (move_all now_ns slots d).buckets level (w.cursors level)
          ≡ d.buckets level (w.cursors level) =
        subst (λ z. (move_all now_ns slots d).buckets level (z level) ≡ d.buckets level (z level)) c
          r.0 in
      (at ∙ b, r.1 ∙ c, r.2 ∙ t)

step_range :
    (w : TimerWheel) (l level : ℕ)
    → w.cursors level < bucket_count
    → (step_cursor l w).cursors level < bucket_count
step_range w l level h = elim (Bool-cases (level == l)) [
  | inl e ↦ rw e (omega arith)
  | inr e ↦ rw e h
]

same_true : (a : ℕ) → (a == a) ≡ true
same_true a = ground arith

at_self :
    (buckets : ℕ → ℕ → List ℕ) (level i : ℕ) (xs : List ℕ)
    → with_bucket buckets level i xs level i ≡ xs
at_self buckets level i xs = rw (same_true level, same_true i) refl

cascade_level-IsSwept :
    (level : ℕ) (w : TimerWheel)
    → IsSwept w
    → IsSwept (cascade_level level w) × ((cascade_level level w).last_tick ≡ w.last_tick)
unfolding cascade_level
cascade_level-IsSwept level w v =
    let o = opened level w in
    let r =
      move_all-keeps (w.last_tick * tick_ns) level o.drain_scratch o
        (step_range w level level (v.cursors level)) in
    let swept : IsSwept (cascade_level level w) = record {
      empty = r.0 ∙ at_self w.buckets level (o.cursors level) w.drain_scratch ∙ v.empty;
      cursors = λ l. rw r.1 (step_range w level l (v.cursors l));
    } in
    (swept, r.2)

cascade-IsSwept :
    (left level : ℕ) (w : TimerWheel)
    → IsSwept w
    → IsSwept (cascade left level w) × ((cascade left level w).last_tick ≡ w.last_tick)
unfolding cascade
cascade-IsSwept zero level w v = (v, refl)
cascade-IsSwept (suc left) level w v =
    let c = cascade_level-IsSwept level w v in
    let r = cascade-IsSwept left (level + 1) (cascade_level level w) c.0 in
    elim (Bool-cases ((cascade_level level w).cursors level == 0)) [
      | inl q ↦ rw q (r.0, r.1 ∙ c.1)
      | inr q ↦ rw q c
    ]

fire-keeps :
    (slot : ℕ) (w : TimerWheel) (fired : List (TimerId × TimerNode))
    → let w' = (fire slot (w, fired)).0 in
      (w'.drain_scratch ≡ w.drain_scratch) × (w'.cursors ≡ w.cursors) × (w'.last_tick ≡ w.last_tick)
unfolding fire
fire-keeps slot w fired = elim (Option-cases (slot_at w slot)) [
  | inl e ↦ rw (e, fire) (refl, refl, refl)
  | inr (n, e) ↦ rw (e, fire) (refl, refl, refl)
]

fire_all-keeps :
    (slots : List ℕ) (w : TimerWheel) (fired : List (TimerId × TimerNode))
    → let w' = (fire_all slots (w, fired)).0 in
      (w'.drain_scratch ≡ w.drain_scratch) × (w'.cursors ≡ w.cursors) × (w'.last_tick ≡ w.last_tick)
unfolding fire_all
fire_all-keeps [] w fired = (refl, refl, refl)
fire_all-keeps (slot ∷ slots) w fired =
    let (s', f') = fire slot (w, fired) in
    let a = fire-keeps slot w fired in
    let b = fire_all-keeps slots s' f' in (b.0 ∙ a.0, b.1 ∙ a.1, b.2 ∙ a.2)

tick-IsSwept :
    (s : TimerWheel × List (TimerId × TimerNode))
    → IsSwept s.0
    → IsSwept (tick s).0 × ((tick s).0.last_tick ≡ s.0.last_tick + 1)
unfolding tick fire_bucket
tick-IsSwept s v =
    let b = begun s.0 in
    let k = fire_all-keeps (b.buckets 0 (b.cursors 0)) b s.1 in
    let w = (fire_bucket s).0 in
    let swept : IsSwept w = record {
      empty = k.0 ∙ v.empty;
      cursors = λ l. rw k.1 (step_range s.0 0 l (v.cursors l));
    } in
    let r = cascade-IsSwept 7 1 w swept in
    elim (Bool-cases (w.cursors 0 == 0)) [
      | inl q ↦ rw q (r.0, r.1 ∙ k.2)
      | inr q ↦ rw q (swept, k.2)
    ]

ticks-IsSwept :
    (n : ℕ) (s : TimerWheel × List (TimerId × TimerNode))
    → IsSwept s.0
    → IsSwept (ticks n s).0 × ((ticks n s).0.last_tick ≡ s.0.last_tick + n)
unfolding ticks
ticks-IsSwept zero s v = (v, omega arith)
ticks-IsSwept (suc n) s v =
    let t = tick-IsSwept s v in
    let r = ticks-IsSwept n (tick s) t.0 in (r.0, omega (arith, r.1, t.1))

-- From a wheel with an empty scratch buffer and cursors inside their levels: an advance leaves no
-- timer behind in the scratch buffer, keeps every cursor inside its level, and brings the wheel
-- to the current tick, but by no more than 2048 ticks a call; it never takes the wheel back.
pub advance-IsSwept :
    (now_ns : ℕ) (w : TimerWheel)
    → IsSwept w
    → IsSwept (advance now_ns w).0
      × ((advance now_ns w).0.last_tick
          ≡ max w.last_tick (min (now_ns / tick_ns) (w.last_tick + 2048)))
unfolding advance
advance-IsSwept now_ns w v =
    let n = min (now_ns / tick_ns - w.last_tick) (bucket_count * levels) in
    let r = ticks-IsSwept n (w, []) v in
    elim (Bool-cases (leb (now_ns / tick_ns) w.last_tick)) [
      | inl q ↦ rw q (v, ground arith)
      | inr q ↦ rw q (r.0, ground (arith, r.1))
    ]
