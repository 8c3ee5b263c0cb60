-- ===== src/TimerWheel.antt =====
-- The hashed timing wheel, crates/dpdk-net-core/src/tcp_timer_wheel.rs. The arrays of buckets and of
-- cursors are functions of their indices, the free list is a stack with its top first, and `slots` and
-- `generations` are lists. `fire_at_ns`, `now_ns` and `last_tick` are words of 64 bits that no
-- operation here takes near their modulus. A `Vec` is what it holds: capacities are not modelled.
pub mod Levels
pub mod Generations
pub mod Advance
pub mod Clears
pub mod Fired
use resd_dpdk_tcp.Base.{
  ℕ, zero, suc, ◌+◌, ◌-◌, ◌*◌, ◌/◌, ◌%◌, ◌^◌, min, max, Bool, true, false, not, ◌&&◌, Option, none,
  some, List, [], ◌∷◌, ◌++◌, length, ltb, leb, ◌==◌, if◌then◌else◌, get_or, set, u32_mod,
  wrapping_add32, as_u32,
}

abbrev pub tick_ns : ℕ
tick_ns = 10000

abbrev pub levels : ℕ
levels = 8

abbrev pub bucket_count : ℕ
bucket_count = 256

pub record TimerId : Type 0 where
  pub slot : ℕ
  pub generation : ℕ

pub data TimerKind : Type 0 where
  rto tlp syn_retrans api_public : TimerKind

pub record TimerNode : Type 0 where
  pub fire_at_ns : ℕ
  pub owner_handle : ℕ
  pub kind : TimerKind
  pub user_data : ℕ
  pub generation : ℕ
  pub cancelled : Bool

pub record TimerWheel : Type 0 where
  pub slots : List (Option TimerNode)
  pub generations : List ℕ
  pub free_list : List ℕ
  pub buckets : ℕ → ℕ → List ℕ
  pub cursors : ℕ → ℕ
  pub last_tick : ℕ
  pub drain_scratch : List ℕ

abbrev pub new : TimerWheel
new = record {
  slots = [];
  generations = [];
  free_list = [];
  buckets = λ level i. [];
  cursors = λ level. 0;
  last_tick = 0;
  drain_scratch = [];
}

-- The spans are shifts of a `u64`, which take the distance modulo 64 in a release build.
abbrev pub level_span : ℕ → ℕ
level_span level = 2 ^ (8 * (level + 1) % 64)

-- The loop over the levels, `left` of them to come.
unfoldable pub search_level : ℕ → ℕ → ℕ → ℕ × ℕ
search_level zero level delay_ticks = (levels - 1, bucket_count - 1)
search_level (suc left) level delay_ticks =
    let rest = search_level left (level + 1) delay_ticks in
    if ltb delay_ticks (level_span level)
    then (level, min (max (delay_ticks / 2 ^ (8 * level)) 1) (bucket_count - 1))
    else rest

unfoldable pub level_and_bucket_offset : ℕ → ℕ × ℕ
unfolding search_level
level_and_bucket_offset delay_ticks = search_level levels 0 delay_ticks

abbrev pub slot_at : TimerWheel → ℕ → Option TimerNode
slot_at w i = get_or w.slots i none

abbrev pub generation_at : TimerWheel → ℕ → ℕ
generation_at w i = get_or w.generations i 0

abbrev pub with_bucket : (ℕ → ℕ → List ℕ) → ℕ → ℕ → List ℕ → ℕ → ℕ → List ℕ
with_bucket buckets level i xs l j = if (l == level) && (j == i) then xs else buckets l j

-- `self.buckets[level][i].push(slot)`
abbrev pub push_bucket : ℕ → ℕ → ℕ → TimerWheel → TimerWheel
push_bucket level i slot w = record w {
  buckets = with_bucket w.buckets level i (w.buckets level i ++ (slot ∷ []));
}

-- The bucket in which a timer goes that is due at `fire_at_ns`.
unfoldable pub target : TimerWheel → ℕ → ℕ → ℕ × ℕ
unfolding level_and_bucket_offset
target w now_ns fire_at_ns =
    let (level, bucket_off) = level_and_bucket_offset ((fire_at_ns - now_ns) / tick_ns) in
    (level, (w.cursors level + bucket_off) % bucket_count)

-- The slot that `add` takes, by the free list.
unfoldable pub take_slot : List ℕ → TimerWheel → ℕ × TimerWheel
take_slot [] w = (
  as_u32 (length w.slots),
  record w { slots = w.slots ++ (none ∷ []); generations = w.generations ++ (0 ∷ []) },
)
take_slot (s ∷ free) w = (
  s,
  record w {
    free_list = free;
    generations = set w.generations s (wrapping_add32 (generation_at w s) 1);
  },
)

unfoldable pub add : ℕ → TimerNode → TimerWheel → TimerWheel × TimerId
unfolding take_slot target
add now_ns node w =
    let (level, bucket_idx) = target w now_ns node.fire_at_ns in
    let (slot, taken) = take_slot w.free_list w in
    let gen = generation_at taken slot in
    let stored = record taken {
      slots = set taken.slots slot (some (record node { generation = gen; cancelled = false }));
    } in
    (push_bucket level bucket_idx slot stored, record { slot = slot; generation = gen })

unfoldable pub cancel : TimerId → TimerWheel → TimerWheel × Bool
cancel id w = elim (slot_at w id.slot) [
  | none ↦ (w, false)
  | some node ↦
      if (node.generation == id.generation) && not node.cancelled
      then (
        record w { slots = set w.slots id.slot (some (record node { cancelled = true })) },
        true,
      )
      else (w, false)
]

-- One slot of a bucket that `advance` drains, and all of them. What fires is a list.
unfoldable pub fire :
    ℕ → TimerWheel × List (TimerId × TimerNode) → TimerWheel × List (TimerId × TimerNode)
fire slot (w, fired) = elim (slot_at w slot) [
  | none ↦ (w, fired)
  | some node ↦ (
    record w { slots = set w.slots slot none; free_list = slot ∷ w.free_list },
    if node.cancelled
        then fired
        else fired ++ ((record { slot = slot; generation = node.generation }, node) ∷ []),
  )
]

unfoldable pub fire_all :
    List ℕ → TimerWheel × List (TimerId × TimerNode) → TimerWheel × List (TimerId × TimerNode)
unfolding fire
fire_all [] s = s
fire_all (slot ∷ slots) s = fire_all slots (fire slot s)

-- One slot of a bucket that `cascade` drains.
unfoldable pub move_down : ℕ → ℕ → TimerWheel → TimerWheel
unfolding target
move_down now_ns slot w = elim (slot_at w slot) [
  | none ↦ w
  | some node ↦
      if node.cancelled
      then record w { slots = set w.slots slot none; free_list = slot ∷ w.free_list }
      else (let (level, i) = target w now_ns node.fire_at_ns in push_bucket level i slot w)
]

unfoldable pub move_all : ℕ → List ℕ → TimerWheel → TimerWheel
unfolding move_down
move_all now_ns [] w = w
move_all now_ns (slot ∷ slots) w = move_all now_ns slots (move_down now_ns slot w)

abbrev pub step_cursor : ℕ → TimerWheel → TimerWheel
step_cursor level w = record w {
  cursors = λ l. if l == level then (w.cursors level + 1) % bucket_count else w.cursors l;
}

-- `mem::swap` of the scratch buffer and a bucket.
abbrev pub swap_scratch : ℕ → ℕ → TimerWheel → TimerWheel
swap_scratch level i w = record w {
  drain_scratch = w.buckets level i;
  buckets = with_bucket w.buckets level i w.drain_scratch;
}

-- The cursor moves on, and the bucket there goes into the scratch buffer.
abbrev pub opened : ℕ → TimerWheel → TimerWheel
opened level w =
    let stepped = step_cursor level w in swap_scratch level (stepped.cursors level) stepped

-- `cascade` but for its recursive call.
unfoldable pub cascade_level : ℕ → TimerWheel → TimerWheel
unfolding move_all
cascade_level level w =
    let o = opened level w in
    let moved = move_all (w.last_tick * tick_ns) o.drain_scratch o in
    swap_scratch level (o.cursors level) (record moved { drain_scratch = [] })

-- `cascade(level)` with `left` levels from `level` to the last.
unfoldable pub cascade : ℕ → ℕ → TimerWheel → TimerWheel
unfolding cascade_level
cascade zero level w = w
cascade (suc left) level w =
    let w' = cascade_level level w in
    let rest = cascade left (level + 1) w' in if w'.cursors level == 0 then rest else w'

abbrev pub begun : TimerWheel → TimerWheel
begun w = record (step_cursor 0 w) { last_tick = w.last_tick + 1 }

-- The bucket at the cursor of level 0 fires and is cleared.
unfoldable pub fire_bucket :
    TimerWheel × List (TimerId × TimerNode) → TimerWheel × List (TimerId × TimerNode)
unfolding fire_all
fire_bucket (w, fired) =
    let b = begun w in
    let (w', fired') = fire_all (b.buckets 0 (b.cursors 0)) (b, fired) in
    (record w' { buckets = with_bucket w'.buckets 0 (b.cursors 0) [] }, fired')

-- One round of the loop of `advance`.
unfoldable pub tick :
    TimerWheel × List (TimerId × TimerNode) → TimerWheel × List (TimerId × TimerNode)
unfolding fire_bucket cascade
tick s =
    let (w, fired) = fire_bucket s in
    (if w.cursors 0 == 0 then cascade (levels - 1) 1 w else w, fired)

unfoldable pub ticks :
    ℕ → TimerWheel × List (TimerId × TimerNode) → TimerWheel × List (TimerId × TimerNode)
unfolding tick
ticks zero s = s
ticks (suc n) s = ticks n (tick s)

unfoldable pub advance : ℕ → TimerWheel → TimerWheel × List (TimerId × TimerNode)
unfolding ticks
advance now_ns w =
    let now_tick = now_ns / tick_ns in
    let run = ticks (min (now_tick - w.last_tick) (bucket_count * levels)) (w, []) in
    if leb now_tick w.last_tick then (w, []) else run
