-- ===== src/Engine/Blocks.antt =====
-- The SACK blocks of an acknowledgement.
use resd_dpdk_tcp.Base.{
  ℕ, zero, suc, ◌+◌, ◌-◌, ◌≤◌, ◌≡◌, inl, inr, min, Bool, true, false, not, ◌&&◌, Option, none, some,
  List, [], ◌∷◌, length, take, get_or, replicate, if◌then◌else◌, arith, refl, ◌∙◌, sym, subst, All,
  Bool-cases, Option-cases, length-append, length-take, get_or-set_self, if_either, and-true,
  none-some,
}
use resd_dpdk_tcp.Seq.{seq_lt, seq_le}
use resd_dpdk_tcp.Options.{
  SackBlock, TcpOpts, default_opts, zero_block, push_sack_block, max_sack_blocks_emit,
}
use resd_dpdk_tcp.Conn.Probes.{is_empty}
use resd_dpdk_tcp.Engine.Acks.{
  indexed_rev, find_trigger, push_others, push_blocks, add_blocks, build_ack_outcome,
}
use resd_dpdk_tcp.Engine.Pushed.{
  IsPushed, indexed_rev-All, push_blocks-Extends, push_others-Extends, push_sack_block-IsPushed,
  take-All,
}

length-indexed_rev : (bs : List SackBlock) (i : ℕ) → length (indexed_rev bs i) ≡ length bs
unfolding indexed_rev
length-indexed_rev [] i = refl
length-indexed_rev (b ∷ bs) i =
    omega
      (arith, length-append (indexed_rev bs (i + 1)) ((i, b) ∷ []), length-indexed_rev bs (i + 1))

-- The block that `position` finds: it is in the list, and it holds the trigger.
abbrev pub IsTrigger : (SackBlock → Type 0) → ℕ → Option (ℕ × SackBlock) → Type 0
IsTrigger P t none = Unit
IsTrigger P t (some (i, b)) = P b × (seq_le b.left t ≡ true) × (seq_lt t b.right ≡ true)

find_trigger-IsTrigger :
    (P : SackBlock → Type 0) (bs : List SackBlock) (i t : ℕ)
    → All P bs
    → IsTrigger P t (find_trigger bs i t)
unfolding find_trigger
find_trigger-IsTrigger P [] i t all = tt
find_trigger-IsTrigger P (b ∷ bs) i t all =
    if_either (IsTrigger P t) (seq_le b.left t && seq_lt t b.right) (some (i, b))
      (find_trigger bs (i + 1) t)
      (λ e. let (le, lt) = and-true (seq_le b.left t) (seq_lt t b.right) e in (all.0, le, lt))
      (λ e. find_trigger-IsTrigger P bs (i + 1) t all.1)

-- Whether some block holds the trigger.
abbrev pub is_held : List SackBlock → ℕ → Bool
is_held [] t = false
is_held (b ∷ bs) t = if seq_le b.left t && seq_lt t b.right then true else is_held bs t

find_trigger-held :
    (bs : List SackBlock) (i t : ℕ) → find_trigger bs i t ≡ none → is_held bs t ≡ true → ⊥
unfolding find_trigger
find_trigger-held [] i t e h = ground arith
find_trigger-held (b ∷ bs) i t e h = elim (Bool-cases (seq_le b.left t && seq_lt t b.right)) [
  | inl c ↦ none-some (i, b) (sym (rw c at e))
  | inr c ↦ find_trigger-held bs (i + 1) t (rw c at e) (rw c at h)
]

-- The first block of the options holds the trigger.
abbrev pub LeadsWith : ℕ → TcpOpts → Type 0
LeadsWith t o =
    (1 ≤ o.sack_block_count)
    × (seq_le (get_or o.sack_blocks 0 zero_block).left t ≡ true)
    × (seq_lt t (get_or o.sack_blocks 0 zero_block).right ≡ true)

pushed_first :
    (P : SackBlock → Type 0) (o : TcpOpts) (b : SackBlock)
    → IsPushed P o
    → o.sack_block_count ≡ 0
    → get_or (push_sack_block o b).0.sack_blocks 0 zero_block ≡ b
unfolding push_sack_block
pushed_first P o b v fresh =
    rw fresh (get_or-set_self o.sack_blocks 0 b zero_block (omega (arith, v.array)))

module _ (P : SackBlock → Type 0) (bs : List SackBlock) (all : All P bs) (o : TcpOpts)
    (v : IsPushed P o) (fresh : o.sack_block_count ≡ 0) where
  abbrev room : ℕ
  room = min (length bs) max_sack_blocks_emit

  without_lem :
      let r = push_blocks (take room (indexed_rev bs 0)) o in
      IsPushed P r × (r.sack_block_count ≡ room)
  without_lem =
      let n : length (take room (indexed_rev bs 0)) ≡ room =
        omega (arith, length-take room (indexed_rev bs 0), length-indexed_rev bs 0) in
      let e =
        push_blocks-Extends P (take room (indexed_rev bs 0)) o
          (take-All P room (indexed_rev bs 0) (indexed_rev-All P bs 0 all))
          (omega (arith, n, fresh)) v in
      (e.pushed, omega (arith, e.count, n, fresh))

  with_lem :
      (idx t : ℕ) (b : SackBlock)
      → P b × (seq_le b.left t ≡ true) × (seq_lt t b.right ≡ true)
      → let r = push_others (indexed_rev bs 0) idx (room - 1) (push_sack_block o b).0 in
        IsPushed P r.0 × (r.0.sack_block_count ≡ 1 + r.1) × LeadsWith t r.0
  with_lem idx t b (p, le, lt) =
      let next = (push_sack_block o b).0 in
      let (w, n) = push_sack_block-IsPushed P o b (omega (arith, fresh)) p v in
      let (r, more) =
        push_others-Extends P (indexed_rev bs 0) idx (room - 1) next (indexed_rev-All P bs 0 all)
          (omega (arith, n, fresh)) w in
      let head = r.first (omega (arith, n)) ∙ pushed_first P o b v fresh in
      (
        r.pushed,
        omega (arith, r.count, n, fresh),
        (
          omega (arith, r.count, n, fresh),
          subst (λ z. seq_le z.left t ≡ true) (sym head) le,
          subst (λ z. seq_lt t z.right ≡ true) (sym head) lt,
        ),
      )

-- What `add_blocks` returns: well-formed options and their number of blocks.
abbrev IsCounted : (SackBlock → Type 0) → TcpOpts × ℕ → Type 0
IsCounted P r = IsPushed P r.0 × (r.0.sack_block_count ≡ r.1)

add_blocks-IsCounted :
    (P : SackBlock → Type 0) (bs : List SackBlock) (trigger_range : Option (ℕ × ℕ)) (o : TcpOpts)
    → All P bs
    → IsPushed P o
    → o.sack_block_count ≡ 0
    → IsCounted P (add_blocks bs trigger_range o)
unfolding add_blocks
add_blocks-IsCounted P bs none o all v fresh = without_lem P bs all o v fresh
add_blocks-IsCounted P bs (some (t, r)) o all v fresh = elim (Option-cases (find_trigger bs 0 t)) [
  | inl e ↦ rw (e, add_blocks) (without_lem P bs all o v fresh)
  | inr ((i, b), e) ↦
      let is : IsTrigger P t (some (i, b)) =
        subst (IsTrigger P t) e (find_trigger-IsTrigger P bs 0 t all) in
      let (w, n, lead) = with_lem P bs all o v fresh i t b is in rw (e, add_blocks) (w, n)
]

pub All-Unit : (bs : List SackBlock) → All {0, 0} (λ _. Unit) bs
All-Unit [] = tt
All-Unit (b ∷ bs) = (tt, All-Unit bs)

add_blocks-trigger :
    (bs : List SackBlock) (t r : ℕ) (o : TcpOpts)
    → IsPushed (λ _. Unit) o
    → o.sack_block_count ≡ 0
    → is_held bs t ≡ true
    → LeadsWith t (add_blocks bs (some (t, r)) o).0
unfolding add_blocks
add_blocks-trigger bs t r o v fresh held = elim (Option-cases (find_trigger bs 0 t)) [
  | inl e ↦ absurd (find_trigger-held bs 0 t e held)
  | inr ((i, b), e) ↦
      let all = All-Unit bs in
      let is : IsTrigger (λ _. Unit) t (some (i, b)) =
        subst (IsTrigger (λ _. Unit) t) e (find_trigger-IsTrigger (λ _. Unit) bs 0 t all) in
      let (w, n, lead) = with_lem (λ _. Unit) bs all o v fresh i t b is in rw (e, add_blocks) lead
]

get_or-zero : (n i : ℕ) → get_or (replicate n zero_block) i zero_block ≡ zero_block
get_or-zero zero i = refl
get_or-zero (suc n) zero = refl
get_or-zero (suc n) (suc i) = get_or-zero n i

stamped-IsPushed :
    (P : SackBlock → Type 0) (stamps : Option (ℕ × ℕ))
    → IsPushed P (record default_opts { timestamps = stamps })
stamped-IsPushed P stamps = record {
  count = omega arith;
  array = refl;
  blocks = λ i k. absurd (ground arith);
  mss = refl;
  wscale = refl;
  sack_permitted = refl;
  unclamped = refl;
  unused = λ i k. get_or-zero 4 i;
}

-- The blocks of an acknowledgement are at most three, as many as it reports, and all of them ranges of
-- the reorder queue: what holds of each of these holds of each block sent.
pub build_ack_outcome-IsPushed :
    (P : SackBlock → Type 0) (ws_shift_out : ℕ) (ts_enabled : Bool) (ts_recent now_us : ℕ)
    (sack_enabled : Bool) (blocks : List SackBlock) (trigger_range : Option (ℕ × ℕ))
    (free_space : ℕ)
    → All P blocks
    → let o =
        build_ack_outcome ws_shift_out ts_enabled ts_recent now_us sack_enabled blocks trigger_range
          free_space in
      IsPushed P o.opts × (o.opts.sack_block_count ≡ o.sack_blocks_emitted)
unfolding build_ack_outcome
build_ack_outcome-IsPushed P ws_shift_out ts_enabled ts_recent now_us sack_enabled blocks
      trigger_range free_space all =
    let stamps : Option (ℕ × ℕ) = if ts_enabled then some (now_us, ts_recent) else none in
    let opts : TcpOpts = record default_opts { timestamps = stamps } in
    let v = stamped-IsPushed P stamps in
    if_either (IsCounted P) (sack_enabled && not (is_empty blocks))
      (add_blocks blocks trigger_range opts) (opts, 0)
      (λ e. add_blocks-IsCounted P blocks trigger_range opts all v refl) (λ e. (v, refl))

-- RFC 2018, section 4: the first SACK block of an acknowledgement is the one that holds the segment
-- which triggered it. When SACK is on and a range of the reorder queue holds the trigger.
pub build_ack_outcome-LeadsWith :
    (ws_shift_out : ℕ) (ts_enabled : Bool) (ts_recent now_us : ℕ) (blocks : List SackBlock)
    (t_left t_right free_space : ℕ)
    → is_held blocks t_left ≡ true
    → LeadsWith t_left
        (build_ack_outcome ws_shift_out ts_enabled ts_recent now_us true blocks
          (some (t_left, t_right))
          free_space).opts
unfolding build_ack_outcome
build_ack_outcome-LeadsWith ws_shift_out ts_enabled ts_recent now_us [] t_left t_right free_space
      held =
    absurd (ground arith)
build_ack_outcome-LeadsWith ws_shift_out ts_enabled ts_recent now_us (b ∷ bs) t_left t_right
      free_space held =
    let stamps : Option (ℕ × ℕ) = if ts_enabled then some (now_us, ts_recent) else none in
    add_blocks-trigger (b ∷ bs) t_left t_right (record default_opts { timestamps = stamps })
      (stamped-IsPushed (λ _. Unit) stamps) refl held
