-- ===== src/Engine/Carried.antt =====
-- The options of an acknowledgement, as the peer parses them.
use resd_dpdk_tcp.Base.{
  ℕ, zero, suc, ◌≤◌, ◌<◌, ◌≡◌, ◌⊎◌, inl, inr, min, Bool, not, ◌&&◌, Option, none, some, List, [],
  ◌∷◌, length, take, get_or, map, ◌==◌, leb, ltb, if◌then◌else◌, arith, refl, ◌∙◌, sym, subst, All,
  Bool-cases, Option-cases, if_either, u32_mod,
}
use resd_dpdk_tcp.Reassembly.{OooSegment, end_seq}
use resd_dpdk_tcp.Options.{
  SackBlock, TcpOpts, default_opts, zero_block, push_sack_block, max_sack_blocks_emit,
}
use resd_dpdk_tcp.Options.RoundTrip.{IsBlock, IsTimestamps, IsWire, Unused}
use resd_dpdk_tcp.Conn.Probes.{is_empty}
use resd_dpdk_tcp.Engine.Acks.{
  indexed_rev, find_trigger, push_others, push_blocks, add_blocks, build_ack_outcome, block_of,
}
use resd_dpdk_tcp.Engine.Pushed.{IsPushed}

-- The blocks leave the timestamps alone.
timestamps-push_sack_block :
    (o : TcpOpts) (b : SackBlock) → (push_sack_block o b).0.timestamps ≡ o.timestamps
unfolding push_sack_block
timestamps-push_sack_block o b =
    if_either (λ (r : TcpOpts × Bool). r.0.timestamps ≡ o.timestamps) (leb 3 o.sack_block_count) _ _
      (λ e. refl) (λ e. refl)

timestamps-push_blocks :
    (bs : List (ℕ × SackBlock)) (o : TcpOpts) → (push_blocks bs o).timestamps ≡ o.timestamps
unfolding push_blocks
timestamps-push_blocks [] o = refl
timestamps-push_blocks ((i, b) ∷ bs) o =
    timestamps-push_blocks bs (push_sack_block o b).0 ∙ timestamps-push_sack_block o b

timestamps-push_others :
    (bs : List (ℕ × SackBlock)) (idx left : ℕ) (o : TcpOpts)
    → (push_others bs idx left o).0.timestamps ≡ o.timestamps
unfolding push_others
timestamps-push_others [] idx left o = refl
timestamps-push_others ((i, b) ∷ bs) idx zero o =
    if_either (λ (r : TcpOpts × ℕ). r.0.timestamps ≡ o.timestamps) (i == idx) _ (o, 0)
      (λ e. timestamps-push_others bs idx zero o) (λ e. refl)
timestamps-push_others ((i, b) ∷ bs) idx (suc left) o =
    if_either (λ (r : TcpOpts × ℕ). r.0.timestamps ≡ o.timestamps) (i == idx) _ _
      (λ e. timestamps-push_others bs idx (suc left) o)
      (λ e.
        timestamps-push_others bs idx left (push_sack_block o b).0 ∙ timestamps-push_sack_block o b)

timestamps-add_blocks :
    (bs : List SackBlock) (trigger_range : Option (ℕ × ℕ)) (o : TcpOpts)
    → (add_blocks bs trigger_range o).0.timestamps ≡ o.timestamps
unfolding add_blocks
timestamps-add_blocks bs none o =
    timestamps-push_blocks (take (min (length bs) max_sack_blocks_emit) (indexed_rev bs 0)) o
timestamps-add_blocks bs (some (t, r)) o = elim (Option-cases (find_trigger bs 0 t)) [
  | inl e ↦
      rw (e, add_blocks)
        (timestamps-push_blocks (take (min (length bs) max_sack_blocks_emit) (indexed_rev bs 0)) o)
  | inr ((i, b), e) ↦
      rw (e, add_blocks)
        (timestamps-push_others _ i _ (push_sack_block o b).0 ∙ timestamps-push_sack_block o b)
]

pub timestamps-build_ack_outcome :
    (ws_shift_out : ℕ) (ts_enabled : Bool) (ts_recent now_us : ℕ) (sack_enabled : Bool)
    (blocks : List SackBlock) (trigger_range : Option (ℕ × ℕ)) (free_space : ℕ)
    → (build_ack_outcome ws_shift_out ts_enabled ts_recent now_us sack_enabled blocks trigger_range
        free_space).opts.timestamps
      ≡ (if ts_enabled then some (now_us, ts_recent) else none)
unfolding build_ack_outcome
timestamps-build_ack_outcome ws_shift_out ts_enabled ts_recent now_us sack_enabled blocks
      trigger_range free_space =
    let stamps : Option (ℕ × ℕ) = if ts_enabled then some (now_us, ts_recent) else none in
    let opts : TcpOpts = record default_opts { timestamps = stamps } in
    if_either (λ (r : TcpOpts × ℕ). r.0.timestamps ≡ stamps) (sack_enabled && not (is_empty blocks))
      (add_blocks blocks trigger_range opts) (opts, 0)
      (λ e. timestamps-add_blocks blocks trigger_range opts) (λ e. refl)

-- A block that is the range of one of the segments.
abbrev pub IsRange : List OooSegment → SackBlock → Type 0
IsRange [] b = ⊥
IsRange (s ∷ segs) b = ((b.left ≡ s.seq) × (b.right ≡ end_seq s)) ⊎ IsRange segs b

abbrev pub IsCarried : List OooSegment → SackBlock → Type 0
IsCarried segs b = IsBlock b × IsRange segs b

more-IsCarried :
    (s : OooSegment) (segs : List OooSegment) (bs : List SackBlock)
    → All (IsCarried segs) bs
    → All (IsCarried (s ∷ segs)) bs
more-IsCarried s segs [] all = tt
more-IsCarried s segs (b ∷ bs) ((w, r), all) = ((w, inr r), more-IsCarried s segs bs all)

pub map-IsCarried :
    (segs : List OooSegment)
    → All (λ s. s.seq < u32_mod) segs
    → All (IsCarried segs) (map block_of segs)
map-IsCarried [] all = tt
map-IsCarried (s ∷ segs) (w, all) = (
  ((w, omega arith), inl (refl, refl)),
  more-IsCarried s segs (map block_of segs) (map-IsCarried segs all),
)

four_lem :
    (xs : List SackBlock)
    → length xs ≡ 4
    → xs
      ≡ get_or xs 0 zero_block
        ∷ get_or xs 1 zero_block
        ∷ get_or xs 2 zero_block
        ∷ get_or xs 3 zero_block
        ∷ []
four_lem [] h = absurd (omega arith)
four_lem (a ∷ []) h = absurd (omega arith)
four_lem (a ∷ b ∷ []) h = absurd (omega arith)
four_lem (a ∷ b ∷ c ∷ []) h = absurd (omega arith)
four_lem (a ∷ b ∷ c ∷ d ∷ []) h = refl
four_lem (a ∷ b ∷ c ∷ d ∷ e ∷ xs) h = absurd (omega arith)

unused_lem :
    (n : ℕ) (f : ℕ → SackBlock)
    → n ≤ 3
    → ((i : ℕ) → n ≤ i → f i ≡ zero_block)
    → Unused n (f 0 ∷ f 1 ∷ f 2 ∷ f 3 ∷ [])
unused_lem zero f h u =
    rw (u 0 (omega arith), u 1 (omega arith), u 2 (omega arith), u 3 (omega arith)) refl
unused_lem (suc zero) f h u = rw (u 1 (omega arith), u 2 (omega arith), u 3 (omega arith)) refl
unused_lem (suc (suc zero)) f h u = rw (u 2 (omega arith), u 3 (omega arith)) refl
unused_lem (suc (suc (suc zero))) f h u = rw (u 3 (omega arith)) refl
unused_lem (suc (suc (suc (suc n)))) f h u = absurd (omega arith)

module _ (segs : List OooSegment) (o : TcpOpts) (v : IsPushed (IsCarried segs) o) where
  at-IsBlock : (i : ℕ) → IsBlock (get_or o.sack_blocks i zero_block)
  at-IsBlock i = elim (Bool-cases (ltb i o.sack_block_count)) [
    | inl t ↦ (v.blocks i (ground arith)).0
    | inr f ↦ subst IsBlock (sym (v.unused i (ground arith))) (omega arith, omega arith)
  ]

  pub pushed-IsWire : IsTimestamps o.timestamps → IsWire o
  pushed-IsWire ts = record {
    mss_word = rw v.mss tt;
    shift = rw v.wscale tt;
    ts_words = ts;
    count = omega (arith, v.count);
    b0 = get_or o.sack_blocks 0 zero_block;
    b1 = get_or o.sack_blocks 1 zero_block;
    b2 = get_or o.sack_blocks 2 zero_block;
    b3 = get_or o.sack_blocks 3 zero_block;
    array = four_lem o.sack_blocks v.array;
    block_words = (at-IsBlock 0, at-IsBlock 1, at-IsBlock 2, at-IsBlock 3);
    unused =
        unused_lem o.sack_block_count (λ i. get_or o.sack_blocks i zero_block) v.count v.unused;
    unclamped = v.unclamped;
  }
