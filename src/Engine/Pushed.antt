-- ===== src/Engine/Pushed.antt =====
-- The blocks that are pushed to the options, whichever order they come in.
use resd_dpdk_tcp.Base.{
  ℕ, zero, suc, ◌+◌, ◌≤◌, ◌<◌, ◌≡◌, inl, inr, false, none, List, [], ◌∷◌, length, take, get_or,
  ◌==◌, leb, arith, refl, ◌∙◌, sym, subst, All, All-append, Bool-cases, length-set, get_or-set_self,
  get_or-set_ne,
}
use resd_dpdk_tcp.Options.{SackBlock, TcpOpts, zero_block, push_sack_block}
use resd_dpdk_tcp.Engine.Acks.{indexed_rev, push_others, push_blocks}

module _ (P : SackBlock → Type 0) where
  -- The array of four blocks, whose blocks in use all satisfy `P`, and none of the options of a SYN.
  pub record IsPushed (o : TcpOpts) : Type 0 where
    pub count : o.sack_block_count ≤ 3
    pub array : length o.sack_blocks ≡ 4
    pub blocks : (i : ℕ) → i < o.sack_block_count → P (get_or o.sack_blocks i zero_block)
    pub mss : o.mss ≡ none
    pub wscale : o.wscale ≡ none
    pub sack_permitted : o.sack_permitted ≡ false
    pub unclamped : o.ws_clamped ≡ false
    pub unused : (i : ℕ) → o.sack_block_count ≤ i → get_or o.sack_blocks i zero_block ≡ zero_block

  pub push_sack_block-IsPushed :
      (o : TcpOpts) (b : SackBlock)
      → o.sack_block_count < 3
      → P b
      → IsPushed o
      → IsPushed (push_sack_block o b).0
        × ((push_sack_block o b).0.sack_block_count ≡ o.sack_block_count + 1)
  unfolding push_sack_block
  push_sack_block-IsPushed o b h p v =
      let room : leb 3 o.sack_block_count ≡ false = ground arith in
      let n = o.sack_block_count in
      rw room (
        record {
          count = omega arith;
          array = length-set o.sack_blocks n b ∙ v.array;
          blocks = λ i k. elim (Bool-cases (i == n)) [
            | inl e ↦
                let same : i ≡ n = ground arith in
                subst P
                  (rw same
                    (sym (get_or-set_self o.sack_blocks n b zero_block (omega (arith, v.array)))))
                  p
            | inr e ↦
                subst P
                  (sym (get_or-set_ne o.sack_blocks n i b zero_block (λ q. ground (arith, q))))
                  (v.blocks i (ground arith))
          ];
          mss = v.mss;
          wscale = v.wscale;
          sack_permitted = v.sack_permitted;
          unclamped = v.unclamped;
          unused = λ i k.
              get_or-set_ne o.sack_blocks n i b zero_block (λ q. omega (arith, q))
              ∙ v.unused i (omega arith);
        },
        refl,
      )

  -- Options with `more` blocks behind those of `o`.
  pub record Extends (o : TcpOpts) (more : ℕ) (r : TcpOpts) : Type 0 where
    pub pushed : IsPushed r
    pub count : r.sack_block_count ≡ o.sack_block_count + more
    pub first :
        1 ≤ o.sack_block_count
        → get_or r.sack_blocks 0 zero_block ≡ get_or o.sack_blocks 0 zero_block

  pub first_lem :
      (o : TcpOpts) (b : SackBlock)
      → o.sack_block_count < 3
      → 1 ≤ o.sack_block_count
      → get_or (push_sack_block o b).0.sack_blocks 0 zero_block ≡ get_or o.sack_blocks 0 zero_block
  unfolding push_sack_block
  first_lem o b h k =
      let room : leb 3 o.sack_block_count ≡ false = ground arith in
      rw room
        (get_or-set_ne o.sack_blocks o.sack_block_count 0 b zero_block (λ q. ground (arith, q)))

  pub push_others-Extends :
      (bs : List (ℕ × SackBlock)) (idx left : ℕ) (o : TcpOpts)
      → All (λ z. P z.1) bs
      → o.sack_block_count + left ≤ 3
      → IsPushed o
      → Extends o (push_others bs idx left o).1 (push_others bs idx left o).0
        × ((push_others bs idx left o).1 ≤ left)
  unfolding push_others
  push_others-Extends [] idx left o all h v =
      (record { pushed = v; count = omega arith; first = λ k. refl }, omega arith)
  push_others-Extends ((i, b) ∷ bs) idx zero o all h v = elim (Bool-cases (i == idx)) [
    | inl e ↦ rw e (push_others-Extends bs idx zero o all.1 h v)
    | inr e ↦ rw e (record { pushed = v; count = omega arith; first = λ k. refl }, omega arith)
  ]
  push_others-Extends ((i, b) ∷ bs) idx (suc left) o all h v =
      let next = (push_sack_block o b).0 in
      let (w, n) = push_sack_block-IsPushed o b (omega arith) all.0 v in
      let (r, le) = push_others-Extends bs idx left next all.1 (omega (arith, n)) w in
      elim (Bool-cases (i == idx)) [
        | inl e ↦ rw e (push_others-Extends bs idx (suc left) o all.1 h v)
        | inr e ↦ rw e (
          record {
            pushed = r.pushed;
            count = omega (arith, r.count, n);
            first = λ k. r.first (omega (arith, n)) ∙ first_lem o b (omega arith) k;
          },
          omega (arith, le),
        )
      ]

  pub push_blocks-Extends :
      (bs : List (ℕ × SackBlock)) (o : TcpOpts)
      → All (λ z. P z.1) bs
      → o.sack_block_count + length bs ≤ 3
      → IsPushed o
      → Extends o (length bs) (push_blocks bs o)
  unfolding push_blocks
  push_blocks-Extends [] o all h v = record { pushed = v; count = omega arith; first = λ k. refl }
  push_blocks-Extends ((i, b) ∷ bs) o all h v =
      let next = (push_sack_block o b).0 in
      let (w, n) = push_sack_block-IsPushed o b (omega arith) all.0 v in
      let r = push_blocks-Extends bs next all.1 (omega (arith, n)) w in
      record {
        pushed = r.pushed;
        count = omega (arith, r.count, n);
        first = λ k. r.first (omega (arith, n)) ∙ first_lem o b (omega arith) k;
      }

  pub indexed_rev-All :
      (bs : List SackBlock) (i : ℕ) → All P bs → All (λ z. P z.1) (indexed_rev bs i)
  unfolding indexed_rev
  indexed_rev-All [] i all = tt
  indexed_rev-All (b ∷ bs) i all =
      All-append (λ z. P z.1) (indexed_rev bs (i + 1)) ((i, b) ∷ [])
        (indexed_rev-All bs (i + 1) all.1) (all.0, tt)

  pub take-All :
      (n : ℕ) (bs : List (ℕ × SackBlock)) → All (λ z. P z.1) bs → All (λ z. P z.1) (take n bs)
  take-All zero bs all = tt
  take-All (suc n) [] all = tt
  take-All (suc n) (b ∷ bs) all = (all.0, take-All n bs all.1)
