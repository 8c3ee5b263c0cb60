-- ===== src/Reassembly/Fill.antt =====
-- One gap: what `fill` stores, drops and counts.
use resd_dpdk_tcp.Base.{
  ℕ, ◌+◌, ◌-◌, ◌≤◌, ◌<◌, ◌≡◌, ◌⊎◌, inl, inr, min, true, false, List, [], ◌∷◌, ◌++◌, ltb, arith,
  refl, u16_mod, u32_mod, Bool-cases, as_u16, wrapping_add32, wrapping_sub32, ◌%◌,
}
use resd_dpdk_tcp.Seq.Order.{offset}
use resd_dpdk_tcp.Reassembly.Insert.{Call, Piece, Scan, fill}

-- The bytes of a list of pieces, and whether they hold the byte at a distance from the base.
abbrev pub pieces_len : List Piece → ℕ
pieces_len [] = 0
pieces_len (p ∷ ps) = p.take_len + pieces_len ps

abbrev pub InPiece : ℕ → Piece → ℕ → Type 0
InPiece base p x = (offset base p.cursor_seq ≤ x) × (x < offset base p.cursor_seq + p.take_len)

abbrev pub InPieces : ℕ → List Piece → ℕ → Type 0
InPieces base [] x = ⊥
InPieces base (p ∷ ps) x = InPiece base p x ⊎ InPieces base ps x

pub pieces_len-append :
    (ps : List Piece) (p : Piece) → pieces_len (ps ++ (p ∷ [])) ≡ pieces_len ps + p.take_len
pieces_len-append [] p = omega arith
pieces_len-append (q ∷ ps) p = omega (arith, pieces_len-append ps p)

InPieces-append :
    (base : ℕ) (ps : List Piece) (p : Piece) (x : ℕ)
    → InPieces base (ps ++ (p ∷ [])) x
    → InPieces base ps x ⊎ InPiece base p x
InPieces-append base [] p x (inl h) = inr h
InPieces-append base [] p x (inr h) = absurd h
InPieces-append base (q ∷ ps) p x (inl h) = inl (inl h)
InPieces-append base (q ∷ ps) p x (inr h) = elim (InPieces-append base ps p x h) [
  | inl y ↦ inl (inr y)
  | inr y ↦ inr y
]

append-InPieces :
    (base : ℕ) (ps : List Piece) (p : Piece) (x : ℕ)
    → InPieces base ps x ⊎ InPiece base p x
    → InPieces base (ps ++ (p ∷ [])) x
append-InPieces base [] p x (inl h) = absurd h
append-InPieces base [] p x (inr h) = inl h
append-InPieces base (q ∷ ps) p x (inl (inl h)) = inl h
append-InPieces base (q ∷ ps) p x (inl (inr h)) = inr (append-InPieces base ps p x (inl h))
append-InPieces base (q ∷ ps) p x (inr h) = inr (append-InPieces base ps p x (inr h))

-- What `fill` did with `wanted` bytes at the cursor: it took the first `taken` of them.
pub record Filled (base : ℕ) (c : Call) (wanted : ℕ) (s t : Scan) : Type 0 where
  pub taken : ℕ
  pub taken_le : taken ≤ wanted
  pub newly : t.newly_buffered ≡ s.newly_buffered + taken
  pub dropped : t.cap_dropped + taken ≡ s.cap_dropped + wanted
  pub room : c.total_bytes + t.newly_buffered ≤ c.cap
  pub len : pieces_len t.to_insert ≡ pieces_len s.to_insert + taken
  pub sound :
      (x : ℕ)
      → InPieces base t.to_insert x
      → InPieces base s.to_insert x
        ⊎ ((offset base s.cursor ≤ x) × (x < offset base s.cursor + taken))
  pub complete :
      (x : ℕ)
      → offset base s.cursor ≤ x
      → x < offset base s.cursor + taken
      → InPieces base t.to_insert x
  pub keeps : (x : ℕ) → InPieces base s.to_insert x → InPieces base t.to_insert x

module _ (base : ℕ) (c : Call) (wanted : ℕ) (s : Scan) (cap_word : c.cap < u32_mod)
    (room : c.total_bytes + s.newly_buffered ≤ c.cap) (small : wanted < u16_mod)
    (few : s.cap_dropped + wanted < u16_mod) where
  abbrev took : ℕ
  took = min wanted (c.cap - wrapping_add32 c.total_bytes s.newly_buffered)

  abbrev piece : Piece
  piece = record {
    cursor_seq = s.cursor;
    sub_offset = (c.mbuf_payload_offset + as_u16 (wrapping_sub32 s.cursor c.seq)) % u16_mod;
    take_len = as_u16 took;
  }

  fill_some : ltb 0 took ≡ true → Filled base c wanted s (fill c wanted s)
  unfolding fill
  fill_some t = rw t (record {
    taken = took;
    taken_le = omega arith;
    newly = omega arith;
    dropped = ground arith;
    room = omega arith;
    len = omega (arith, pieces_len-append s.to_insert piece);
    sound = λ x h. elim (InPieces-append base s.to_insert piece x h) [
      | inl y ↦ inl y
      | inr y ↦ inr (y.0, omega arith)
    ];
    complete = λ x h k. append-InPieces base s.to_insert piece x (inr (h, omega arith));
    keeps = λ x h. append-InPieces base s.to_insert piece x (inl h);
  })

  fill_none : ltb 0 took ≡ false → Filled base c wanted s (fill c wanted s)
  unfolding fill
  fill_none f =
      let none_taken : took ≡ 0 = ground arith in
      rw f (record {
        taken = 0;
        taken_le = omega arith;
        newly = omega arith;
        dropped = ground arith;
        room = room;
        len = omega arith;
        sound = λ x h. inl h;
        complete = λ x h k. absurd (omega arith);
        keeps = λ x h. h;
      })

  pub fill-Filled : Filled base c wanted s (fill c wanted s)
  fill-Filled = elim (Bool-cases (ltb 0 took)) [ inl t ↦ fill_some t | inr f ↦ fill_none f ]

-- `fill` leaves the cursor to its caller.
pub cursor-fill : (c : Call) (wanted : ℕ) (s : Scan) → (fill c wanted s).cursor ≡ s.cursor
unfolding fill
cursor-fill c wanted s = refl
