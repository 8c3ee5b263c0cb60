-- ===== src/Options/Written.antt =====
-- What `encode` leaves in the buffer.
use resd_dpdk_tcp.Base.{
  ℕ, zero, suc, ◌+◌, ◌*◌, ◌%◌, ◌≤◌, ◌≡◌, Bool, true, false, Option, none, some, List, [], ◌∷◌, ◌++◌,
  length, take, drop, set, ltb, if◌then◌else◌, as_u8, arith, refl, ◌∙◌, sym, ap, Bool-cases, inl,
  inr, length-append, length-drop, ap₂, ◌⊎◌,
}
use mathlib.Core.List.{append_assoc, append-nil}
use resd_dpdk_tcp.Options.{SackBlock, TcpOpts, opt_nop, opt_sack}
use resd_dpdk_tcp.Options.Encode.{
  mss_bytes, wscale_bytes, sackp_ts_bytes, block_bytes, Writer, write_at, emit, emit_blocks,
  emit_sack, encoded_len, encode, is_some, sackp_ts_len,
}
use resd_dpdk_tcp.Options.RoundTrip.{wire, sack_bytes, blocks_bytes}

-- The state of the encoder when it has written `pre` of a buffer whose end is `post`.
abbrev at_end : List ℕ → List ℕ → Writer
at_end pre post = (pre ++ post, length pre)

set-append :
    (pre post : List ℕ) (x b : ℕ) → set (pre ++ (x ∷ post)) (length pre) b ≡ pre ++ (b ∷ post)
set-append [] post x b = refl
set-append (y ∷ pre) post x b = ap (λ l. y ∷ l) (set-append pre post x b)

write_at-append :
    (bytes pre post : List ℕ)
    → length bytes ≤ length post
    → write_at (pre ++ post) (length pre) bytes ≡ (pre ++ bytes) ++ drop (length bytes) post
unfolding write_at
write_at-append [] pre post h = rw append-nil
write_at-append (b ∷ bytes) pre [] h = absurd (omega arith)
write_at-append (b ∷ bytes) pre (x ∷ post) h =
    ap (λ l. write_at l (length pre + 1) bytes)
      (set-append pre post x b ∙ sym (append_assoc pre (b ∷ []) post))
    ∙ ap (λ n. write_at ((pre ++ (b ∷ [])) ++ post) n bytes) (sym (length-append pre (b ∷ [])))
    ∙ write_at-append bytes (pre ++ (b ∷ [])) post (omega arith)
    ∙ ap (λ l. l ++ drop (length bytes) post) (append_assoc pre (b ∷ []) bytes)

drop-append-length :
    (a b post : List ℕ) → drop (length b) (drop (length a) post) ≡ drop (length (a ++ b)) post
drop-append-length [] b post = refl
drop-append-length (x ∷ a) [] [] = refl
drop-append-length (x ∷ a) (y ∷ b) [] = refl
drop-append-length (x ∷ a) b (z ∷ post) = drop-append-length a b post

-- A part of the encoder appends these bytes, and overwrites as many of the buffer's.
abbrev Emits : (Writer → Writer) → List ℕ → Type 0
Emits f bytes =
    (pre post : List ℕ)
    → length bytes ≤ length post
    → f (at_end pre post) ≡ at_end (pre ++ bytes) (drop (length bytes) post)

emit-Emits : (bytes : List ℕ) → Emits (emit bytes) bytes
unfolding emit
emit-Emits bytes pre post h =
    ap₂ (λ l n. (l, n)) (write_at-append bytes pre post h) (sym (length-append pre bytes))

then-Emits :
    (f g : Writer → Writer) (a b : List ℕ) → Emits f a → Emits g b → Emits (λ w. g (f w)) (a ++ b)
then-Emits f g a b ef eg pre post h =
    ap g (ef pre post (omega (arith, length-append a b)))
    ∙ eg (pre ++ a) (drop (length a) post)
        (omega (arith, length-append a b, length-drop (length a) post))
    ∙ ap₂ at_end (append_assoc pre a b) (drop-append-length a b post)

emit_blocks-Emits : (bs : List SackBlock) → Emits (emit_blocks bs) (blocks_bytes bs)
unfolding emit_blocks
emit_blocks-Emits [] = λ pre post h. rw append-nil
emit_blocks-Emits (b ∷ bs) =
    then-Emits (emit (block_bytes b)) (emit_blocks bs) (block_bytes b) (blocks_bytes bs)
      (emit-Emits (block_bytes b)) (emit_blocks-Emits bs)

emit_sack-Emits : (o : TcpOpts) → Emits (emit_sack o) (sack_bytes o.sack_block_count o.sack_blocks)
unfolding emit_sack
emit_sack-Emits o = go (Bool-cases (ltb 0 o.sack_block_count))
  where
    head : List ℕ
    head = opt_nop ∷ opt_nop ∷ opt_sack ∷ as_u8 (2 + 8 * o.sack_block_count) ∷ []

    used : List SackBlock
    used = take o.sack_block_count o.sack_blocks

    go :
        (ltb 0 o.sack_block_count ≡ true) ⊎ (ltb 0 o.sack_block_count ≡ false)
        → Emits (emit_sack o) (sack_bytes o.sack_block_count o.sack_blocks)
    go (inl t) = rw t (
        then-Emits (emit head) (emit_blocks used) head (blocks_bytes used) (emit-Emits head)
          (emit_blocks-Emits used))
    go (inr t) = rw t (λ pre post h. rw append-nil)

length-blocks_bytes :
    (n : ℕ) (bs : List SackBlock) → n ≤ length bs → length (blocks_bytes (take n bs)) ≡ 8 * n
length-blocks_bytes zero bs h = refl
length-blocks_bytes (suc n) [] h = absurd (omega arith)
length-blocks_bytes (suc n) (b ∷ bs) h = omega (arith, length-blocks_bytes n bs (omega arith))

length-mss_bytes : (m : Option ℕ) → length (mss_bytes m) ≡ (if is_some m then 4 else 0)
length-mss_bytes none = refl
length-mss_bytes (some m) = refl

length-wscale_bytes : (w : Option ℕ) → length (wscale_bytes w) ≡ (if is_some w then 4 else 0)
length-wscale_bytes none = refl
length-wscale_bytes (some w) = refl

length-sackp_ts_bytes :
    (sp : Bool) (ts : Option (ℕ × ℕ)) → length (sackp_ts_bytes sp ts) ≡ sackp_ts_len sp (is_some ts)
length-sackp_ts_bytes true none = refl
length-sackp_ts_bytes true (some t) = refl
length-sackp_ts_bytes false none = refl
length-sackp_ts_bytes false (some t) = refl

length-sack_bytes :
    (n : ℕ) (bs : List SackBlock)
    → n ≤ length bs
    → length (sack_bytes n bs) ≡ (if ltb 0 n then 2 + 2 + 8 * n else 0)
length-sack_bytes zero bs h = refl
length-sack_bytes (suc n) bs h = grind (arith, length-blocks_bytes (suc n) bs h)

pub length-wire :
    (o : TcpOpts) → o.sack_block_count ≤ length o.sack_blocks → length (wire o) ≡ encoded_len o
unfolding wire encoded_len
length-wire o h = omega (
  arith,
  length-append {0},
  length-mss_bytes o.mss,
  length-wscale_bytes o.wscale,
  length-sackp_ts_bytes o.sack_permitted o.timestamps,
  length-sack_bytes o.sack_block_count o.sack_blocks h,
)

write_all : TcpOpts → Writer → Writer
write_all o w = emit_sack o (
    emit (sackp_ts_bytes o.sack_permitted o.timestamps)
      (emit (wscale_bytes o.wscale) (emit (mss_bytes o.mss) w)))

write_all-Emits : (o : TcpOpts) → Emits (write_all o) (wire o)
unfolding write_all wire
write_all-Emits o =
    then-Emits (emit a) (λ w. emit_sack o (emit c (emit b w))) a (b ++ (c ++ d)) (emit-Emits a)
      (then-Emits (emit b) (λ w. emit_sack o (emit c w)) b (c ++ d) (emit-Emits b)
        (then-Emits (emit c) (emit_sack o) c d (emit-Emits c) (emit_sack-Emits o)))
  where
    a : List ℕ
    a = mss_bytes o.mss

    b : List ℕ
    b = wscale_bytes o.wscale

    c : List ℕ
    c = sackp_ts_bytes o.sack_permitted o.timestamps

    d : List ℕ
    d = sack_bytes o.sack_block_count o.sack_blocks

-- `encode` refuses a buffer shorter than `encoded_len`. Into any other it writes the option bytes
-- at the front, exactly `encoded_len` of them, and leaves every byte behind them as it was. For a
-- block count that the array of blocks covers.
pub encode-wire :
    (o : TcpOpts) (out : List ℕ)
    → o.sack_block_count ≤ length o.sack_blocks
    → encode o out ≡ (
        if ltb (length out) (encoded_len o)
        then none
        else some (wire o ++ drop (encoded_len o) out, encoded_len o))
unfolding encode write_all
encode-wire o out h = elim (Bool-cases (ltb (length out) (encoded_len o))) [
  | inl short ↦ rw short
  | inr fits ↦ rw fits (ap some (written fits))
]
  where
    written :
        ltb (length out) (encoded_len o) ≡ false
        → write_all o (out, 0) ≡ (wire o ++ drop (encoded_len o) out, encoded_len o)
    written fits =
        write_all-Emits o [] out (ground (arith, length-wire o h))
        ∙ ap (λ n. (wire o ++ drop n out, n)) (length-wire o h)

-- The encoded options fill whole 32-bit words.
pub encoded_len_aligned : (o : TcpOpts) → encoded_len o % 4 ≡ 0
unfolding encoded_len
encoded_len_aligned o = ground arith
