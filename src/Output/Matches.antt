-- ===== src/Output/Matches.antt =====
-- The option bytes of a header, and when a builder gives up.
use resd_dpdk_tcp.Base.{
  ℕ, ◌+◌, ◌≤◌, ◌<◌, ◌≡◌, inl, inr, false, Option, none, some, List, [], ◌∷◌, ◌++◌, length, take,
  drop, ltb, arith, refl, ap, sym, Bool-cases, length-take, length-drop, wrapping_add32, as_u32,
  u16_mod, u32_mod, ◌-◌, ◌↔◌, ◌⊎◌,
}
use resd_dpdk_tcp.Options.{TcpOpts}
use resd_dpdk_tcp.Options.Encode.{encoded_len}
use resd_dpdk_tcp.Options.RoundTrip.{wire}
use resd_dpdk_tcp.Options.Written.{encode-wire, length-wire}
use resd_dpdk_tcp.Output.{
  SegmentTx, frame_hdrs_min, option_bytes, build_segment_inner, build_segment,
}

pub append_nil : (xs : List ℕ) → xs ++ [] ≡ xs
append_nil [] = refl
append_nil (x ∷ xs) = ap (λ z. x ∷ z) (append_nil xs)

pub append_assoc {ℓ} : {A : Type ℓ} (xs ys zs : List A) → (xs ++ ys) ++ zs ≡ xs ++ (ys ++ zs)
append_assoc [] ys zs = refl
append_assoc (x ∷ xs) ys zs = ap (λ z. x ∷ z) (append_assoc xs ys zs)

pub length-nil : (xs : List ℕ) → length xs ≡ 0 → xs ≡ []
length-nil [] h = refl
length-nil (x ∷ xs) h = absurd (omega arith)

-- The options on the wire, for a buffer that has room for them.
pub option_bytes-eq-wire :
    (o : TcpOpts) (out : List ℕ)
    → o.sack_block_count ≤ length o.sack_blocks
    → frame_hdrs_min + encoded_len o ≤ length out
    → option_bytes o out ≡ wire o
unfolding option_bytes
option_bytes-eq-wire o out h room =
    let slot = take (encoded_len o) (drop frame_hdrs_min out) in
    let size : length slot ≡ encoded_len o = omega (
      arith,
      length-take (encoded_len o) (drop frame_hdrs_min out),
      length-drop frame_hdrs_min out,
    ) in
    let fits : ltb (length slot) (encoded_len o) ≡ false = ground (arith, size) in
    let rest : drop (encoded_len o) slot ≡ [] =
      length-nil _ (omega (arith, length-drop (encoded_len o) slot, size)) in
    elim (Bool-cases (ltb 0 (encoded_len o))) [
      | inl t ↦ rw (t, encode-wire o slot h, fits, rest) (append_nil (wire o))
      | inr f ↦ rw f (sym (length-nil (wire o) (ground (arith, length-wire o h))))
    ]

some-none : {A : Type 0} (a : A) → Path (Option A) (some a) none → ⊥
some-none a h = ground arith

-- `build_segment` gives up exactly when the buffer has no room for the frame, or when the datagram is
-- of 2 ^ 16 bytes or more. For a datagram of fewer than 2 ^ 32 bytes.
pub build_segment-none :
    (seg : SegmentTx) (out : List ℕ)
    → 40 + encoded_len seg.options + length seg.payload < u32_mod
    → (build_segment seg out ≡ none) ↔ (
        (length out < 54 + encoded_len seg.options + length seg.payload)
        ⊎ (u16_mod ≤ 40 + encoded_len seg.options + length seg.payload))
unfolding build_segment build_segment_inner
build_segment-none seg out h =
    let total = 54 + encoded_len seg.options + length seg.payload in
    let ip_len =
      wrapping_add32 (20 + (20 + encoded_len seg.options)) (as_u32 (length seg.payload)) in
    elim (Bool-cases
      (ltb (length out) (34 + (20 + encoded_len seg.options) + length seg.payload))) [
        | inl t ↦ rw t (λ e. inl (ground arith), λ e. refl)
        | inr f ↦ elim (Bool-cases (ltb (u16_mod - 1) ip_len)) [
          | inl t ↦ rw (f, t) (λ e. inr (ground arith), λ e. refl)
          | inr g ↦
              rw (f, g)
                (
                  λ e. absurd (some-none _ e),
                  λ e. elim e [ inl k ↦ absurd (ground arith) | inr k ↦ absurd (ground arith) ],
                )
        ]
      ]
