-- ===== src/Options/FastPath.antt =====
-- The straight-line decode of a timestamps-only buffer against the general loop.
use resd_dpdk_tcp.Base.{ℕ, ◌≡◌, true, false, some, List, [], ◌∷◌, Bool-cases, inl, inr, arith, sym}
use resd_dpdk_tcp.Options.{default_opts, opt_timestamp, len_timestamp, opt_nop}
use resd_dpdk_tcp.Options.Bytes.{be32}
use resd_dpdk_tcp.Options.Parse.{
  ok, is_canonical, parse_from, parse_options, round, option_round, read_option,
}

general :
    (k l a b c d e f g h m n : ℕ)
    → k ≡ opt_timestamp
    → l ≡ len_timestamp
    → m ≡ opt_nop
    → n ≡ opt_nop
    → parse_from default_opts 0 (k ∷ l ∷ a ∷ b ∷ c ∷ d ∷ e ∷ f ∷ g ∷ h ∷ m ∷ n ∷ [])
      ≡ ok (record default_opts { timestamps = some (be32 a b c d, be32 e f g h) })
unfolding parse_from round option_round read_option
general k l a b c d e f g h m n pk pl pm pn = rw (pk, pl, pm, pn)

canonical :
    (opts : List ℕ) → is_canonical opts ≡ true → parse_options opts ≡ parse_from default_opts 0 opts
unfolding parse_options
canonical (k ∷ l ∷ a ∷ b ∷ c ∷ d ∷ e ∷ f ∷ g ∷ h ∷ m ∷ n ∷ []) t = rw t (
    sym
      (general k l a b c d e f g h m n (ground arith) (ground arith) (ground arith) (ground arith)))
canonical (k ∷ l ∷ a ∷ b ∷ c ∷ d ∷ e ∷ f ∷ g ∷ h ∷ m ∷ n ∷ x ∷ r) t = ground arith
canonical _ t = cc

general_path :
    (opts : List ℕ)
    → is_canonical opts ≡ false
    → parse_options opts ≡ parse_from default_opts 0 opts
unfolding parse_options
general_path opts t = ground arith

-- The fast path of `parse_options` for a buffer that holds a timestamps option and two NOPs is
-- invisible: on every byte sequence the result is that of the general loop.
pub parse_options-eq-parse_from :
    (opts : List ℕ) → parse_options opts ≡ parse_from default_opts 0 opts
parse_options-eq-parse_from opts = elim (Bool-cases (is_canonical opts)) [
  | inl t ↦ canonical opts t
  | inr t ↦ general_path opts t
]
