-- ===== src/Options/Parse.antt =====
-- `parse_options`. A list stands for the rest of the slice from an index on. A read past the end of
-- the slice would panic in Rust: here it is the result `panic`.
use resd_dpdk_tcp.Base.{
  ℕ, zero, suc, ◌+◌, ◌-◌, ◌/◌, ◌%◌, Bool, true, false, not, ◌&&◌, ◌||◌, none, some, List, [], ◌∷◌,
  length, ltb, ◌==◌, if◌then◌else◌, get_or, replicate,
}
use resd_dpdk_tcp.Options.{
  zero_block, TcpOpts, default_opts, push_sack_block_decode, opt_end, opt_nop, opt_mss, opt_wscale,
  opt_sack_permitted, opt_sack, opt_timestamp, len_mss, len_wscale, len_sack_permitted,
  len_timestamp, max_sack_blocks_decode,
}
use resd_dpdk_tcp.Options.Bytes.{be16, be32}

pub data OptionParseError : Type 0 where
  short_unknown bad_known_len truncated bad_sack_block_count : OptionParseError

pub data Parsed (A : Type 0) : Type 0 where
  ok : A → Parsed A
  err : OptionParseError → Parsed A
  panic : Parsed A

-- The arms of the inner `match kind`. The list is `opts[i + 2..]`.
unfoldable pub read_mss : List ℕ → TcpOpts → Parsed TcpOpts
read_mss (a ∷ b ∷ v) out = ok (record out { mss = some (be16 a b) })
read_mss _ out = panic

unfoldable pub read_wscale : List ℕ → TcpOpts → Parsed TcpOpts
read_wscale (shift ∷ v) out = ok (
    if ltb 14 shift
    then record out { wscale = some 14; ws_clamped = true }
    else record out { wscale = some shift })
read_wscale [] out = panic

unfoldable pub read_timestamp : List ℕ → TcpOpts → Parsed TcpOpts
read_timestamp (a ∷ b ∷ c ∷ d ∷ e ∷ f ∷ g ∷ h ∷ v) out =
    ok (record out { timestamps = some (be32 a b c d, be32 e f g h) })
read_timestamp _ out = panic

-- The loop over the blocks; the list is `opts[bi..]`.
unfoldable pub read_blocks : ℕ → List ℕ → TcpOpts → Parsed TcpOpts
read_blocks zero v out = ok out
read_blocks (suc n) (a ∷ b ∷ c ∷ d ∷ e ∷ f ∷ g ∷ h ∷ v) out =
    read_blocks n v
      (push_sack_block_decode out (record { left = be32 a b c d; right = be32 e f g h })).0
read_blocks (suc n) _ out = panic

unfoldable pub read_sack : ℕ → List ℕ → TcpOpts → Parsed TcpOpts
read_sack olen v out =
    let block_bytes = olen - 2 in
    if (block_bytes == 0)
      || (not (block_bytes % 8 == 0) || ltb max_sack_blocks_decode (block_bytes / 8))
    then err bad_sack_block_count
    else read_blocks (block_bytes / 8) v out

unfoldable pub read_option : ℕ → ℕ → List ℕ → TcpOpts → Parsed TcpOpts
unfolding read_mss read_wscale read_timestamp
read_option kind olen v out =
    if kind == opt_mss
    then if not (olen == len_mss) then err bad_known_len else read_mss v out
    else if kind == opt_wscale
    then if not (olen == len_wscale) then err bad_known_len else read_wscale v out
    else if kind == opt_sack_permitted
    then if not (olen == len_sack_permitted)
      then err bad_known_len
      else ok (record out { sack_permitted = true })
    else if kind == opt_timestamp
    then if not (olen == len_timestamp) then err bad_known_len else read_timestamp v out
    else if kind == opt_sack
    then read_sack olen v out
    else ok out

-- What one round of the `while` loop does: returns, or goes on with new options, and with the number
-- of bytes between this byte and the next `i`.
pub data Round : Type 0 where
  finish : Round
  next : TcpOpts → ℕ → Round
  fail : OptionParseError → Round
  crash : Round

abbrev pub advance : ℕ → Parsed TcpOpts → Round
advance olen (ok out) = next out (olen - 1)
advance olen (err e) = fail e
advance olen panic = crash

-- The general option at `i`; the list is `opts[i + 1..]`.
unfoldable pub option_round : ℕ → List ℕ → TcpOpts → Round
option_round kind [] out = fail truncated
option_round kind (olen ∷ v) out =
    if ltb olen 2
    then fail short_unknown
    else if ltb (length v + 2) olen
    then fail truncated
    else advance olen (read_option kind olen v out)

unfoldable pub round : ℕ → List ℕ → TcpOpts → Round
round kind s out =
    if kind == opt_end
    then finish
    else if kind == opt_nop
    then next out 0
    else option_round kind s out

-- The `while` loop. The number counts the bytes up to the next `i` that are still to be passed over.
unfoldable pub parse_from : TcpOpts → ℕ → List ℕ → Parsed TcpOpts
parse_from out skip [] = ok out
parse_from out (suc skip) (b ∷ s) = parse_from out skip s
parse_from out zero (kind ∷ s) = elim (round kind s out) [
  | finish ↦ ok out
  | next out' skip ↦ parse_from out' skip s
  | fail e ↦ err e
  | crash ↦ panic
]

-- `opts[i]` where the length is known.
abbrev at : List ℕ → ℕ → ℕ
at opts i = get_or opts i 0

unfoldable pub is_canonical : List ℕ → Bool
is_canonical opts =
    (length opts == 12)
    && ((at opts 0 == opt_timestamp)
        && ((at opts 1 == len_timestamp) && ((at opts 10 == opt_nop) && (at opts 11 == opt_nop))))

unfoldable pub parse_options : List ℕ → Parsed TcpOpts
unfolding is_canonical
parse_options opts =
    if is_canonical opts
    then ok (record {
      mss = none;
      wscale = none;
      sack_permitted = false;
      timestamps = some (
        be32 (at opts 2) (at opts 3) (at opts 4) (at opts 5),
        be32 (at opts 6) (at opts 7) (at opts 8) (at opts 9),
      );
      sack_blocks = replicate max_sack_blocks_decode zero_block;
      sack_block_count = 0;
      ws_clamped = false;
    })
    else parse_from default_opts 0 opts
