-- ===== src/Examples/Codec.antt =====
-- The TCP options.
use resd_dpdk_tcp.Base.{
  ℕ, ◌≡◌, ◌≢◌, true, false, some, none, List, [], ◌∷◌, ◌++◌, arith, refl, drop, length, ltb,
  if◌then◌else◌, replicate,
}
use resd_dpdk_tcp.Options.{zero_block, TcpOpts}
use resd_dpdk_tcp.Options.Encode.{encode, encoded_len}
use resd_dpdk_tcp.Options.Parse.{
  parse_options, parse_from, round, option_round, read_option, ok, panic,
}
use resd_dpdk_tcp.Options.{default_opts}
use resd_dpdk_tcp.Options.Total.{parse_options-ne-panic}
use resd_dpdk_tcp.Options.FastPath.{parse_options-eq-parse_from}
use resd_dpdk_tcp.Options.RoundTrip.{wire, parse_options-wire}
use resd_dpdk_tcp.Options.Written.{encode-wire}

abbrev syn : TcpOpts
syn = record {
  mss = some 1460;
  wscale = some 7;
  sack_permitted = true;
  timestamps = some (1000, 0);
  sack_blocks = record { left = 100; right = 200 } ∷ zero_block ∷ zero_block ∷ zero_block ∷ [];
  sack_block_count = 1;
  ws_clamped = false;
}

parse_options-wire_example : parse_options (wire syn) ≡ ok syn
parse_options-wire_example = parse_options-wire syn (record {
  mss_word = omega arith;
  shift = omega arith;
  ts_words = (omega arith, omega arith);
  count = omega arith;
  b0 = record { left = 100; right = 200 };
  b1 = zero_block;
  b2 = zero_block;
  b3 = zero_block;
  array = refl;
  block_words = (
    (omega arith, omega arith),
    (omega arith, omega arith),
    (omega arith, omega arith),
    (omega arith, omega arith),
  );
  unused = refl;
  unclamped = refl;
})

abbrev buffer : List ℕ
buffer = replicate 40 0

encode-wire_example : encode syn buffer ≡ (
    if ltb (length buffer) (encoded_len syn)
    then none
    else some (wire syn ++ drop (encoded_len syn) buffer, encoded_len syn))
encode-wire_example = encode-wire syn buffer (omega arith)

-- A window scale of 15, with an MSS before it.
abbrev bytes : List ℕ
bytes = 2 ∷ 4 ∷ 5 ∷ 180 ∷ 3 ∷ 3 ∷ 15 ∷ 0 ∷ []

parse_options-ne-panic_example : parse_options bytes ≢ panic
parse_options-ne-panic_example = parse_options-ne-panic bytes

abbrev clamped : TcpOpts
clamped = record default_opts { mss = some 1460; wscale = some 14; ws_clamped = true }

parsed : parse_options bytes ≡ ok clamped
unfolding parse_options parse_from round option_round read_option
parsed = refl

parse_options-eq-parse_from_example : parse_options bytes ≡ parse_from default_opts 0 bytes
parse_options-eq-parse_from_example = parse_options-eq-parse_from bytes
