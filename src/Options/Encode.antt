-- ===== src/Options/Encode.antt =====
-- `TcpOpts::encoded_len` and `TcpOpts::encode`. The output buffer and the index `i` of the next byte
-- are the state; each group of the source is one function from state to state.
use resd_dpdk_tcp.Base.{
  ℕ, ◌+◌, ◌*◌, Bool, true, false, Option, none, some, List, [], ◌∷◌, ◌++◌, length, set, take, ltb,
  if◌then◌else◌, as_u8,
}
use resd_dpdk_tcp.Options.{
  SackBlock, TcpOpts, opt_nop, opt_mss, opt_wscale, opt_sack_permitted, opt_sack, opt_timestamp,
  len_mss, len_wscale, len_sack_permitted, len_timestamp,
}
use resd_dpdk_tcp.Options.Bytes.{byte0, byte1, byte2, byte3}

abbrev pub is_some {ℓ} : {A : Type ℓ} → Option A → Bool
is_some none = false
is_some (some a) = true

abbrev pub sackp_ts_len : Bool → Bool → ℕ
sackp_ts_len true true = len_sack_permitted + len_timestamp
sackp_ts_len true false = 2 + len_sack_permitted
sackp_ts_len false true = 2 + len_timestamp
sackp_ts_len false false = 0

unfoldable pub encoded_len : TcpOpts → ℕ
encoded_len o =
    (if is_some o.mss then len_mss else 0)
    + (if is_some o.wscale then 1 + len_wscale else 0)
    + sackp_ts_len o.sack_permitted (is_some o.timestamps)
    + (if ltb 0 o.sack_block_count then 2 + 2 + 8 * o.sack_block_count else 0)

-- `out[i..i + bytes.len()]` is overwritten. A byte past the end of `out` would panic in Rust;
-- `Written.encode-wire` shows that there is none.
unfoldable pub write_at : List ℕ → ℕ → List ℕ → List ℕ
write_at out i [] = out
write_at out i (b ∷ bytes) = write_at (set out i b) (i + 1) bytes

abbrev pub Writer : Type 0
Writer = List ℕ × ℕ

-- Writes at the index and moves it on.
unfoldable pub emit : List ℕ → Writer → Writer
emit bytes (out, i) = (write_at out i bytes, i + length bytes)

abbrev pub bytes16 : ℕ → List ℕ
bytes16 x = byte1 x ∷ byte0 x ∷ []

abbrev pub bytes32 : ℕ → List ℕ
bytes32 x = byte3 x ∷ byte2 x ∷ byte1 x ∷ byte0 x ∷ []

abbrev pub mss_bytes : Option ℕ → List ℕ
mss_bytes none = []
mss_bytes (some mss) = opt_mss ∷ len_mss ∷ bytes16 mss

abbrev pub wscale_bytes : Option ℕ → List ℕ
wscale_bytes none = []
wscale_bytes (some ws) = opt_nop ∷ opt_wscale ∷ len_wscale ∷ ws ∷ []

abbrev pub ts_bytes : ℕ × ℕ → List ℕ
ts_bytes (tsval, tsecr) = opt_timestamp ∷ len_timestamp ∷ bytes32 tsval ++ bytes32 tsecr

abbrev pub sackp_ts_bytes : Bool → Option (ℕ × ℕ) → List ℕ
sackp_ts_bytes true (some ts) = opt_sack_permitted ∷ len_sack_permitted ∷ ts_bytes ts
sackp_ts_bytes true none = opt_nop ∷ opt_nop ∷ opt_sack_permitted ∷ len_sack_permitted ∷ []
sackp_ts_bytes false (some ts) = opt_nop ∷ opt_nop ∷ ts_bytes ts
sackp_ts_bytes false none = []

abbrev pub block_bytes : SackBlock → List ℕ
block_bytes b = bytes32 b.left ++ bytes32 b.right

-- The loop over `&self.sack_blocks[..n]`.
unfoldable pub emit_blocks : List SackBlock → Writer → Writer
unfolding emit write_at
emit_blocks [] w = w
emit_blocks (b ∷ bs) w = emit_blocks bs (emit (block_bytes b) w)

unfoldable pub emit_sack : TcpOpts → Writer → Writer
unfolding emit_blocks
emit_sack o w =
    let n = o.sack_block_count in
    if ltb 0 n
    then emit_blocks (take n o.sack_blocks)
        (emit (opt_nop ∷ opt_nop ∷ opt_sack ∷ as_u8 (2 + 8 * n) ∷ []) w)
    else w

-- The new buffer, and the number of bytes written; `none` if the buffer is too short.
unfoldable pub encode : TcpOpts → List ℕ → Option (List ℕ × ℕ)
unfolding encoded_len emit_sack
encode o out =
    if ltb (length out) (encoded_len o)
    then none
    else some (
        emit_sack o (
          emit (sackp_ts_bytes o.sack_permitted o.timestamps)
            (emit (wscale_bytes o.wscale) (emit (mss_bytes o.mss) (out, 0)))))
