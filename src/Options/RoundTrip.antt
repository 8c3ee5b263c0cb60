-- ===== src/Options/RoundTrip.antt =====
-- `encode` and `parse_options` undo one another.
use resd_dpdk_tcp.Base.{
  ℕ, zero, suc, ◌+◌, ◌-◌, ◌*◌, ◌≤◌, ◌<◌, ◌≡◌, Bool, true, false, Option, none, some, List, [], ◌∷◌,
  ◌++◌, take, drop, replicate, ltb, if◌then◌else◌, as_u8, u16_mod, u32_mod, arith, refl, ◌∙◌, sym,
  subst,
}
use resd_dpdk_tcp.Options.{
  SackBlock, zero_block, TcpOpts, default_opts, opt_nop, opt_sack, push_sack_block_decode,
}
use resd_dpdk_tcp.Options.Bytes.{be32, be16-bytes, be32-bytes, byte0, byte1, byte2, byte3}
use resd_dpdk_tcp.Options.Encode.{mss_bytes, wscale_bytes, sackp_ts_bytes, block_bytes}
use resd_dpdk_tcp.Options.Parse.{
  ok, parse_from, parse_options, round, option_round, read_option, read_sack, read_blocks,
}
use resd_dpdk_tcp.Options.FastPath.{parse_options-eq-parse_from}

abbrev pub blocks_bytes : List SackBlock → List ℕ
blocks_bytes [] = []
blocks_bytes (b ∷ bs) = block_bytes b ++ blocks_bytes bs

abbrev pub sack_bytes : ℕ → List SackBlock → List ℕ
sack_bytes n blocks =
    if ltb 0 n
    then opt_nop ∷ opt_nop ∷ opt_sack ∷ as_u8 (2 + 8 * n) ∷ blocks_bytes (take n blocks)
    else []

-- The bytes of the options, group after group.
unfoldable pub wire : TcpOpts → List ℕ
wire o =
    mss_bytes o.mss
    ++ (wscale_bytes o.wscale
        ++ (sackp_ts_bytes o.sack_permitted o.timestamps
            ++ sack_bytes o.sack_block_count o.sack_blocks))

abbrev IsWord16 : Option ℕ → Type 0
IsWord16 none = Unit {0}
IsWord16 (some m) = m < u16_mod

abbrev pub IsTimestamps : Option (ℕ × ℕ) → Type 0
IsTimestamps none = Unit {0}
IsTimestamps (some (a, b)) = (a < u32_mod) × (b < u32_mod)

abbrev IsShift : Option ℕ → Type 0
IsShift none = Unit {0}
IsShift (some w) = w ≤ 14

mss_step :
    (m : Option ℕ) (r : List ℕ)
    → IsWord16 m
    → parse_from default_opts 0 (mss_bytes m ++ r)
      ≡ parse_from (record default_opts { mss = m }) 0 r
unfolding parse_from round option_round read_option
mss_step none r h = refl
mss_step (some m) r h = ground (arith, be16-bytes m h)

wscale_step :
    (m w : Option ℕ) (r : List ℕ)
    → IsShift w
    → parse_from (record default_opts { mss = m }) 0 (wscale_bytes w ++ r)
      ≡ parse_from (record default_opts { mss = m; wscale = w }) 0 r
unfolding parse_from round option_round read_option
wscale_step m none r h = refl
wscale_step m (some w) r h = ground arith

abbrev with_ts : Option ℕ → Option ℕ → Bool → Option (ℕ × ℕ) → TcpOpts
with_ts m w sp ts = record default_opts {
  mss = m;
  wscale = w;
  sack_permitted = sp;
  timestamps = ts;
}

sackp_ts_step :
    (m w : Option ℕ) (sp : Bool) (ts : Option (ℕ × ℕ)) (r : List ℕ)
    → IsTimestamps ts
    → parse_from (record default_opts { mss = m; wscale = w }) 0 (sackp_ts_bytes sp ts ++ r)
      ≡ parse_from (with_ts m w sp ts) 0 r
unfolding parse_from round option_round read_option
sackp_ts_step m w true (some (a, b)) r h = ground (arith, be32-bytes a h.0, be32-bytes b h.1)
sackp_ts_step m w false (some (a, b)) r h = ground (arith, be32-bytes a h.0, be32-bytes b h.1)
sackp_ts_step m w true none r h = ground arith
sackp_ts_step m w false none r h = refl

abbrev pub IsBlock : SackBlock → Type 0
IsBlock b = (b.left < u32_mod) × (b.right < u32_mod)

abbrev block_of : SackBlock → SackBlock
block_of b = record {
  left = be32 (byte3 b.left) (byte2 b.left) (byte1 b.left) (byte0 b.left);
  right = be32 (byte3 b.right) (byte2 b.right) (byte1 b.right) (byte0 b.right);
}

block_of-eq : (b : SackBlock) → IsBlock b → block_of b ≡ b
block_of-eq b h = ground (arith, be32-bytes b.left h.0, be32-bytes b.right h.1)

abbrev pub Unused : ℕ → List SackBlock → Type 0
Unused n bs = drop n bs ≡ replicate (4 - n) zero_block

module _ (m w : Option ℕ) (sp : Bool) (ts : Option (ℕ × ℕ)) where
  abbrev SackStep : ℕ → List SackBlock → Type 0
  SackStep n bs =
      parse_from (with_ts m w sp ts) 0 (sack_bytes n bs)
      ≡ ok (record (with_ts m w sp ts) { sack_blocks = bs; sack_block_count = n })

  sack_step :
      (n : ℕ) (a b c d : SackBlock)
      → n ≤ 4
      → IsBlock a × IsBlock b × IsBlock c × IsBlock d
      → Unused n (a ∷ b ∷ c ∷ d ∷ [])
      → SackStep n (a ∷ b ∷ c ∷ d ∷ [])
  unfolding parse_from round option_round read_option read_sack read_blocks push_sack_block_decode
  sack_step zero a b c d l h e = rw e
  sack_step (suc zero) a b c d l h e = rw (block_of-eq a h.0, e)
  sack_step (suc (suc zero)) a b c d l h e = rw (block_of-eq a h.0, block_of-eq b h.1, e)
  sack_step (suc (suc (suc zero))) a b c d l h e =
      rw (block_of-eq a h.0, block_of-eq b h.1, block_of-eq c h.2, e)
  sack_step (suc (suc (suc (suc zero)))) a b c d l h e =
      rw (block_of-eq a h.0, block_of-eq b h.1, block_of-eq c h.2, block_of-eq d h.3)
  sack_step (suc (suc (suc (suc (suc n))))) a b c d l h e = absurd (omega arith)

-- Options as the wire can carry them: words in range, a window shift that needs no clamp, and the
-- unused entries of the block array at their default.
pub record IsWire (o : TcpOpts) : Type 0 where
  pub mss_word : IsWord16 o.mss
  pub shift : IsShift o.wscale
  pub ts_words : IsTimestamps o.timestamps
  pub count : o.sack_block_count ≤ 4
  pub b0 : SackBlock
  pub b1 : SackBlock
  pub b2 : SackBlock
  pub b3 : SackBlock
  pub array : o.sack_blocks ≡ b0 ∷ b1 ∷ b2 ∷ b3 ∷ []
  pub block_words : IsBlock b0 × IsBlock b1 × IsBlock b2 × IsBlock b3
  pub unused : Unused o.sack_block_count (b0 ∷ b1 ∷ b2 ∷ b3 ∷ [])
  pub unclamped : o.ws_clamped ≡ false

last_step :
    (o : TcpOpts)
    → IsWire o
    → parse_from
        (with_ts o.mss o.wscale o.sack_permitted o.timestamps)
        0
        (sack_bytes o.sack_block_count o.sack_blocks)
      ≡ ok o
last_step o h =
    subst (SackStep o.mss o.wscale o.sack_permitted o.timestamps o.sack_block_count) (sym h.array) (
      sack_step o.mss o.wscale o.sack_permitted o.timestamps o.sack_block_count h.b0 h.b1 h.b2 h.b3
        h.count h.block_words h.unused)
    ∙ unclamped_eq
  where
    unclamped_eq :
        ok (record (with_ts o.mss o.wscale o.sack_permitted o.timestamps) {
          sack_blocks = o.sack_blocks;
          sack_block_count = o.sack_block_count;
        })
        ≡ ok o
    unclamped_eq = ground (arith, h.unclamped)

-- Parsing the encoded bytes gives the options back: no field is lost, mixed up or reordered. For
-- options whose fields fit their width on the wire, with a window shift of at most 14, at most
-- four SACK blocks and zeros behind them.
pub parse_options-wire : (o : TcpOpts) → IsWire o → parse_options (wire o) ≡ ok o
unfolding wire
parse_options-wire o h =
    parse_options-eq-parse_from (wire o)
    ∙ mss_step o.mss _ h.mss_word
    ∙ wscale_step o.mss o.wscale _ h.shift
    ∙ sackp_ts_step o.mss o.wscale o.sack_permitted o.timestamps _ h.ts_words
    ∙ last_step o h
