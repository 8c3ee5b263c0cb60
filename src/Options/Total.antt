-- ===== src/Options/Total.antt =====
-- `parse_options` on any bytes: it never reads past the end of the slice, and what it accepts is in
-- range.
use resd_dpdk_tcp.Base.{
  ℕ, zero, suc, ◌+◌, ◌-◌, ◌*◌, ◌/◌, ◌≤◌, ◌≡◌, ◌≢◌, Option, none, some, List, [], ◌∷◌, length, arith,
  refl, length-set,
}
use resd_dpdk_tcp.Options.{SackBlock, TcpOpts, default_opts, push_sack_block_decode}
use resd_dpdk_tcp.Options.Parse.{
  ok, panic, Round, finish, next, fail, crash, read_blocks, read_sack, read_option, option_round,
  round, parse_from, parse_options, read_mss, read_wscale, read_timestamp,
}

read_blocks-ne-panic :
    (n : ℕ) (v : List ℕ) (out : TcpOpts) → 8 * n ≤ length v → read_blocks n v out ≢ panic
unfolding read_blocks
read_blocks-ne-panic zero v out h = cc
read_blocks-ne-panic (suc n) (a ∷ b ∷ c ∷ d ∷ e ∷ f ∷ g ∷ k ∷ v) out h =
    read_blocks-ne-panic n v _ (omega arith)
read_blocks-ne-panic (suc n) [] out h = absurd (omega arith)
read_blocks-ne-panic (suc n) (_ ∷ []) out h = absurd (omega arith)
read_blocks-ne-panic (suc n) (_ ∷ _ ∷ []) out h = absurd (omega arith)
read_blocks-ne-panic (suc n) (_ ∷ _ ∷ _ ∷ []) out h = absurd (omega arith)
read_blocks-ne-panic (suc n) (_ ∷ _ ∷ _ ∷ _ ∷ []) out h = absurd (omega arith)
read_blocks-ne-panic (suc n) (_ ∷ _ ∷ _ ∷ _ ∷ _ ∷ []) out h = absurd (omega arith)
read_blocks-ne-panic (suc n) (_ ∷ _ ∷ _ ∷ _ ∷ _ ∷ _ ∷ []) out h = absurd (omega arith)
read_blocks-ne-panic (suc n) (_ ∷ _ ∷ _ ∷ _ ∷ _ ∷ _ ∷ _ ∷ []) out h = absurd (omega arith)

read_sack-ne-panic :
    (olen : ℕ) (v : List ℕ) (out : TcpOpts) → olen ≤ length v + 2 → read_sack olen v out ≢ panic
unfolding read_sack
read_sack-ne-panic olen v out h =
    ground (arith, read_blocks-ne-panic ((olen - 2) / 8) v out (omega arith))

read_mss-ne-panic : (v : List ℕ) (out : TcpOpts) → 2 ≤ length v → read_mss v out ≢ panic
unfolding read_mss
read_mss-ne-panic (a ∷ b ∷ v) out h = cc
read_mss-ne-panic [] out h = absurd (omega arith)
read_mss-ne-panic (a ∷ []) out h = absurd (omega arith)

read_wscale-ne-panic : (v : List ℕ) (out : TcpOpts) → 1 ≤ length v → read_wscale v out ≢ panic
unfolding read_wscale
read_wscale-ne-panic (a ∷ v) out h = cc
read_wscale-ne-panic [] out h = absurd (omega arith)

read_timestamp-ne-panic : (v : List ℕ) (out : TcpOpts) → 8 ≤ length v → read_timestamp v out ≢ panic
unfolding read_timestamp
read_timestamp-ne-panic (a ∷ b ∷ c ∷ d ∷ e ∷ f ∷ g ∷ k ∷ v) out h = cc
read_timestamp-ne-panic [] out h = absurd (omega arith)
read_timestamp-ne-panic (_ ∷ []) out h = absurd (omega arith)
read_timestamp-ne-panic (_ ∷ _ ∷ []) out h = absurd (omega arith)
read_timestamp-ne-panic (_ ∷ _ ∷ _ ∷ []) out h = absurd (omega arith)
read_timestamp-ne-panic (_ ∷ _ ∷ _ ∷ _ ∷ []) out h = absurd (omega arith)
read_timestamp-ne-panic (_ ∷ _ ∷ _ ∷ _ ∷ _ ∷ []) out h = absurd (omega arith)
read_timestamp-ne-panic (_ ∷ _ ∷ _ ∷ _ ∷ _ ∷ _ ∷ []) out h = absurd (omega arith)
read_timestamp-ne-panic (_ ∷ _ ∷ _ ∷ _ ∷ _ ∷ _ ∷ _ ∷ []) out h = absurd (omega arith)

read_option-ne-panic :
    (kind olen : ℕ) (v : List ℕ) (out : TcpOpts)
    → olen ≤ length v + 2
    → read_option kind olen v out ≢ panic
unfolding read_option
read_option-ne-panic kind olen v out h = ground (
  arith,
  read_sack-ne-panic olen v out h,
  read_mss-ne-panic v out,
  read_wscale-ne-panic v out,
  read_timestamp-ne-panic v out,
)

round-ne-crash : (kind : ℕ) (s : List ℕ) (out : TcpOpts) → round kind s out ≢ crash
unfolding round option_round
round-ne-crash kind [] out = ground arith
round-ne-crash kind (olen ∷ v) out = ground (arith, read_option-ne-panic kind olen v out)

parse_from-ne-panic : (out : TcpOpts) (skip : ℕ) (s : List ℕ) → parse_from out skip s ≢ panic
unfolding parse_from
parse_from-ne-panic out skip [] = cc
parse_from-ne-panic out (suc skip) (b ∷ s) = parse_from-ne-panic out skip s
parse_from-ne-panic out zero (kind ∷ s) =
    split (λ out' skip. parse_from-ne-panic out' skip s) (round kind s out) refl
  where
    split :
        ((out' : TcpOpts) (skip : ℕ) → parse_from out' skip s ≢ panic)
        → (r : Round) → round kind s out ≡ r
        → parse_from out zero (kind ∷ s) ≢ panic
    split ih finish e = rw (e, parse_from) (cc)
    split ih (next out' skip) e = rw (e, parse_from) (ih out' skip)
    split ih (fail x) e = rw (e, parse_from) (cc)
    split ih crash e = absurd (round-ne-crash kind s out e)

-- `parse_options` returns on every byte sequence, and never reads past its end.
pub parse_options-ne-panic : (opts : List ℕ) → parse_options opts ≢ panic
unfolding parse_options
parse_options-ne-panic opts = ground (arith, parse_from-ne-panic default_opts 0 opts)

abbrev IsShift : Option ℕ → Type 0
IsShift none = Unit {0}
IsShift (some w) = w ≤ 14

-- What the users of parsed options rely on.
pub record IsDecoded (o : TcpOpts) : Type 0 where
  pub shift : IsShift o.wscale
  pub count : o.sack_block_count ≤ 4
  pub blocks : length o.sack_blocks ≡ 4

push-IsDecoded :
    (o : TcpOpts) (b : SackBlock) → IsDecoded o → IsDecoded (push_sack_block_decode o b).0
unfolding push_sack_block_decode
push-IsDecoded o b d = ground (arith, length-set o.sack_blocks o.sack_block_count b)

read_blocks-IsDecoded :
    (n : ℕ) (v : List ℕ) (out o : TcpOpts)
    → IsDecoded out
    → read_blocks n v out ≡ ok o
    → IsDecoded o
unfolding read_blocks
read_blocks-IsDecoded zero v out o d e = ground arith
read_blocks-IsDecoded (suc n) (a ∷ b ∷ c ∷ x ∷ e ∷ f ∷ g ∷ k ∷ v) out o d q =
    read_blocks-IsDecoded n v _ o (push-IsDecoded out _ d) q
read_blocks-IsDecoded (suc n) _ out o d q = cc

read_sack-IsDecoded :
    (olen : ℕ) (v : List ℕ) (out o : TcpOpts)
    → IsDecoded out
    → read_sack olen v out ≡ ok o
    → IsDecoded o
unfolding read_sack
read_sack-IsDecoded olen v out o d q =
    ground (arith, read_blocks-IsDecoded ((olen - 2) / 8) v out o d)

read_mss-IsDecoded :
    (v : List ℕ) (out o : TcpOpts) → IsDecoded out → read_mss v out ≡ ok o → IsDecoded o
unfolding read_mss
read_mss-IsDecoded (a ∷ b ∷ v) out o d q = ground arith
read_mss-IsDecoded _ out o d q = cc

read_wscale-IsDecoded :
    (v : List ℕ) (out o : TcpOpts) → IsDecoded out → read_wscale v out ≡ ok o → IsDecoded o
unfolding read_wscale
read_wscale-IsDecoded (a ∷ v) out o d q = ground arith
read_wscale-IsDecoded [] out o d q = cc

read_timestamp-IsDecoded :
    (v : List ℕ) (out o : TcpOpts) → IsDecoded out → read_timestamp v out ≡ ok o → IsDecoded o
unfolding read_timestamp
read_timestamp-IsDecoded (a ∷ b ∷ c ∷ x ∷ e ∷ f ∷ g ∷ k ∷ v) out o d q = ground arith
read_timestamp-IsDecoded _ out o d q = cc

round-IsDecoded :
    (kind : ℕ) (s : List ℕ) (out o : TcpOpts) (skip : ℕ)
    → IsDecoded out
    → round kind s out ≡ next o skip
    → IsDecoded o
unfolding round option_round read_option
round-IsDecoded kind [] out o skip d q = ground arith
round-IsDecoded kind (olen ∷ v) out o skip d q = ground (
  arith,
  read_sack-IsDecoded olen v out o d,
  read_mss-IsDecoded v out o d,
  read_wscale-IsDecoded v out o d,
  read_timestamp-IsDecoded v out o d,
)

parse_from-IsDecoded :
    (out : TcpOpts) (skip : ℕ) (s : List ℕ) (o : TcpOpts)
    → IsDecoded out
    → parse_from out skip s ≡ ok o
    → IsDecoded o
unfolding parse_from
parse_from-IsDecoded out skip [] o d q = ground arith
parse_from-IsDecoded out (suc skip) (b ∷ s) o d q = parse_from-IsDecoded out skip s o d q
parse_from-IsDecoded out zero (kind ∷ s) o d q =
    split (λ out' skip. parse_from-IsDecoded out' skip s o) (round kind s out) refl
  where
    split :
        ((out' : TcpOpts) (skip : ℕ) → IsDecoded out' → parse_from out' skip s ≡ ok o → IsDecoded o)
        → (r : Round) → round kind s out ≡ r
        → IsDecoded o
    split ih finish e = ground arith
    split ih (next out' skip) e =
        ih out' skip (round-IsDecoded kind s out out' skip d e) (rw (e, parse_from) at q)
    split ih (fail x) e = ground arith
    split ih crash e = ground arith

-- Whatever bytes the peer sends, an accepted option list has a window shift of at most 14 (RFC 7323,
-- 2.3) and at most four SACK blocks, in the array of four.
pub parse_options-IsDecoded :
    (opts : List ℕ) (o : TcpOpts) → parse_options opts ≡ ok o → IsDecoded o
unfolding parse_options
parse_options-IsDecoded opts o h =
    ground (arith, parse_from-IsDecoded default_opts 0 opts o (omega arith))
