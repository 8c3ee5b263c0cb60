-- ===== src/Net/Checksum.antt =====
-- `internet_checksum`. The loops over the chunks carry `sum`, which wraps, and an odd byte.
use resd_dpdk_tcp.Base.{
  ℕ, zero, suc, ◌+◌, ◌-◌, ◌*◌, ◌/◌, ◌%◌, Option, none, some, List, [], ◌∷◌, ◌==◌, if◌then◌else◌,
  wrapping_add32, as_u16, u16_mod,
}
use resd_dpdk_tcp.Options.Bytes.{be16}

pub record Sum : Type 0 where
  pub sum : ℕ
  pub carry : Option ℕ

-- The `while` over pairs of bytes, and the odd byte left.
unfoldable pub fold_pairs : List ℕ → ℕ → Sum
fold_pairs [] sum = record { sum = sum; carry = none }
fold_pairs (a ∷ []) sum = record { sum = sum; carry = some a }
fold_pairs (a ∷ b ∷ xs) sum = fold_pairs xs (wrapping_add32 sum (be16 a b))

unfoldable pub fold_chunk : List ℕ → Sum → Sum
unfolding fold_pairs
fold_chunk chunk s = elim s.carry [
  | none ↦ fold_pairs chunk s.sum
  | some high ↦ elim chunk [
    | [] ↦ s
    | low ∷ rest ↦ fold_pairs rest (wrapping_add32 s.sum (be16 high low))
  ]
]

unfoldable pub fold_chunks : List (List ℕ) → Sum → Sum
unfolding fold_chunk
fold_chunks [] s = s
fold_chunks (chunk ∷ chunks) s = fold_chunks chunks (fold_chunk chunk s)

unfoldable pub add_tail : Sum → ℕ
add_tail s = elim s.carry [ none ↦ s.sum | some tail ↦ wrapping_add32 s.sum (tail * 256) ]

-- `while sum >> 16 != 0`, on fuel.
unfoldable pub end_around : ℕ → ℕ → ℕ
end_around zero sum = sum
end_around (suc fuel) sum =
    let rest = end_around fuel (sum % u16_mod + sum / u16_mod) in
    if sum / u16_mod == 0 then sum else rest

-- `!(sum as u16)`
abbrev pub complement : ℕ → ℕ
complement sum = u16_mod - 1 - as_u16 sum

abbrev pub start : Sum
start = record { sum = 0; carry = none }

abbrev pub rounds : ℕ
rounds = 2

unfoldable pub internet_checksum : List (List ℕ) → ℕ
unfolding fold_chunks add_tail end_around
internet_checksum chunks = complement (end_around rounds (add_tail (fold_chunks chunks start)))
