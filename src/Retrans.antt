-- ===== src/Retrans.antt =====
-- The in-flight segments of a connection, crates/dpdk-net-core/src/tcp_retrans.rs. An mbuf is its
-- address, 0 for the null pointer.
pub mod Prune
pub mod Mark
use resd_dpdk_tcp.Base.{
  ℕ, zero, suc, ◌+◌, Bool, true, false, not, ◌&&◌, ◌||◌, Option, none, some, List, [], ◌∷◌, ◌++◌,
  ◌==◌, if◌then◌else◌, wrapping_add32,
}
use resd_dpdk_tcp.Options.{SackBlock}
use resd_dpdk_tcp.Seq.{seq_lt, seq_le}

pub record RetransEntry : Type 0 where
  pub seq : ℕ
  pub len : ℕ
  pub mbuf : ℕ
  pub first_tx_ts_ns : ℕ
  pub xmit_count : ℕ
  pub sacked : Bool
  pub lost : Bool
  pub xmit_ts_ns : ℕ
  pub hdrs_len : ℕ

-- `SendRetrans::entries`
abbrev pub SendRetrans : Type 0
SendRetrans = List RetransEntry

abbrev pub end_seq : RetransEntry → ℕ
end_seq e = wrapping_add32 e.seq e.len

unfoldable pub flight_size : SendRetrans → ℕ
flight_size [] = 0
flight_size (e ∷ es) = (if e.sacked then 0 else 1) + flight_size es

unfoldable pub push_after_tx : SendRetrans → RetransEntry → SendRetrans
push_after_tx es e = es ++ (e ∷ [])

-- The `while` loop: what is left, and what was dropped.
unfoldable pub prune_below : SendRetrans → ℕ → SendRetrans × List RetransEntry
prune_below [] snd_una = ([], [])
prune_below (e ∷ es) snd_una =
    let (left, dropped) = prune_below es snd_una in
    if seq_le (end_seq e) snd_una then (left, e ∷ dropped) else (e ∷ es, [])

-- The variant that hands out the non-null mbufs, behind those that `out` holds.
unfoldable pub prune_below_into_mbufs : SendRetrans → ℕ → List ℕ → SendRetrans × List ℕ
prune_below_into_mbufs [] snd_una out = ([], out)
prune_below_into_mbufs (e ∷ es) snd_una out =
    let rest =
      prune_below_into_mbufs es snd_una (if e.mbuf == 0 then out else out ++ (e.mbuf ∷ [])) in
    if seq_le (end_seq e) snd_una then rest else (e ∷ es, out)

unfoldable pub mark_sacked : SendRetrans → SackBlock → SendRetrans
mark_sacked [] block = []
mark_sacked (e ∷ es) block =
    (if seq_lt e.seq block.right && seq_lt block.left (end_seq e)
      then record e { sacked = true }
      else e)
    ∷ mark_sacked es block

unfoldable pub oldest_unacked_seq : SendRetrans → Option ℕ
oldest_unacked_seq [] = none
oldest_unacked_seq (e ∷ es) = some e.seq
