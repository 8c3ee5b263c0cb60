-- ===== src/Input/Marks.antt =====
-- Which entries the RACK pass marks as lost and reports.
use resd_dpdk_tcp.Base.{
  ℕ, ◌-◌, ◌*◌, ◌<◌, ◌≡◌, ◌⊎◌, Bool, true, false, some, List, get_elem?, [], ◌∷◌, if◌then◌else◌,
}
use resd_dpdk_tcp.Retrans.{SendRetrans, RetransEntry, end_seq}
use resd_dpdk_tcp.Seq.{seq_lt, seq_le}
use resd_dpdk_tcp.Rack.{RackState}
use resd_dpdk_tcp.Rack.Losses.{Holds}
use resd_dpdk_tcp.Input.Losses.{is_rack_lost}

-- `lost` is set on the entries that are lost, and on no other.
abbrev pub mark_each : SendRetrans → ℕ → RackState → ℕ → ℕ → SendRetrans
mark_each [] snd_una rack now_ns reo_wnd_us = []
mark_each (e ∷ es) snd_una rack now_ns reo_wnd_us =
    (if is_rack_lost e snd_una rack now_ns reo_wnd_us then record e { lost = true } else e)
    ∷ mark_each es snd_una rack now_ns reo_wnd_us

-- RFC 8985, 6.2: in flight, neither SACKed nor known as lost, sent before the newest segment that was
-- delivered, and longer ago than the reordering window.
pub record IsLost (snd_una : ℕ) (rack : RackState) (now_ns reo_wnd_us : ℕ) (e : RetransEntry)
    : Type 0 where
  pub unsacked : e.sacked ≡ false
  pub unmarked : e.lost ≡ false
  pub in_flight : seq_le (end_seq e) snd_una ≡ false
  pub older :
      (e.xmit_ts_ns < rack.xmit_ts_ns)
      ⊎ ((e.xmit_ts_ns ≡ rack.xmit_ts_ns) × (seq_lt (end_seq e) rack.end_seq ≡ true))
  pub late : reo_wnd_us * 1000 < now_ns - e.xmit_ts_ns

module _ (snd_una : ℕ) (rack : RackState) (now_ns reo_wnd_us : ℕ) where
  abbrev lost : RetransEntry → Bool
  lost e = is_rack_lost e snd_una rack now_ns reo_wnd_us

-- What the pass made of one entry: marked and reported when it is lost, else left as it was.
abbrev pub Marked : ℕ → RackState → SendRetrans → List ℕ → ℕ → ℕ → RetransEntry → Type 0
Marked snd_una rack after indexes now_ns i e =
    (IsLost snd_una rack now_ns rack.reo_wnd_us e
      × (get_elem? after i ≡ some (record e { lost = true }))
      × Holds indexes i)
    ⊎ ((¬ IsLost snd_una rack now_ns rack.reo_wnd_us e)
        × (get_elem? after i ≡ some e)
        × (¬ Holds indexes i))
