-- ===== src/Examples/Recovery.antt =====
-- The SACK scoreboard, the retransmission queue and RACK.
use resd_dpdk_tcp.Base.{ℕ, ◌+◌, ◌≤◌, ◌<◌, ◌≡◌, ◌↔◌, false, ◌||◌, List, [], ◌∷◌, arith, refl, All}
use resd_dpdk_tcp.Seq.{seq_le}
use resd_dpdk_tcp.Seq.Order.{IsAhead}
use resd_dpdk_tcp.Options.{SackBlock}
use resd_dpdk_tcp.Sack.{is_sacked, covers}
use resd_dpdk_tcp.Sack
use resd_dpdk_tcp.Sack.Union.{IsAheadBlock, survivors, insert-is_sacked}
use resd_dpdk_tcp.Sack.Disjoint.{Apart, IsScoreboard, insert-IsScoreboard}
use resd_dpdk_tcp.Retrans.{RetransEntry, SendRetrans}
use resd_dpdk_tcp.Retrans.Prune.{IsOrdered}
use resd_dpdk_tcp.Rack.{RackState, rack_mark_losses_on_rto}
use resd_dpdk_tcp.Rack.Losses.{Holds, IsLost, rack_mark_losses_iff}

abbrev block : ℕ → ℕ → SackBlock
block l r = record { left = l; right = r }

abbrev board : List SackBlock
board = block 200 300 ∷ block 400 500 ∷ []

at : (x : ℕ) → 100 ≤ x → x < 10000 → IsAhead 100 x
at x h k = record { word = omega arith; near = omega arith }

pair : (l r : ℕ) → 100 ≤ l → l < 10000 → 100 ≤ r → r < 10000 → IsAheadBlock 100 (block l r)
pair l r h1 h2 h3 h4 = record { left = at l h1 h2; right = at r h3 h4 }

board-ahead : All (IsAheadBlock 100) board
board-ahead = (
  pair 200 300 (omega arith) (omega arith) (omega arith) (omega arith),
  (pair 400 500 (omega arith) (omega arith) (omega arith) (omega arith), tt),
)

insert-is_sacked_example :
    is_sacked (Sack.insert board (block 300 400)).0 350
    ≡ (is_sacked (survivors board (block 300 400)) 350 || covers (block 300 400) 350)
insert-is_sacked_example =
    insert-is_sacked 100 (omega arith) 350 (at 350 (omega arith) (omega arith)) board
      (block 300 400) board-ahead
      (pair 300 400 (omega arith) (omega arith) (omega arith) (omega arith))

board-Apart : Apart board
unfolding seq_le
board-Apart = ((refl, tt), (tt, tt))

insert-IsScoreboard_example : IsScoreboard (Sack.insert board (block 300 400)).0
insert-IsScoreboard_example =
    insert-IsScoreboard board (block 300 400) (record { fits = omega arith; apart = board-Apart })

abbrev entry : ℕ → RetransEntry
entry s = record {
  seq = s;
  len = 100;
  mbuf = s + 7;
  first_tx_ts_ns = 0;
  xmit_count = 1;
  sacked = false;
  lost = false;
  xmit_ts_ns = 0;
  hdrs_len = 54;
}

abbrev in_flight : SendRetrans
in_flight = entry 200 ∷ entry 300 ∷ entry 400 ∷ []

in_flight-IsOrdered : IsOrdered 100 in_flight
in_flight-IsOrdered = (
  at 300 (omega arith) (omega arith),
  (omega arith, (omega arith, tt)),
  (
    at 400 (omega arith) (omega arith),
    (omega arith, tt),
    (at 500 (omega arith) (omega arith), tt, tt),
  ),
)

abbrev newest : RackState
newest = record {
  xmit_ts_ns = 5000000;
  end_seq = 300;
  reo_wnd_us = 1000;
  min_rtt_us = 100;
  dsack_seen = false;
}

rack_mark_losses_iff_example :
    Holds (rack_mark_losses_on_rto in_flight 200 100 1000 9000000) 1
    ↔ IsLost 100 200 100 1000 9000000 (entry 300)
rack_mark_losses_iff_example =
    rack_mark_losses_iff 100 200 100 1000 9000000 in_flight 1 (entry 300) (omega arith)
      (at 200 (omega arith) (omega arith)) (omega arith) (at 400 (omega arith) (omega arith)) refl
