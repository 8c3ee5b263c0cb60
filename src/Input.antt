-- ===== src/Input.antt =====
-- The per-state segment handlers, crates/dpdk-net-core/src/tcp_input.rs.
-- A handler reads the clock once: its readings within one segment are `now_ns`. The fields of the
-- feature `test-server` are among the outcome's; `is_connected` and `is_closed` are its `connected`
-- and `closed`.
pub mod Handshake
pub mod Closing
pub mod Edges
pub mod Accept
pub mod Steps
pub mod Accepts
pub mod Acking
pub mod Losses
pub mod Marks
pub mod Rfc
pub mod Deliver
pub mod Established
use resd_dpdk_tcp.Base.{
  ℕ, ◌+◌, ◌-◌, ◌*◌, Bool, true, false, not, ◌&&◌, ◌||◌, Option, none, some, List, [], ◌∷◌, ltb,
  ◌==◌, if◌then◌else◌, length, wrapping_add32,
}
use resd_dpdk_tcp.Seq.{seq_le}
use resd_dpdk_tcp.Options.{SackBlock}
use resd_dpdk_tcp.Conn.{TcpState, closed}
use resd_dpdk_tcp.TimerWheel.{TimerId}
use resd_dpdk_tcp.Net.Segment.{ParsedSegment}
use resd_dpdk_tcp.FlowTable.{FourTuple}

pub data TxAction : Type 0 where
  no_tx ack rst rst_for_syn_sent_bad_ack : TxAction

pub record Outcome : Type 0 where
  pub tx : TxAction
  pub new_state : Option TcpState
  pub delivered : ℕ
  pub buf_full_drop : ℕ
  pub reassembly_queued_bytes : ℕ
  pub reassembly_hole_filled : ℕ
  pub paws_rejected : Bool
  pub ts_recent_expired : Bool
  pub bad_option : Bool
  pub sack_blocks_decoded : ℕ
  pub bad_seq : Bool
  pub bad_ack : Bool
  pub dup_ack : Bool
  pub urgent_dropped : Bool
  pub rx_zero_window : Bool
  pub ws_shift_clamped : Bool
  pub snd_una_advanced_to : Option ℕ
  pub rtt_sample_taken : Bool
  pub rack_lost_indexes : List ℕ
  pub rx_dsack_count : ℕ
  pub tx_tlp_spurious_count : ℕ
  pub syn_retrans_timer_to_cancel : Option TimerId
  pub writable_hysteresis_fired : Bool
  pub mbuf_ref_retained : Bool
  pub in_order_delivered_from_seg : ℕ
  pub is_connected : Bool
  pub is_closed : Bool
  pub clear_listen_slot_on_close : Bool
  pub re_listen_if_passive : Bool
  pub retransmit_syn_ack_for_passive : Bool

abbrev pub base : Outcome
base = record {
  tx = no_tx;
  new_state = none;
  delivered = 0;
  buf_full_drop = 0;
  reassembly_queued_bytes = 0;
  reassembly_hole_filled = 0;
  paws_rejected = false;
  ts_recent_expired = false;
  bad_option = false;
  sack_blocks_decoded = 0;
  bad_seq = false;
  bad_ack = false;
  dup_ack = false;
  urgent_dropped = false;
  rx_zero_window = false;
  ws_shift_clamped = false;
  snd_una_advanced_to = none;
  rtt_sample_taken = false;
  rack_lost_indexes = [];
  rx_dsack_count = 0;
  tx_tlp_spurious_count = 0;
  syn_retrans_timer_to_cancel = none;
  writable_hysteresis_fired = false;
  mbuf_ref_retained = false;
  in_order_delivered_from_seg = 0;
  is_connected = false;
  is_closed = false;
  clear_listen_slot_on_close = false;
  re_listen_if_passive = false;
  retransmit_syn_ack_for_passive = false;
}

-- The outcome that closes the connection and sends `action`.
abbrev pub close_with : TxAction → Outcome
close_with action = record base { tx = action; new_state = some closed; is_closed = true }

unfoldable pub is_dsack : SackBlock → ℕ → List SackBlock → Bool
is_dsack block snd_una scoreboard = seq_le block.right snd_una || encloses scoreboard
  where
    encloses : List SackBlock → Bool
    encloses [] = false
    encloses (existing ∷ bs) =
        (seq_le existing.left block.left && seq_le block.right existing.right) || encloses bs

unfoldable pub tuple_from_segment : ℕ → ℕ → ParsedSegment → FourTuple
tuple_from_segment src_ip dst_ip seg = record {
  local_ip = dst_ip;
  local_port = seg.dst_port;
  peer_ip = src_ip;
  peer_port = seg.src_port;
}
