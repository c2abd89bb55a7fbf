-- ===== src/Ack/Sent/Handler.antt =====
-- The methods of a sentPacketHandler.
use agg_deliv.Common.{
  ℕ, zero, suc, ◌+◌, Bool, true, false, List, [], ◌∷◌, ◌++◌, Option, none, some, ltb, leb,
  if◌then◌else◌, length, drop, add64, sub64,
}
use agg_deliv.Wire.Control.StopWaiting.{StopWaitingFrame}
use agg_deliv.Ack.Packet.{Packet, is_retransmittable}
use agg_deliv.Ack.StopWaiting
use agg_deliv.Ack.StopWaiting.{new_stop_waiting_manager}
use agg_deliv.Ack.Sent.State.{SentPacketHandler}

abbrev pub max_tracked_sent_packets : ℕ
max_tracked_sent_packets = 5000

abbrev pub max_tracked_skipped_packets : ℕ
max_tracked_skipped_packets = 10

abbrev pub max_non_retransmittable_packets : ℕ
max_non_retransmittable_packets = 19

pub data SentError : Type 0 where
  packet_number_not_increasing : SentError
  too_many_tracked_sent_packets : SentError
  ack_for_unsent_packet : SentError
  duplicate_or_out_of_order_ack : SentError
  ack_for_skipped_packet : SentError
  acked_wrong_packet : SentError

-- The loop over the numbers from `p` on that are skipped.
unfoldable pub skip_loop : ℕ → ℕ → List ℕ → List ℕ
skip_loop zero p skipped = skipped
skip_loop (suc n) p skipped =
    let longer = skipped ++ p ∷ [] in
    skip_loop n (p + 1)
      (if ltb max_tracked_skipped_packets (length longer) then drop 1 longer else longer)

-- The index that garbageCollectSkippedPackets deletes up to, from index `i` on.
unfoldable pub delete_index : ℕ → ℕ → ℕ → List ℕ → ℕ
delete_index settled i index [] = index
delete_index settled i index (p ∷ ps) =
    delete_index settled (i + 1) (if leb p settled then i + 1 else index) ps

-- The loop of hasOutstandingRetransmittablePacket.
unfoldable pub any_retransmittable : List Packet → Bool
any_retransmittable [] = false
any_retransmittable (p ∷ ps) = if is_retransmittable p then true else any_retransmittable ps

-- The handler after a call, and the error that the call returns, `none` for nil.
pub record Outcome (C : Type 0) : Type 0 where
  pub handler : SentPacketHandler C
  pub error : Option SentError

-- The readings of the clock in one call: at UpdateRTT, and at detectLostPackets.
pub record Clock : Type 0 where
  pub at_rtt : ℕ
  pub at_loss : ℕ

module _ {C : Type 0} where
  unfoldable pub new_sent_packet_handler : C → SentPacketHandler C
  new_sent_packet_handler congestion = record {
    last_sent_packet_number = 0;
    skipped_packets = [];
    num_non_retransmittable_packets = 0;
    largest_acked = 0;
    largest_received_packet_with_ack = 0;
    packet_history = [];
    stop_waiting_manager = new_stop_waiting_manager;
    retransmission_queue = [];
    bytes_in_flight = 0;
    congestion = congestion;
    rto_count = 0;
    tlp_count = 0;
    loss_time = 0;
    last_sent_time = 0;
    alarm = 0;
    packets = 0;
    retransmissions = 0;
    losses = 0;
  }

  unfoldable pub get_statistics : SentPacketHandler C → ℕ × ℕ × ℕ
  get_statistics h = (h.packets, h.retransmissions, h.losses)

  unfoldable pub largest_in_order_acked : SentPacketHandler C → ℕ
  largest_in_order_acked h = elim h.packet_history [
    | [] ↦ h.largest_acked
    | p ∷ rest ↦ sub64 p.packet_number 1
  ]

  unfoldable pub get_least_unacked : SentPacketHandler C → ℕ
  unfolding largest_in_order_acked
  get_least_unacked h = add64 (largest_in_order_acked h) 1

  unfoldable pub should_send_retransmittable_packet : SentPacketHandler C → Bool
  should_send_retransmittable_packet h =
      leb max_non_retransmittable_packets h.num_non_retransmittable_packets

  -- A packet behind the ones in flight.
  unfoldable pub in_flight : SentPacketHandler C → Packet → SentPacketHandler C
  in_flight h p = record h {
    bytes_in_flight = add64 h.bytes_in_flight p.length;
    packet_history = h.packet_history ++ p ∷ [];
    num_non_retransmittable_packets = 0;
  }

  unfoldable pub garbage_collect_skipped_packets : SentPacketHandler C → SentPacketHandler C
  unfolding largest_in_order_acked delete_index
  garbage_collect_skipped_packets h = record h {
    skipped_packets =
        drop (delete_index (largest_in_order_acked h) 0 0 h.skipped_packets) h.skipped_packets;
  }

  -- The first packet of a queue leaves it.
  unfoldable pub dequeue : List Packet → SentPacketHandler C → Option (Packet × SentPacketHandler C)
  dequeue [] h = none
  dequeue (p ∷ rest) h =
      some
        (p, record h { retransmission_queue = rest; retransmissions = add64 h.retransmissions 1 })

  unfoldable pub dequeue_packet_for_retransmission :
      SentPacketHandler C → Option (Packet × SentPacketHandler C)
  unfolding dequeue
  dequeue_packet_for_retransmission h = dequeue h.retransmission_queue h

  unfoldable pub duplicate_packet : SentPacketHandler C → Packet → SentPacketHandler C
  duplicate_packet h p = record h { retransmission_queue = h.retransmission_queue ++ p ∷ [] }

  unfoldable pub get_alarm_timeout : SentPacketHandler C → ℕ
  get_alarm_timeout h = h.alarm

  unfoldable pub get_stop_waiting_frame :
      SentPacketHandler C → Bool → Option StopWaitingFrame × SentPacketHandler C
  get_stop_waiting_frame h force =
      let got = StopWaiting.get_stop_waiting_frame h.stop_waiting_manager force in
      (got.frame, record h { stop_waiting_manager = got.manager })
