-- ===== src/Ack/Sent/Calls.antt =====
-- The calls of a sentPacketHandler that reach congestion control.
use agg_deliv.Common.{
  ℕ, ◌+◌, ◌-◌, not, List, [], ◌∷◌, none, some, ltb, leb, if◌then◌else◌, length, add64,
}
use agg_deliv.Wire.AckFrame.{AckFrame}
use agg_deliv.Ack.Receiver.{ClosePathFrame}
use agg_deliv.Ack.Packet.{Packet, strip_non_retransmittable_frames}
use agg_deliv.Ack.StopWaiting
use agg_deliv.Ack.Sent.State.{
  Congestion, SentPacketHandler, max, is_empty, update_loss_detection_alarm, on_packet_acked,
  queue_lost,
}
use agg_deliv.Ack.Sent.Detection.{
  found, wrong_packet, determine_newly_acked_packets, determine_newly_acked_packets_close_path,
  skipped_packets_acked, skipped_packets_acked_close_path, find_largest, lost_loop, inflight_loop,
}
use agg_deliv.Ack.Sent.Handler.{
  max_tracked_sent_packets, packet_number_not_increasing, too_many_tracked_sent_packets,
  ack_for_unsent_packet, duplicate_or_out_of_order_ack, ack_for_skipped_packet, acked_wrong_packet,
  skip_loop, Outcome, Clock, largest_in_order_acked, in_flight, garbage_collect_skipped_packets,
}

module _ {C : Type 0} where
  -- The packet number is taken, and the numbers before it that were not sent are skipped.
  unfoldable pub count_sent : SentPacketHandler C → Packet → ℕ → SentPacketHandler C
  unfolding skip_loop
  count_sent h packet now = record h {
    skipped_packets =
        skip_loop (packet.packet_number - h.last_sent_packet_number - 1)
          (h.last_sent_packet_number + 1) h.skipped_packets;
    last_sent_packet_number = packet.packet_number;
    packets = add64 h.packets 1;
    last_sent_time = now;
  }

  -- A packet with frames to send again is in flight.
  unfoldable pub track : SentPacketHandler C → Packet → ℕ → SentPacketHandler C
  unfolding in_flight is_empty
  track h packet now =
      let frames = strip_non_retransmittable_frames packet.frames in
      if not (is_empty frames)
      then in_flight h (record packet { frames = frames; send_time = now })
      else record h { num_non_retransmittable_packets = h.num_non_retransmittable_packets + 1 }

module _ {C : Type 0} (cc : Congestion C) where
  -- OnPacketSent, and the alarm.
  unfoldable pub report_sent : SentPacketHandler C → Packet → ℕ → SentPacketHandler C
  unfolding update_loss_detection_alarm is_empty
  report_sent h packet now =
      let retransmittable = not (is_empty (strip_non_retransmittable_frames packet.frames)) in
      update_loss_detection_alarm cc (record h {
        congestion =
            cc.on_packet_sent now h.bytes_in_flight packet.packet_number packet.length
              retransmittable h.congestion;
      })

  unfoldable pub sent_packet : SentPacketHandler C → Packet → ℕ → Outcome C
  unfolding count_sent track report_sent
  sent_packet h packet now =
      if leb packet.packet_number h.last_sent_packet_number
      then record { handler = h; error = some packet_number_not_increasing }
      else if ltb max_tracked_sent_packets
          (length h.retransmission_queue + length h.packet_history + 1)
      then record { handler = h; error = some too_many_tracked_sent_packets }
      else record {
        handler = report_sent (track (count_sent h packet now) packet now) packet now;
        error = none;
      }

  -- The loop over the packets that are acknowledged.
  unfoldable pub ack_all : SentPacketHandler C → List Packet → SentPacketHandler C
  unfolding on_packet_acked
  ack_all h [] = h
  ack_all h (p ∷ ps) =
      let acked = on_packet_acked h p in
      ack_all
        (record acked {
          congestion =
              cc.on_packet_acked p.packet_number p.length acked.bytes_in_flight acked.congestion;
        })
        ps

  unfoldable pub queue_all : SentPacketHandler C → List Packet → SentPacketHandler C
  unfolding queue_lost
  queue_all h [] = h
  queue_all h (p ∷ ps) = queue_all (queue_lost cc h p) ps

  unfoldable pub detect_lost_packets : SentPacketHandler C → ℕ → SentPacketHandler C
  unfolding lost_loop queue_all
  detect_lost_packets h now =
      let delay = cc.reordered (max (cc.latest_rtt h.congestion) (cc.smoothed_rtt h.congestion)) in
      let scan = lost_loop h.largest_acked now delay 0 h.packet_history in
      queue_all
        (record h { loss_time = scan.loss_time; losses = add64 h.losses (length scan.lost) })
        scan.lost

  unfoldable pub set_inflight_as_lost : SentPacketHandler C → SentPacketHandler C
  unfolding inflight_loop queue_all
  set_inflight_as_lost h =
      let lost = inflight_loop h.largest_acked h.packet_history in
      queue_all (record h { losses = add64 h.losses (length lost) }) lost

  -- maybeUpdateRTT, and MaybeExitSlowStart where it measured a packet.
  unfoldable pub measure_rtt : SentPacketHandler C → AckFrame → ℕ → ℕ → SentPacketHandler C
  unfolding find_largest
  measure_rtt h f received now = record h {
    congestion = elim (find_largest f.largest_acked h.packet_history) [
      | none ↦ h.congestion
      | some p ↦
          cc.maybe_exit_slow_start
            (cc.update_rtt (received - p.send_time) f.delay_time now h.congestion)
    ];
  }

  -- ReceivedAck behind the packets that are acknowledged.
  unfoldable pub settle_acked :
      SentPacketHandler C → AckFrame → ℕ → List Packet → SentPacketHandler C
  unfolding ack_all detect_lost_packets update_loss_detection_alarm garbage_collect_skipped_packets
      StopWaiting.received_ack
  settle_acked h f now acked =
      let detected = update_loss_detection_alarm cc (detect_lost_packets (ack_all h acked) now) in
      let collected = garbage_collect_skipped_packets detected in
      record collected {
        stop_waiting_manager = StopWaiting.received_ack collected.stop_waiting_manager f;
      }

  -- ReceivedAck behind the test of the skipped packets.
  unfoldable pub settle : SentPacketHandler C → AckFrame → ℕ → Clock → Outcome C
  unfolding measure_rtt determine_newly_acked_packets settle_acked
  settle h f received clock =
      let measured = measure_rtt h f received clock.at_rtt in
      elim (determine_newly_acked_packets measured.packet_history f) [
        | wrong_packet ↦ record { handler = measured; error = some acked_wrong_packet }
        | found acked ↦ record {
          handler = settle_acked measured f clock.at_loss acked;
          error = none;
        }
      ]

  -- ReceivedAck behind its first two tests.
  unfoldable pub fresh_ack : SentPacketHandler C → AckFrame → ℕ → Clock → Outcome C
  unfolding settle skipped_packets_acked largest_in_order_acked
  fresh_ack h f received clock =
      if leb f.largest_acked (largest_in_order_acked h)
      then record { handler = h; error = none }
      else let raised = record h { largest_acked = f.largest_acked } in
        if skipped_packets_acked raised.skipped_packets f
        then record { handler = raised; error = some ack_for_skipped_packet }
        else settle raised f received clock

  unfoldable pub received_ack : SentPacketHandler C → AckFrame → ℕ → ℕ → Clock → Outcome C
  unfolding fresh_ack
  received_ack h f with_packet_number received clock =
      if ltb h.last_sent_packet_number f.largest_acked
      then record { handler = h; error = some ack_for_unsent_packet }
      else if leb with_packet_number h.largest_received_packet_with_ack
      then record { handler = h; error = some duplicate_or_out_of_order_ack }
      else fresh_ack (record h { largest_received_packet_with_ack = with_packet_number }) f received
          clock

  unfoldable pub received_close_path : SentPacketHandler C → ClosePathFrame → ℕ → Outcome C
  unfolding skipped_packets_acked_close_path determine_newly_acked_packets_close_path ack_all
      set_inflight_as_lost garbage_collect_skipped_packets
  received_close_path h f with_packet_number =
      if ltb h.last_sent_packet_number f.largest_acked
      then record { handler = h; error = some ack_for_unsent_packet }
      else if leb with_packet_number h.largest_received_packet_with_ack
      then record { handler = h; error = some duplicate_or_out_of_order_ack }
      else let noted = record h { largest_received_packet_with_ack = with_packet_number } in
        if skipped_packets_acked_close_path noted.skipped_packets f
        then record { handler = noted; error = some ack_for_skipped_packet }
        else elim (determine_newly_acked_packets_close_path noted.packet_history f) [
          | wrong_packet ↦ record { handler = noted; error = some acked_wrong_packet }
          | found acked ↦ record {
            handler = garbage_collect_skipped_packets (set_inflight_as_lost (ack_all noted acked));
            error = none;
          }
        ]
