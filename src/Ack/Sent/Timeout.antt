-- ===== src/Ack/Sent/Timeout.antt =====
-- What the alarm of a sentPacketHandler does, and whether it may send.
use agg_deliv.Common.{
  ℕ, zero, suc, ◌+◌, ◌%◌, ◌^◌, Bool, true, false, not, ◌&&◌, ◌||◌, List, [], ◌∷◌, Option, none,
  some, ltb, leb, ◌==◌, if◌then◌else◌, length, last?,
}
use agg_deliv.Ack.Packet.{Packet}
use agg_deliv.Ack.Sent.State.{
  Congestion, SentPacketHandler, max_tail_loss_probes, is_empty, update_loss_detection_alarm,
  queue_packet_for_retransmission, queue_rto,
}
use agg_deliv.Ack.Sent.Handler.{max_tracked_sent_packets, any_retransmittable}
use agg_deliv.Ack.Sent.Calls.{detect_lost_packets}

-- What retransmitTLP does with the last packet.
unfoldable pub queue_back : {C : Type 0} → Option Packet → SentPacketHandler C → SentPacketHandler C
unfolding queue_packet_for_retransmission
queue_back none h = h
queue_back (some p) h = queue_packet_for_retransmission h p

unfoldable pub retransmit_tlp : {C : Type 0} → SentPacketHandler C → SentPacketHandler C
unfolding queue_back
retransmit_tlp h = queue_back (last? h.packet_history) h

-- onRTOCallback, `none` for nil: whether the path may have failed.
unfoldable pub path_failed : Option (ℕ → Bool) → ℕ → Bool
path_failed none last_sent_time = false
path_failed (some call) last_sent_time = call last_sent_time

module _ {C : Type 0} (cc : Congestion C) where
  -- What retransmitOldestPacket does with a history.
  unfoldable pub queue_front : List Packet → SentPacketHandler C → SentPacketHandler C
  unfolding queue_rto
  queue_front [] h = h
  queue_front (p ∷ rest) h = queue_rto cc h p

  unfoldable pub retransmit_oldest_packet : SentPacketHandler C → SentPacketHandler C
  unfolding queue_front
  retransmit_oldest_packet h = queue_front h.packet_history h

  unfoldable pub retransmit_oldest_two_packets : SentPacketHandler C → SentPacketHandler C
  unfolding retransmit_oldest_packet
  retransmit_oldest_two_packets h =
      let last = retransmit_oldest_packet (retransmit_oldest_packet h) in
      record last { congestion = cc.on_retransmission_timeout true last.congestion }

  -- The loop of retransmitAllPackets, with the rounds that are left: a round with no packet left does
  -- nothing.
  unfoldable pub retransmit_loop : ℕ → SentPacketHandler C → SentPacketHandler C
  unfolding queue_front
  retransmit_loop zero h = h
  retransmit_loop (suc n) h = retransmit_loop n (queue_front h.packet_history h)

  unfoldable pub retransmit_all_packets : SentPacketHandler C → SentPacketHandler C
  unfolding retransmit_loop
  retransmit_all_packets h =
      let last = retransmit_loop (length h.packet_history) h in
      record last { congestion = cc.on_retransmission_timeout true last.congestion }

  -- What a timeout sends again: all packets of a path that failed, else the oldest two.
  unfoldable pub retransmit : Bool → SentPacketHandler C → SentPacketHandler C
  unfolding retransmit_all_packets retransmit_oldest_two_packets
  retransmit true h = retransmit_all_packets h
  retransmit false h = retransmit_oldest_two_packets h

  -- The three kinds of alarm.
  unfoldable pub alarm_fired : Option (ℕ → Bool) → SentPacketHandler C → ℕ → SentPacketHandler C
  unfolding detect_lost_packets retransmit_tlp path_failed retransmit
  alarm_fired callback h now =
      if not (h.loss_time == 0)
      then detect_lost_packets cc h now
      else if ltb h.tlp_count max_tail_loss_probes
      then (let probed = retransmit_tlp h in
          record probed { tlp_count = (probed.tlp_count + 1) % 2 ^ 32 })
      else let sent_again = retransmit (path_failed callback h.last_sent_time) h in
        record sent_again { rto_count = (sent_again.rto_count + 1) % 2 ^ 32 }

  -- `callback` is onRTOCallback, `none` for nil.
  unfoldable pub on_alarm : Option (ℕ → Bool) → SentPacketHandler C → ℕ → SentPacketHandler C
  unfolding any_retransmittable alarm_fired update_loss_detection_alarm
  on_alarm callback h now =
      if not (any_retransmittable h.packet_history)
      then record h { alarm = 0 }
      else update_loss_detection_alarm cc (alarm_fired callback h now)

  unfoldable pub sending_allowed : SentPacketHandler C → Bool
  unfolding is_empty
  sending_allowed h =
      let congestion_limited = ltb (cc.congestion_window h.congestion) h.bytes_in_flight in
      let max_tracked_limited =
        leb max_tracked_sent_packets (length h.retransmission_queue + length h.packet_history) in
      not max_tracked_limited && (not congestion_limited || not (is_empty h.retransmission_queue))
