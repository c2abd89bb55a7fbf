-- ===== src/Ack/Sent/Validity/Operations.antt =====
-- Every call keeps the invariant of a sentPacketHandler.
use mathlib.Core.List.{append-nil}
use agg_deliv.Common.{
  ℕ, ◌+◌, ◌-◌, ◌≤◌, ◌<◌, ◌≡◌, Bool, true, not, [], ◌++◌, none, ltb, leb, refl, arith, ap, ◌∙◌,
  Bool-cases, inl, inr, add64, u64_mod, length,
}
use agg_deliv.Wire.AckFrame.{AckFrame, validate_ack_ranges}
use agg_deliv.Ack.Packet.{Packet, strip_non_retransmittable_frames}
use agg_deliv.Ack.Sent.State.{
  Congestion, SentPacketHandler, update_loss_detection_alarm, is_empty, max,
}
use agg_deliv.Ack.Sent.Detection.{lost_loop}
use agg_deliv.Ack.Sent.Handler.{
  max_tracked_sent_packets, Clock, in_flight, garbage_collect_skipped_packets,
}
use agg_deliv.Ack.Sent.Calls.{
  sent_packet, track, count_sent, report_sent, ack_all, detect_lost_packets, set_inflight_as_lost,
  measure_rtt, settle_acked, settle,
}
use agg_deliv.Ack.Sent.Packets.{total, keep, negate, total-keep}
use agg_deliv.Ack.Sent.Ranges.{AreBelow}
use agg_deliv.Ack.Sent.Acked.{acks, determine_newly_acked_packets_lem}
use agg_deliv.Ack.Sent.Removal.{
  Removes, ack_all-Removes, queue_all-Removes, is_lost, lost_loop-keep, is_below,
  inflight_loop-keep,
}
use agg_deliv.Ack.Sent.Validity.{Holds, IsValid, AreUpTo-mono, Holds-snoc, Removes-keep}

module _ {C : Type 0} where
  track-Holds :
      (h : SentPacketHandler C) (p : Packet) (now : ℕ) {last_sent : ℕ}
      → Holds last_sent h.bytes_in_flight h.packet_history
      → h.last_sent_packet_number ≡ p.packet_number
      → last_sent < p.packet_number
      → h.bytes_in_flight + p.length < u64_mod
      → IsValid (track h p now)
  unfolding track in_flight
  track-Holds h p now {last_sent} v taken high small =
      elim (Bool-cases (not (is_empty (strip_non_retransmittable_frames p.frames)))) [
        | inl e ↦
            rw (e, taken)
              (Holds-snoc
                (record p { frames = strip_non_retransmittable_frames p.frames; send_time = now }) v
                high (omega (arith, v.counted)))
        | inr e ↦
            rw (e, taken)
              (record {
                increasing = v.increasing;
                sent = AreUpTo-mono last_sent p.packet_number h.packet_history (omega arith) v.sent;
                counted = v.counted;
                small = v.small;
              })
      ]

module _ {C : Type 0} where
  -- What ReceivedAck and ReceivedClosePath do to the packets: those that are acknowledged leave, and of
  -- the others those that are lost go to the queue.
  pub record Settles (P lost : Packet → Bool) (h h' : SentPacketHandler C) : Type 0 where
    pub valid : IsValid h'
    pub left : h'.packet_history ≡ keep (negate lost) (keep (negate P) h.packet_history)
    pub queued :
        h'.retransmission_queue
        ≡ h.retransmission_queue ++ keep lost (keep (negate P) h.packet_history)

  Removes-Settles :
      (P lost : Packet → Bool) (h mid h' : SentPacketHandler C)
      → IsValid h
      → Removes (keep P h.packet_history) [] h mid
      → Removes (keep lost mid.packet_history) (keep lost mid.packet_history) mid h'
      → Settles P lost h h'
  Removes-Settles P lost h mid h' v one two =
      let (valid, left) = Removes-keep P v one in
      let (valid', left') = Removes-keep lost valid two in
      let queue : mid.retransmission_queue ≡ h.retransmission_queue =
        one.queue ∙ append-nil h.retransmission_queue in
      record {
        valid = valid';
        left = left' ∙ ap (keep (negate lost)) left;
        queued = two.queue ∙ rw (queue, left) refl;
      }

  Settles-cast :
      {P : Packet → Bool} {h h' : SentPacketHandler C} {a b : ℕ} (L : ℕ → Packet → Bool)
      → a ≡ b
      → Settles P (L a) h h'
      → Settles P (L b) h h'
  Settles-cast L e s = rw (← e) s

module _ {C : Type 0} (cc : Congestion C) where
  -- SentPacket keeps the invariant, whether the packet is refused, in flight or not, if the bytes in
  -- flight and the packet's length together stay below 2 ^ 64.
  pub sent_packet-IsValid :
      (h : SentPacketHandler C) (p : Packet) (now : ℕ)
      → IsValid h
      → h.bytes_in_flight + p.length < u64_mod
      → IsValid (sent_packet cc h p now).handler
  unfolding sent_packet report_sent update_loss_detection_alarm
  sent_packet-IsValid h p now v small =
      elim (Bool-cases (leb p.packet_number h.last_sent_packet_number)) [
        | inl e ↦ rw e v
        | inr e ↦
            rw e
              (elim (Bool-cases (
                ltb max_tracked_sent_packets
                  (length h.retransmission_queue + length h.packet_history + 1))) [
                    | inl e' ↦ rw e' v
                    | inr e' ↦ rw e' (tracked (ground arith))
                  ])
      ]
    where
      tracked :
          h.last_sent_packet_number < p.packet_number → IsValid (track (count_sent h p now) p now)
      tracked high = unfold count_sent in track-Holds (count_sent h p now) p now v refl high small

  fits :
      (P : Packet → Bool) (h : SentPacketHandler C)
      → IsValid h
      → (total (keep P h.packet_history) ≤ h.bytes_in_flight) × (h.bytes_in_flight < u64_mod)
  fits P h v =
      (omega (arith, total-keep P h.packet_history, v.counted), omega (arith, v.counted, v.small))

  -- The packets that are lost leave the history for the queue.
  pub detect_lost_packets-Removes :
      (h : SentPacketHandler C) (now : ℕ)
      → IsValid h
      → (delay : ℕ) × Removes
          (keep (is_lost h.largest_acked now delay) h.packet_history)
          (keep (is_lost h.largest_acked now delay) h.packet_history)
          h
          (detect_lost_packets cc h now)
  unfolding detect_lost_packets
  detect_lost_packets-Removes h now v =
      let delay = cc.reordered (max (cc.latest_rtt h.congestion) (cc.smoothed_rtt h.congestion)) in
      let P = is_lost h.largest_acked now delay in
      let lost = keep P h.packet_history in
      let scan = lost_loop h.largest_acked now delay 0 h.packet_history in
      let noted = record h { loss_time = scan.loss_time; losses = add64 h.losses (length lost) } in
      let r = queue_all-Removes cc noted lost (fits P h v).0 (fits P h v).1 in
      (
        delay,
        rw (lost_loop-keep h.largest_acked now delay 0 0 h.packet_history v.increasing) (record {
          history = r.history;
          queue = r.queue;
          bytes = r.bytes;
          last_sent = r.last_sent;
          largest = r.largest;
        }),
      )

  pub set_inflight_as_lost-Removes :
      (h : SentPacketHandler C)
      → IsValid h
      → Removes
          (keep (is_below h.largest_acked) h.packet_history)
          (keep (is_below h.largest_acked) h.packet_history)
          h
          (set_inflight_as_lost cc h)
  unfolding set_inflight_as_lost
  set_inflight_as_lost-Removes h v =
      let P = is_below h.largest_acked in
      let lost = keep P h.packet_history in
      let r =
        queue_all-Removes cc (record h { losses = add64 h.losses (length lost) }) lost
          (fits P h v).0 (fits P h v).1 in
      rw (inflight_loop-keep h.largest_acked 0 h.packet_history v.increasing) (record {
        history = r.history;
        queue = r.queue;
        bytes = r.bytes;
        last_sent = r.last_sent;
        largest = r.largest;
      })

  settle_acked-Settles :
      (h : SentPacketHandler C) (f : AckFrame) (now : ℕ) (P : Packet → Bool)
      → IsValid h
      → (delay : ℕ) × Settles P
          (is_lost h.largest_acked now delay)
          h
          (settle_acked cc h f now (keep P h.packet_history))
  unfolding settle_acked update_loss_detection_alarm garbage_collect_skipped_packets
  settle_acked-Settles h f now P v =
      let mid = ack_all cc h (keep P h.packet_history) in
      let one = ack_all-Removes cc h (keep P h.packet_history) (fits P h v).0 (fits P h v).1 in
      let (valid, left) = Removes-keep P v one in
      let (delay, two) = detect_lost_packets-Removes mid now valid in
      let s =
        Settles-cast (λ n. is_lost n now delay) one.largest
          (Removes-Settles P (is_lost mid.largest_acked now delay) h mid
            (detect_lost_packets cc mid now) v one two) in
      (delay, record { valid = s.valid; left = s.left; queued = s.queued })

  pub settle_close_path-Settles :
      (h : SentPacketHandler C) (P : Packet → Bool)
      → IsValid h
      → Settles P (is_below h.largest_acked) h (
          garbage_collect_skipped_packets
            (set_inflight_as_lost cc (ack_all cc h (keep P h.packet_history))))
  unfolding garbage_collect_skipped_packets
  settle_close_path-Settles h P v =
      let mid = ack_all cc h (keep P h.packet_history) in
      let one = ack_all-Removes cc h (keep P h.packet_history) (fits P h v).0 (fits P h v).1 in
      let (valid, left) = Removes-keep P v one in
      let s = Settles-cast is_below one.largest (
        Removes-Settles P (is_below mid.largest_acked) h mid (set_inflight_as_lost cc mid) v one
          (set_inflight_as_lost-Removes mid valid)) in
      record { valid = s.valid; left = s.left; queued = s.queued }

  -- ReceivedAck behind its tests, for a valid ACK frame: it returns no error.
  pub settle-Settles :
      (h : SentPacketHandler C) (f : AckFrame) (received : ℕ) (clock : Clock)
      → IsValid h
      → AreBelow (u64_mod - 1) f.ack_ranges
      → validate_ack_ranges f ≡ true
      → ((settle cc h f received clock).error ≡ none)
        × (delay : ℕ) × Settles
            (acks f)
            (is_lost h.largest_acked clock.at_loss delay)
            h
            (settle cc h f received clock).handler
  unfolding settle measure_rtt
  settle-Settles h f received clock v small valid =
      let measured = measure_rtt cc h f received clock.at_rtt in
      let (delay, s) = settle_acked-Settles measured f clock.at_loss (acks f) v in
      rw (settle, determine_newly_acked_packets_lem f 0 h.packet_history v.increasing small valid)
        (refl, delay, record { valid = s.valid; left = s.left; queued = s.queued })
