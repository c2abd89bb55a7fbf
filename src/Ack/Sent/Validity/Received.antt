-- ===== src/Ack/Sent/Validity/Received.antt =====
-- ReceivedAck and ReceivedClosePath on every branch.
use agg_deliv.Common.{
  ℕ, ◌-◌, ◌≤◌, ◌<◌, ◌≡◌, true, false, none, ltb, leb, refl, arith, ◌⊎◌, Bool-cases, inl, inr,
  u64_mod,
}
use agg_deliv.Wire.AckFrame.{AckFrame, validate_ack_ranges, check_ranges}
use agg_deliv.Ack.Receiver.{ClosePathFrame}
use agg_deliv.Ack.Sent.State.{Congestion, SentPacketHandler}
use agg_deliv.Ack.Sent.Detection.{skipped_packets_acked, skipped_packets_acked_close_path}
use agg_deliv.Ack.Sent.Handler.{Outcome, Clock, largest_in_order_acked}
use agg_deliv.Ack.Sent.Calls.{settle, received_ack, fresh_ack, received_close_path}
use agg_deliv.Ack.Sent.Ranges.{AreBelow}
use agg_deliv.Ack.Sent.Acked.{acks, close_path_acks, determine_newly_acked_packets_close_path_lem}
use agg_deliv.Ack.Sent.Removal.{is_lost, is_below}
use agg_deliv.Ack.Sent.Validity.{IsValid}
use agg_deliv.Ack.Sent.Validity.Operations.{Settles, settle-Settles, settle_close_path-Settles}

module _ {C : Type 0} where
  -- The packets, in flight and queued, are as they were.
  abbrev pub IsUntouched : SentPacketHandler C → SentPacketHandler C → Type 0
  IsUntouched h h' =
      (h'.packet_history ≡ h.packet_history)
      × (h'.retransmission_queue ≡ h.retransmission_queue)
      × (h'.bytes_in_flight ≡ h.bytes_in_flight)
      × (h'.last_sent_packet_number ≡ h.last_sent_packet_number)

  -- An ACK frame that arrives in packet `n` changes the packets: it is about packets that were sent, newer
  -- than the ACK frames before, acknowledges something new, and no packet that was skipped.
  abbrev pub IsAccepted : SentPacketHandler C → AckFrame → ℕ → Type 0
  IsAccepted h f n =
      (f.largest_acked ≤ h.last_sent_packet_number)
      × (h.largest_received_packet_with_ack < n)
      × (largest_in_order_acked h < f.largest_acked)
      × (skipped_packets_acked h.skipped_packets f ≡ false)

  abbrev pub IsRefused : SentPacketHandler C → AckFrame → ℕ → Type 0
  IsRefused h f n =
      (h.last_sent_packet_number < f.largest_acked)
      ⊎ ((n ≤ h.largest_received_packet_with_ack)
          ⊎ ((f.largest_acked ≤ largest_in_order_acked h)
              ⊎ (skipped_packets_acked h.skipped_packets f ≡ true)))

module _ {C : Type 0} (cc : Congestion C) where
  -- The outcome `o` of an ACK frame.
  pub record Accepts (h : SentPacketHandler C) (f : AckFrame) (now : ℕ) (o : Outcome C)
      : Type 0 where
    pub succeeds : o.error ≡ none
    pub delay : ℕ
    pub settles : Settles (acks f) (is_lost f.largest_acked now delay) h o.handler

  fresh_ack_cases :
      (h : SentPacketHandler C) (f : AckFrame) (received : ℕ) (clock : Clock)
      → IsValid h
      → AreBelow (u64_mod - 1) f.ack_ranges
      → validate_ack_ranges f ≡ true
      → (((f.largest_acked ≤ largest_in_order_acked h)
            ⊎ (skipped_packets_acked h.skipped_packets f ≡ true))
          × IsUntouched h (fresh_ack cc h f received clock).handler)
        ⊎ ((largest_in_order_acked h < f.largest_acked)
            × (skipped_packets_acked h.skipped_packets f ≡ false)
            × Accepts h f clock.at_loss (fresh_ack cc h f received clock))
  unfolding fresh_ack
  fresh_ack_cases h f received clock v small valid =
      elim (Bool-cases (leb f.largest_acked (largest_in_order_acked h))) [
        | inl e ↦ rw e (inl (inl (ground arith), (refl, refl, refl, refl)))
        | inr e ↦ rw e (elim (Bool-cases (skipped_packets_acked h.skipped_packets f)) [
          | inl e' ↦ rw e' (inl (inr refl, (refl, refl, refl, refl)))
          | inr e' ↦ rw e' (inr (ground arith, refl, settled))
        ])
      ]
    where
      raised : SentPacketHandler C
      raised = record h { largest_acked = f.largest_acked }

      settled : Accepts h f clock.at_loss (settle cc raised f received clock)
      settled =
          let (none_wrong, delay, s) = settle-Settles cc raised f received clock v small valid in
          record {
            succeeds = none_wrong;
            delay = delay;
            settles = record { valid = s.valid; left = s.left; queued = s.queued };
          }

  -- For a handler that keeps its invariant and an ACK frame whose ranges pass their check and end below
  -- 2 ^ 64 - 1: a frame that is about unsent packets, arrives out of order, acknowledges nothing new or
  -- acknowledges a skipped packet leaves the packets as they were. Any other returns no error; then the
  -- packets that it acknowledges leave the history, those of the others up to its largest number that are
  -- older than some delay leave it for the retransmission queue, in order, the rest stays, and the
  -- invariant holds.
  pub received_ack_cases :
      (h : SentPacketHandler C) (f : AckFrame) (n received : ℕ) (clock : Clock)
      → IsValid h
      → AreBelow (u64_mod - 1) f.ack_ranges
      → validate_ack_ranges f ≡ true
      → (IsRefused h f n × IsUntouched h (received_ack cc h f n received clock).handler)
        ⊎ (IsAccepted h f n × Accepts h f clock.at_loss (received_ack cc h f n received clock))
  unfolding received_ack
  received_ack_cases h f n received clock v small valid =
      elim (Bool-cases (ltb h.last_sent_packet_number f.largest_acked)) [
        | inl e ↦ rw e (inl (inl (ground arith), (refl, refl, refl, refl)))
        | inr e ↦ rw e (elim (Bool-cases (leb n h.largest_received_packet_with_ack)) [
          | inl e' ↦ rw e' (inl (inr (inl (ground arith)), (refl, refl, refl, refl)))
          | inr e' ↦ rw e' (elim (fresh_ack_cases noted f received clock v small valid) [
            | inl (inl old, same) ↦ inl (inr (inr (inl old)), same)
            | inl (inr skipped, same) ↦ inl (inr (inr (inr skipped)), same)
            | inr (new, unskipped, a) ↦ inr (
              (ground arith, ground arith, new, unskipped),
              record {
                succeeds = a.succeeds;
                delay = a.delay;
                settles = record {
                  valid = a.settles.valid;
                  left = a.settles.left;
                  queued = a.settles.queued;
                };
              },
            )
          ])
        ])
      ]
    where
      noted : SentPacketHandler C
      noted = record h { largest_received_packet_with_ack = n }

  -- ReceivedClosePath for a handler that keeps its invariant and a CLOSE_PATH frame of sent packets whose
  -- ranges pass the same check, newer than the frames before and with no skipped packet: it returns no
  -- error, the packets that it acknowledges leave the history, all others up to the largest number that
  -- the handler has seen acknowledged are queued again, in order, and the invariant holds.
  pub received_close_path-Settles :
      (h : SentPacketHandler C) (f : ClosePathFrame) (n : ℕ)
      → IsValid h
      → AreBelow (u64_mod - 1) f.ack_ranges
      → check_ranges f.largest_acked f.ack_ranges ≡ true
      → f.largest_acked ≤ h.last_sent_packet_number
      → h.largest_received_packet_with_ack < n
      → skipped_packets_acked_close_path h.skipped_packets f ≡ false
      → ((received_close_path cc h f n).error ≡ none)
        × Settles
            (close_path_acks f)
            (is_below h.largest_acked)
            h
            (received_close_path cc h f n).handler
  unfolding received_close_path
  received_close_path-Settles h f n v small valid sent newer unskipped =
      let sent' : ltb h.last_sent_packet_number f.largest_acked ≡ false = ground arith in
      let newer' : leb n h.largest_received_packet_with_ack ≡ false = ground arith in
      let noted = record h { largest_received_packet_with_ack = n } in
      let s = settle_close_path-Settles cc noted (close_path_acks f) v in
      let all =
        determine_newly_acked_packets_close_path_lem f 0 h.packet_history v.increasing small
          valid in
      rw (sent', newer', unskipped, all)
        (refl, record { valid = s.valid; left = s.left; queued = s.queued })
