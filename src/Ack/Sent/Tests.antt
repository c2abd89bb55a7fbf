-- ===== src/Ack/Sent/Tests.antt =====
-- A sentPacketHandler on concrete packets. Congestion control is a round trip time of 100 ms, or none, and
-- keeps no other state.
use agg_deliv.Common.{
  ℕ, ◌+◌, ◌-◌, ◌*◌, ◌/◌, ◌^◌, ◌≤◌, ◌<◌, ◌≡◌, true, false, List, [], ◌∷◌, ◌++◌, none, some, refl,
  arith, ◌⊎◌, ltb, if◌then◌else◌, u64_mod,
}
use agg_deliv.Wire.AckFrame.{AckFrame, validate_ack_ranges, all_nonempty, consistent_after}
use agg_deliv.Ack.Receiver.{ClosePathFrame}
use agg_deliv.Ack.Packet.{Packet, ping, encryption_secure, strip_non_retransmittable_frames}
use agg_deliv.Ack.Sent.State.{
  Congestion, SentPacketHandler, compute_rto_timeout, update_loss_detection_alarm, is_empty,
  min_retransmission_time, min_rto_timeout, max_rto_timeout,
}
use agg_deliv.Ack.Sent.Detection.{
  determine_newly_acked_packets, skipped_packets_acked_close_path, found,
}
use agg_deliv.Ack.Sent.Handler.{Clock, new_sent_packet_handler}
use agg_deliv.Ack.Sent.Calls.{sent_packet, received_ack, received_close_path}
use agg_deliv.Ack.Sent.Timeout.{on_alarm, retransmit_all_packets}
use agg_deliv.Ack.Sent.Packets.{keep}
use agg_deliv.Ack.Sent.Ranges.{AreBelow}
use agg_deliv.Ack.Sent.Acked.{acks, close_path_acks, determine_newly_acked_packets_lem}
use agg_deliv.Ack.Sent.Removal.{is_below}
use agg_deliv.Ack.Sent.Validity.{IsValid}
use agg_deliv.Ack.Sent.Validity.Operations.{sent_packet-IsValid, Settles}
use agg_deliv.Ack.Sent.Validity.Received.{
  IsUntouched, IsAccepted, IsRefused, Accepts, received_ack_cases, received_close_path-Settles,
}
use agg_deliv.Ack.Sent.Validity.Alarms.{retransmit_all_packets_lem, on_alarm-IsValid}
use agg_deliv.Ack.Sent.Validity.Reachable.{
  IsReachable, begins, sends, acknowledges, IsReachable-IsValid,
}
use agg_deliv.Ack.Sent.Backoff.{
  first_timeout, compute_rto_timeout_bounds, update_loss_detection_alarm-shrinks,
}

abbrev steady : Congestion ℕ
steady = record {
  on_packet_sent = λ now bytes n length retransmittable c. c;
  maybe_exit_slow_start = λ c. c;
  on_packet_acked = λ n length bytes c. c;
  on_packet_lost = λ n length bytes c. c;
  on_retransmission_timeout = λ retransmitted c. c;
  congestion_window = λ c. 40000;
  retransmission_delay = λ c. 2 * c;
  smoothed_rtt = λ c. c;
  latest_rtt = λ c. c;
  update_rtt = λ sample delay now c. sample;
  reordered = λ d. d * 9 / 8;
}

abbrev a_packet : ℕ → Packet
a_packet n = record {
  packet_number = n;
  frames = ping (record {}) ∷ [];
  length = 1000 + n;
  encryption_level = encryption_secure;
  send_time = 0;
}

abbrev after : ℕ → List ℕ → SentPacketHandler ℕ
after rtt [] = new_sent_packet_handler rtt
after rtt (n ∷ ns) = (sent_packet steady (after rtt ns) (a_packet n) (n * 1_000_000)).handler

-- Packet 3 is skipped.
abbrev sent : SentPacketHandler ℕ
sent = after 100_000_000 (6 ∷ 5 ∷ 4 ∷ 2 ∷ 1 ∷ [])

-- 5 and 2 are missing in it, 4 and 6 are acknowledged.
abbrev frame : AckFrame
frame = record {
  path_id = 0;
  largest_acked = 6;
  lowest_acked = 4;
  ack_ranges = (record { first = 6; last = 6 }) ∷ (record { first = 4; last = 4 }) ∷ [];
  packet_received_time = 0;
  delay_time = 0;
}

abbrev at : Clock
at = record { at_rtt = 300_000_000; at_loss = 333_000_000 }

sent-IsReachable : IsReachable steady 100_000_000 sent
unfolding new_sent_packet_handler sent_packet strip_non_retransmittable_frames
sent-IsReachable = sends (a_packet 6) 6_000_000 (omega arith) (
    sends (a_packet 5) 5_000_000 (omega arith) (
      sends (a_packet 4) 4_000_000 (omega arith) (
        sends (a_packet 2) 2_000_000 (omega arith)
          (sends (a_packet 1) 1_000_000 (omega arith) begins))))

IsReachable-IsValid_example : IsValid sent
IsReachable-IsValid_example = IsReachable-IsValid steady sent sent-IsReachable

sent-IsValid : IsValid sent
sent-IsValid = IsReachable-IsValid steady sent sent-IsReachable

frame-AreBelow : AreBelow (u64_mod - 1) frame.ack_ranges
unfolding AreBelow
frame-AreBelow = (omega arith, (omega arith, omega arith))

frame-validate : validate_ack_ranges frame ≡ true
unfolding validate_ack_ranges all_nonempty consistent_after
frame-validate = refl

abbrev numbers : List Packet → List ℕ
numbers [] = []
numbers (p ∷ ps) = p.packet_number ∷ numbers ps

abbrev acked : SentPacketHandler ℕ
acked = (received_ack steady sent frame 9 300_000_000 at).handler

-- 1 and 2 are older than 9 / 8 of the round trip time, which is 294 ms now.
acked_history : numbers acked.packet_history ≡ 5 ∷ []
unfolding received_ack sent_packet new_sent_packet_handler strip_non_retransmittable_frames
acked_history = refl

acked_queue : numbers acked.retransmission_queue ≡ 1 ∷ 2 ∷ []
unfolding received_ack sent_packet new_sent_packet_handler strip_non_retransmittable_frames
acked_queue = refl

acked_bytes : acked.bytes_in_flight ≡ 1005
unfolding received_ack sent_packet new_sent_packet_handler strip_non_retransmittable_frames
acked_bytes = refl

received_ack_cases_example :
    (IsRefused sent frame 9 × IsUntouched sent acked)
    ⊎ (IsAccepted sent frame 9
        × Accepts steady sent frame 333_000_000 (received_ack steady sent frame 9 300_000_000 at))
received_ack_cases_example =
    received_ack_cases steady sent frame 9 300_000_000 at sent-IsValid frame-AreBelow frame-validate

determine_newly_acked_packets_lem_example :
    determine_newly_acked_packets sent.packet_history frame
    ≡ found (keep (acks frame) sent.packet_history)
determine_newly_acked_packets_lem_example =
    determine_newly_acked_packets_lem frame 0 sent.packet_history sent-IsValid.increasing
      frame-AreBelow frame-validate

bytes_fit : sent.bytes_in_flight + 1008 < u64_mod
unfolding sent_packet new_sent_packet_handler strip_non_retransmittable_frames
bytes_fit = omega arith

sent_packet-IsValid_run : IsValid (sent_packet steady sent (a_packet 8) 7_000_000).handler
sent_packet-IsValid_run =
    sent_packet-IsValid steady sent (a_packet 8) 7_000_000 sent-IsValid bytes_fit

-- The path closes on 1 and 2 acknowledged.
abbrev closing : ClosePathFrame
closing = record { path_id = 0; largest_acked = 2; lowest_acked = 1; ack_ranges = [] }

closing-AreBelow : AreBelow (u64_mod - 1) closing.ack_ranges
unfolding AreBelow
closing-AreBelow = omega arith

acked-IsValid : IsValid acked
acked-IsValid =
    IsReachable-IsValid steady acked
      (acknowledges frame 9 300_000_000 at frame-AreBelow frame-validate sent-IsReachable)

closing_passes :
    (closing.largest_acked ≤ acked.last_sent_packet_number)
    × (acked.largest_received_packet_with_ack < 10)
    × (skipped_packets_acked_close_path acked.skipped_packets closing ≡ false)
unfolding received_ack sent_packet new_sent_packet_handler strip_non_retransmittable_frames
    skipped_packets_acked_close_path
closing_passes = (omega arith, omega arith, refl)

received_close_path-Settles_example :
    ((received_close_path steady acked closing 10).error ≡ none)
    × Settles
        (close_path_acks closing)
        (is_below acked.largest_acked)
        acked
        (received_close_path steady acked closing 10).handler
received_close_path-Settles_example =
    received_close_path-Settles steady acked closing 10 acked-IsValid closing-AreBelow refl
      closing_passes.0 closing_passes.1 closing_passes.2

on_alarm-IsValid_run : IsValid (on_alarm steady (some (λ t. true)) sent 900_000_000)
on_alarm-IsValid_run = on_alarm-IsValid steady (some (λ t. true)) sent 900_000_000 sent-IsValid

retransmit_all_packets_lem_example :
    ((retransmit_all_packets steady sent).packet_history ≡ [])
    × ((retransmit_all_packets steady sent).bytes_in_flight ≡ 0)
    × ((retransmit_all_packets steady sent).retransmission_queue
        ≡ sent.retransmission_queue ++ sent.packet_history)
    × IsValid (retransmit_all_packets steady sent)
retransmit_all_packets_lem_example = retransmit_all_packets_lem steady sent sent-IsValid

abbrev late : ℕ → SentPacketHandler ℕ
late count = record (new_sent_packet_handler 100_000_000) { rto_count = count }

late_fits : first_timeout steady (late 3) * 2 ^ (3 + 1) < 2 ^ 63
unfolding new_sent_packet_handler
late_fits = omega arith

compute_rto_timeout_bounds_example :
    (min_rto_timeout ≤ compute_rto_timeout steady (late 3))
    × (compute_rto_timeout steady (late 3) ≤ max_rto_timeout)
    × (compute_rto_timeout steady (late 4) ≡ (
        if ltb max_rto_timeout (2 * compute_rto_timeout steady (late 3))
        then max_rto_timeout
        else 2 * compute_rto_timeout steady (late 3)))
compute_rto_timeout_bounds_example = compute_rto_timeout_bounds steady (late 3) late_fits

-- Sixty timeouts after a packet of time 1000.
abbrev unmeasured : SentPacketHandler ℕ
unmeasured = record (new_sent_packet_handler 0) {
  packet_history = a_packet 7 ∷ [];
  last_sent_time = 1000;
  rto_count = 60;
}

update_loss_detection_alarm-shrinks_example :
    (update_loss_detection_alarm steady unmeasured).alarm ≡ 1000 + min_retransmission_time
unfolding new_sent_packet_handler is_empty
update_loss_detection_alarm-shrinks_example =
    update_loss_detection_alarm-shrinks steady unmeasured refl refl refl refl (omega arith)
