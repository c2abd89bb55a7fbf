-- ===== src/Ack/Receiver/Tests.antt =====
-- Runs of the received packet handler, and its theorems at concrete inputs.
use agg_deliv.Common.{ℕ, ◌≡◌, refl, [], ◌∷◌, true, false, none, inl, arith}
use agg_deliv.Protocol.Version.{version39, version_mp}
use agg_deliv.Wire.AckFrame.{AckFrame, validate_ack_ranges, acks_packet}
use agg_deliv.Ack.History.{ReceivedPacketHistory, contains}
use agg_deliv.Ack.Receiver.{
  ReceivedPacketHandler, IsValid, frame, new_received_packet_handler, received_packet,
  set_lower_limit, get_ack_frame, ack_sent, maybe_queue_ack, register,
}
use agg_deliv.Ack.Receiver.Validity.{received_packet-IsValid, set_lower_limit-IsValid}
use agg_deliv.Ack.Receiver.Frames.{get_ack_frame-reports}
use agg_deliv.Ack.History

-- Packets 3 to 5 and 9 have arrived, and an ACK is queued.
abbrev sample : ReceivedPacketHandler
sample = record {
  largest_observed = 9;
  lower_limit = 2;
  largest_observed_received_time = 70;
  packet_history = record {
    ranges = record { start = 9; end = 9 } ∷ record { start = 3; end = 5 } ∷ [];
    lowest_in_received_packet_numbers = 3;
  };
  ack_send_delay = 25_000_000;
  packets_received_since_last_ack = 4;
  retransmittable_packets_received_since_last_ack = 1;
  ack_queued = true;
  ack_alarm = 0;
  last_ack = none;
  version = version_mp;
  packets = 4;
}

sample-IsValid : IsValid sample
sample-IsValid = record {
  history = omega arith;
  highest = refl;
  limit = omega arith;
  due = λ d. omega arith;
}

first_packet_acked :
    (received_packet (new_received_packet_handler version39) 5 6 1 false).handler.ack_queued ≡ true
unfolding new_received_packet_handler received_packet register maybe_queue_ack
    History.received_packet
first_packet_acked = refl

received_packet-IsValid_example : IsValid (received_packet sample 80 81 7 true).handler
unfolding received_packet register History.received_packet
received_packet-IsValid_example =
    received_packet-IsValid sample 80 81 7 true sample-IsValid (omega arith) refl

set_lower_limit-IsValid_run : IsValid (set_lower_limit sample 4)
set_lower_limit-IsValid_run = set_lower_limit-IsValid sample 4 sample-IsValid (omega arith)

get_ack_frame-reports_example :
    (ack : AckFrame) × (get_ack_frame sample 90 ≡ frame ack (ack_sent sample ack))
    × (validate_ack_ranges ack ≡ true)
    × ((n : ℕ) → acks_packet ack n ≡ contains n sample.packet_history.ranges)
    × IsValid (ack_sent sample ack)
get_ack_frame-reports_example = get_ack_frame-reports sample 90 sample-IsValid (inl refl)
