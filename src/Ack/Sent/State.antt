-- ===== src/Ack/Sent/State.antt =====
-- The state of a sentPacketHandler, its interface to congestion control, and its alarm. Times and
-- durations are numbers of nanoseconds, 0 is the zero time; the clock does not run backwards, and each
-- reading of it is an argument.
use agg_deliv.Common.{
  ℕ, ◌+◌, ◌*◌, ◌/◌, ◌%◌, ◌^◌, Bool, true, false, not, ◌&&◌, List, [], ◌∷◌, ◌++◌, ltb, leb, ◌==◌,
  if◌then◌else◌, add64, sub64, u64_mod,
}
use agg_deliv.Ack.Packet.{Packet}
use agg_deliv.Ack.StopWaiting.{StopWaitingManager, queued_retransmission}

-- congestion.SendAlgorithm with the congestion.RTTStats that it shares with the handler: `C` is the state
-- of both. `reordered` is float64's 1.125 times a duration.
pub record Congestion (C : Type 0) : Type 0 where
  pub on_packet_sent : ℕ → ℕ → ℕ → ℕ → Bool → C → C
  pub maybe_exit_slow_start : C → C
  pub on_packet_acked : ℕ → ℕ → ℕ → C → C
  pub on_packet_lost : ℕ → ℕ → ℕ → C → C
  pub on_retransmission_timeout : Bool → C → C
  pub congestion_window : C → ℕ
  pub retransmission_delay : C → ℕ
  pub smoothed_rtt : C → ℕ
  pub latest_rtt : C → ℕ
  pub update_rtt : ℕ → ℕ → ℕ → C → C
  pub reordered : ℕ → ℕ

pub record SentPacketHandler (C : Type 0) : Type 0 where
  pub last_sent_packet_number : ℕ
  pub skipped_packets : List ℕ
  pub num_non_retransmittable_packets : ℕ
  pub largest_acked : ℕ
  pub largest_received_packet_with_ack : ℕ
  pub packet_history : List Packet
  pub stop_waiting_manager : StopWaitingManager
  pub retransmission_queue : List Packet
  pub bytes_in_flight : ℕ
  pub congestion : C
  pub rto_count : ℕ
  pub tlp_count : ℕ
  pub loss_time : ℕ
  pub last_sent_time : ℕ
  pub alarm : ℕ
  pub packets : ℕ
  pub retransmissions : ℕ
  pub losses : ℕ

abbrev pub default_rto_timeout : ℕ
default_rto_timeout = 500_000_000

abbrev pub min_rto_timeout : ℕ
min_rto_timeout = 200_000_000

abbrev pub max_rto_timeout : ℕ
max_rto_timeout = 60_000_000_000

abbrev pub max_tail_loss_probes : ℕ
max_tail_loss_probes = 2

abbrev pub min_retransmission_time : ℕ
min_retransmission_time = 200_000_000

abbrev pub min_tail_loss_probe_timeout : ℕ
min_tail_loss_probe_timeout = 10_000_000

abbrev pub max : ℕ → ℕ → ℕ
max a b = if ltb b a then a else b

-- An int64 is kept as its bit pattern.
abbrev pub is_negative : ℕ → Bool
is_negative d = leb (2 ^ 63) d

-- MinDuration and MaxDuration against a duration that is not negative.
abbrev pub min_duration : ℕ → ℕ → ℕ
min_duration d limit = if is_negative d then d else if ltb limit d then limit else d

abbrev pub max_duration : ℕ → ℕ → ℕ
max_duration d least = if is_negative d then least else max d least

unfoldable pub is_empty {ℓ} : {A : Type ℓ} → List A → Bool
is_empty [] = true
is_empty (x ∷ xs) = false

module _ {C : Type 0} (cc : Congestion C) where
  -- The back-off is a shift of an int64, which can lose its high bits and its sign.
  unfoldable pub compute_rto_timeout : SentPacketHandler C → ℕ
  compute_rto_timeout h =
      let delay = cc.retransmission_delay h.congestion in
      let rto = max (if delay == 0 then default_rto_timeout else delay) min_rto_timeout in
      min_duration (rto * 2 ^ h.rto_count % u64_mod) max_rto_timeout

  unfoldable pub has_multiple_outstanding : SentPacketHandler C → Bool
  has_multiple_outstanding h = elim h.packet_history [ [] ↦ false | p ∷ rest ↦ not (is_empty rest) ]

  unfoldable pub compute_tlp_timeout : SentPacketHandler C → ℕ
  unfolding has_multiple_outstanding is_empty
  compute_tlp_timeout h =
      let rtt = cc.smoothed_rtt h.congestion in
      if has_multiple_outstanding h
      then max (2 * rtt) (rtt * 3 / 2 + min_retransmission_time / 2)
      else max (2 * rtt) min_tail_loss_probe_timeout

  -- The alarm for packets in flight.
  unfoldable pub next_alarm : SentPacketHandler C → ℕ
  unfolding compute_rto_timeout compute_tlp_timeout
  next_alarm h =
      if not (h.loss_time == 0)
      then h.loss_time
      else if not (cc.smoothed_rtt h.congestion == 0) && ltb h.tlp_count max_tail_loss_probes
      then h.last_sent_time + compute_tlp_timeout h
      else h.last_sent_time + max_duration (compute_rto_timeout h) min_retransmission_time

  unfoldable pub update_loss_detection_alarm : SentPacketHandler C → SentPacketHandler C
  unfolding next_alarm is_empty
  update_loss_detection_alarm h = record h {
    alarm = if is_empty h.packet_history then 0 else next_alarm h;
  }

-- packetHistory.Remove of an element: the packet numbers of a history are distinct, so that the number
-- stands for the element.
unfoldable pub remove : ℕ → List Packet → List Packet
remove n [] = []
remove n (p ∷ ps) = if p.packet_number == n then ps else p ∷ remove n ps

module _ {C : Type 0} where
  unfoldable pub queue_packet_for_retransmission :
      SentPacketHandler C → Packet → SentPacketHandler C
  unfolding remove queued_retransmission
  queue_packet_for_retransmission h p = record h {
    bytes_in_flight = sub64 h.bytes_in_flight p.length;
    retransmission_queue = h.retransmission_queue ++ p ∷ [];
    packet_history = remove p.packet_number h.packet_history;
    stop_waiting_manager = queued_retransmission h.stop_waiting_manager p.packet_number;
  }

  unfoldable pub on_packet_acked : SentPacketHandler C → Packet → SentPacketHandler C
  unfolding remove
  on_packet_acked h p = record h {
    bytes_in_flight = sub64 h.bytes_in_flight p.length;
    rto_count = 0;
    tlp_count = 0;
    packet_history = remove p.packet_number h.packet_history;
  }

module _ {C : Type 0} (cc : Congestion C) where
  -- A lost packet is queued, and congestion control is told.
  unfoldable pub queue_lost : SentPacketHandler C → Packet → SentPacketHandler C
  unfolding queue_packet_for_retransmission
  queue_lost h p =
      let queued = queue_packet_for_retransmission h p in
      record queued {
        congestion =
            cc.on_packet_lost p.packet_number p.length queued.bytes_in_flight queued.congestion;
      }

  unfoldable pub queue_rto : SentPacketHandler C → Packet → SentPacketHandler C
  unfolding queue_packet_for_retransmission
  queue_rto h p =
      let queued = queue_packet_for_retransmission h p in
      record queued {
        losses = add64 queued.losses 1;
        congestion =
            cc.on_packet_lost p.packet_number p.length queued.bytes_in_flight queued.congestion;
      }
