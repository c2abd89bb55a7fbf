-- ===== src/Ack/Receiver.antt =====
-- mpquic_trans/ackhandler/received_packet_handler.go: which packets of a path arrived, and when an ACK
-- is due. Times are numbers and 0 is Go's zero time; each reading of the clock is an argument.
-- The counters of packets since the last ACK are reset by every ACK, so they do not wrap.
pub mod Validity
pub mod Frames
mod Tests
use agg_deliv.Common.{
  ℕ, ◌+◌, ◌-◌, ◌≤◌, ◌<◌, ◌≡◌, ◌≢◌, ◌⊎◌, Bool, true, false, not, ◌&&◌, ◌||◌, List, [], ◌∷◌, Option,
  none, some, ltb, leb, ◌==◌, if◌then◌else◌, add64, last?,
}
use agg_deliv.Protocol.Version.{VersionNumber, version39, version_lt}
use agg_deliv.Wire.AckFrame.{AckRange, AckFrame}
use agg_deliv.Ack.History
use agg_deliv.Ack.History.{
  ReceivedPacketHistory, HistoryError, new_received_packet_history, delete_up_to, get_ack_ranges,
  get_highest_ack_range,
}

pub record ReceivedPacketHandler : Type 0 where
  pub largest_observed : ℕ
  pub lower_limit : ℕ
  pub largest_observed_received_time : ℕ
  pub packet_history : ReceivedPacketHistory
  pub ack_send_delay : ℕ
  pub packets_received_since_last_ack : ℕ
  pub retransmittable_packets_received_since_last_ack : ℕ
  pub ack_queued : Bool
  pub ack_alarm : ℕ
  pub last_ack : Option AckFrame
  pub version : VersionNumber
  pub packets : ℕ

-- protocol.AckSendDelay, in nanoseconds, and two bounds of protocol/server_parameters.go
abbrev pub ack_send_delay_default : ℕ
ack_send_delay_default = 25_000_000

abbrev pub max_packets_received_before_ack_send : ℕ
max_packets_received_before_ack_send = 20

abbrev pub retransmittable_packets_before_ack : ℕ
retransmittable_packets_before_ack = 2

unfoldable pub new_received_packet_handler : VersionNumber → ReceivedPacketHandler
new_received_packet_handler version = record {
  largest_observed = 0;
  lower_limit = 0;
  largest_observed_received_time = 0;
  packet_history = new_received_packet_history;
  ack_send_delay = ack_send_delay_default;
  packets_received_since_last_ack = 0;
  retransmittable_packets_received_since_last_ack = 0;
  ack_queued = false;
  ack_alarm = 0;
  last_ack = none;
  version = version;
  packets = 0;
}

-- Do the tests before the alarm queue an ACK for this packet?
unfoldable pub queues_ack : ReceivedPacketHandler → ℕ → Bool
queues_ack h p = elim h.last_ack [
  | none ↦ true
  | some ack ↦
      (version_lt h.version version39
        && leb max_packets_received_before_ack_send h.packets_received_since_last_ack)
      || (ltb p ack.largest_acked
          || ltb ack.largest_acked (get_highest_ack_range h.packet_history).first)
]

unfoldable pub count_packet : ReceivedPacketHandler → Bool → ReceivedPacketHandler
count_packet h should_instigate_ack = record h {
  packets_received_since_last_ack = h.packets_received_since_last_ack + 1;
  retransmittable_packets_received_since_last_ack =
      if should_instigate_ack
      then h.retransmittable_packets_received_since_last_ack + 1
      else h.retransmittable_packets_received_since_last_ack;
}

-- The last tests: enough retransmittable packets, or an alarm.
unfoldable pub queue_or_set_alarm : ReceivedPacketHandler → ℕ → Bool → ReceivedPacketHandler
queue_or_set_alarm h now should_instigate_ack =
    if not h.ack_queued && should_instigate_ack
    then (if leb retransmittable_packets_before_ack
          h.retransmittable_packets_received_since_last_ack
        then record h { ack_queued = true }
        else if h.ack_alarm == 0
        then record h { ack_alarm = now + h.ack_send_delay }
        else h)
    else h

unfoldable pub maybe_queue_ack : ReceivedPacketHandler → ℕ → ℕ → Bool → ReceivedPacketHandler
unfolding count_packet queues_ack queue_or_set_alarm get_highest_ack_range
maybe_queue_ack h now p should_instigate_ack =
    let counted = count_packet h should_instigate_ack in
    let tested = record counted { ack_queued = counted.ack_queued || queues_ack counted p } in
    let last = queue_or_set_alarm tested now should_instigate_ack in
    if last.ack_queued then record last { ack_alarm = 0 } else last

pub data HandlerError : Type 0 where
  invalid_packet_number : HandlerError
  history_error : HistoryError → HandlerError

-- The handler after a call, and the error that the call returns, `none` for nil.
pub record Outcome : Type 0 where
  pub handler : ReceivedPacketHandler
  pub error : Option HandlerError

unfoldable pub observe : ReceivedPacketHandler → ℕ → ℕ → ReceivedPacketHandler
observe h now p =
    if ltb h.largest_observed p
    then record h { largest_observed = p; largest_observed_received_time = now }
    else h

-- The rest of ReceivedPacket, for a packet number above the lower limit.
unfoldable pub register : ReceivedPacketHandler → ℕ → ℕ → Bool → Outcome
register h now p should_instigate_ack = elim (History.received_packet h.packet_history p) [
  | History.err e ↦ record { handler = h; error = some (history_error e) }
  | History.ok history ↦ record {
    handler = maybe_queue_ack (record h { packet_history = history }) now p should_instigate_ack;
    error = none;
  }
]

unfoldable pub received_packet : ReceivedPacketHandler → ℕ → ℕ → ℕ → Bool → Outcome
unfolding observe
received_packet h now later p should_instigate_ack =
    if p == 0
    then record { handler = h; error = some invalid_packet_number }
    else let seen = observe (record h { packets = add64 h.packets 1 }) now p in
      if leb p h.lower_limit
      then record { handler = seen; error = none }
      else register seen later p should_instigate_ack

unfoldable pub set_lower_limit : ReceivedPacketHandler → ℕ → ReceivedPacketHandler
unfolding delete_up_to
set_lower_limit h p = record h { lower_limit = p; packet_history = delete_up_to h.packet_history p }

-- What GetAckFrame does: returns nil, returns a frame, or panics on an index out of range.
pub data AckResult : Type 0 where
  no_frame : AckResult
  frame : AckFrame → ReceivedPacketHandler → AckResult
  panic : AckResult

-- `ack.AckRanges` is only set where there is more than one range.
abbrev pub ranges_if_missing : List AckRange → List AckRange
ranges_if_missing [] = []
ranges_if_missing (r ∷ []) = []
ranges_if_missing (r ∷ s ∷ rs) = r ∷ s ∷ rs

unfoldable pub ack_sent : ReceivedPacketHandler → AckFrame → ReceivedPacketHandler
ack_sent h ack = record h {
  last_ack = some ack;
  ack_alarm = 0;
  ack_queued = false;
  packets_received_since_last_ack = 0;
  retransmittable_packets_received_since_last_ack = 0;
}

abbrev pub build_ack : ReceivedPacketHandler → AckRange → List AckRange → AckFrame
build_ack h lowest ranges = record {
  path_id = 0;
  largest_acked = h.largest_observed;
  lowest_acked = lowest.first;
  ack_ranges = ranges_if_missing ranges;
  packet_received_time = h.largest_observed_received_time;
  delay_time = 0;
}

-- `now` is the reading of the clock in the test of the alarm.
unfoldable pub get_ack_frame : ReceivedPacketHandler → ℕ → AckResult
unfolding ack_sent get_ack_ranges
get_ack_frame h now =
    if not h.ack_queued && (h.ack_alarm == 0 || ltb now h.ack_alarm)
    then no_frame
    else let ranges = get_ack_ranges h.packet_history in
      elim (last? ranges) [
        | none ↦ panic
        | some lowest ↦ let ack = build_ack h lowest ranges in frame ack (ack_sent h ack)
      ]

-- wire.ClosePathFrame, of mpquic_trans/internal/wire/close_path_frame.go
pub record ClosePathFrame : Type 0 where
  pub path_id : ℕ
  pub largest_acked : ℕ
  pub lowest_acked : ℕ
  pub ack_ranges : List AckRange

-- `none` is the panic on an index out of range.
unfoldable pub get_close_path_frame : ReceivedPacketHandler → Option ClosePathFrame
unfolding get_ack_ranges
get_close_path_frame h =
    let ranges = get_ack_ranges h.packet_history in
    elim (last? ranges) [
      | none ↦ none
      | some lowest ↦ some (record {
        path_id = 0;
        largest_acked = h.largest_observed;
        lowest_acked = lowest.first;
        ack_ranges = ranges_if_missing ranges;
      })
    ]

unfoldable pub get_alarm_timeout : ReceivedPacketHandler → ℕ
get_alarm_timeout h = h.ack_alarm

unfoldable pub get_statistics : ReceivedPacketHandler → ℕ
get_statistics h = h.packets

-- The highest range ends at `n`; with no range `n` is 0.
abbrev pub HighestIs : ℕ → List History.PacketInterval → Type 0
HighestIs n [] = n ≡ 0
HighestIs n (el ∷ rest) = el.end ≡ n

-- The history is well formed, its highest packet number is the largest observed one, the lower limit
-- lies below that, and an ACK is due only if there is something to acknowledge.
pub record IsValid (h : ReceivedPacketHandler) : Type 0 where
  pub history : History.IsValid h.packet_history
  pub highest : HighestIs h.largest_observed h.packet_history.ranges
  pub limit : h.lower_limit ≤ h.largest_observed - 1
  pub due : (h.ack_queued ≡ true) ⊎ (h.ack_alarm ≢ 0) → 0 < h.largest_observed
