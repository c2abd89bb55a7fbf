-- ===== src/Ack/History.antt =====
-- mpquic_trans/ackhandler/received_packet_history.go: the packet numbers received, as closed ranges.
-- The linked list is a list from its back to its front, the order in which `Prev` walks it: the
-- highest range stands first.
pub mod Contents
pub mod Deletion
pub mod Refines
mod Tests
use agg_deliv.Wire.AckFrame.{AckRange}
use agg_deliv.Common.{
  ℕ, ◌-◌, ◌<◌, ◌≤◌, List, [], ◌∷◌, Bool, true, false, ◌&&◌, ◌||◌, ltb, leb, ◌==◌, if◌then◌else◌,
  length, map, add64, sub64, u64_mod,
}

-- utils.PacketInterval
pub record PacketInterval : Type 0 where
  pub start : ℕ
  pub end : ℕ

pub data HistoryError : Type 0 where
  too_many_outstanding_received_ack_ranges : HistoryError

pub record ReceivedPacketHistory : Type 0 where
  pub ranges : List PacketInterval
  pub lowest_in_received_packet_numbers : ℕ

-- protocol.MaxTrackedReceivedAckRanges
abbrev pub max_tracked_received_ack_ranges : ℕ
max_tracked_received_ack_ranges = 2500

abbrev pub new_received_packet_history : ReceivedPacketHistory
new_received_packet_history = record { ranges = []; lowest_in_received_packet_numbers = 0 }

-- After a range was extended: it and the one before it are merged if they touch.
unfoldable pub merge_with_prev : PacketInterval → List PacketInterval → List PacketInterval
merge_with_prev el [] = el ∷ []
merge_with_prev el (prev ∷ rest) =
    if add64 prev.end 1 == el.start then record prev { end = el.end } ∷ rest else el ∷ prev ∷ rest

-- The loop over the ranges; its end, and the empty list, insert a range of one packet number.
unfoldable pub received_loop : ℕ → List PacketInterval → List PacketInterval
received_loop p [] = record { start = p; end = p } ∷ []
received_loop p (el ∷ rest) =
    if leb el.start p && leb p el.end
    then el ∷ rest
    else if el.end == sub64 p 1
    then merge_with_prev (record el { end = p }) rest
    else if el.start == add64 p 1
    then merge_with_prev (record el { start = p }) rest
    else if ltb el.end p
    then record { start = p; end = p } ∷ el ∷ rest
    else el ∷ received_loop p rest

pub data Received : Type 0 where
  ok : ReceivedPacketHistory → Received
  err : HistoryError → Received

unfoldable pub received_packet : ReceivedPacketHistory → ℕ → Received
unfolding received_loop merge_with_prev
received_packet h p =
    if leb max_tracked_received_ack_ranges (length h.ranges)
    then err too_many_outstanding_received_ack_ranges
    else ok (record h { ranges = received_loop p h.ranges })

-- The loop of DeleteUpTo walks from the front, the far end of the list. The Boolean says that it goes
-- on; once it has returned, all further ranges stay.
pub record Trimmed : Type 0 where
  pub kept : List PacketInterval
  pub goes_on : Bool

unfoldable pub delete_loop : ℕ → List PacketInterval → Trimmed
delete_loop p [] = record { kept = []; goes_on = true }
delete_loop p (el ∷ rest) =
    let below = delete_loop p rest in
    if below.goes_on
    then (if leb el.start p && ltb p el.end
        then record { kept = record el { start = add64 p 1 } ∷ below.kept; goes_on = true }
        else if leb el.end p
        then below
        else record { kept = el ∷ below.kept; goes_on = false })
    else record { kept = el ∷ below.kept; goes_on = false }

unfoldable pub max_packet_number : ℕ → ℕ → ℕ
max_packet_number a b = if ltb a b then b else a

unfoldable pub delete_up_to : ReceivedPacketHistory → ℕ → ReceivedPacketHistory
unfolding delete_loop max_packet_number
delete_up_to h p = record {
  ranges = (delete_loop p h.ranges).kept;
  lowest_in_received_packet_numbers =
      max_packet_number h.lowest_in_received_packet_numbers (add64 p 1);
}

abbrev pub ack_range : PacketInterval → AckRange
ack_range el = record { first = el.start; last = el.end }

-- GetAckRanges lists the ranges from the back.
unfoldable pub get_ack_ranges : ReceivedPacketHistory → List AckRange
get_ack_ranges h = map ack_range h.ranges

unfoldable pub get_highest_ack_range : ReceivedPacketHistory → AckRange
get_highest_ack_range h = elim h.ranges [
  | [] ↦ record { first = 0; last = 0 }
  | el ∷ rest ↦ ack_range el
]

-- The packet numbers that the ranges hold.
abbrev pub contains : ℕ → List PacketInterval → Bool
contains n [] = false
contains n (el ∷ rest) = (leb el.start n && leb n el.end) || contains n rest

-- The ranges lie below `bound`, are not empty, and any two are at least one packet number apart.
abbrev pub IsSeparated : ℕ → List PacketInterval → Type 0
IsSeparated bound [] = Unit {0}
IsSeparated bound (el ∷ rest) =
    (el.start ≤ el.end) × (el.end < bound) × (0 < el.start) × IsSeparated (el.start - 1) rest

abbrev pub IsValid : ReceivedPacketHistory → Type 0
IsValid h = IsSeparated (u64_mod - 1) h.ranges
