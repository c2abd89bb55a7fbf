-- ===== src/Ack/Sent/Detection.antt =====
-- Which packets of the history an ACK or a CLOSE_PATH frame acknowledges, and which are lost.
use mathlib.Core.List.{reverse}
use agg_deliv.Common.{
  ℕ, ◌+◌, ◌-◌, Bool, true, false, not, ◌&&◌, ◌||◌, List, [], ◌∷◌, Option, none, some, ltb, leb,
  ◌==◌, if◌then◌else◌,
}
use agg_deliv.Wire.AckFrame.{AckRange, AckFrame, acks_packet, in_some_range}
use agg_deliv.Ack.Receiver.{ClosePathFrame}
use agg_deliv.Ack.Packet.{Packet}
use agg_deliv.Ack.Sent.State.{is_empty}

-- The inner loop: move on from the ranges, lowest first, that end below the packet, but for the last.
unfoldable pub advance : ℕ → List AckRange → List AckRange
advance p [] = []
advance p (r ∷ []) = r ∷ []
advance p (r ∷ s ∷ rs) = let rest = advance p (s ∷ rs) in if ltb r.last p then rest else r ∷ s ∷ rs

pub data Found : Type 0 where
  found : List Packet → Found
  wrong_packet : Found

abbrev pub with_packet : Packet → Found → Found
with_packet p (found ps) = found (p ∷ ps)
with_packet p wrong_packet = wrong_packet

-- The loop over the history, with the ranges from the index on; no ranges at all is a frame without
-- missing ranges.
unfoldable pub acked_loop : ℕ → ℕ → List AckRange → List Packet → Found
unfolding advance
acked_loop lowest largest ranges [] = found []
acked_loop lowest largest ranges (p ∷ ps) =
    let skip = acked_loop lowest largest ranges ps in
    let from_here = advance p.packet_number ranges in
    let later = acked_loop lowest largest from_here ps in
    if ltb p.packet_number lowest
    then skip
    else if ltb largest p.packet_number
    then found []
    else elim from_here [
      | [] ↦ with_packet p skip
      | r ∷ rs ↦
          if leb r.first p.packet_number
          then (if ltb r.last p.packet_number then wrong_packet else with_packet p later)
          else later
    ]

unfoldable pub determine_newly_acked_packets : List Packet → AckFrame → Found
unfolding acked_loop
determine_newly_acked_packets history f =
    acked_loop f.lowest_acked f.largest_acked (reverse f.ack_ranges) history

unfoldable pub determine_newly_acked_packets_close_path : List Packet → ClosePathFrame → Found
unfolding acked_loop
determine_newly_acked_packets_close_path history f =
    acked_loop f.lowest_acked f.largest_acked (reverse f.ack_ranges) history

-- ClosePathFrame.AcksPacket
unfoldable pub close_path_acks_packet : ClosePathFrame → ℕ → Bool
unfolding in_some_range is_empty
close_path_acks_packet f p =
    if ltb p f.lowest_acked || ltb f.largest_acked p
    then false
    else if not (is_empty f.ack_ranges)
    then in_some_range p f.ack_ranges
    else leb f.lowest_acked p && leb p f.largest_acked

unfoldable pub skipped_packets_acked : List ℕ → AckFrame → Bool
unfolding acks_packet
skipped_packets_acked [] f = false
skipped_packets_acked (p ∷ ps) f = if acks_packet f p then true else skipped_packets_acked ps f

unfoldable pub skipped_packets_acked_close_path : List ℕ → ClosePathFrame → Bool
unfolding close_path_acks_packet
skipped_packets_acked_close_path [] f = false
skipped_packets_acked_close_path (p ∷ ps) f =
    if close_path_acks_packet f p then true else skipped_packets_acked_close_path ps f

-- The packet that maybeUpdateRTT measures.
unfoldable pub find_largest : ℕ → List Packet → Option Packet
find_largest largest [] = none
find_largest largest (p ∷ ps) =
    if p.packet_number == largest
    then some p
    else if ltb largest p.packet_number
    then none
    else find_largest largest ps

-- Was the packet sent longer ago than the delay?
unfoldable pub is_late : ℕ → ℕ → Packet → Bool
is_late now delay p = ltb delay (now - p.send_time)

pub record Scan : Type 0 where
  pub lost : List Packet
  pub loss_time : ℕ

-- The loop of detectLostPackets, with the loss time so far.
unfoldable pub lost_loop : ℕ → ℕ → ℕ → ℕ → List Packet → Scan
unfolding is_late
lost_loop largest now delay loss_time [] = record { lost = []; loss_time = loss_time }
lost_loop largest now delay loss_time (p ∷ ps) =
    let late = is_late now delay p in
    let rest =
      lost_loop largest now delay
        (if late
          then loss_time
          else if loss_time == 0
          then now + (delay - (now - p.send_time))
          else loss_time)
        ps in
    if ltb largest p.packet_number
    then record { lost = []; loss_time = loss_time }
    else if late
    then record rest { lost = p ∷ rest.lost }
    else rest

-- The loop of SetInflightAsLost.
unfoldable pub inflight_loop : ℕ → List Packet → List Packet
inflight_loop largest [] = []
inflight_loop largest (p ∷ ps) =
    if ltb largest p.packet_number then [] else p ∷ inflight_loop largest ps
