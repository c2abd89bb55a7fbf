-- ===== src/Ack/Sent/Validity/Reachable.antt =====
-- All handlers that the calls of a sentPacketHandler lead to.
use agg_deliv.Common.{
  ℕ, ◌+◌, ◌-◌, ◌<◌, ◌≡◌, Bool, true, List, [], ◌∷◌, Option, none, some, ltb, leb, refl, arith, ap,
  sym, Bool-cases, inl, inr, u64_mod,
}
use agg_deliv.Wire.AckFrame.{AckFrame, validate_ack_ranges, check_ranges}
use agg_deliv.Ack.Receiver.{ClosePathFrame}
use agg_deliv.Ack.Packet.{Packet}
use agg_deliv.Ack.Sent.State.{Congestion, SentPacketHandler}
use agg_deliv.Ack.Sent.Detection.{skipped_packets_acked_close_path}
use agg_deliv.Ack.Sent.Handler.{
  Clock, new_sent_packet_handler, dequeue, dequeue_packet_for_retransmission, duplicate_packet,
  get_stop_waiting_frame,
}
use agg_deliv.Ack.Sent.Calls.{sent_packet, received_ack, received_close_path, set_inflight_as_lost}
use agg_deliv.Ack.Sent.Timeout.{on_alarm}
use agg_deliv.Ack.Sent.Packets.{total, IsIncreasing, AreUpTo}
use agg_deliv.Ack.Sent.Ranges.{AreBelow}
use agg_deliv.Ack.Sent.Validity.{Holds, IsValid, Removes-keep}
use agg_deliv.Ack.Sent.Removal.{is_below}
use agg_deliv.Ack.Sent.Validity.Operations.{sent_packet-IsValid, set_inflight_as_lost-Removes}
use agg_deliv.Ack.Sent.Validity.Received.{received_ack_cases, received_close_path-Settles}
use agg_deliv.Ack.Sent.Validity.Alarms.{on_alarm-IsValid}

Holds-cast :
    {a a' b b' : ℕ} {ps ps' : List Packet}
    → a' ≡ a
    → b' ≡ b
    → ps' ≡ ps
    → Holds a b ps
    → Holds a' b' ps'
Holds-cast e1 e2 e3 v = rw (e1, e2, e3) v

dequeue-IsValid :
    {C : Type 0} {h' : SentPacketHandler C} (queue : List Packet) (h : SentPacketHandler C)
    (p : Packet)
    → dequeue queue h ≡ some (p, h')
    → IsValid h
    → IsValid h'
unfolding dequeue
dequeue-IsValid [] h p e v = cc
dequeue-IsValid {C} (q ∷ rest) h p e v =
    let left : Option (Packet × SentPacketHandler C) → SentPacketHandler C =
      λ o. elim o [ none ↦ h | some (first, next) ↦ next ] in
    let same = sym (ap left e) in
    Holds-cast (ap (λ (g : SentPacketHandler C). g.last_sent_packet_number) same)
      (ap (λ (g : SentPacketHandler C). g.bytes_in_flight) same)
      (ap (λ (g : SentPacketHandler C). g.packet_history) same) v

module _ {C : Type 0} (cc : Congestion C) where
  -- From NewSentPacketHandler with `start` for its congestion control, call by call. The packets' lengths
  -- do not add up to 2 ^ 64, and the ACK and CLOSE_PATH frames have ranges that pass their check and end
  -- below 2 ^ 64 - 1.
  pub data IsReachable (start : C) : SentPacketHandler C → Type 0 where
    begins : IsReachable start (new_sent_packet_handler start)
    sends :
        {h : SentPacketHandler C} (p : Packet) (now : ℕ)
        → h.bytes_in_flight + p.length < u64_mod
        → IsReachable start h
        → IsReachable start (sent_packet cc h p now).handler
    acknowledges :
        {h : SentPacketHandler C} (f : AckFrame) (n received : ℕ) (clock : Clock)
        → AreBelow (u64_mod - 1) f.ack_ranges
        → validate_ack_ranges f ≡ true
        → IsReachable start h
        → IsReachable start (received_ack cc h f n received clock).handler
    closes :
        {h : SentPacketHandler C} (f : ClosePathFrame) (n : ℕ)
        → AreBelow (u64_mod - 1) f.ack_ranges
        → check_ranges f.largest_acked f.ack_ranges ≡ true
        → IsReachable start h
        → IsReachable start (received_close_path cc h f n).handler
    loses :
        {h : SentPacketHandler C}
        → IsReachable start h
        → IsReachable start (set_inflight_as_lost cc h)
    fires :
        {h : SentPacketHandler C} (callback : Option (ℕ → Bool)) (now : ℕ)
        → IsReachable start h
        → IsReachable start (on_alarm cc callback h now)
    dequeues :
        {h h' : SentPacketHandler C} (p : Packet)
        → dequeue_packet_for_retransmission h ≡ some (p, h')
        → IsReachable start h
        → IsReachable start h'
    duplicates :
        {h : SentPacketHandler C} (p : Packet)
        → IsReachable start h
        → IsReachable start (duplicate_packet h p)
    stops :
        {h : SentPacketHandler C} (force : Bool)
        → IsReachable start h
        → IsReachable start (get_stop_waiting_frame h force).1

  received_ack-IsValid :
      (h : SentPacketHandler C) (f : AckFrame) (n received : ℕ) (clock : Clock)
      → IsValid h
      → AreBelow (u64_mod - 1) f.ack_ranges
      → validate_ack_ranges f ≡ true
      → IsValid (received_ack cc h f n received clock).handler
  received_ack-IsValid h f n received clock v small valid =
      elim (received_ack_cases cc h f n received clock v small valid) [
        | inl (refused, same) ↦ Holds-cast same.3 same.2 same.0 v
        | inr (accepted, a) ↦ a.settles.valid
      ]

  received_close_path-IsValid :
      (h : SentPacketHandler C) (f : ClosePathFrame) (n : ℕ)
      → IsValid h
      → AreBelow (u64_mod - 1) f.ack_ranges
      → check_ranges f.largest_acked f.ack_ranges ≡ true
      → IsValid (received_close_path cc h f n).handler
  unfolding received_close_path
  received_close_path-IsValid h f n v small valid =
      elim (Bool-cases (ltb h.last_sent_packet_number f.largest_acked)) [
        | inl e ↦ rw e v
        | inr e ↦ elim (Bool-cases (leb n h.largest_received_packet_with_ack)) [
          | inl e' ↦ rw (e, e') v
          | inr e' ↦ elim (Bool-cases (skipped_packets_acked_close_path h.skipped_packets f)) [
            | inl e'' ↦
                rw (e, e', e'')
                  (record {
                    increasing = v.increasing;
                    sent = v.sent;
                    counted = v.counted;
                    small = v.small;
                  })
            | inr e'' ↦
                (received_close_path-Settles cc h f n v small valid (ground arith) (ground arith)
                  e'').1.valid
          ]
        ]
      ]

  -- Every handler that calls lead to keeps the invariant: its history has increasing packet numbers, none
  -- above the last one sent, and the bytes in flight are the sum of the lengths in the history.
  pub IsReachable-IsValid : {start : C} (h : SentPacketHandler C) → IsReachable start h → IsValid h
  unfolding new_sent_packet_handler duplicate_packet get_stop_waiting_frame
      dequeue_packet_for_retransmission IsIncreasing AreUpTo total
  IsReachable-IsValid _ begins = record {
    increasing = omega arith;
    sent = omega arith;
    counted = refl;
    small = omega arith;
  }
  IsReachable-IsValid _ (sends {h} p now fits r) =
      sent_packet-IsValid cc h p now (IsReachable-IsValid h r) fits
  IsReachable-IsValid _ (acknowledges {h} f n received clock small valid r) =
      received_ack-IsValid h f n received clock (IsReachable-IsValid h r) small valid
  IsReachable-IsValid _ (closes {h} f n small valid r) =
      received_close_path-IsValid h f n (IsReachable-IsValid h r) small valid
  IsReachable-IsValid _ (loses {h} r) =
      let v = IsReachable-IsValid h r in
      (Removes-keep (is_below h.largest_acked) v (set_inflight_as_lost-Removes cc h v)).0
  IsReachable-IsValid _ (fires {h} callback now r) =
      on_alarm-IsValid cc callback h now (IsReachable-IsValid h r)
  IsReachable-IsValid _ (dequeues {h} p e r) =
      dequeue-IsValid h.retransmission_queue h p e (IsReachable-IsValid h r)
  IsReachable-IsValid _ (duplicates {h} p r) =
      let v = IsReachable-IsValid h r in
      record { increasing = v.increasing; sent = v.sent; counted = v.counted; small = v.small }
  IsReachable-IsValid _ (stops {h} force r) =
      let v = IsReachable-IsValid h r in
      record { increasing = v.increasing; sent = v.sent; counted = v.counted; small = v.small }
