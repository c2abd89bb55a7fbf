-- ===== src/Ack/Receiver/Validity.antt =====
-- The received packet handler stays well formed.
use agg_deliv.Common.{
  ℕ, add64, ◌-◌, ◌<◌, ◌≡◌, inl, inr, List, [], ◌∷◌, Bool, none, ltb, if◌then◌else◌, arith, u64_mod,
}
use agg_deliv.Ack.History
use agg_deliv.Ack.History.{
  PacketInterval, merge_with_prev, received_loop, delete_loop, IsSeparated, delete_up_to,
}
use agg_deliv.Ack.History.Contents.{received_loop-IsSeparated}
use agg_deliv.Ack.History.Refines.{received_packet_cases}
use agg_deliv.Ack.History.Deletion.{delete_loop-IsSeparated}
use agg_deliv.Ack.Receiver.{
  ReceivedPacketHandler, HighestIs, IsValid, observe, maybe_queue_ack, register, received_packet,
  set_lower_limit,
}

merge_with_prev-HighestIs :
    (m : ℕ) (el : PacketInterval) (rest : List PacketInterval)
    → el.end ≡ m
    → HighestIs m (merge_with_prev el rest)
unfolding merge_with_prev
merge_with_prev-HighestIs m el [] e = e
merge_with_prev-HighestIs m el (prev ∷ rest) e = ground arith

pub received_loop-HighestIs :
    (m bound p : ℕ) (rs : List PacketInterval)
    → 0 < p
    → p < bound
    → bound < u64_mod
    → IsSeparated bound rs
    → HighestIs m rs
    → HighestIs (if ltb m p then p else m) (received_loop p rs)
unfolding received_loop
received_loop-HighestIs m bound p [] pos below small v e = ground arith
received_loop-HighestIs m bound p (el ∷ rest) pos below small v e = ground (
  arith,
  merge_with_prev-HighestIs p (record el { end = p }) rest,
  merge_with_prev-HighestIs m (record el { start = p }) rest,
)

pub delete_loop-HighestIs :
    (m p : ℕ) (rs : List PacketInterval)
    → p < m
    → HighestIs m rs
    → HighestIs m (delete_loop p rs).kept
unfolding delete_loop
delete_loop-HighestIs m p [] below e = e
delete_loop-HighestIs m p (el ∷ rest) below e = ground arith

-- SetLowerLimit keeps a handler well formed where the limit is below the largest observed packet
-- number, as it is for a STOP_WAITING frame that arrives in a later packet.
pub set_lower_limit-IsValid :
    (h : ReceivedPacketHandler) (p : ℕ)
    → IsValid h
    → p < h.largest_observed
    → IsValid (set_lower_limit h p)
unfolding set_lower_limit
set_lower_limit-IsValid h p v below = record {
  history = delete_loop-IsSeparated (u64_mod - 1) p h.packet_history.ranges (omega arith) v.history;
  highest = delete_loop-HighestIs h.largest_observed p h.packet_history.ranges below v.highest;
  limit = omega arith;
  due = v.due;
}

-- What maybe_queue_ack leaves alone.
module _ (h : ReceivedPacketHandler) (now p : ℕ) (instigate : Bool) where
  maybe_queue_ack-history : (maybe_queue_ack h now p instigate).packet_history ≡ h.packet_history
  unfolding maybe_queue_ack
  maybe_queue_ack-history = ground arith

  maybe_queue_ack-largest :
      (maybe_queue_ack h now p instigate).largest_observed ≡ h.largest_observed
  unfolding maybe_queue_ack
  maybe_queue_ack-largest = ground arith

  maybe_queue_ack-limit : (maybe_queue_ack h now p instigate).lower_limit ≡ h.lower_limit
  unfolding maybe_queue_ack
  maybe_queue_ack-limit = ground arith

register-IsValid :
    (h : ReceivedPacketHandler) (now p m : ℕ) (instigate : Bool)
    → History.IsValid h.packet_history
    → HighestIs m h.packet_history.ranges
    → h.largest_observed ≡ (if ltb m p then p else m)
    → h.lower_limit < p
    → p < u64_mod - 1
    → (register h now p instigate).error ≡ none
    → IsValid (register h now p instigate).handler
unfolding register
register-IsValid h now p m instigate v high large limit small fine =
    elim (received_packet_cases h.packet_history p) [
      | inr (full, e) ↦ absurd (refused e)
      | inl (room, e) ↦
          rw (e, register)
            (record {
              history = rw maybe_queue_ack-history (
                  received_loop-IsSeparated (u64_mod - 1) p rs (omega arith) small (omega arith) v);
              highest =
                  rw (maybe_queue_ack-history, maybe_queue_ack-largest, large)
                    (received_loop-HighestIs m (u64_mod - 1) p rs (omega arith) small (omega arith)
                      v high);
              limit = rw (maybe_queue_ack-limit, maybe_queue_ack-largest) (ground arith);
              due = λ d. rw maybe_queue_ack-largest (ground arith);
            })
    ]
  where
    rs : List PacketInterval
    rs = h.packet_history.ranges

    refused :
        History.received_packet h.packet_history p
          ≡ History.err History.too_many_outstanding_received_ack_ranges
        → ⊥
    refused e = ground arith

-- ReceivedPacket, when it returns no error, keeps a handler well formed, for a packet number below
-- 2 ^ 64 - 1.
pub received_packet-IsValid :
    (h : ReceivedPacketHandler) (now later p : ℕ) (instigate : Bool)
    → IsValid h
    → p < u64_mod - 1
    → (received_packet h now later p instigate).error ≡ none
    → IsValid (received_packet h now later p instigate).handler
unfolding received_packet
received_packet-IsValid h now later p instigate v small fine = ground (
  arith,
  register-IsValid (observe (record h { packets = add64 h.packets 1 }) now p) later p
      h.largest_observed instigate,
)
