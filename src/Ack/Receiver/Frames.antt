-- ===== src/Ack/Receiver/Frames.antt =====
-- The ACK and CLOSE_PATH frames that a handler builds report exactly its history.
use agg_deliv.Common.{
  ℕ, ◌-◌, ◌<◌, ◌≤◌, ◌≡◌, ◌≢◌, refl, ◌⊎◌, List, [], ◌∷◌, some, true, map, arith, u64_mod, last?,
}
use agg_deliv.Wire.AckFrame.{
  AckRange, AckFrame, all_nonempty, consistent_after, validate_ack_ranges, in_some_range,
  acks_packet,
}
use agg_deliv.Ack.History.{PacketInterval, IsSeparated, contains, ack_range}
use agg_deliv.Ack.Receiver.{
  ReceivedPacketHandler, HighestIs, IsValid, frame, ack_sent, build_ack, get_ack_frame,
}

in_some_range-contains :
    (n : ℕ) (rs : List PacketInterval) → in_some_range n (map ack_range rs) ≡ contains n rs
unfolding in_some_range
in_some_range-contains n [] = refl
in_some_range-contains n (el ∷ rest) = ground (arith, in_some_range-contains n rest)

all_nonempty-ranges :
    (bound : ℕ) (rs : List PacketInterval)
    → IsSeparated bound rs
    → all_nonempty (map ack_range rs) ≡ true
unfolding all_nonempty
all_nonempty-ranges bound [] v = refl
all_nonempty-ranges bound (el ∷ rest) v = ground (arith, all_nonempty-ranges (el.start - 1) rest)

consistent_after-ranges :
    (el : PacketInterval) (rest : List PacketInterval)
    → el.start < u64_mod
    → IsSeparated (el.start - 1) rest
    → consistent_after (ack_range el) (map ack_range rest) ≡ true
unfolding consistent_after
consistent_after-ranges el [] small v = refl
consistent_after-ranges el (next ∷ rest) small v = ground (arith, consistent_after-ranges next rest)

-- The lowest range bounds all that the ranges hold.
lowest_range :
    (bound : ℕ) (el : PacketInterval) (rest : List PacketInterval)
    → IsSeparated bound (el ∷ rest)
    → (r : AckRange) × (last? (map ack_range (el ∷ rest)) ≡ some r)
      × (r.first ≤ el.start)
      × ((n : ℕ) → contains n (el ∷ rest) ≡ true → (r.first ≤ n) × (n ≤ el.end))
lowest_range bound el [] v = (ack_range el, refl, omega arith, λ n h. ground arith)
lowest_range bound el (next ∷ rest) v =
    let (r, e, low, bounds) = lowest_range (el.start - 1) next rest v.3 in
    (r, e, omega arith, λ n h. ground (arith, bounds n))

-- An ACK is queued, or its alarm has run out.
abbrev pub IsDue : ReceivedPacketHandler → ℕ → Type 0
IsDue h now = (h.ack_queued ≡ true) ⊎ ((h.ack_alarm ≢ 0) × (h.ack_alarm ≤ now))

built :
    (h : ReceivedPacketHandler) (low : AckRange) (el : PacketInterval) (rest : List PacketInterval)
    → IsSeparated (u64_mod - 1) (el ∷ rest)
    → el.end ≡ h.largest_observed
    → last? (map ack_range (el ∷ rest)) ≡ some low
    → ((n : ℕ) → contains n (el ∷ rest) ≡ true → (low.first ≤ n) × (n ≤ el.end))
    → (validate_ack_ranges (build_ack h low (map ack_range (el ∷ rest))) ≡ true)
      × ((n : ℕ)
          → acks_packet (build_ack h low (map ack_range (el ∷ rest))) n ≡ contains n (el ∷ rest))
unfolding validate_ack_ranges acks_packet
built h low el [] v high e bounds = (ground arith, λ n. ground (arith, bounds n))
built h low el (next ∷ rest) v high e bounds = (
  ground (
    arith,
    all_nonempty-ranges (u64_mod - 1) (el ∷ next ∷ rest),
    consistent_after-ranges el (next ∷ rest),
  ),
  λ n. ground (arith, in_some_range-contains n (el ∷ next ∷ rest), bounds n),
)

ack_sent-IsValid :
    (h : ReceivedPacketHandler) (ack : AckFrame) → IsValid h → IsValid (ack_sent h ack)
unfolding ack_sent
ack_sent-IsValid h ack v = record {
  history = v.history;
  highest = v.highest;
  limit = v.limit;
  due = λ d. ground arith;
}

lowest_of :
    (h : ReceivedPacketHandler) (rs : List PacketInterval)
    → IsSeparated (u64_mod - 1) rs
    → HighestIs h.largest_observed rs
    → 0 < h.largest_observed
    → (low : AckRange) × (last? (map ack_range rs) ≡ some low)
      × (validate_ack_ranges (build_ack h low (map ack_range rs)) ≡ true)
      × ((n : ℕ) → acks_packet (build_ack h low (map ack_range rs)) n ≡ contains n rs)
lowest_of h [] v high pos = absurd (omega arith)
lowest_of h (el ∷ rest) v high pos =
    let (low, e, under, bounds) = lowest_range (u64_mod - 1) el rest v in
    let (valid, acks) = built h low el rest v high e bounds in (low, e, valid, acks)

-- GetAckFrame on a well-formed handler, if an ACK is due, does not panic: it returns a frame that passes
-- the validation of ACK ranges and acknowledges exactly the packet numbers in the history, and the
-- handler with that ACK sent, which is well formed.
pub get_ack_frame-reports :
    (h : ReceivedPacketHandler) (now : ℕ)
    → IsValid h
    → IsDue h now
    → (ack : AckFrame) × (get_ack_frame h now ≡ frame ack (ack_sent h ack))
      × (validate_ack_ranges ack ≡ true)
      × ((n : ℕ) → acks_packet ack n ≡ contains n h.packet_history.ranges)
      × IsValid (ack_sent h ack)
unfolding get_ack_frame
get_ack_frame-reports h now v due =
    let pos : 0 < h.largest_observed = ground (arith, v.due) in
    let (low, e, valid, acks) = lowest_of h h.packet_history.ranges v.history v.highest pos in
    let ack = build_ack h low (map ack_range h.packet_history.ranges) in
    (ack, ground (arith, e), valid, acks, ack_sent-IsValid h ack v)
