-- ===== src/Ack/Sent/Acked.antt =====
-- The packets that the loop over the history finds acknowledged are those that the frame acknowledges.
use mathlib.Core.List.{reverse}
use agg_deliv.Common.{
  ℕ, ◌+◌, ◌-◌, ◌≤◌, ◌<◌, ◌≡◌, Bool, true, false, ◌&&◌, ◌||◌, List, [], ◌∷◌, ltb, leb, if◌then◌else◌,
  refl, arith, ap, ◌∙◌, u64_mod,
}
use agg_deliv.Wire.AckFrame.{
  AckRange, AckFrame, in_some_range, validate_ack_ranges, check_ranges, acks_packet,
  has_missing_ranges,
}
use agg_deliv.Ack.Packet.{Packet}
use agg_deliv.Ack.Receiver.{ClosePathFrame}
use agg_deliv.Ack.Sent.State.{is_empty}
use agg_deliv.Ack.Sent.Detection.{
  advance, acked_loop, Found, found, wrong_packet, with_packet, determine_newly_acked_packets,
  close_path_acks_packet, determine_newly_acked_packets_close_path,
}
use agg_deliv.Ack.Sent.Packets.{IsIncreasing, keep}
use agg_deliv.Ack.Sent.Ranges.{
  IsAscending, EndsAt, Reaches, AreBelow, in_some_range_below, in_some_range-advance,
  advance-IsAscending, advance-EndsAt, advance-Reaches, is_empty-advance, in_some_range-reverse,
  is_empty-reverse, validate-IsAscending, ordered,
}

-- Two tests that agree above a bound keep the same packets there.
pub keep_cong :
    (P Q : Packet → Bool) (bound : ℕ) (ps : List Packet)
    → IsIncreasing bound ps
    → ((p : Packet) → bound < p.packet_number → P p ≡ Q p)
    → keep P ps ≡ keep Q ps
unfolding keep IsIncreasing
keep_cong P Q bound [] v same = refl
keep_cong P Q bound (p ∷ ps) v same =
    let rest = keep_cong P Q p.packet_number ps v.1 (λ q h. same q (omega arith)) in
    rw (same p v.0, rest) refl

pub keep_none :
    (P : Packet → Bool) (bound : ℕ) (ps : List Packet)
    → IsIncreasing bound ps
    → ((p : Packet) → bound < p.packet_number → P p ≡ false)
    → keep P ps ≡ []
unfolding keep IsIncreasing
keep_none P bound [] v never = refl
keep_none P bound (p ∷ ps) v never =
    let rest = keep_none P p.packet_number ps v.1 (λ q h. never q (omega arith)) in
    rw (never p v.0, rest) refl

-- The test of AcksPacket, from the parts of a frame.
abbrev pub is_acked : ℕ → ℕ → List AckRange → Packet → Bool
is_acked lowest largest ranges p =
    leb lowest p.packet_number
    && (leb p.packet_number largest && (is_empty ranges || in_some_range p.packet_number ranges))

abbrev choose : ℕ → ℕ → List AckRange → Packet → Found → Found → Found
choose lowest largest from_here p skip later =
    if ltb p.packet_number lowest
    then skip
    else if ltb largest p.packet_number
    then found []
    else elim from_here [
      | [] ↦ with_packet p skip
      | r ∷ rs ↦
          if leb r.first p.packet_number
          then (if ltb r.last p.packet_number then wrong_packet else with_packet p later)
          else later
    ]

-- One round, with what the rounds behind it find.
acked_step :
    (lowest largest : ℕ) (ranges from_here : List AckRange) (p : Packet) (kept : List Packet)
    → is_empty from_here ≡ is_empty ranges
    → in_some_range p.packet_number from_here ≡ in_some_range p.packet_number ranges
    → IsAscending 0 from_here
    → (p.packet_number ≤ largest → Reaches p.packet_number from_here)
    → (largest < p.packet_number → kept ≡ [])
    → choose lowest largest from_here p (found kept) (found kept)
      ≡ found (if is_acked lowest largest ranges p then p ∷ kept else kept)
unfolding IsAscending Reaches in_some_range is_empty
acked_step lowest largest ranges [] p kept e same up reaches past = ground (arith, past)
acked_step lowest largest ranges (r ∷ rs) p kept e same up reaches past =
    ground (arith, past, reaches, in_some_range_below p.packet_number (r.last + 1) rs)

acked_loop_lem :
    (lowest largest bound : ℕ) (ranges : List AckRange) (ps : List Packet)
    → IsIncreasing bound ps
    → IsAscending 0 ranges
    → EndsAt largest ranges
    → acked_loop lowest largest ranges ps ≡ found (keep (is_acked lowest largest ranges) ps)
unfolding acked_loop keep IsIncreasing
acked_loop_lem lowest largest bound ranges [] v up ends = refl
acked_loop_lem lowest largest bound ranges (p ∷ ps) v up ends =
    let n = p.packet_number in
    let rest = advance n ranges in
    let later_same =
      keep_cong (is_acked lowest largest rest) (is_acked lowest largest ranges) n ps v.1 (λ q h.
        ground
          (arith, is_empty-advance n ranges, in_some_range-advance q.packet_number n ranges)) in
    let kept = keep (is_acked lowest largest ranges) ps in
    let skip = acked_loop_lem lowest largest n ranges ps v.1 up ends in
    let later =
      acked_loop_lem lowest largest n rest ps v.1 (advance-IsAscending 0 n ranges up)
        (advance-EndsAt largest n ranges ends) in
    ap (λ (t : Found). choose lowest largest rest p t (acked_loop lowest largest rest ps)) skip
    ∙ ap (λ (t : Found). choose lowest largest rest p (found kept) t) (later ∙ ap found later_same)
    ∙ acked_step lowest largest ranges rest p kept (is_empty-advance n ranges)
        (in_some_range-advance n n ranges (omega arith)) (advance-IsAscending 0 n ranges up)
        (λ h. advance-Reaches largest n ranges h ends)
        (λ h. keep_none (is_acked lowest largest ranges) n ps v.1 (λ q above. ground arith))

module _ (lowest largest : ℕ) (ranges : List AckRange) (p : Packet) where
  is_acked-reverse : is_acked lowest largest (reverse ranges) p ≡ is_acked lowest largest ranges p
  is_acked-reverse = rw (is_empty-reverse ranges, in_some_range-reverse p.packet_number ranges) refl

abbrev pub acks : AckFrame → Packet → Bool
acks f p = acks_packet f p.packet_number

abbrev pub close_path_acks : ClosePathFrame → Packet → Bool
close_path_acks f p = close_path_acks_packet f p.packet_number

is_acked-acks :
    (f : AckFrame) (p : Packet) → is_acked f.lowest_acked f.largest_acked f.ack_ranges p ≡ acks f p
unfolding acks_packet has_missing_ranges is_empty
is_acked-acks f p = by_ranges f.ack_ranges
  where
    by_ranges :
        (rs : List AckRange)
        → is_acked f.lowest_acked f.largest_acked rs p ≡ acks (record f { ack_ranges = rs }) p
    by_ranges [] = ground arith
    by_ranges (r ∷ rs) = ground arith

is_acked-close_path_acks :
    (f : ClosePathFrame) (p : Packet)
    → is_acked f.lowest_acked f.largest_acked f.ack_ranges p ≡ close_path_acks f p
unfolding close_path_acks_packet
is_acked-close_path_acks f p = ground arith

-- On a history of increasing packet numbers, an ACK frame whose ranges pass its check and end below
-- 2 ^ 64 - 1 acknowledges, by the loop that walks the history and the ranges side by side, exactly the
-- packets of the history for which AcksPacket says so, in order; the error for a wrong packet is not met.
pub determine_newly_acked_packets_lem :
    (f : AckFrame) (bound : ℕ) (history : List Packet)
    → IsIncreasing bound history
    → AreBelow (u64_mod - 1) f.ack_ranges
    → validate_ack_ranges f ≡ true
    → determine_newly_acked_packets history f ≡ found (keep (acks f) history)
unfolding determine_newly_acked_packets
determine_newly_acked_packets_lem f bound history v small valid =
    let (up, ends) = validate-IsAscending f small valid in
    acked_loop_lem f.lowest_acked f.largest_acked bound (reverse f.ack_ranges) history v up ends
    ∙ ap found (
        keep_cong (is_acked f.lowest_acked f.largest_acked (reverse f.ack_ranges)) (acks f) bound
          history v
          (λ p h.
            is_acked-reverse f.lowest_acked f.largest_acked f.ack_ranges p ∙ is_acked-acks f p))

-- The same for a CLOSE_PATH frame.
pub determine_newly_acked_packets_close_path_lem :
    (f : ClosePathFrame) (bound : ℕ) (history : List Packet)
    → IsIncreasing bound history
    → AreBelow (u64_mod - 1) f.ack_ranges
    → check_ranges f.largest_acked f.ack_ranges ≡ true
    → determine_newly_acked_packets_close_path history f ≡ found (keep (close_path_acks f) history)
unfolding determine_newly_acked_packets_close_path
determine_newly_acked_packets_close_path_lem f bound history v small valid =
    let (up, ends) = ordered f.largest_acked f.ack_ranges small valid in
    acked_loop_lem f.lowest_acked f.largest_acked bound (reverse f.ack_ranges) history v up ends
    ∙ ap found (
        keep_cong (is_acked f.lowest_acked f.largest_acked (reverse f.ack_ranges))
          (close_path_acks f) bound history v
          (λ p h.
            is_acked-reverse f.lowest_acked f.largest_acked f.ack_ranges p
            ∙ is_acked-close_path_acks f p))
