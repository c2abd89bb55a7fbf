-- ===== src/Wire/AckFrame.antt =====
-- mpquic_trans/internal/wire/ack_frame.go and ack_range.go: an ACK frame in memory, the check of its
-- ranges and the test whether it acknowledges a packet. Its parser and writer are not modelled.
use agg_deliv.Common.{
  ℕ, List, [], ◌∷◌, Bool, true, false, not, ◌&&◌, ◌||◌, ltb, leb, ◌==◌, if◌then◌else◌, add64,
}

pub record AckRange : Type 0 where
  pub first : ℕ
  pub last : ℕ

-- Times are numbers, 0 is the zero time.
pub record AckFrame : Type 0 where
  pub path_id : ℕ
  pub largest_acked : ℕ
  pub lowest_acked : ℕ
  pub ack_ranges : List AckRange
  pub packet_received_time : ℕ
  pub delay_time : ℕ

-- `len(f.AckRanges) > 0`
unfoldable pub has_missing_ranges : AckFrame → Bool
has_missing_ranges f = elim f.ack_ranges [ [] ↦ false | r ∷ rs ↦ true ]

-- The first loop: no range is empty.
unfoldable pub all_nonempty : List AckRange → Bool
all_nonempty [] = true
all_nonempty (r ∷ rs) = if ltb r.last r.first then false else all_nonempty rs

-- The second loop: each range is compared with the one before it.
unfoldable pub consistent_after : AckRange → List AckRange → Bool
consistent_after before [] = true
consistent_after before (r ∷ rs) =
    if leb before.first r.first
    then false
    else if leb before.first (add64 r.last 1)
    then false
    else consistent_after r rs

abbrev pub check_ranges : ℕ → List AckRange → Bool
check_ranges largest [] = true
check_ranges largest (r ∷ []) = false
check_ranges largest (r ∷ s ∷ rs) =
    if not (r.last == largest)
    then false
    else if not (all_nonempty (r ∷ s ∷ rs))
    then false
    else consistent_after r (s ∷ rs)

unfoldable pub validate_ack_ranges : AckFrame → Bool
unfolding all_nonempty consistent_after
validate_ack_ranges f = check_ranges f.largest_acked f.ack_ranges

-- The loop of AcksPacket.
unfoldable pub in_some_range : ℕ → List AckRange → Bool
in_some_range p [] = false
in_some_range p (r ∷ rs) = if leb r.first p && leb p r.last then true else in_some_range p rs

unfoldable pub acks_packet : AckFrame → ℕ → Bool
unfolding has_missing_ranges in_some_range
acks_packet f p =
    if ltb p f.lowest_acked || ltb f.largest_acked p
    then false
    else if has_missing_ranges f
    then in_some_range p f.ack_ranges
    else leb f.lowest_acked p && leb p f.largest_acked
