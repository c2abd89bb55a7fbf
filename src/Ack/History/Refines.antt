-- ===== src/Ack/History/Refines.antt =====
-- A received packet history implements a set of packet numbers.
use agg_deliv.Common.{
  ℕ, suc, ◌+◌, ◌-◌, ◌<◌, ◌≤◌, ◌≡◌, refl, List, [], ◌∷◌, Bool, false, ◌&&◌, ◌||◌, ltb, leb, ◌==◌,
  arith, u64_mod, length, ◌⊎◌, inl, inr, Bool-cases,
}
use agg_deliv.Ack.History.{
  ReceivedPacketHistory, Received, ok, err, too_many_outstanding_received_ack_ranges,
  new_received_packet_history, max_tracked_received_ack_ranges, received_loop, received_packet,
  delete_up_to, contains, IsValid,
}
use agg_deliv.Ack.History.Contents.{
  received_loop-IsSeparated, contains-received_loop, length-received_loop,
}
use agg_deliv.Ack.History.Deletion.{
  delete_loop-IsSeparated, contains-delete_loop, length-delete_loop,
}

-- ReceivedPacket on a valid history with room, for a packet number above 0 and below 2 ^ 64 - 1: it
-- succeeds, the history stays valid, it holds the new packet number and all that it held, and nothing
-- else; the lowest number is kept.
pub received_packet-contains :
    (h : ReceivedPacketHistory) (p : ℕ)
    → IsValid h
    → 0 < p
    → p < u64_mod - 1
    → length h.ranges < max_tracked_received_ack_ranges
    → (h' : ReceivedPacketHistory) × (received_packet h p ≡ ok h')
      × IsValid h'
      × ((n : ℕ) → contains n h'.ranges ≡ ((n == p) || contains n h.ranges))
      × (h'.lowest_in_received_packet_numbers ≡ h.lowest_in_received_packet_numbers)
unfolding received_packet
received_packet-contains h p v pos below room = (
  record h { ranges = received_loop p h.ranges },
  ground arith,
  received_loop-IsSeparated (u64_mod - 1) p h.ranges pos below (omega arith) v,
  λ n. contains-received_loop n (u64_mod - 1) p h.ranges pos below (omega arith) v,
  refl,
)

-- DeleteUpTo on a valid history: the history stays valid, and it holds exactly the packet numbers that
-- it held above the bound.
pub delete_up_to-contains :
    (h : ReceivedPacketHistory) (p : ℕ)
    → IsValid h
    → IsValid (delete_up_to h p)
      × ((n : ℕ) → contains n (delete_up_to h p).ranges ≡ (contains n h.ranges && ltb p n))
unfolding delete_up_to
delete_up_to-contains h p v = (
  delete_loop-IsSeparated (u64_mod - 1) p h.ranges (omega arith) v,
  λ n. contains-delete_loop n (u64_mod - 1) p h.ranges (omega arith) v,
)

-- The operations, and what they do to a set.
pub data Op : Type 0 where
  receive : ℕ → Op
  delete : ℕ → Op

abbrev pub run : List Op → ReceivedPacketHistory → Received
run [] h = ok h
run (receive p ∷ ops) h = elim (received_packet h p) [ ok h' ↦ run ops h' | err e ↦ err e ]
run (delete p ∷ ops) h = run ops (delete_up_to h p)

abbrev pub set_after : List Op → (ℕ → Bool) → ℕ → Bool
set_after [] s = s
set_after (receive p ∷ ops) s = set_after ops (λ n. (n == p) || s n)
set_after (delete p ∷ ops) s = set_after ops (λ n. s n && ltb p n)

-- The packet numbers received are above 0 and below 2 ^ 64 - 1.
abbrev pub InRange : List Op → Type 0
InRange [] = Unit {0}
InRange (receive p ∷ ops) = (0 < p) × (p < u64_mod - 1) × InRange ops
InRange (delete p ∷ ops) = InRange ops

grown :
    (p : ℕ) (h h' : ReceivedPacketHistory)
    → received_packet h p ≡ ok h'
    → length h'.ranges ≤ suc (length h.ranges)
unfolding received_packet
grown p h h' e = ground (arith, length-received_loop p h.ranges)

shrunk : (p : ℕ) (h : ReceivedPacketHistory) → length (delete_up_to h p).ranges ≤ length h.ranges
unfolding delete_up_to
shrunk p h = length-delete_loop p h.ranges

run-contains :
    (ops : List Op) (h : ReceivedPacketHistory) (s : ℕ → Bool)
    → IsValid h
    → InRange ops
    → length h.ranges + length ops ≤ max_tracked_received_ack_ranges
    → ((n : ℕ) → contains n h.ranges ≡ s n)
    → (h' : ReceivedPacketHistory) × (run ops h ≡ ok h')
      × IsValid h'
      × ((n : ℕ) → contains n h'.ranges ≡ set_after ops s n)
run-contains [] h s v r room same = (h, refl, v, same)
run-contains (receive p ∷ ops) h s v r room same =
    let (h', e, v', c, l) = received_packet-contains h p v r.0 r.1 (omega arith) in
    rw (e, run)
      (run-contains ops h' (λ n. (n == p) || s n) v' r.2 (omega (arith, grown p h h' e))
        (λ n. rw (← same n) (c n)))
run-contains (delete p ∷ ops) h s v r room same =
    let (v', c) = delete_up_to-contains h p v in
    run-contains ops (delete_up_to h p) (λ n. s n && ltb p n) v' r (omega (arith, shrunk p h))
      (λ n. rw (← same n) (c n))

-- Any sequence of at most 2500 operations on a new history, whose received packet numbers are greater than
-- 0 and less than 2 ^ 64 - 1, succeeds, leaves a valid history, and that holds exactly the packet numbers
-- of the set that the same operations make of the empty set: each `receive` adds its number, each `delete`
-- removes the numbers up to its bound.
pub run-new-contains :
    (ops : List Op)
    → InRange ops
    → length ops ≤ max_tracked_received_ack_ranges
    → (h : ReceivedPacketHistory) × (run ops new_received_packet_history ≡ ok h)
      × IsValid h
      × ((n : ℕ) → contains n h.ranges ≡ set_after ops (λ n. false) n)
run-new-contains ops r room =
    run-contains ops new_received_packet_history (λ n. false) tt r (omega arith) (λ n. refl)

-- ReceivedPacket fails exactly when 2500 ranges or more are tracked, and then with this error.
pub received_packet_cases :
    (h : ReceivedPacketHistory) (p : ℕ)
    → ((length h.ranges < max_tracked_received_ack_ranges)
        × (received_packet h p ≡ ok (record h { ranges = received_loop p h.ranges })))
      ⊎ ((max_tracked_received_ack_ranges ≤ length h.ranges)
          × (received_packet h p ≡ err too_many_outstanding_received_ack_ranges))
unfolding received_packet
received_packet_cases h p =
    elim (Bool-cases (leb max_tracked_received_ack_ranges (length h.ranges))) [
      | inl full ↦ inr (ground arith, rw full)
      | inr room ↦ inl (ground arith, rw room)
    ]
