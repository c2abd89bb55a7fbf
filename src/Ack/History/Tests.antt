-- ===== src/Ack/History/Tests.antt =====
-- Runs of the packet history, and its theorems at concrete inputs.
use agg_deliv.Common.{ℕ, ◌≡◌, refl, List, [], ◌∷◌, false, ◌&&◌, ◌||◌, ltb, ◌==◌, arith}
use agg_deliv.Ack.History.{
  ReceivedPacketHistory, ok, new_received_packet_history, received_packet, delete_up_to, contains,
  IsValid,
}
use agg_deliv.Ack.History.Refines.{
  Op, receive, delete, run, set_after, received_packet-contains, delete_up_to-contains,
  run-new-contains,
}

abbrev sample : ReceivedPacketHistory
sample = record {
  ranges = record { start = 10; end = 12 } ∷ record { start = 3; end = 5 } ∷ [];
  lowest_in_received_packet_numbers = 0;
}

gap_filled :
    received_packet
      (record sample {
        ranges = record { start = 7; end = 12 } ∷ record { start = 3; end = 5 } ∷ [];
      })
      6
    ≡ ok (record sample { ranges = record { start = 3; end = 12 } ∷ [] })
unfolding received_packet
gap_filled = refl

trimmed : delete_up_to sample 10 ≡ record {
  ranges = record { start = 11; end = 12 } ∷ [];
  lowest_in_received_packet_numbers = 11;
}
unfolding delete_up_to
trimmed = refl

received_packet-contains_run :
    (h' : ReceivedPacketHistory) × (received_packet sample 6 ≡ ok h')
    × IsValid h'
    × ((n : ℕ) → contains n h'.ranges ≡ ((n == 6) || contains n sample.ranges))
    × (h'.lowest_in_received_packet_numbers ≡ 0)
received_packet-contains_run =
    received_packet-contains sample 6 (omega arith) (omega arith) (omega arith) (omega arith)

delete_up_to-contains_run :
    IsValid (delete_up_to sample 10)
    × ((n : ℕ)
        → contains n (delete_up_to sample 10).ranges ≡ (contains n sample.ranges && ltb 10 n))
delete_up_to-contains_run = delete_up_to-contains sample 10 (omega arith)

abbrev ops : List Op
ops = receive 4 ∷ receive 9 ∷ delete 4 ∷ receive 8 ∷ []

run-new-contains_example :
    (h : ReceivedPacketHistory) × (run ops new_received_packet_history ≡ ok h)
    × IsValid h
    × ((n : ℕ) → contains n h.ranges ≡ set_after ops (λ n. false) n)
run-new-contains_example = run-new-contains ops (omega arith) (omega arith)
