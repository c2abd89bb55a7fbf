-- ===== src/Sending/Tests.antt =====
-- The generator of packet numbers, PRR and the hybrid slow start at concrete states.
use agg_deliv.Common.{ℕ, ◌*◌, ◌<◌, ◌≤◌, ◌≡◌, ◌⊎◌, false, refl, List, [], ◌∷◌, some, none, arith}
use agg_deliv.Sending.PacketNumberGenerator.{
  PacketNumberGenerator, new_packet_number_generator, Random, AreBytes, pop, pops,
  generate_new_skip, get_random_number, pop-pop, pops-new,
}
use agg_deliv.Sending.PrrSender.{
  PrrSender, on_packet_lost, on_packet_acked, on_packet_sent, time_until_send, acked, sent, Run,
  start, next, IsSmall, IsLimited, Run-IsLimited, time_until_send-proportional, inf_duration,
}
use agg_deliv.Sending.HybridSlowStart.{HybridSlowStart}

abbrev at_a_skip : PacketNumberGenerator
at_a_skip = record { average_period = 500; next = 9; next_to_skip = 10 }

abbrev random : Random
random = some (1, 2)

skipped : pop at_a_skip random ≡ record { average_period = 500; next = 11; next_to_skip = 16 }
unfolding pop generate_new_skip get_random_number
skipped = refl

random-AreBytes : AreBytes random
unfolding AreBytes
random-AreBytes = (omega arith, omega arith)

pop-pop_run :
    ((pop at_a_skip random).next ≡ 10)
      × (((pop (pop at_a_skip random) none).next ≡ 11)
          ⊎ ((pop (pop at_a_skip random) none).next ≡ 12))
    ⊎ ((pop at_a_skip random).next ≡ 11) × ((pop (pop at_a_skip random) none).next ≡ 12)
pop-pop_run = pop-pop at_a_skip random none random-AreBytes (omega arith) (omega arith)

pops-new_example :
    pops (new_packet_number_generator 500) (random ∷ random ∷ [])
    ≡ record { average_period = 500; next = 3; next_to_skip = 0 }
pops-new_example = pops-new 500 (random ∷ random ∷ []) (omega arith)

abbrev prr : PrrSender
prr = record {
  bytes_sent_since_loss = 900;
  bytes_delivered_since_loss = 100;
  ack_count_since_loss = 2;
  bytes_in_flight_before_loss = 8000;
}

abbrev lost : PrrSender
lost = on_packet_lost prr 20000

lost-Run : Run lost (on_packet_sent (on_packet_acked lost 1000) 1400)
unfolding IsSmall time_until_send on_packet_sent on_packet_acked on_packet_lost
lost-Run =
    next
      (next (start lost (omega arith, omega arith, omega arith)) (acked lost 1000 (omega arith))
        (omega arith, omega arith, omega arith))
      (sent (on_packet_acked lost 1000) 1400 30000 20000 9000 (omega arith) (omega arith)
        (omega arith) refl)
      (omega arith, omega arith, omega arith)

Run-IsLimited_example : IsLimited (on_packet_sent (on_packet_acked lost 1000) 1400)
Run-IsLimited_example =
    Run-IsLimited prr (on_packet_sent (on_packet_acked lost 1000) 1400) 20000 lost-Run

time_until_send-proportional_run :
    ((time_until_send prr 5000 6000 4000 ≡ 0) × (900 * 8000 < 100 * 4000))
    ⊎ ((time_until_send prr 5000 6000 4000 ≡ inf_duration) × (100 * 4000 ≤ 900 * 8000))
time_until_send-proportional_run =
    time_until_send-proportional prr 5000 6000 4000 (omega arith) (omega arith) (omega arith)
      (omega arith) (omega arith)

abbrev slow_start : HybridSlowStart
slow_start = record {
  end_packet_number = 0;
  last_sent_packet_number = 20;
  started = false;
  current_min_rtt = 0;
  rtt_sample_count = 0;
  hystart_found = false;
}

abbrev late : List ℕ
late = 70000000 ∷ 66000000 ∷ 68000000 ∷ 70000000 ∷ 70000000 ∷ 70000000 ∷ 71000000 ∷ []
