-- ===== src/Ack/StopWaiting/Tests.antt =====
-- The stop waiting manager on a run of calls.
use agg_deliv.Common.{
  ℕ, ◌≡◌, true, false, refl, List, [], ◌∷◌, some, none, arith, if◌then◌else◌, ◌==◌,
}
use agg_deliv.Wire.AckFrame.{AckFrame}
use agg_deliv.Ack.StopWaiting.{
  StopWaitingManager, new_stop_waiting_manager, frame_for, get_stop_waiting_frame,
}
use agg_deliv.Ack.StopWaiting.Runs.{
  Call, ack, retransmission, get, run, AreCalls, IsCall, settled, most_settled, IsValid,
  get_stop_waiting_frame-run, get_stop_waiting_frame-once,
}

abbrev ack_of : ℕ → AckFrame
ack_of n = record {
  path_id = 0;
  largest_acked = n;
  lowest_acked = 1;
  ack_ranges = [];
  packet_received_time = 0;
  delay_time = 0;
}

abbrev calls : List Call
calls = ack (ack_of 4) ∷ get false ∷ retransmission 7 ∷ ack (ack_of 5) ∷ []

calls-AreCalls : AreCalls calls
unfolding AreCalls IsCall settled
calls-AreCalls = (omega arith, (omega arith, (omega arith, (omega arith, omega arith))))

most_settled-calls : most_settled 0 calls ≡ 8
unfolding most_settled settled
most_settled-calls = refl

get_stop_waiting_frame-run_example :
    (get_stop_waiting_frame (run new_stop_waiting_manager calls) true).frame
    ≡ (if most_settled 0 calls == 0 then none else some (frame_for (most_settled 0 calls)))
get_stop_waiting_frame-run_example = get_stop_waiting_frame-run calls calls-AreCalls

abbrev told : StopWaitingManager
told = record {
  largest_least_unacked_sent = 5;
  next_least_unacked = 8;
  last_stop_waiting_frame = some (frame_for 5);
}

told-IsValid : IsValid told
unfolding IsValid
told-IsValid = (omega arith, refl)

get_stop_waiting_frame-once_run :
    ((get_stop_waiting_frame told false).frame ≡ some (frame_for 8))
    × ((get_stop_waiting_frame (get_stop_waiting_frame told false).manager false).frame ≡ none)
get_stop_waiting_frame-once_run = get_stop_waiting_frame-once told told-IsValid
