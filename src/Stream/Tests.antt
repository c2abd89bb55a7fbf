-- ===== src/Stream/Tests.antt =====
-- A stream on runs of calls.
use agg_deliv.Common.{
  ℕ, ◌+◌, ◌≤◌, ◌≡◌, true, false, List, [], ◌∷◌, ◌++◌, none, some, length, add64, ap, arith, refl,
  inl,
}
use agg_deliv.Wire.StreamFrame.{StreamFrame}
use agg_deliv.Flow.Controller.{FlowController}
use agg_deliv.Flow.Manager.{FlowControlManager}
use agg_deliv.Sorter
use agg_deliv.Sorter.{
  push, push_over, push_new, push_at, push_between, find_gap, end_loop, fill_gaps, max_byte_count,
  new_stream_frame_sorter,
}
use agg_deliv.Sorter.Parts.{stretch, IsPart}
use agg_deliv.Sorter.Validity.{has_too_many_gaps}
use agg_deliv.Sorter.Pushing.{IsArrival}
use agg_deliv.Stream.{
  Stream, closed_with, waits, panics, Resetting, reset, new_stream, add_stream_frame, cancel,
  finished, finished_write_and_sent_fin,
}
use agg_deliv.Stream.Read.{Tick, read, resume_read}
use agg_deliv.Stream.Write.{write_begin, write_round, get_data_for_writing}
use agg_deliv.Stream.Reading.{IsReading, IsProper}
use agg_deliv.Stream.InOrder.{read-in_order}
use agg_deliv.Stream.ResetNil.{reset-resume_read}
use agg_deliv.Stream.Delivery.{HasDelivered, begins, adds, delivered-IsReading, read-delivers}
use agg_deliv.Stream.Delivery
use agg_deliv.Stream.Writing.{
  bytes_of, take_all, ArePositive, take_all-whole, take_all-none, write_round-cancelled,
}
use agg_deliv.Stream.Flags.{
  Call, writes, takes, fins, closes, resets, cancels, remote_errors, World, run, start,
  run-finished, run-on_resets,
}

abbrev controller : ℕ → FlowController
controller id = record {
  stream_id = id;
  contributes_to_connection = true;
  bytes_sent = 0;
  send_window = 0;
  bytes_retrans = 0;
  last_window_update_time = 0;
  bytes_read = 0;
  highest_received = 0;
  receive_window = 1000;
  receive_window_increment = 1000;
  max_receive_window_increment = 1000;
}

abbrev manager : FlowControlManager
manager = record { streams = (5, controller 5) ∷ []; conn = controller 0 }

abbrev clock : ℕ → Tick
clock i = record { checked = 100; now = 100; later = 100 }

abbrev byte : ℕ → ℕ
byte x = x + 10

abbrev frame : StreamFrame
frame = record {
  stream_id = 5;
  fin_bit = false;
  data_len_present = true;
  offset = 0;
  payload = 10 ∷ 11 ∷ 12 ∷ [];
}

abbrev fresh : Stream ℕ
fresh = new_stream 5

frame-IsPart : IsPart byte frame
unfolding IsPart stretch
frame-IsPart = (omega arith, refl)

frame-IsArrival : IsArrival max_byte_count fresh.frame_queue frame
unfolding IsArrival
frame-IsArrival = inl (omega arith, omega arith)

frame_accepted : has_too_many_gaps (push fresh.frame_queue frame).error ≡ false
unfolding push push_over push_new push_at push_between find_gap end_loop fill_gaps
    new_stream_frame_sorter new_stream
frame_accepted = refl

abbrev filled : Stream ℕ
filled = (add_stream_frame fresh manager frame).stream

filled_delivered : HasDelivered byte filled []
filled_delivered = adds manager frame frame-IsPart frame-IsArrival frame_accepted (begins 5)

read-in_order_example :
    let r = read filled manager clock 2 in
    (r.bytes ≡ stretch byte filled.read_offset (length r.bytes))
    × (r.stream.read_offset ≡ filled.read_offset + length r.bytes)
    × (length r.bytes ≤ 2)
    × IsReading byte r.stream.frame_queue r.stream.read_offset
    × IsProper r.ending
read-in_order_example =
    read-in_order byte filled manager clock 2
      (delivered-IsReading byte filled [] filled_delivered).0

read-delivers_example :
    let r = read filled manager clock 2 in
    let r' = read r.stream manager clock 2 in
    ([] ++ r.bytes) ++ r'.bytes ≡ stretch byte 0 r'.stream.read_offset
read-delivers_example =
    let r = read filled manager clock 2 in
    read-delivers byte (read r.stream manager clock 2).stream
      (([] ++ r.bytes) ++ (read r.stream manager clock 2).bytes)
      (Delivery.reads manager clock 2 (Delivery.reads manager clock 2 filled_delivered))

abbrev written : Stream ℕ
written = (write_begin fresh (1 ∷ 2 ∷ 3 ∷ [])).stream

written_err : written.err ≡ none
unfolding write_begin new_stream
written_err = refl

written_data : bytes_of written.data_for_writing ≡ 1 ∷ 2 ∷ 3 ∷ []
unfolding write_begin new_stream
written_data = refl

written_offset : written.write_offset ≡ 0
unfolding write_begin new_stream
written_offset = refl

take_all-whole_example :
    let sent = take_all written (2 ∷ []) in
    (sent.bytes ++ bytes_of sent.stream.data_for_writing ≡ bytes_of written.data_for_writing)
    × (sent.stream.write_offset ≡ add64 written.write_offset (length sent.bytes))
    × (sent.stream.err ≡ none)
take_all-whole_example = take_all-whole written (2 ∷ []) written_err (omega (arith, written_offset))

positive : ArePositive (1 ∷ 1 ∷ 5 ∷ 1 ∷ [])
unfolding ArePositive
positive = (omega arith, (omega arith, (omega arith, (omega arith, omega arith))))

take_all-none_example : (take_all written (1 ∷ 1 ∷ 5 ∷ 1 ∷ [])).stream.data_for_writing ≡ none
take_all-none_example =
    take_all-none written (1 ∷ 1 ∷ 5 ∷ 1 ∷ []) written_err (omega (arith, written_offset)) positive
      (omega (arith, ap length written_data))

no_deadline : (cancel (take_all written (2 ∷ [])).stream (some 7)).write_deadline ≡ 0
unfolding write_begin new_stream take_all cancel get_data_for_writing
no_deadline = refl

write_round-cancelled_example :
    write_round (cancel (take_all written (2 ∷ [])).stream (some 7)) (1 ∷ 2 ∷ 3 ∷ []) 50
    ≡ some (record {
      stream = cancel (take_all written (2 ∷ [])).stream (some 7);
      count = length (take_all written (2 ∷ [])).bytes;
      error = some (closed_with 7);
    })
write_round-cancelled_example =
    write_round-cancelled written (1 ∷ 2 ∷ 3 ∷ []) (2 ∷ []) 7 50 written_err
      (omega (arith, written_offset)) written_data no_deadline

abbrev calls : List (Call ℕ)
calls = writes (1 ∷ 2 ∷ []) ∷ takes 5 ∷ closes ∷ fins ∷ remote_errors (some 8) ∷ []

abbrev ended : World ℕ
ended = run (start 5 manager) (resets (some 9) ∷ cancels none ∷ [])

run-finished_example :
    ((e : ℕ) → ended.stream.err ≡ some e → (run ended calls).stream.err ≡ some e)
    × (finished ended.stream ≡ true → finished (run ended calls).stream ≡ true)
run-finished_example = run-finished ended calls

abbrev reset_once : World ℕ
reset_once = run (start 5 manager) (resets (some 9) ∷ [])

run-on_resets_example :
    (length reset_once.on_resets ≤ 1)
    × (finished_write_and_sent_fin reset_once.stream ≡ true
        → (run reset_once calls).on_resets ≡ reset_once.on_resets)
run-on_resets_example = run-on_resets 5 manager (resets (some 9) ∷ []) calls

reset-resume_read_example :
    ((read fresh manager clock 4).ending ≡ waits)
    × ((read fresh manager clock 4).stream ≡ fresh)
    × ((resume_read (Resetting.stream (reset fresh none)) manager clock 4).ending ≡ panics)
unfolding new_stream new_stream_frame_sorter Sorter.head
reset-resume_read_example =
    reset-resume_read fresh manager clock clock 4 (omega arith) refl refl refl refl refl refl
