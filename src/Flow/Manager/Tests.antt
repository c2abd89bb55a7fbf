-- ===== src/Flow/Manager/Tests.antt =====
-- The theorems on the flow control manager at concrete inputs.
use mathlib.Core.Option.{get_or}
use agg_deliv.Common.{
  ℕ, ◌+◌, ◌-◌, ◌<◌, ◌≤◌, ◌≡◌, ◌↔◌, ◌⊎◌, refl, [], ◌∷◌, ◌++◌, true, false, none, some, ◌*◌, ◌/◌, map,
  ◌==◌, if◌then◌else◌, arith,
}
use agg_deliv.Flow.Controller
use agg_deliv.Flow.Controller.{
  FlowController, ConnectionParameters, Timing, get_send_window, check_flow_control_violation,
}
use agg_deliv.Flow.Manager.{
  FlowControlManager, ok, reset_stream, update_highest_received, add_bytes_sent, send_window_size,
  new_stream, remove_stream, get_window_updates, stream_data_after_termination,
}
use agg_deliv.Flow.Manager.Streams.{find, put, received_sum}
use agg_deliv.Flow.Manager.Received.{
  advanced, advance, update_highest_received-conserves, update_highest_received-error,
  reset_stream-update_highest_received,
}
use agg_deliv.Flow.Manager.Sent.{
  SendsWithin, send_window_size-add_bytes_sent_known, new_stream-remove_stream,
}
use agg_deliv.Flow.Manager.Updates.{announce, get_window_updates-force}

abbrev params : ConnectionParameters
params = record {
  send_connection_window = 16384;
  send_stream_window = 16384;
  receive_connection_window = 49152;
  receive_stream_window = 32768;
  max_receive_connection_window = 1572864;
  max_receive_stream_window = 1048576;
}

abbrev stream5 : FlowController
stream5 = record {
  stream_id = 5;
  contributes_to_connection = true;
  bytes_sent = 1000;
  send_window = 0;
  bytes_retrans = 0;
  last_window_update_time = 100;
  bytes_read = 20000;
  highest_received = 21000;
  receive_window = 32768;
  receive_window_increment = 32768;
  max_receive_window_increment = 1048576;
}

abbrev connection : FlowController
connection = record stream5 {
  stream_id = 0;
  contributes_to_connection = false;
  receive_window = 49152;
}

abbrev sample : FlowControlManager
sample = record { streams = (5, stream5) ∷ []; conn = connection }

abbrev quiet : ℕ → Timing
quiet id = record { now = 150; smoothed_rtt = 60; remote_rtts = [] }

abbrev times_three_halves : ℕ → ℕ
times_three_halves n = n * 3 / 2

found : find 5 sample.streams ≡ some stream5
unfolding find
found = refl

update_highest_received-conserves_example :
    ((update_highest_received sample 5 22000).manager.streams
      ≡ put 5 (advanced stream5 22000) sample.streams)
    × ((update_highest_received sample 5 22000).manager.conn.highest_received
          + received_sum sample.streams
        ≡ 21000 + received_sum (update_highest_received sample 5 22000).manager.streams)
    × ((advanced stream5 22000).highest_received ≤ (advanced stream5 22000).receive_window)
    × ((true ≡ false)
        ⊎ ((update_highest_received sample 5 22000).manager.conn.highest_received ≤ 49152))
unfolding find update_highest_received Controller.update_highest_received
    check_flow_control_violation Controller.increment_highest_received
update_highest_received-conserves_example =
    update_highest_received-conserves sample 5 22000 stream5 found (omega arith) refl

update_highest_received-error_run : ((update_highest_received sample 5 22000).error ≡ none) ↔ (
    ((advanced stream5 22000).highest_received ≤ (advanced stream5 22000).receive_window)
    × ((true ≡ false) ⊎ (21000 + advance stream5 22000 ≤ 49152)))
update_highest_received-error_run =
    update_highest_received-error sample 5 22000 stream5 found (omega arith)

reset_stream-update_highest_received_run :
    ((20000 < 21000)
      × (reset_stream sample 5 20000
          ≡ record { manager = sample; error = some stream_data_after_termination }))
    ⊎ ((21000 ≤ 20000) × (reset_stream sample 5 20000 ≡ update_highest_received sample 5 20000))
reset_stream-update_highest_received_run =
    reset_stream-update_highest_received sample 5 20000 stream5 found

available : send_window_size sample params 5 ≡ ok 15384
unfolding send_window_size find Controller.send_window_size
available = refl

send_window_size-add_bytes_sent_known_example :
    (send_window_size (add_bytes_sent sample 5 384).manager params 5 ≡ ok (15384 - 384))
    × ((add_bytes_sent sample 5 384).error ≡ none)
    × (find 5 (add_bytes_sent sample 5 384).manager.streams
        ≡ some (Controller.add_bytes_sent stream5 384))
    × SendsWithin (Controller.add_bytes_sent stream5 384) params
    × SendsWithin (add_bytes_sent sample 5 384).manager.conn params
unfolding get_send_window
send_window_size-add_bytes_sent_known_example =
    send_window_size-add_bytes_sent_known sample params 5 384 15384 stream5 found (omega arith)
      (omega arith) available (omega arith)

new_stream-remove_stream_run :
    (find 5 (new_stream sample 7 true params).streams ≡ (
      if 7 == 5
      then some (get_or (find 7 sample.streams) (Controller.new_flow_controller 7 true params))
      else find 5 sample.streams))
    × ((new_stream sample 7 true params).conn ≡ connection)
    × (find 5 (remove_stream sample 7).streams ≡ (if 7 == 5 then none else find 5 sample.streams))
    × ((remove_stream sample 7).conn ≡ connection)
new_stream-remove_stream_run = new_stream-remove_stream sample 7 5 true params

get_window_updates-force_run :
    (get_window_updates times_three_halves quiet true sample).updates
    ≡ map announce (get_window_updates times_three_halves quiet true sample).manager.streams
      ++ announce (0, (get_window_updates times_three_halves quiet true sample).manager.conn) ∷ []
get_window_updates-force_run = get_window_updates-force times_three_halves quiet sample
