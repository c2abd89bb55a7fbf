-- ===== src/Flow/Controller/Tests.antt =====
-- The theorems on a flow controller at concrete inputs.
use agg_deliv.Common.{
  ◌+◌, ◌/◌, ◌<◌, ◌≤◌, ◌≡◌, ◌↔◌, ◌⊎◌, refl, [], ◌∷◌, true, ltb, if◌then◌else◌, arith,
}
use agg_deliv.Flow.Controller.{
  FlowController, ConnectionParameters, Timing, get_send_window, add_bytes_sent, send_window_size,
  update_send_window, update_highest_received, maybe_update_window, ensure_minimum_window_increment,
}
use agg_deliv.Flow.Controller.Laws.{
  IsValid, send_window_size-add_bytes_sent, update_send_window_lem, update_send_window-shrinks,
  update_highest_received_lem, maybe_update_window-grows, ensure_minimum_window_increment_lem,
}

abbrev pub params : ConnectionParameters
params = record {
  send_connection_window = 16384;
  send_stream_window = 16384;
  receive_connection_window = 49152;
  receive_stream_window = 32768;
  max_receive_connection_window = 1572864;
  max_receive_stream_window = 1048576;
}

-- Stream 5, with 20000 bytes read of a window of 32768.
abbrev pub stream5 : FlowController
stream5 = record {
  stream_id = 5;
  contributes_to_connection = true;
  bytes_sent = 1000;
  send_window = 0;
  bytes_retrans = 0;
  last_window_update_time = 100;
  bytes_read = 20000;
  highest_received = 21000;
  receive_window = 32768;
  receive_window_increment = 32768;
  max_receive_window_increment = 1048576;
}

abbrev pub soon : Timing
soon = record { now = 150; smoothed_rtt = 60; remote_rtts = 10 ∷ 90 ∷ [] }

stream5-IsValid : IsValid stream5
stream5-IsValid = omega arith

doubled : (maybe_update_window stream5 soon).controller.receive_window_increment ≡ 65536
unfolding maybe_update_window
doubled = refl

send_window_size-add_bytes_sent_run :
    ((add_bytes_sent stream5 384).bytes_sent ≤ get_send_window (add_bytes_sent stream5 384) params)
    × (send_window_size (add_bytes_sent stream5 384) params + 384 ≡ send_window_size stream5 params)
unfolding get_send_window send_window_size
send_window_size-add_bytes_sent_run =
    send_window_size-add_bytes_sent stream5 params 384 (omega arith) (omega arith) (omega arith)

update_send_window_lem_run :
    (0 ≤ (update_send_window stream5 20000).controller.send_window)
    × (20000 ≤ (update_send_window stream5 20000).controller.send_window)
    × (((update_send_window stream5 20000).updated ≡ true) ↔ (0 < 20000))
    × (get_send_window (update_send_window stream5 20000).controller params
        ≡ (if ltb 0 20000 then 20000 else get_send_window stream5 params))
update_send_window_lem_run = update_send_window_lem stream5 params 20000

update_send_window-shrinks_example :
    ((update_send_window stream5 5).updated ≡ true)
    × (get_send_window (update_send_window stream5 5).controller params
        < get_send_window stream5 params)
unfolding get_send_window
update_send_window-shrinks_example =
    update_send_window-shrinks stream5 params 5 refl (omega arith) (omega arith)

update_highest_received_lem_run :
    ((update_highest_received stream5 22000).controller.highest_received
      ≡ 21000 + (update_highest_received stream5 22000).increment)
    × ((update_highest_received stream5 22000).controller.highest_received
        ≡ (if ltb 21000 22000 then 22000 else 21000))
    × (((update_highest_received stream5 22000).smaller_byte_offset ≡ true) ↔ (22000 < 21000))
update_highest_received_lem_run = update_highest_received_lem stream5 22000

maybe_update_window-grows_run :
    (32768 ≤ (maybe_update_window stream5 soon).controller.receive_window)
    × (32768 ≤ (maybe_update_window stream5 soon).controller.receive_window_increment)
    × IsValid (maybe_update_window stream5 soon).controller
    × ((maybe_update_window stream5 soon).offset
        ≡ (maybe_update_window stream5 soon).controller.receive_window)
    × (20000 + (maybe_update_window stream5 soon).controller.receive_window_increment / 2
        ≤ (maybe_update_window stream5 soon).controller.receive_window)
    × ((maybe_update_window stream5 soon).controller.bytes_read ≡ 20000)
    × (((maybe_update_window stream5 soon).necessary ≡ true)
        ⊎ ((maybe_update_window stream5 soon).controller ≡ stream5))
maybe_update_window-grows_run = maybe_update_window-grows stream5 soon stream5-IsValid (omega arith)

ensure_minimum_window_increment_lem_run :
    IsValid (ensure_minimum_window_increment stream5 40000)
    × (32768 ≤ (ensure_minimum_window_increment stream5 40000).receive_window_increment)
    × ((40000 ≤ (ensure_minimum_window_increment stream5 40000).receive_window_increment)
        ⊎ ((ensure_minimum_window_increment stream5 40000).receive_window_increment ≡ 1048576))
ensure_minimum_window_increment_lem_run =
    ensure_minimum_window_increment_lem stream5 40000 stream5-IsValid
