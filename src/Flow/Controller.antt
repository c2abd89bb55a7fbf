-- ===== src/Flow/Controller.antt =====
-- mpquic_trans/internal/flowcontrol/flow_controller.go: the window of one stream, or of the connection
-- (stream 0). Byte counts are uint64. Times and round trip times are numbers, 0 is the zero time; what
-- the code reads of the clock and of the RTT statistics is an argument.
pub mod Laws
mod Tests
use agg_deliv.Common.{
  ℕ, ◌-◌, ◌/◌, Bool, true, false, ◌||◌, List, [], ◌∷◌, ltb, leb, ◌==◌, if◌then◌else◌, add64, sub64,
  u64_mod, ◌*◌, ◌%◌,
}

-- What the code asks of handshake.ConnectionParametersManager.
pub record ConnectionParameters : Type 0 where
  pub send_connection_window : ℕ
  pub send_stream_window : ℕ
  pub receive_connection_window : ℕ
  pub receive_stream_window : ℕ
  pub max_receive_connection_window : ℕ
  pub max_receive_stream_window : ℕ

pub record Timing : Type 0 where
  pub now : ℕ
  pub smoothed_rtt : ℕ
  pub remote_rtts : List ℕ

pub record FlowController : Type 0 where
  pub stream_id : ℕ
  pub contributes_to_connection : Bool
  pub bytes_sent : ℕ
  pub send_window : ℕ
  pub bytes_retrans : ℕ
  pub last_window_update_time : ℕ
  pub bytes_read : ℕ
  pub highest_received : ℕ
  pub receive_window : ℕ
  pub receive_window_increment : ℕ
  pub max_receive_window_increment : ℕ

unfoldable pub new_flow_controller : ℕ → Bool → ConnectionParameters → FlowController
new_flow_controller stream_id contributes params =
    let initial =
      if stream_id == 0 then params.receive_connection_window else params.receive_stream_window in
    record {
      stream_id = stream_id;
      contributes_to_connection = contributes;
      bytes_sent = 0;
      send_window = 0;
      bytes_retrans = 0;
      last_window_update_time = 0;
      bytes_read = 0;
      highest_received = 0;
      receive_window = initial;
      receive_window_increment = initial;
      max_receive_window_increment =
          if stream_id == 0
          then params.max_receive_connection_window
          else params.max_receive_stream_window;
    }

unfoldable pub get_send_window : FlowController → ConnectionParameters → ℕ
get_send_window c params =
    if c.send_window == 0
    then (if c.stream_id == 0 then params.send_connection_window else params.send_stream_window)
    else c.send_window

unfoldable pub add_bytes_sent : FlowController → ℕ → FlowController
add_bytes_sent c n = record c { bytes_sent = add64 c.bytes_sent n }

unfoldable pub add_bytes_retrans : FlowController → ℕ → FlowController
add_bytes_retrans c n = record c { bytes_retrans = add64 c.bytes_retrans n }

-- A method that changes the controller and returns a Bool.
pub record Update : Type 0 where
  pub controller : FlowController
  pub updated : Bool

unfoldable pub update_send_window : FlowController → ℕ → Update
update_send_window c new_offset =
    if ltb c.send_window new_offset
    then record { controller = record c { send_window = new_offset }; updated = true }
    else record { controller = c; updated = false }

unfoldable pub send_window_size : FlowController → ConnectionParameters → ℕ
unfolding get_send_window
send_window_size c params =
    let send_window = get_send_window c params in
    if ltb send_window c.bytes_sent then 0 else send_window - c.bytes_sent

unfoldable pub send_window_offset : FlowController → ConnectionParameters → ℕ
unfolding get_send_window
send_window_offset c params = get_send_window c params

-- The increment, and whether the error ErrReceivedSmallerByteOffset is returned with it.
pub record Received : Type 0 where
  pub controller : FlowController
  pub increment : ℕ
  pub smaller_byte_offset : Bool

unfoldable pub update_highest_received : FlowController → ℕ → Received
update_highest_received c byte_offset =
    if byte_offset == c.highest_received
    then record { controller = c; increment = 0; smaller_byte_offset = false }
    else if ltb c.highest_received byte_offset
    then record {
      controller = record c { highest_received = byte_offset };
      increment = byte_offset - c.highest_received;
      smaller_byte_offset = false;
    }
    else record { controller = c; increment = 0; smaller_byte_offset = true }

unfoldable pub increment_highest_received : FlowController → ℕ → FlowController
increment_highest_received c increment = record c {
  highest_received = add64 c.highest_received increment;
}

unfoldable pub add_bytes_read : FlowController → ℕ → ℕ → FlowController
add_bytes_read c now n = record c {
  last_window_update_time = if c.bytes_read == 0 then now else c.last_window_update_time;
  bytes_read = add64 c.bytes_read n;
}

abbrev pub min_byte_count : ℕ → ℕ → ℕ
min_byte_count a b = if ltb a b then a else b

abbrev pub max_duration : ℕ → ℕ → ℕ
max_duration a b = if ltb b a then a else b

-- The loop over the remote RTTs, whose order does not matter.
unfoldable pub max_remote_rtt : ℕ → List ℕ → ℕ
max_remote_rtt acc [] = acc
max_remote_rtt acc (r ∷ rs) = max_remote_rtt (max_duration acc r) rs

unfoldable pub maybe_adjust_window_increment : FlowController → Timing → FlowController
unfolding max_remote_rtt
maybe_adjust_window_increment c t =
    if c.last_window_update_time == 0 || t.smoothed_rtt == 0
    then c
    else if leb (2 * max_duration t.smoothed_rtt (max_remote_rtt 0 t.remote_rtts))
        (t.now - c.last_window_update_time)
    then c
    else record c {
      receive_window_increment =
          min_byte_count (2 * c.receive_window_increment % u64_mod) c.max_receive_window_increment;
    }

-- The controller, and the three results of MaybeUpdateWindow.
pub record WindowUpdated : Type 0 where
  pub controller : FlowController
  pub necessary : Bool
  pub new_increment : ℕ
  pub offset : ℕ

unfoldable pub maybe_update_window : FlowController → Timing → WindowUpdated
unfolding maybe_adjust_window_increment
maybe_update_window c t =
    if ltb (sub64 c.receive_window c.bytes_read) (c.receive_window_increment / 2)
    then (let adjusted = maybe_adjust_window_increment c t in
        let window = add64 adjusted.bytes_read adjusted.receive_window_increment in
        record {
          controller = record adjusted { last_window_update_time = t.now; receive_window = window };
          necessary = true;
          new_increment =
              if adjusted.receive_window_increment == c.receive_window_increment
              then 0
              else adjusted.receive_window_increment;
          offset = window;
        })
    else record {
      controller = c;
      necessary = false;
      new_increment = c.receive_window_increment;
      offset = c.receive_window;
    }

unfoldable pub ensure_minimum_window_increment : FlowController → ℕ → FlowController
ensure_minimum_window_increment c inc =
    if ltb c.receive_window_increment inc
    then record c {
      receive_window_increment = min_byte_count inc c.max_receive_window_increment;
      last_window_update_time = 0;
    }
    else c

unfoldable pub check_flow_control_violation : FlowController → Bool
check_flow_control_violation c = ltb c.receive_window c.highest_received
