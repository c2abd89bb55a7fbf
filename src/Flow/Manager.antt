-- ===== src/Flow/Manager.antt =====
-- mpquic_trans/internal/flowcontrol/flow_control_manager.go: the windows of all streams and of the
-- connection. The map of stream controllers is an association list, whose order stands for the order of
-- Go's iteration. A call that fails may have changed the manager: the outcome holds both. The mutex
-- makes each method one step.
pub mod Streams
pub mod Received
pub mod Sent
pub mod Updates
mod Tests
use agg_deliv.Common.{
  ℕ, Bool, true, false, ◌||◌, ◌&&◌, not, List, [], ◌∷◌, ◌++◌, Option, none, some, ltb, ◌==◌,
  if◌then◌else◌,
}
use agg_deliv.Flow.Controller
use agg_deliv.Flow.Controller.{
  FlowController, ConnectionParameters, Timing, new_flow_controller, min_byte_count,
  check_flow_control_violation, increment_highest_received, maybe_update_window,
  ensure_minimum_window_increment,
}
use agg_deliv.Flow.Manager.Streams.{StreamControllers, find, put, remove}

pub record FlowControlManager : Type 0 where
  pub streams : StreamControllers
  pub conn : FlowController

pub data FlowError : Type 0 where
  map_access : FlowError
  stream_data_after_termination : FlowError
  received_too_much_data : FlowError

pub data Result (A : Type 0) : Type 0 where
  ok : A → Result A
  err : FlowError → Result A

-- The manager after a call, and the error that the call returns, `none` for nil.
pub record Outcome : Type 0 where
  pub manager : FlowControlManager
  pub error : Option FlowError

unfoldable pub new_flow_control_manager : ConnectionParameters → FlowControlManager
new_flow_control_manager params = record { streams = []; conn = new_flow_controller 0 false params }

unfoldable pub new_stream :
    FlowControlManager → ℕ → Bool → ConnectionParameters → FlowControlManager
new_stream f id contributes params = elim (find id f.streams) [
  | some fc ↦ f
  | none ↦ record f { streams = put id (new_flow_controller id contributes params) f.streams }
]

unfoldable pub remove_stream : FlowControlManager → ℕ → FlowControlManager
remove_stream f id = record f { streams = remove id f.streams }

-- The end that ResetStream and UpdateHighestReceived share: the checks, and the connection's share.
unfoldable pub check_and_count : FlowControlManager → FlowController → ℕ → Outcome
check_and_count f fc increment =
    if check_flow_control_violation fc
    then record { manager = f; error = some received_too_much_data }
    else if fc.contributes_to_connection
    then (let conn = increment_highest_received f.conn increment in
        record {
          manager = record f { conn = conn };
          error = if check_flow_control_violation conn then some received_too_much_data else none;
        })
    else record { manager = f; error = none }

unfoldable pub reset_stream : FlowControlManager → ℕ → ℕ → Outcome
unfolding check_and_count
reset_stream f id byte_offset = elim (find id f.streams) [
  | none ↦ record { manager = f; error = some map_access }
  | some fc ↦
      let r = Controller.update_highest_received fc byte_offset in
      if r.smaller_byte_offset
      then record { manager = f; error = some stream_data_after_termination }
      else check_and_count (record f { streams = put id r.controller f.streams }) r.controller
          r.increment
]

unfoldable pub update_highest_received : FlowControlManager → ℕ → ℕ → Outcome
unfolding check_and_count
update_highest_received f id byte_offset = elim (find id f.streams) [
  | none ↦ record { manager = f; error = some map_access }
  | some fc ↦
      let r = Controller.update_highest_received fc byte_offset in
      check_and_count (record f { streams = put id r.controller f.streams }) r.controller
        r.increment
]

-- The clock is read by the stream's controller, and then by the connection's.
unfoldable pub add_bytes_read : FlowControlManager → ℕ → ℕ → ℕ → ℕ → Outcome
add_bytes_read f now later id n = elim (find id f.streams) [
  | none ↦ record { manager = f; error = some map_access }
  | some fc ↦ record {
    manager = record {
      streams = put id (Controller.add_bytes_read fc now n) f.streams;
      conn =
          if fc.contributes_to_connection then Controller.add_bytes_read f.conn later n else f.conn;
    };
    error = none;
  }
]

pub record WindowUpdate : Type 0 where
  pub stream_id : ℕ
  pub offset : ℕ

pub record Updated : Type 0 where
  pub manager : FlowControlManager
  pub updates : List WindowUpdate

-- `scale` is the multiplication by ConnectionFlowControlMultiplier in float64, and back to a byte count.
-- `timing` is what each controller reads of the clock and of the RTTs, by its stream.
module _ (scale : ℕ → ℕ) (timing : ℕ → Timing) (force : Bool) where
  -- A stream whose update is sent, with its new increment, raises the increment of the connection.
  unfoldable pub raise_connection : Bool → FlowController → ℕ → FlowController → FlowController
  raise_connection sends fc new_increment conn =
      if sends && (fc.contributes_to_connection && not (new_increment == 0))
      then ensure_minimum_window_increment conn (scale new_increment)
      else conn

  unfoldable pub update_loop : StreamControllers → FlowController → Updated
  update_loop [] conn = record { manager = record { streams = []; conn = conn }; updates = [] }
  update_loop ((id, fc) ∷ rest) conn =
      let r = maybe_update_window fc (timing id) in
      let sends = force || r.necessary in
      let others = update_loop rest (raise_connection sends fc r.new_increment conn) in
      record {
        manager = record {
          streams = (id, r.controller) ∷ others.manager.streams;
          conn = others.manager.conn;
        };
        updates =
            if sends
            then record { stream_id = id; offset = r.offset } ∷ others.updates
            else others.updates;
      }

  unfoldable pub get_window_updates : FlowControlManager → Updated
  unfolding update_loop raise_connection
  get_window_updates f =
      let u = update_loop f.streams f.conn in
      let r = maybe_update_window u.manager.conn (timing 0) in
      record {
        manager = record { streams = u.manager.streams; conn = r.controller };
        updates =
            if force || r.necessary
            then u.updates ++ record { stream_id = 0; offset = r.offset } ∷ []
            else u.updates;
      }

unfoldable pub get_receive_window : FlowControlManager → ℕ → Result ℕ
get_receive_window f id =
    if id == 0
    then ok f.conn.receive_window
    else elim (find id f.streams) [ none ↦ err map_access | some fc ↦ ok fc.receive_window ]

unfoldable pub add_bytes_sent : FlowControlManager → ℕ → ℕ → Outcome
add_bytes_sent f id n = elim (find id f.streams) [
  | none ↦ record { manager = f; error = some map_access }
  | some fc ↦ record {
    manager = record {
      streams = put id (Controller.add_bytes_sent fc n) f.streams;
      conn = if fc.contributes_to_connection then Controller.add_bytes_sent f.conn n else f.conn;
    };
    error = none;
  }
]

unfoldable pub get_bytes_sent : FlowControlManager → ℕ → Result ℕ
get_bytes_sent f id = elim (find id f.streams) [
  | none ↦ err map_access
  | some fc ↦ ok fc.bytes_sent
]

unfoldable pub add_bytes_retrans : FlowControlManager → ℕ → ℕ → Outcome
add_bytes_retrans f id n = elim (find id f.streams) [
  | none ↦ record { manager = f; error = some map_access }
  | some fc ↦ record {
    manager = record {
      streams = put id (Controller.add_bytes_retrans fc n) f.streams;
      conn = if fc.contributes_to_connection then Controller.add_bytes_retrans f.conn n else f.conn;
    };
    error = none;
  }
]

unfoldable pub get_bytes_retrans : FlowControlManager → ℕ → Result ℕ
get_bytes_retrans f id = elim (find id f.streams) [
  | none ↦ err map_access
  | some fc ↦ ok fc.bytes_retrans
]

unfoldable pub remaining_connection_window_size : FlowControlManager → ConnectionParameters → ℕ
remaining_connection_window_size f params = Controller.send_window_size f.conn params

unfoldable pub send_window_size : FlowControlManager → ConnectionParameters → ℕ → Result ℕ
send_window_size f params id = elim (find id f.streams) [
  | none ↦ err map_access
  | some fc ↦
      let size = Controller.send_window_size fc params in
      ok (
        if fc.contributes_to_connection
        then min_byte_count size (Controller.send_window_size f.conn params)
        else size)
]

-- The Boolean that UpdateWindow returns stands beside the manager.
pub record Window : Type 0 where
  pub manager : FlowControlManager
  pub result : Result Bool

unfoldable pub update_window : FlowControlManager → ℕ → ℕ → Window
update_window f id offset =
    if id == 0
    then (let u = Controller.update_send_window f.conn offset in
        record { manager = record f { conn = u.controller }; result = ok u.updated })
    else elim (find id f.streams) [
      | none ↦ record { manager = f; result = err map_access }
      | some fc ↦
          let u = Controller.update_send_window fc offset in
          record {
            manager = record f { streams = put id u.controller f.streams };
            result = ok u.updated;
          }
    ]
