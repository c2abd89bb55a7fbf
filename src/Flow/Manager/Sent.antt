-- ===== src/Flow/Manager/Sent.antt =====
-- Sent bytes: what SendWindowSize allows keeps both windows.
use agg_deliv.Common.{
  ℕ, ◌-◌, ◌<◌, ◌≤◌, ◌≡◌, refl, Bool, none, some, arith, u64_mod, ◌==◌, if◌then◌else◌,
}
use mathlib.Core.Option.{get_or}
use agg_deliv.Flow.Controller
use agg_deliv.Flow.Controller.{FlowController, ConnectionParameters, get_send_window}
use agg_deliv.Flow.Controller.Laws.{send_window_size-add_bytes_sent}
use agg_deliv.Flow.Manager.{
  FlowControlManager, ok, add_bytes_sent, send_window_size, new_stream, remove_stream,
}
use agg_deliv.Flow.Manager.Streams.{find, find-put, find-remove}

-- The bytes sent are within the window, and the window is a byte count.
abbrev pub SendsWithin : FlowController → ConnectionParameters → Type 0
SendsWithin c params =
    (c.bytes_sent ≤ get_send_window c params) × (get_send_window c params < u64_mod)

same_flags :
    (c : FlowController) (params : ConnectionParameters) (n : ℕ)
    → ((Controller.add_bytes_sent c n).contributes_to_connection ≡ c.contributes_to_connection)
      × (get_send_window (Controller.add_bytes_sent c n) params ≡ get_send_window c params)
unfolding Controller.add_bytes_sent get_send_window
same_flags c params n = (refl, refl)

-- For a known stream whose controller and whose connection are within their send windows: after
-- AddBytesSent of at most what SendWindowSize returned, SendWindowSize returns that many bytes less, and
-- both controllers are within their send windows.
pub send_window_size-add_bytes_sent_known :
    (f : FlowControlManager) (params : ConnectionParameters) (id n size : ℕ) (fc : FlowController)
    → find id f.streams ≡ some fc
    → SendsWithin fc params
    → SendsWithin f.conn params
    → send_window_size f params id ≡ ok size
    → n ≤ size
    → (send_window_size (add_bytes_sent f id n).manager params id ≡ ok (size - n))
      × ((add_bytes_sent f id n).error ≡ none)
      × (find id (add_bytes_sent f id n).manager.streams ≡ some (Controller.add_bytes_sent fc n))
      × SendsWithin (Controller.add_bytes_sent fc n) params
      × SendsWithin (add_bytes_sent f id n).manager.conn params
unfolding send_window_size add_bytes_sent
send_window_size-add_bytes_sent_known f params id n size fc known v w e fits =
    let (flag, window) = same_flags fc params n in
    let (conn_flag, conn_window) = same_flags f.conn params n in
    let written = find-put id id (Controller.add_bytes_sent fc n) f.streams in
    ground (
      arith,
      written,
      send_window_size-add_bytes_sent fc params n,
      send_window_size-add_bytes_sent f.conn params n,
    )

-- After NewStream a stream is known, with the controller that it had or else a new one; all other
-- streams and the connection are as before. After RemoveStream it is unknown, and all others are as before.
pub new_stream-remove_stream :
    (f : FlowControlManager) (id k : ℕ) (contributes : Bool) (params : ConnectionParameters)
    → (find k (new_stream f id contributes params).streams ≡ (
        if id == k
        then some
            (get_or (find id f.streams) (Controller.new_flow_controller id contributes params))
        else find k f.streams))
      × ((new_stream f id contributes params).conn ≡ f.conn)
      × (find k (remove_stream f id).streams ≡ (if id == k then none else find k f.streams))
      × ((remove_stream f id).conn ≡ f.conn)
unfolding new_stream remove_stream
new_stream-remove_stream f id k contributes params = (
  ground (arith, find-put id k (Controller.new_flow_controller id contributes params) f.streams),
  ground arith,
  find-remove id k f.streams,
  refl,
)
