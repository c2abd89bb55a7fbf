-- ===== src/Wire/Control/Tests.antt =====
-- The round trips of the control frames at concrete frames.
use agg_deliv.Common.{ℕ, ◌≡◌, refl, inl, inr, List, [], ◌∷◌, ◌++◌, some, length, arith}
use agg_deliv.Protocol.Version.{version38, version39, version_mp}
use agg_deliv.Wire.Reader.{ok}
use agg_deliv.Wire.ByteOrder.{get_byte_order, write_uint32, write_uint64}
use agg_deliv.Wire.Control.{done}
use agg_deliv.Wire.Control.WindowUpdate
use agg_deliv.Wire.Control.WindowUpdate.{WindowUpdateFrame}
use agg_deliv.Wire.Control.Blocked
use agg_deliv.Wire.Control.Blocked.{BlockedFrame}
use agg_deliv.Wire.Control.RstStream
use agg_deliv.Wire.Control.RstStream.{RstStreamFrame}
use agg_deliv.Wire.Control.Goaway
use agg_deliv.Wire.Control.Goaway.{GoawayFrame}
use agg_deliv.Wire.Control.ConnectionClose
use agg_deliv.Wire.Control.ConnectionClose.{ConnectionCloseFrame}
use agg_deliv.Wire.Control.StopWaiting
use agg_deliv.Wire.Control.StopWaiting.{StopWaitingFrame}
use agg_deliv.Wire.Control.RoundTrip.{
  window_update-round_trip, blocked-round_trip, rst_stream-round_trip, goaway-round_trip,
  connection_close-round_trip, stop_waiting-round_trip,
}

abbrev window_update : WindowUpdateFrame
window_update = record { stream_id = 5; byte_offset = 0x1234 }

abbrev rst_stream : RstStreamFrame
rst_stream = record { stream_id = 5; error_code = 7; byte_offset = 0x1234 }

abbrev goaway : GoawayFrame
goaway = record { error_code = 25; last_good_stream = 9; reason_phrase = 98 ∷ 121 ∷ 101 ∷ [] }

abbrev connection_close : ConnectionCloseFrame
connection_close = record { error_code = 25; reason_phrase = 98 ∷ 121 ∷ [] }

abbrev stop_waiting : StopWaitingFrame
stop_waiting = record { least_unacked = 4; packet_number_len = 2; packet_number = 300 }

little_endian_before_39 :
    WindowUpdate.write window_update version38
    ≡ 4 ∷ 5 ∷ 0 ∷ 0 ∷ 0 ∷ 0x34 ∷ 0x12 ∷ 0 ∷ 0 ∷ 0 ∷ 0 ∷ 0 ∷ 0 ∷ []
unfolding WindowUpdate.write get_byte_order write_uint32 write_uint64
little_endian_before_39 = refl

window_update-round_trip_run :
    (WindowUpdate.parse version38 (WindowUpdate.write window_update version38 ++ 1 ∷ [])
      ≡ ok (window_update, 1 ∷ []))
    × (length (WindowUpdate.write window_update version38) ≡ WindowUpdate.min_length window_update)
window_update-round_trip_run =
    window_update-round_trip window_update version38 (1 ∷ []) (omega arith) (omega arith)

blocked-round_trip_run :
    (Blocked.parse version39 (Blocked.write (record { stream_id = 3 }) version39 ++ [])
      ≡ ok (record { stream_id = 3 }, []))
    × (length (Blocked.write (record { stream_id = 3 }) version39)
        ≡ Blocked.min_length (record { stream_id = 3 }))
blocked-round_trip_run = blocked-round_trip (record { stream_id = 3 }) version39 [] (omega arith)

rst_stream-round_trip_run :
    (RstStream.parse version_mp (RstStream.write rst_stream version_mp ++ []) ≡ ok (rst_stream, []))
    × (length (RstStream.write rst_stream version_mp) ≡ RstStream.min_length rst_stream)
rst_stream-round_trip_run =
    rst_stream-round_trip rst_stream version_mp [] (omega arith) (omega arith) (omega arith)

goaway-round_trip_run :
    (Goaway.parse version_mp (Goaway.write goaway version_mp ++ 6 ∷ []) ≡ ok (goaway, 6 ∷ []))
    × (length (Goaway.write goaway version_mp) ≡ Goaway.min_length goaway)
goaway-round_trip_run =
    goaway-round_trip goaway version_mp (6 ∷ []) (omega arith) (omega arith) (omega arith)

connection_close-round_trip_run :
    (bytes : List ℕ) × (ConnectionClose.write connection_close version39 ≡ done bytes)
    × (ConnectionClose.parse version39 (bytes ++ 6 ∷ []) ≡ ok (connection_close, 6 ∷ []))
    × (length bytes ≡ ConnectionClose.min_length connection_close)
connection_close-round_trip_run =
    connection_close-round_trip connection_close version39 (6 ∷ []) (omega arith) (omega arith)

stop_waiting-round_trip_run :
    (bytes : List ℕ) × (StopWaiting.write stop_waiting version38 ≡ done bytes)
    × (StopWaiting.parse 300 2 version38 (bytes ++ [])
        ≡ ok (record { least_unacked = 4; packet_number_len = 0; packet_number = 0 }, []))
    × (some (length bytes) ≡ StopWaiting.min_length stop_waiting)
stop_waiting-round_trip_run =
    stop_waiting-round_trip stop_waiting version38 [] (inr (inl refl)) (omega arith) (omega arith)
      (omega arith) (omega arith)
