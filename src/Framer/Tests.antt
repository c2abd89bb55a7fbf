-- ===== src/Framer/Tests.antt =====
-- The framer on two queued frames, the second of which is split.
use agg_deliv.Common.{ℕ, ◌≤◌, ◌≡◌, false, List, [], ◌∷◌, ◌++◌, map, arith, refl}
use agg_deliv.Wire.StreamFrame.{
  StreamFrame, min_length, calculate_stream_id_length, get_offset_length,
}
use agg_deliv.Flow.Controller.{FlowController}
use agg_deliv.Flow.Manager.{FlowControlManager}
use agg_deliv.Framer.{
  maybe_pop_frames_for_retransmission, pop_loop, pop_split, maybe_split_off_frame,
}
use agg_deliv.Framer.Contents.{contents, room, AreSmall, maybe_pop_frames_for_retransmission_lem}

abbrev connection : FlowController
connection = record {
  stream_id = 0;
  contributes_to_connection = false;
  bytes_sent = 0;
  send_window = 0;
  bytes_retrans = 0;
  last_window_update_time = 0;
  bytes_read = 0;
  highest_received = 0;
  receive_window = 1000;
  receive_window_increment = 1000;
  max_receive_window_increment = 1000;
}

abbrev manager : FlowControlManager
manager = record { streams = []; conn = connection }

abbrev frame : ℕ → List ℕ → StreamFrame
frame o bytes = record {
  stream_id = 5;
  fin_bit = false;
  data_len_present = false;
  offset = o;
  payload = bytes;
}

abbrev queue : List StreamFrame
queue = frame 0 (1 ∷ 2 ∷ []) ∷ frame 2 (3 ∷ 4 ∷ 5 ∷ []) ∷ []

queue-AreSmall : AreSmall queue
unfolding AreSmall
queue-AreSmall = (omega arith, (omega arith, omega arith))

maybe_pop_frames_for_retransmission_lem_example :
    let r = maybe_pop_frames_for_retransmission manager queue 13 in
    (contents (r.frames ++ r.queue) ≡ contents queue)
    × (r.current_len ≡ room r.frames)
    × (room r.frames ≤ 13)
maybe_pop_frames_for_retransmission_lem_example =
    maybe_pop_frames_for_retransmission_lem manager queue 13 (omega arith) queue-AreSmall

-- Two bytes of the first frame and one of the second fit.
popped :
    map StreamFrame.payload (maybe_pop_frames_for_retransmission manager queue 13).frames
    ≡ (1 ∷ 2 ∷ []) ∷ (3 ∷ []) ∷ []
unfolding maybe_pop_frames_for_retransmission pop_loop pop_split maybe_split_off_frame min_length
    calculate_stream_id_length get_offset_length
popped = refl
