-- ===== src/Ack/Packet/Tests.antt =====
-- The frames of packets that are sent again.
use agg_deliv.Common.{true, false, not, List, [], ◌∷◌, ◌≡◌, refl}
use agg_deliv.Ack.Packet.{
  Frame, stop_waiting, blocked, close_path, Packet, encryption_forward_secure,
  get_frames_for_retransmission, frames_loop, is_retransmittable, retransmittable_loop,
  strip_non_retransmittable_frames, has_retransmittable_frames, is_frame_retransmittable,
}
use agg_deliv.Ack.Packet.Retransmission.{
  is_empty, without_closing, get_frames_for_retransmission_lem,
}

abbrev told : Frame
told = stop_waiting (record { least_unacked = 3; packet_number_len = 2; packet_number = 9 })

abbrev closing : Frame
closing = close_path (record { path_id = 1; largest_acked = 5; lowest_acked = 5; ack_ranges = [] })

abbrev packet_of : List Frame → Packet
packet_of frames = record {
  packet_number = 9;
  frames = frames;
  length = 100;
  encryption_level = encryption_forward_secure;
  send_time = 0;
}

abbrev packet : Packet
packet = packet_of (told ∷ closing ∷ blocked (record { stream_id = 5 }) ∷ [])

kept : get_frames_for_retransmission packet ≡ closing ∷ blocked (record { stream_id = 5 }) ∷ []
unfolding get_frames_for_retransmission frames_loop
kept = refl

only_closing :
    (has_retransmittable_frames (closing ∷ []) ≡ true)
    × (is_retransmittable (packet_of (closing ∷ [])) ≡ false)
unfolding has_retransmittable_frames is_frame_retransmittable is_retransmittable
    retransmittable_loop
only_closing = (refl, refl)

get_frames_for_retransmission_lem_run :
    (get_frames_for_retransmission packet ≡ strip_non_retransmittable_frames packet.frames)
    × (has_retransmittable_frames packet.frames
        ≡ not (is_empty (get_frames_for_retransmission packet)))
    × (is_retransmittable packet
        ≡ not (is_empty (without_closing (get_frames_for_retransmission packet))))
get_frames_for_retransmission_lem_run = get_frames_for_retransmission_lem packet
