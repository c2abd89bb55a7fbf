-- ===== src/Ack/Packet/Retransmission.antt =====
-- The four loops over the frames of a packet agree, but for the frames that close something.
use agg_deliv.Common.{Bool, true, false, not, List, [], ◌∷◌, ◌≡◌, refl, arith, if◌then◌else◌}
use agg_deliv.Ack.Packet.{
  Frame, connection_close, close_path, Packet, is_frame_retransmittable, frames_loop,
  get_frames_for_retransmission, retransmittable_loop, is_retransmittable,
  strip_non_retransmittable_frames, has_retransmittable_frames,
}

abbrev pub is_empty : List Frame → Bool
is_empty [] = true
is_empty (f ∷ fs) = false

abbrev pub closes : Frame → Bool
closes (connection_close f) = true
closes (close_path f) = true
closes f = false

-- The frames that do not close the connection or a path.
unfoldable pub without_closing : List Frame → List Frame
without_closing [] = []
without_closing (f ∷ fs) = let rest = without_closing fs in if closes f then rest else f ∷ rest

frames_loop-strip : (fs : List Frame) → frames_loop fs ≡ strip_non_retransmittable_frames fs
unfolding frames_loop strip_non_retransmittable_frames is_frame_retransmittable
frames_loop-strip [] = refl
frames_loop-strip (f ∷ fs) = ground (arith, frames_loop-strip fs)

has-strip :
    (fs : List Frame)
    → has_retransmittable_frames fs ≡ not (is_empty (strip_non_retransmittable_frames fs))
unfolding has_retransmittable_frames strip_non_retransmittable_frames is_frame_retransmittable
has-strip [] = refl
has-strip (f ∷ fs) = ground (arith, has-strip fs)

loop-strip :
    (fs : List Frame)
    → retransmittable_loop fs
      ≡ not (is_empty (without_closing (strip_non_retransmittable_frames fs)))
unfolding retransmittable_loop strip_non_retransmittable_frames is_frame_retransmittable
    without_closing
loop-strip [] = refl
loop-strip (f ∷ fs) = ground (arith, loop-strip fs)

-- The frames for retransmission of a packet are those that stripNonRetransmittableFrames keeps, in order;
-- HasRetransmittableFrames tells whether there are any; and IsRetransmittable tells whether there is one
-- that does not close the connection or a path.
pub get_frames_for_retransmission_lem :
    (p : Packet)
    → (get_frames_for_retransmission p ≡ strip_non_retransmittable_frames p.frames)
      × (has_retransmittable_frames p.frames ≡ not (is_empty (get_frames_for_retransmission p)))
      × (is_retransmittable p ≡ not (is_empty (without_closing (get_frames_for_retransmission p))))
unfolding get_frames_for_retransmission is_retransmittable
get_frames_for_retransmission_lem p =
    let same = frames_loop-strip p.frames in
    (same, rw same (has-strip p.frames), rw same (loop-strip p.frames))
