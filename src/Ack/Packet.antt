-- ===== src/Ack/Packet.antt =====
-- mpquic_trans/ackhandler/packet.go and retransmittable.go: the frames of a packet that are sent again. A
-- frame is one of the types that implement wire.Frame; a switch on its type is a match on the constructor.
pub mod Retransmission
mod Tests
use agg_deliv.Common.{ℕ, Bool, true, false, List, [], ◌∷◌, if◌then◌else◌}
use agg_deliv.Wire.AckFrame.{AckFrame}
use agg_deliv.Wire.StreamFrame.{StreamFrame}
use agg_deliv.Wire.Control.WindowUpdate.{WindowUpdateFrame}
use agg_deliv.Wire.Control.Blocked.{BlockedFrame}
use agg_deliv.Wire.Control.RstStream.{RstStreamFrame}
use agg_deliv.Wire.Control.Goaway.{GoawayFrame}
use agg_deliv.Wire.Control.ConnectionClose.{ConnectionCloseFrame}
use agg_deliv.Wire.Control.Ping.{PingFrame}
use agg_deliv.Wire.Control.StopWaiting.{StopWaitingFrame}
use agg_deliv.Ack.Receiver.{ClosePathFrame}

-- net.UDPAddr, its IP address and its zone as bytes.
pub record UdpAddr : Type 0 where
  pub ip : List ℕ
  pub port : ℕ
  pub zone : List ℕ

pub record AddAddressFrame : Type 0 where
  pub ip_version : ℕ
  pub addr : UdpAddr

pub record PathsFrame : Type 0 where
  pub max_num_paths : ℕ
  pub num_paths : ℕ
  pub path_ids : List ℕ
  pub remote_rtts : List ℕ

pub data Frame : Type 0 where
  stream : StreamFrame → Frame
  ack : AckFrame → Frame
  stop_waiting : StopWaitingFrame → Frame
  rst_stream : RstStreamFrame → Frame
  window_update : WindowUpdateFrame → Frame
  blocked : BlockedFrame → Frame
  ping : PingFrame → Frame
  goaway : GoawayFrame → Frame
  connection_close : ConnectionCloseFrame → Frame
  add_address : AddAddressFrame → Frame
  close_path : ClosePathFrame → Frame
  paths : PathsFrame → Frame

pub data EncryptionLevel : Type 0 where
  encryption_unspecified : EncryptionLevel
  encryption_unencrypted : EncryptionLevel
  encryption_secure : EncryptionLevel
  encryption_forward_secure : EncryptionLevel

pub record Packet : Type 0 where
  pub packet_number : ℕ
  pub frames : List Frame
  pub length : ℕ
  pub encryption_level : EncryptionLevel
  pub send_time : ℕ

unfoldable pub is_frame_retransmittable : Frame → Bool
is_frame_retransmittable (stop_waiting f) = false
is_frame_retransmittable (ack f) = false
is_frame_retransmittable f = true

-- The loop of GetFramesForRetransmission, with the frames before in order.
unfoldable pub frames_loop : List Frame → List Frame
frames_loop [] = []
frames_loop (ack f ∷ fs) = frames_loop fs
frames_loop (stop_waiting f ∷ fs) = frames_loop fs
frames_loop (f ∷ fs) = f ∷ frames_loop fs

unfoldable pub get_frames_for_retransmission : Packet → List Frame
unfolding frames_loop
get_frames_for_retransmission p = frames_loop p.frames

unfoldable pub retransmittable_loop : List Frame → Bool
retransmittable_loop [] = false
retransmittable_loop (stream f ∷ fs) = true
retransmittable_loop (rst_stream f ∷ fs) = true
retransmittable_loop (window_update f ∷ fs) = true
retransmittable_loop (blocked f ∷ fs) = true
retransmittable_loop (ping f ∷ fs) = true
retransmittable_loop (goaway f ∷ fs) = true
retransmittable_loop (add_address f ∷ fs) = true
retransmittable_loop (paths f ∷ fs) = true
retransmittable_loop (f ∷ fs) = retransmittable_loop fs

unfoldable pub is_retransmittable : Packet → Bool
unfolding retransmittable_loop
is_retransmittable p = retransmittable_loop p.frames

unfoldable pub strip_non_retransmittable_frames : List Frame → List Frame
unfolding is_frame_retransmittable
strip_non_retransmittable_frames [] = []
strip_non_retransmittable_frames (f ∷ fs) =
    let rest = strip_non_retransmittable_frames fs in
    if is_frame_retransmittable f then f ∷ rest else rest

unfoldable pub has_retransmittable_frames : List Frame → Bool
unfolding is_frame_retransmittable
has_retransmittable_frames [] = false
has_retransmittable_frames (f ∷ fs) =
    if is_frame_retransmittable f then true else has_retransmittable_frames fs
