-- ===== src/Scheduler/Retransmission.antt =====
-- getRetransmission: the packets that the paths have queued again are taken apart, and their frames handed
-- to the stream framer and the packet packer (of mpquic_trans/stream_framer.go and packet_packer.go, as far
-- as they are reached from here).
use agg_deliv.Common.{
  ℕ, zero, suc, ◌%◌, ◌^◌, Bool, true, false, not, ◌&&◌, List, [], ◌∷◌, ◌++◌, Option, none, some,
  leb, ◌==◌, if◌then◌else◌, length,
}
use agg_deliv.Wire.AckFrame.{AckFrame}
use agg_deliv.Wire.StreamFrame.{StreamFrame}
use agg_deliv.Wire.Control.StopWaiting.{StopWaitingFrame}
use agg_deliv.Wire.Control.WindowUpdate.{WindowUpdateFrame}
use agg_deliv.Ack.Packet.{
  Packet, Frame, stream, ack, stop_waiting, window_update, paths, PathsFrame, EncryptionLevel,
  encryption_unspecified, encryption_unencrypted, encryption_secure, encryption_forward_secure,
  get_frames_for_retransmission,
}
use agg_deliv.Flow.Manager.{FlowControlManager, get_receive_window, Result, ok, err}
use agg_deliv.Ack.Sent.State.{Congestion}
use agg_deliv.Ack.Sent.Handler.{dequeue_packet_for_retransmission}
use agg_deliv.Scheduler.Paths.{PathState, smoothed_rtt}

pub record PacketPacker : Type 0 where
  pub control_frames : List Frame
  pub stop_waiting : ℕ → Option StopWaitingFrame
  pub ack_frame : ℕ → Option AckFrame

-- `m[id] = a`
abbrev pub update : {A : Type 0} → (ℕ → Option A) → ℕ → A → ℕ → Option A
update m id a other = if other == id then some a else m other

unfoldable pub queue_control_frame : PacketPacker → Frame → ℕ → PacketPacker
queue_control_frame p (stop_waiting f) path_id = record p {
  stop_waiting = update p.stop_waiting path_id f;
}
queue_control_frame p (ack f) path_id = record p { ack_frame = update p.ack_frame path_id f }
queue_control_frame p f path_id = record p { control_frames = p.control_frames ++ f ∷ [] }

pub record StreamFramer : Type 0 where
  pub retransmission_queue : List StreamFrame
  pub paths_frame : Option PathsFrame

unfoldable pub add_frame_for_retransmission : StreamFramer → StreamFrame → StreamFramer
add_frame_for_retransmission f frame = record f {
  retransmission_queue = f.retransmission_queue ++ frame ∷ [];
}

pub record Session (C : Type 0) : Type 0 where
  pub paths : List (PathState C)
  pub handshake_complete : Bool
  pub stream_framer : StreamFramer
  pub packer : PacketPacker
  pub flow_control_manager : FlowControlManager
  pub last_paths_frame_sent : ℕ

unfoldable pub is_forward_secure : EncryptionLevel → Bool
is_forward_secure encryption_forward_secure = true
is_forward_secure encryption_unspecified = false
is_forward_secure encryption_unencrypted = false
is_forward_secure encryption_secure = false

-- time.Hour
abbrev pub hour : ℕ
hour = 3_600_000_000_000

module _ {C : Type 0} (cc : Congestion C) where
  -- The identifiers for a PATHS frame, in the order of the list.
  unfoldable pub path_ids_of : List (PathState C) → List ℕ
  path_ids_of [] = []
  path_ids_of (p ∷ ps) = p.path_id ∷ path_ids_of ps

  unfoldable pub remote_rtts_of : List (PathState C) → List ℕ
  unfolding smoothed_rtt
  remote_rtts_of [] = []
  remote_rtts_of (p ∷ ps) =
      (if p.potentially_failed then hour else smoothed_rtt cc p) ∷ remote_rtts_of ps

  unfoldable pub add_paths_frame_for_transmission : StreamFramer → List (PathState C) → StreamFramer
  unfolding path_ids_of remote_rtts_of
  add_paths_frame_for_transmission f ps = record f {
    paths_frame = some (record {
      max_num_paths = 255;
      num_paths = length ps % 2 ^ 8;
      path_ids = path_ids_of ps;
      remote_rtts = remote_rtts_of ps;
    });
  }

  unfoldable pub schedule_paths_frame : Session C → ℕ → Session C
  unfolding add_paths_frame_for_transmission
  schedule_paths_frame s now = record s {
    last_paths_frame_sent = now;
    stream_framer = add_paths_frame_for_transmission s.stream_framer s.paths;
  }

  -- A window update, with the receive window of its stream.
  unfoldable pub resend_window_update : Session C → ℕ → WindowUpdateFrame → Result ℕ → Session C
  unfolding queue_control_frame
  resend_window_update s path_id f (err e) = s
  resend_window_update s path_id f (ok current_offset) =
      if leb current_offset f.byte_offset
      then record s { packer = queue_control_frame s.packer (window_update f) path_id }
      else s

  -- The switch on the type of a frame.
  unfoldable pub resend_frame : Session C → ℕ → ℕ → Frame → Session C
  unfolding add_frame_for_retransmission schedule_paths_frame resend_window_update
      queue_control_frame
  resend_frame s now path_id (stream f) = record s {
    stream_framer = add_frame_for_retransmission s.stream_framer f;
  }
  resend_frame s now path_id (window_update f) =
      resend_window_update s path_id f (get_receive_window s.flow_control_manager f.stream_id)
  resend_frame s now path_id (paths f) = schedule_paths_frame s now
  resend_frame s now path_id f = record s { packer = queue_control_frame s.packer f path_id }

  unfoldable pub resend : Session C → ℕ → ℕ → List Frame → Session C
  unfolding resend_frame
  resend s now path_id [] = s
  resend s now path_id (f ∷ fs) = resend (resend_frame s now path_id f) now path_id fs

-- A packet that the loop over the paths has found, the identifier of its path, and the paths after.
pub record Taken (C : Type 0) : Type 0 where
  pub packet : Packet
  pub path_id : ℕ
  pub paths : List (PathState C)

-- The results of getRetransmission, the path by its identifier, and the session after.
pub record Retransmission (C : Type 0) : Type 0 where
  pub session : Session C
  pub has_retransmission : Bool
  pub packet : Option Packet
  pub path_id : Option ℕ

module _ {C : Type 0} where
  -- A path without a packet is put back in front of what the later ones give.
  unfoldable pub put_back : PathState C → Option (Taken C) → Option (Taken C)
  put_back p none = none
  put_back p (some t) = some (record t { paths = p ∷ t.paths })

  unfoldable pub retransmit_loop : List (PathState C) → Option (Taken C)
  unfolding put_back dequeue_packet_for_retransmission
  retransmit_loop [] = none
  retransmit_loop (p ∷ ps) =
      let later = retransmit_loop ps in
      elim (dequeue_packet_for_retransmission p.sent_packet_handler) [
        | none ↦ put_back p later
        | some (packet, handler) ↦ some (record {
          packet = packet;
          path_id = p.path_id;
          paths = (record p { sent_packet_handler = handler }) ∷ ps;
        })
      ]

  -- The packets that are queued on all paths.
  unfoldable pub all_queued : List (PathState C) → List Packet
  all_queued [] = []
  all_queued (p ∷ ps) = p.sent_packet_handler.retransmission_queue ++ all_queued ps

module _ {C : Type 0} (cc : Congestion C) where
  -- The frames of a packet that was taken are sent again if it was encrypted with forward security.
  unfoldable pub handle_taken : Session C → ℕ → Taken C → Session C
  unfolding is_forward_secure resend get_frames_for_retransmission
  handle_taken s now t =
      let taken = record s { paths = t.paths } in
      if is_forward_secure t.packet.encryption_level
      then resend cc taken now t.path_id (get_frames_for_retransmission t.packet)
      else taken

  -- The outer loop with the rounds that are left, `none` if they do not suffice. `orders n` is the order in
  -- which the round that leaves `n` of them visits the map of paths.
  unfoldable pub retransmission_rounds :
      (ℕ → List (PathState C) → List (PathState C))
      → ℕ
      → ℕ
      → Retransmission C
      → Option (Retransmission C)
  unfolding retransmit_loop is_forward_secure handle_taken
  retransmission_rounds orders zero now r = none
  retransmission_rounds orders (suc n) now r = elim (retransmit_loop (orders n r.session.paths)) [
    | none ↦ some r
    | some t ↦
        let next : Retransmission C = record {
          session = handle_taken r.session now t;
          has_retransmission = true;
          packet = none;
          path_id = some t.path_id;
        } in
        let rest = retransmission_rounds orders n now next in
        if not (is_forward_secure t.packet.encryption_level) && not r.session.handshake_complete
        then some (record next { packet = some t.packet })
        else rest
  ]

  -- A round takes one packet, so that one round more than packets are queued suffices.
  unfoldable pub get_retransmission :
      (ℕ → List (PathState C) → List (PathState C)) → Session C → ℕ → Option (Retransmission C)
  unfolding retransmission_rounds all_queued
  get_retransmission orders s now =
      retransmission_rounds orders (suc (length (all_queued s.paths))) now
        (record { session = s; has_retransmission = false; packet = none; path_id = none })
