-- ===== src/Scheduler/Hands.antt =====
-- What the loops of getRetransmission take and hand on: a packet of a path, and the frames of a packet.
use mathlib.Core.List.{append-nil, append_assoc}
use agg_deliv.Common.{
  ℕ, ◌≡◌, List, [], ◌∷◌, ◌++◌, none, some, leb, if◌then◌else◌, ◌⊎◌, inl, inr, refl, sym, ap, add64,
  ◌∙◌, arith, List-cases, if_cases,
}
use agg_deliv.Wire.StreamFrame.{StreamFrame}
use agg_deliv.Wire.Control.WindowUpdate.{WindowUpdateFrame}
use agg_deliv.Ack.Packet.{
  Packet, Frame, stream, ack, stop_waiting, rst_stream, window_update, blocked, ping, goaway,
  connection_close, add_address, close_path, paths, get_frames_for_retransmission,
}
use agg_deliv.Flow.Manager.{get_receive_window, Result, ok, err}
use agg_deliv.Ack.Sent.State.{Congestion, SentPacketHandler}
use agg_deliv.Ack.Sent.Handler.{dequeue, dequeue_packet_for_retransmission}
use agg_deliv.Scheduler.Paths.{PathState}
use agg_deliv.Scheduler.Retransmission.{
  Session, is_forward_secure, resend_frame, resend, resend_window_update, queue_control_frame,
  add_frame_for_retransmission, schedule_paths_frame, add_paths_frame_for_transmission, Taken,
  put_back, retransmit_loop, all_queued,
}

-- The STREAM frames among some frames.
unfoldable pub stream_frames : List Frame → List StreamFrame
stream_frames [] = []
stream_frames (stream f ∷ fs) = f ∷ stream_frames fs
stream_frames (f ∷ fs) = stream_frames fs

stream_frames-cons :
    (f : Frame) (fs : List Frame)
    → stream_frames (f ∷ []) ++ stream_frames fs ≡ stream_frames (f ∷ fs)
unfolding stream_frames
stream_frames-cons f fs = ground arith

-- Those of the packets that were encrypted with forward security, in their order.
unfoldable pub streams_of : List Packet → List StreamFrame
unfolding is_forward_secure stream_frames get_frames_for_retransmission
streams_of [] = []
streams_of (p ∷ ps) =
    let rest = streams_of ps in
    if is_forward_secure p.encryption_level
    then stream_frames (get_frames_for_retransmission p) ++ rest
    else rest

module _ {C : Type 0} where
  dequeue_by :
      (h : SentPacketHandler C) (q : List Packet)
      → h.retransmission_queue ≡ q
      → dequeue_packet_for_retransmission h ≡ dequeue q h
  unfolding dequeue_packet_for_retransmission
  dequeue_by h q e = ap (λ (l : List Packet). dequeue l h) e

  -- A path from whose queue the first packet was taken.
  abbrev pub dequeued : PathState C → List Packet → PathState C
  dequeued p rest = record p {
    sent_packet_handler = record p.sent_packet_handler {
      retransmission_queue = rest;
      retransmissions = add64 p.sent_packet_handler.retransmissions 1;
    };
  }

  -- From `ps` to `qs` the packet `x` is taken, the first that one of the paths has queued.
  pub record IsTaken (ps : List (PathState C)) (x : Packet) (qs : List (PathState C)) : Type 0 where
    pub before : List (PathState C)
    pub path : PathState C
    pub after : List (PathState C)
    pub rest : List Packet
    pub split : ps ≡ before ++ path ∷ after
    pub front : path.sent_packet_handler.retransmission_queue ≡ x ∷ rest
    pub taken : qs ≡ before ++ dequeued path rest ∷ after

  behind :
      (p : PathState C) (ps : List (PathState C)) (x : Packet) (qs : List (PathState C))
      → IsTaken ps x qs
      → IsTaken (p ∷ ps) x (p ∷ qs)
  behind p ps x qs t = record {
    before = p ∷ t.before;
    path = t.path;
    after = t.after;
    rest = t.rest;
    split = ap (λ (l : List (PathState C)). p ∷ l) t.split;
    front = t.front;
    taken = ap (λ (l : List (PathState C)). p ∷ l) t.taken;
  }

  pub retransmit_loop_lem :
      (ps : List (PathState C))
      → ((retransmit_loop ps ≡ none) × (all_queued ps ≡ []))
        ⊎ ((t : Taken C) × (retransmit_loop ps ≡ some t)
            × (all_queued ps ≡ t.packet ∷ all_queued t.paths)
            × IsTaken ps t.packet t.paths)
  unfolding retransmit_loop all_queued dequeue put_back
  retransmit_loop_lem [] = inl (refl, refl)
  retransmit_loop_lem (p ∷ ps) =
      let h = p.sent_packet_handler in
      elim (List-cases h.retransmission_queue) [
        | inl e ↦
            let nothing : dequeue_packet_for_retransmission h ≡ none = dequeue_by h [] e in
            let joined : (q : List Packet) → h.retransmission_queue ++ q ≡ q =
              λ q. ap (λ (l : List Packet). l ++ q) e in
            elim (retransmit_loop_lem ps) [
              | inl (e', none_left) ↦
                  inl (rw (retransmit_loop, nothing, e') refl, joined (all_queued ps) ∙ none_left)
              | inr (t, e', next, taken) ↦ inr (
                record t { paths = p ∷ t.paths },
                rw (retransmit_loop, nothing, e') refl,
                joined (all_queued ps)
                    ∙ next
                    ∙ ap (λ (l : List Packet). t.packet ∷ l) (sym (joined (all_queued t.paths))),
                behind p ps t.packet t.paths taken,
              )
            ]
        | inr (x, rest, e) ↦ inr (
          record { packet = x; path_id = p.path_id; paths = dequeued p rest ∷ ps },
          rw (retransmit_loop, dequeue_by h (x ∷ rest) e) refl,
          ap (λ (l : List Packet). l ++ all_queued ps) e,
          record {
            before = [];
            path = p;
            after = ps;
            rest = rest;
            split = refl;
            front = e;
            taken = refl;
          },
        )
      ]

  -- From `s` to `s'` the frames `fs` join the queue of the framer.
  pub record Hands (fs : List StreamFrame) (s s' : Session C) : Type 0 where
    pub paths : s'.paths ≡ s.paths
    pub handshake : s'.handshake_complete ≡ s.handshake_complete
    pub queue : s'.stream_framer.retransmission_queue ≡ s.stream_framer.retransmission_queue ++ fs

  pub Hands-none :
      {s s' : Session C}
      → s'.paths ≡ s.paths
      → s'.handshake_complete ≡ s.handshake_complete
      → s'.stream_framer.retransmission_queue ≡ s.stream_framer.retransmission_queue
      → Hands [] s s'
  Hands-none {s} e1 e2 e3 = record {
    paths = e1;
    handshake = e2;
    queue = e3 ∙ sym (append-nil s.stream_framer.retransmission_queue);
  }

  pub Hands-cast :
      {fs gs : List StreamFrame} {s s' : Session C} → fs ≡ gs → Hands fs s s' → Hands gs s s'
  Hands-cast e hands = rw (← e) hands

  pub Hands-append :
      {fs gs : List StreamFrame} {s mid last : Session C}
      → Hands fs s mid
      → Hands gs mid last
      → Hands (fs ++ gs) s last
  Hands-append {fs} {gs} {s} one two = record {
    paths = two.paths ∙ one.paths;
    handshake = two.handshake ∙ one.handshake;
    queue =
        two.queue
        ∙ ap (λ (q : List StreamFrame). q ++ gs) one.queue
        ∙ append_assoc s.stream_framer.retransmission_queue fs gs;
  }

module _ {C : Type 0} (cc : Congestion C) where
  resend_window_update-Hands :
      (s : Session C) (id : ℕ) (f : WindowUpdateFrame) (r : Result ℕ)
      → Hands [] s (resend_window_update cc s id f r)
  unfolding resend_window_update
  resend_window_update-Hands s id f (err e) = Hands-none refl refl refl
  resend_window_update-Hands s id f (ok offset) =
      if_cases (Hands [] s) (leb offset f.byte_offset)
        (record s { packer = queue_control_frame s.packer (window_update f) id }) s
        (λ e. Hands-none refl refl refl) (λ e. Hands-none refl refl refl)

  resend_frame-Hands :
      (s : Session C) (now id : ℕ) (f : Frame)
      → Hands (stream_frames (f ∷ [])) s (resend_frame cc s now id f)
  unfolding resend_frame stream_frames add_frame_for_retransmission schedule_paths_frame
      add_paths_frame_for_transmission
  resend_frame-Hands s now id (stream f) = record { paths = refl; handshake = refl; queue = refl }
  resend_frame-Hands s now id (window_update f) =
      resend_window_update-Hands s id f (get_receive_window s.flow_control_manager f.stream_id)
  resend_frame-Hands s now id (ack f) = Hands-none refl refl refl
  resend_frame-Hands s now id (stop_waiting f) = Hands-none refl refl refl
  resend_frame-Hands s now id (rst_stream f) = Hands-none refl refl refl
  resend_frame-Hands s now id (blocked f) = Hands-none refl refl refl
  resend_frame-Hands s now id (ping f) = Hands-none refl refl refl
  resend_frame-Hands s now id (goaway f) = Hands-none refl refl refl
  resend_frame-Hands s now id (connection_close f) = Hands-none refl refl refl
  resend_frame-Hands s now id (add_address f) = Hands-none refl refl refl
  resend_frame-Hands s now id (close_path f) = Hands-none refl refl refl
  resend_frame-Hands s now id (paths f) = Hands-none refl refl refl

  pub resend-Hands :
      (s : Session C) (now id : ℕ) (fs : List Frame)
      → Hands (stream_frames fs) s (resend cc s now id fs)
  unfolding resend stream_frames
  resend-Hands s now id [] = Hands-none refl refl refl
  resend-Hands s now id (f ∷ fs) = Hands-cast (stream_frames-cons f fs) (
      Hands-append (resend_frame-Hands s now id f)
        (resend-Hands (resend_frame cc s now id f) now id fs))
