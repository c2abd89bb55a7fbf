-- ===== src/Scheduler/Drain.antt =====
-- getRetransmission ends, and what it leaves.
use mathlib.Core.List.{append-nil, append_assoc}
use mathlib.Core.List.{Permᴰ}
use mathlib.Core.Path.{subst}
use agg_deliv.Common.{
  ℕ, zero, suc, ◌<◌, ◌≡◌, true, false, not, ◌&&◌, List, [], ◌∷◌, ◌++◌, Option, none, some,
  if◌then◌else◌, length, ◌⊎◌, inl, inr, refl, sym, ap, ◌∙◌, arith, Bool-cases, if_cases,
}
use agg_deliv.Wire.StreamFrame.{StreamFrame}
use agg_deliv.Ack.Packet.{Packet, get_frames_for_retransmission}
use agg_deliv.Ack.Sent.State.{Congestion}
use agg_deliv.Scheduler.Paths.{PathState}
use agg_deliv.Scheduler.Retransmission.{
  Session, is_forward_secure, handle_taken, Taken, Retransmission, retransmit_loop, all_queued,
  retransmission_rounds, get_retransmission,
}
use agg_deliv.Scheduler.Drawn.{IsDrawn, stays, draws, all_queued-order, none_queued}
use agg_deliv.Scheduler.Hands.{
  stream_frames, streams_of, IsTaken, retransmit_loop_lem, Hands, Hands-none, Hands-cast,
  resend-Hands,
}

-- `orders` gives in each round an order of the paths.
unfoldable pub AreOrders : {C : Type 0} → (ℕ → List (PathState C) → List (PathState C)) → Type 0
AreOrders {C} orders = (n : ℕ) (ps : List (PathState C)) → Permᴰ ps (orders n ps)

module _ {C : Type 0} (cc : Congestion C) where
  -- The session behind a packet that was taken.
  abbrev taking : Session C → Taken C → Session C
  taking s t = record s { paths = t.paths }

  handle_taken-Hands :
      (s : Session C) (now : ℕ) (t : Taken C)
      → Hands (streams_of (t.packet ∷ [])) (taking s t) (handle_taken cc s now t)
  unfolding handle_taken streams_of
  handle_taken-Hands s now t = elim (Bool-cases (is_forward_secure t.packet.encryption_level)) [
    | inl e ↦
        let all =
          resend-Hands cc (taking s t) now t.path_id (get_frames_for_retransmission t.packet) in
        rw e (
          Hands-cast (sym (append-nil (stream_frames (get_frames_for_retransmission t.packet))))
            all)
    | inr e ↦ rw e (Hands-none refl refl refl)
  ]

  abbrev next_of : ℕ → Retransmission C → Taken C → Retransmission C
  next_of now r t = record {
    session = handle_taken cc r.session now t;
    has_retransmission = true;
    packet = none;
    path_id = some t.path_id;
  }

  -- From the session `s` the packets `before` were taken apart, and `r` is the result.
  pub record Drains (s : Session C) (r : Retransmission C) : Type 0 where
    pub before : List Packet
    pub queue :
        r.session.stream_framer.retransmission_queue
        ≡ s.stream_framer.retransmission_queue ++ streams_of before
    pub left :
        ((r.packet ≡ none)
          × IsDrawn s.paths before r.session.paths
          × (all_queued r.session.paths ≡ []))
        ⊎ ((x : Packet) × (r.packet ≡ some x)
            × IsDrawn s.paths (before ++ x ∷ []) r.session.paths
            × (is_forward_secure x.encryption_level ≡ false)
            × (s.handshake_complete ≡ false))

  -- Some rounds end.
  unfoldable pub Ends : Session C → Option (Retransmission C) → Type 0
  Ends s o = (r : Retransmission C) × (o ≡ some r) × Drains s r

  one_round :
      (orders : ℕ → List (PathState C) → List (PathState C)) (n now : ℕ) (r : Retransmission C)
      (t : Taken C)
      → retransmit_loop (orders n r.session.paths) ≡ some t
      → retransmission_rounds cc orders (suc n) now r ≡ (
          if not (is_forward_secure t.packet.encryption_level) && not r.session.handshake_complete
          then some (record (next_of now r t) { packet = some t.packet })
          else retransmission_rounds cc orders n now (next_of now r t))
  unfolding retransmission_rounds
  one_round orders n now r t e = rw (retransmission_rounds, e) refl

  streams_of-cons :
      (x : Packet) (xs : List Packet) → streams_of (x ∷ []) ++ streams_of xs ≡ streams_of (x ∷ xs)
  unfolding streams_of
  streams_of-cons x xs = elim (Bool-cases (is_forward_secure x.encryption_level)) [
    | inl e ↦ rw e (
        ap (λ (l : List StreamFrame). l ++ streams_of xs)
          (append-nil (stream_frames (get_frames_for_retransmission x))))
    | inr e ↦ rw e refl
  ]

  streams_of-plain :
      (x : Packet) → is_forward_secure x.encryption_level ≡ false → streams_of (x ∷ []) ≡ []
  unfolding streams_of
  streams_of-plain x e = rw e refl

  Drains-cons :
      (s : Session C) (now : ℕ) (t : Taken C) (r : Retransmission C) (qs : List (PathState C))
      → Permᴰ s.paths qs
      → IsTaken qs t.packet t.paths
      → Drains (handle_taken cc s now t) r
      → Drains s r
  Drains-cons s now t r qs order taken d =
      let hands = handle_taken-Hands s now t in
      let more : (xs : List Packet)
          → IsDrawn (handle_taken cc s now t).paths xs r.session.paths
          → IsDrawn s.paths (t.packet ∷ xs) r.session.paths =
        λ xs rest.
          draws order taken
            (subst (λ (ps : List (PathState C)). IsDrawn ps xs r.session.paths) hands.paths rest) in
      record {
        before = t.packet ∷ d.before;
        queue =
            d.queue
            ∙ ap (λ (q : List StreamFrame). q ++ streams_of d.before) hands.queue
            ∙ append_assoc s.stream_framer.retransmission_queue (streams_of (t.packet ∷ []))
                (streams_of d.before)
            ∙ ap (λ (q : List StreamFrame). s.stream_framer.retransmission_queue ++ q)
                (streams_of-cons t.packet d.before);
        left = elim d.left [
          | inl (e, all, empty) ↦ inl (e, more d.before all, empty)
          | inr (x, e, all, plain, shaking) ↦
              inr (x, e, more (d.before ++ x ∷ []) all, plain, sym hands.handshake ∙ shaking)
        ];
      }

  -- A packet that is returned as it is.
  stopped :
      (now : ℕ) (r : Retransmission C) (t : Taken C) (qs : List (PathState C))
      → Permᴰ r.session.paths qs
      → IsTaken qs t.packet t.paths
      → is_forward_secure t.packet.encryption_level ≡ false
      → r.session.handshake_complete ≡ false
      → Drains r.session (record (next_of now r t) { packet = some t.packet })
  unfolding streams_of
  stopped now r t qs order taken plain shaking =
      let hands = handle_taken-Hands r.session now t in
      let queued = r.session.stream_framer.retransmission_queue in
      record {
        before = [];
        queue =
            hands.queue
            ∙ ap (λ (q : List StreamFrame). queued ++ q) (streams_of-plain t.packet plain);
        left = inr (
          t.packet,
          refl,
          draws order taken
              (subst (λ (ps : List (PathState C)). IsDrawn t.paths [] ps) (sym hands.paths) stays),
          plain,
          shaking,
        );
      }

  retransmission_rounds_lem :
      (orders : ℕ → List (PathState C) → List (PathState C)) (n now : ℕ) (r : Retransmission C)
      → AreOrders orders
      → r.packet ≡ none
      → length (all_queued r.session.paths) < n
      → Ends r.session (retransmission_rounds cc orders n now r)
  unfolding retransmission_rounds Ends streams_of AreOrders
  retransmission_rounds_lem orders zero now r ordered unset enough = absurd (omega arith)
  retransmission_rounds_lem orders (suc n) now r ordered unset enough =
      let qs = orders n r.session.paths in
      let order = ordered n r.session.paths in
      let size = all_queued-order r.session.paths qs order in
      elim (retransmit_loop_lem qs) [
        | inl (e, empty) ↦
            rw (retransmission_rounds, e)
              (
                r,
                refl,
                record {
                  before = [];
                  queue = sym (append-nil r.session.stream_framer.retransmission_queue);
                  left = inl (unset, stays, none_queued r.session.paths qs order empty);
                },
              )
        | inr (t, e, first, taken) ↦
            let next = next_of now r t in
            let hands = handle_taken-Hands r.session now t in
            let fewer : length (all_queued next.session.paths) < n = omega (
              arith,
              size,
              ap (λ (q : List Packet). length q) first,
              ap (λ (ps : List (PathState C)). length (all_queued ps)) hands.paths,
            ) in
            let (last, ended, d) = retransmission_rounds_lem orders n now next ordered refl fewer in
            let plain = not (is_forward_secure t.packet.encryption_level) in
            subst (Ends r.session) (sym (one_round orders n now r t e)) (
              if_cases (Ends r.session) (plain && not r.session.handshake_complete)
                (some (record next { packet = some t.packet }))
                (retransmission_rounds cc orders n now next)
                (λ both. (
                  record next { packet = some t.packet },
                  refl,
                  stopped now r t qs order taken (ground arith) (ground arith),
                ))
                (λ otherwise. (last, ended, Drains-cons r.session now t last qs order taken d)))
      ]

  -- In whatever order each round visits the paths, getRetransmission ends after at most one round more than
  -- packets are queued, and it returns a result. Then some packets were drawn and taken apart, each from the
  -- front of the queue of one path: the STREAM frames of those with forward security are behind the framer's
  -- queue, in the order in which the packets were drawn. Either no packet is returned, and no path
  -- has a queued packet left; or the packet that was drawn last is returned and not taken apart, it is one
  -- without forward security, and the handshake is not complete.
  pub get_retransmission_lem :
      (orders : ℕ → List (PathState C) → List (PathState C)) (s : Session C) (now : ℕ)
      → AreOrders orders
      → (r : Retransmission C) × (get_retransmission cc orders s now ≡ some r) × Drains s r
  unfolding get_retransmission Ends
  get_retransmission_lem orders s now ordered =
      retransmission_rounds_lem orders (suc (length (all_queued s.paths))) now
        (record { session = s; has_retransmission = false; packet = none; path_id = none }) ordered
        refl (omega arith)
