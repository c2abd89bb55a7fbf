-- ===== src/Stream/Flags.antt =====
-- A stream over sequences of calls.
use agg_deliv.Common.{
  ℕ, ◌≤◌, ◌≡◌, true, false, List, [], ◌∷◌, Option, none, some, if◌then◌else◌, length, if_cases,
  refl, ap, ◌∙◌, arith, ◌⊎◌, inl, inr,
}
use agg_deliv.Wire.StreamFrame.{StreamFrame}
use agg_deliv.Flow.Manager.{FlowControlManager}
use agg_deliv.Stream.{
  Stream, new_stream, finished, finished_write_and_sent_fin, should_send_reset, should_send_fin,
  sent_fin, close, cancel, Resetting, maybe_send_reset, reset, register_remote_error, set_deadline,
  add_stream_frame, close_remote, virtual_fin,
}
use agg_deliv.Stream.Read.{Tick, read, resume_read}
use agg_deliv.Stream.Write.{write_begin, get_data_for_writing}
use agg_deliv.Stream.LaterRead.{read-Later, resume_read-Later}
use agg_deliv.Stream.Later.{
  Later, Later-refl, Later_trans, cancel-Later, IsResetting, reset-IsResetting,
  register_remote_error-IsResetting, IsResetting-Later, set_deadline-Later, add_stream_frame-Later,
  write_begin-Later, get_data_for_writing-Later, sent_fin-Later, close-Later,
}

-- The calls that change a stream. The FIN is sent by the framer where shouldSendFin says so.
pub data Call (E : Type 0) : Type 0 where
  reads : (ℕ → Tick) → ℕ → Call E
  resumes : (ℕ → Tick) → ℕ → Call E
  writes : List ℕ → Call E
  takes : ℕ → Call E
  fins : Call E
  closes : Call E
  cancels : Option E → Call E
  resets : Option E → Call E
  remote_errors : Option E → Call E
  adds : StreamFrame → Call E
  closes_remote : ℕ → Call E
  sets_deadline : ℕ → Call E

-- A stream and its flow control manager, with the offsets that onReset was called with, the last one first.
pub record World (E : Type 0) : Type 0 where
  pub stream : Stream E
  pub manager : FlowControlManager
  pub on_resets : List ℕ

abbrev called : Option ℕ → List ℕ → List ℕ
called none offsets = offsets
called (some o) offsets = o ∷ offsets

module _ {E : Type 0} where
  abbrev with_stream : World E → Stream E → World E
  with_stream w s = record w { stream = s }

  abbrev with_reset : World E → Resetting E → World E
  with_reset w r = record w { stream = r.stream; on_resets = called r.on_reset w.on_resets }

  unfoldable pub step : World E → Call E → World E
  step w (reads clock n) =
      let r = read w.stream w.manager clock n in record w { stream = r.stream; manager = r.manager }
  step w (resumes clock n) =
      let r = resume_read w.stream w.manager clock n in
      record w { stream = r.stream; manager = r.manager }
  step w (writes p) = with_stream w (write_begin w.stream p).stream
  step w (takes n) = with_stream w (get_data_for_writing w.stream n).stream
  step w fins = with_stream w (if should_send_fin w.stream then sent_fin w.stream else w.stream)
  step w closes = with_stream w (close w.stream)
  step w (cancels e) = with_stream w (cancel w.stream e)
  step w (resets e) = with_reset w (reset w.stream e)
  step w (remote_errors e) = with_reset w (register_remote_error w.stream e)
  step w (adds frame) =
      let a = add_stream_frame w.stream w.manager frame in
      record w { stream = a.stream; manager = a.manager }
  step w (closes_remote offset) =
      let a = close_remote w.stream w.manager offset in
      record w { stream = a.stream; manager = a.manager }
  step w (sets_deadline t) = with_stream w (set_deadline w.stream t)

  unfoldable pub run : World E → List (Call E) → World E
  unfolding step
  run w [] = w
  run w (c ∷ cs) = run (step w c) cs

  step-Later : (w : World E) (c : Call E) → Later E w.stream (step w c).stream
  unfolding step close_remote
  step-Later w (reads clock n) = read-Later w.stream w.manager clock n
  step-Later w (resumes clock n) = resume_read-Later w.stream w.manager clock n
  step-Later w (writes p) = write_begin-Later w.stream p
  step-Later w (takes n) = get_data_for_writing-Later w.stream n
  step-Later w fins = sent_fin-Later w.stream
  step-Later w closes = close-Later w.stream
  step-Later w (cancels e) = cancel-Later w.stream e
  step-Later w (resets e) =
      IsResetting-Later w.stream (reset w.stream e) (reset-IsResetting w.stream e)
  step-Later w (remote_errors e) =
      IsResetting-Later w.stream (register_remote_error w.stream e)
        (register_remote_error-IsResetting w.stream e)
  step-Later w (adds frame) = add_stream_frame-Later w.stream w.manager frame
  step-Later w (closes_remote offset) =
      add_stream_frame-Later w.stream w.manager (virtual_fin offset)
  step-Later w (sets_deadline t) = set_deadline-Later w.stream t

  pub run-Later : (w : World E) (cs : List (Call E)) → Later E w.stream (run w cs).stream
  unfolding run
  run-Later w [] = Later-refl w.stream
  run-Later w (c ∷ cs) =
      Later_trans w.stream (step w c).stream (run (step w c) cs).stream (step-Later w c)
        (run-Later (step w c) cs)

  Later-finished : (s t : Stream E) → Later E s t → finished s ≡ true → finished t ≡ true
  unfolding finished finished_write_and_sent_fin
  Later-finished s t l h =
      let a = l.cancelled in
      let b = l.finished_reading in
      let c = l.finished_writing in
      let d = l.reset_remotely in let e = l.fin_sent in let f = l.rst_sent in ground arith

  -- Over any calls on any stream: an error that is set is not changed, and a stream that is finished
  -- stays finished.
  pub run-finished :
      (w : World E) (cs : List (Call E))
      → ((e : E) → w.stream.err ≡ some e → (run w cs).stream.err ≡ some e)
        × (finished w.stream ≡ true → finished (run w cs).stream ≡ true)
  run-finished w cs = let l = run-Later w cs in (l.err, Later-finished w.stream (run w cs).stream l)

  -- onReset was not called, or once, and rstSent tells so.
  HasReset : World E → Type 0
  HasReset w = (w.on_resets ≡ []) ⊎ (length w.on_resets ≡ 1) × (w.stream.rst_sent ≡ true)

  with_stream-HasReset :
      (w : World E) (s : Stream E) (f : FlowControlManager)
      → Later E w.stream s
      → HasReset w
      → HasReset (record w { stream = s; manager = f })
  unfolding HasReset
  with_stream-HasReset w s f l (inl none_yet) = inl none_yet
  with_stream-HasReset w s f l (inr (one, sent)) = inr (one, l.rst_sent sent)

  maybe_send_reset-HasReset :
      (w : World E) (t : Stream E)
      → Later E w.stream t
      → HasReset w
      → HasReset (with_reset w (maybe_send_reset t))
  unfolding HasReset maybe_send_reset should_send_reset
  maybe_send_reset-HasReset w t l h =
      if_cases (λ (r : Resetting E). HasReset (with_reset w r)) (should_send_reset t) _ _
        (λ c. elim h [
          | inl none_yet ↦ inr (ap (λ l. length (t.write_offset ∷ l)) none_yet, refl)
          | inr (one, sent) ↦
              let again = l.rst_sent sent in let clash : true ≡ false = ground arith in cc
        ])
        (λ c. with_stream-HasReset w t w.manager l h)

  with_reset-HasReset :
      (w : World E) (r : Resetting E)
      → IsResetting w.stream r
      → HasReset w
      → HasReset (with_reset w r)
  unfolding IsResetting
  with_reset-HasReset w r (inl e) h = rw e h
  with_reset-HasReset w r (inr (t, l, e)) h = rw e (maybe_send_reset-HasReset w t l h)

  step-HasReset : (w : World E) (c : Call E) → HasReset w → HasReset (step w c)
  unfolding step
  step-HasReset w (resets e) h = with_reset-HasReset w _ (reset-IsResetting w.stream e) h
  step-HasReset w (remote_errors e) h =
      with_reset-HasReset w _ (register_remote_error-IsResetting w.stream e) h
  step-HasReset w c h =
      with_stream-HasReset w (step w c).stream (step w c).manager (step-Later w c) h

  run-HasReset : (w : World E) (cs : List (Call E)) → HasReset w → HasReset (run w cs)
  unfolding run
  run-HasReset w [] h = h
  run-HasReset w (c ∷ cs) h = run-HasReset (step w c) cs (step-HasReset w c h)

  fin_later :
      (s t : Stream E)
      → Later E s t
      → finished_write_and_sent_fin s ≡ true
      → finished_write_and_sent_fin t ≡ true
  unfolding finished_write_and_sent_fin
  fin_later s t l h = let c = l.finished_writing in let e = l.fin_sent in ground arith

  with_reset_quiet :
      (w : World E) (r : Resetting E)
      → IsResetting w.stream r
      → finished_write_and_sent_fin w.stream ≡ true
      → (with_reset w r).on_resets ≡ w.on_resets
  unfolding IsResetting maybe_send_reset should_send_reset
  with_reset_quiet w r (inl e) h = rw e refl
  with_reset_quiet w r (inr (t, l, e)) h =
      let late = fin_later w.stream t l h in
      let quiet : should_send_reset t ≡ false = ground arith in rw (e, maybe_send_reset, quiet) refl

  step_quiet :
      (w : World E) (c : Call E)
      → finished_write_and_sent_fin w.stream ≡ true
      → (step w c).on_resets ≡ w.on_resets
  unfolding step
  step_quiet w (resets e) h = with_reset_quiet w _ (reset-IsResetting w.stream e) h
  step_quiet w (remote_errors e) h =
      with_reset_quiet w _ (register_remote_error-IsResetting w.stream e) h
  step_quiet w c h = refl

  run_quiet :
      (w : World E) (cs : List (Call E))
      → finished_write_and_sent_fin w.stream ≡ true
      → (run w cs).on_resets ≡ w.on_resets
  unfolding run
  run_quiet w [] h = refl
  run_quiet w (c ∷ cs) h =
      run_quiet (step w c) cs (fin_later w.stream (step w c).stream (step-Later w c) h)
      ∙ step_quiet w c h

  -- A new stream, on which onReset was not called.
  abbrev pub start : ℕ → FlowControlManager → World E
  start id f = record { stream = new_stream id; manager = f; on_resets = [] }

  -- Over any calls on a new stream, onReset is called at most once: a stream sends one RST_STREAM at most. Once
  -- the stream is closed for writing and its FIN was sent, onReset is not called any more.
  pub run-on_resets :
      (id : ℕ) (f : FlowControlManager) (cs ds : List (Call E))
      → (length (run (start id f) cs).on_resets ≤ 1)
        × (finished_write_and_sent_fin (run (start id f) cs).stream ≡ true
            → (run (run (start id f) cs) ds).on_resets ≡ (run (start id f) cs).on_resets)
  unfolding HasReset
  run-on_resets id f cs ds = (
    elim (run-HasReset (start id f) cs (inl refl)) [
      | inl none_yet ↦ rw none_yet (omega arith)
      | inr (one, sent) ↦ omega arith
    ],
    run_quiet (run (start id f) cs) ds,
  )
