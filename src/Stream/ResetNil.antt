-- ===== src/Stream/ResetNil.antt =====
-- Reset with a nil error while Read waits (mpquic_trans/stream.go, called so in mpquic_trans/h2quic/server.go).
use mathlib.Core.Path.{ap₂}
use agg_deliv.Common.{
  ℕ, suc, ◌≡◌, ◌<◌, ◌-◌, true, false, ◌||◌, [], none, length, refl, ap, ◌∙◌, arith, leb, some,
  if_cases, if◌then◌else◌,
}
use agg_deliv.Flow.Manager.{FlowControlManager}
use agg_deliv.Sorter
use agg_deliv.Stream.{
  Stream, Ending, Resetting, waits, panics, reset, should_send_reset, maybe_send_reset, is_none,
  expired, returns, deadline_exceeded,
}
use agg_deliv.Stream.Read
use agg_deliv.Stream.Read.{
  Tick, ReadResult, read_frame, read_closed, read_or_wait, read_round, read_loop, read, resume_read,
}

module _ {E : Type 0} (s : Stream E) (f : FlowControlManager) where
  -- A call whose first round ends it.
  stopped_loop :
      (clock : ℕ → Tick) (rounds n : ℕ) (e : Ending E)
      → 0 < n
      → read_round s f (clock rounds) (n - length {A = ℕ} []) [] (Sorter.head s.frame_queue)
        ≡ Read.stopped s f [] e
      → read_loop (suc rounds) clock n s f []
        ≡ record { stream = s; manager = f; bytes = []; ending = e }
  unfolding read_loop
  stopped_loop clock rounds n e room h =
      if_cases
        (λ (x : ReadResult E). x ≡ record { stream = s; manager = f; bytes = []; ending = e })
        (leb n 0) _ _ (λ c. absurd (ground arith)) (λ c. rw h refl)

  waiting_round :
      (t : Tick) (want : ℕ)
      → (s.reset_locally || s.cancelled) ≡ false
      → s.read_deadline ≡ 0
      → read_round s f t want [] none ≡ Read.stopped s f [] waits
  unfolding read_round read_or_wait
  waiting_round t want a b =
      let late : expired s.read_deadline t.checked ≡ false = ap (λ d. expired d t.checked) b in
      rw a (
        ap
          (λ c.
            if c
            then Read.stopped s f [] (returns (some deadline_exceeded))
            else Read.stopped s f [] waits)
          late)

  nil_round :
      (t : Tick) (want : ℕ)
      → s.err ≡ none
      → (s.reset_locally || s.cancelled) ≡ true
      → read_round s f t want [] none ≡ Read.stopped s f [] panics
  unfolding read_round read_closed read_frame
  nil_round t want a b = rw b (ap (λ y. read_closed y s f t want [] none) a)

  -- Reset with a nil error on a stream that is open.
  reset-none :
      s.err ≡ none
      → s.reset_locally ≡ false
      → let u = Resetting.stream (reset s none) in
        (u.err ≡ none) × (u.reset_locally ≡ true) × (u.frame_queue ≡ s.frame_queue)
  unfolding reset should_send_reset
  reset-none no_error is_open =
      let P : Resetting E → Type 0 = λ r.
        (r.stream.err ≡ none)
        × (r.stream.reset_locally ≡ true)
        × (r.stream.frame_queue ≡ s.frame_queue) in
      let set : Stream E = record s {
        err = none;
        reset_locally = true;
        read_signal = true;
        write_signal = true;
        ctx_done = true;
      } in
      let sent : (u : Stream E)
          → P (record { stream = u; on_reset = none })
          → P (maybe_send_reset u) =
        λ u h. if_cases P (should_send_reset u) _ _ (λ c. h) (λ c. h) in
      if_cases P s.reset_locally _ _ (λ c. absurd cc)
        (λ c.
          if_cases (λ (u : Stream E). P (maybe_send_reset u)) (is_none s.err) _ _
            (λ d. sent set (refl, refl, refl))
            (λ d. sent (record s { reset_locally = true; ctx_done = true }) (no_error, refl, refl)))

-- A call of Read for at least one byte waits, and leaves the stream as it is, if the stream is open, has no error,
-- is not read to its end and has no read deadline, and no frame is queued at the read position. If then Reset
-- with a nil error sends the signal, the call goes on and dereferences the nil frame.
pub reset-resume_read :
    {E : Type 0} (s : Stream E) (f : FlowControlManager) (clock clock' : ℕ → Tick) (n : ℕ)
    → 0 < n
    → s.err ≡ none
    → s.reset_locally ≡ false
    → s.cancelled ≡ false
    → s.finished_reading ≡ false
    → s.read_deadline ≡ 0
    → Sorter.head s.frame_queue ≡ none
    → ((read s f clock n).ending ≡ waits)
      × ((read s f clock n).stream ≡ s)
      × ((resume_read (Resetting.stream (reset s none)) f clock' n).ending ≡ panics)
unfolding read resume_read
reset-resume_read {E} s f clock clock' n room no_error open1 open2 more no_deadline empty =
    let u = Resetting.stream (reset s none) in
    let (no_error', closed, same) = reset-none s f no_error open1 in
    let is_open : (s.cancelled || s.reset_locally) ≡ false = ap₂ ◌||◌ open2 open1 in
    let is_open' : (s.reset_locally || s.cancelled) ≡ false = ap₂ ◌||◌ open1 open2 in
    let t = clock (suc n) in
    let t' = clock' (suc n) in
    let waiting =
      ap (read_round s f t (n - length {A = ℕ} []) []) empty
      ∙ waiting_round s f t (n - length {A = ℕ} []) is_open' no_deadline in
    let nil =
      ap (read_round u f t' (n - length {A = ℕ} []) []) (ap Sorter.head same ∙ empty)
      ∙ nil_round u f t' (n - length {A = ℕ} []) no_error' (ap (λ b. b || u.cancelled) closed) in
    let P : ReadResult E → Type 0 =
      λ r. r ≡ record { stream = s; manager = f; bytes = []; ending = waits } in
    let all : read s f clock n ≡ record { stream = s; manager = f; bytes = []; ending = waits } =
      if_cases P (s.cancelled || s.reset_locally) _ _ (λ c. absurd cc)
        (λ c.
          if_cases P s.finished_reading _ _ (λ d. absurd cc)
            (λ d. stopped_loop s f clock (suc n) n waits room waiting)) in
    (
      ap ReadResult.ending all,
      ap ReadResult.stream all,
      ap ReadResult.ending (stopped_loop u f clock' (suc n) n panics room nil),
    )
