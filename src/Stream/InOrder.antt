-- ===== src/Stream/InOrder.antt =====
-- A call of Read, round by round.
use mathlib.Core.Path.{subst}
use agg_deliv.Common.{
  ℕ, zero, suc, ◌+◌, ◌-◌, ◌≤◌, ◌<◌, ◌≡◌, true, false, ◌&&◌, ◌||◌, List, [], Option, none, some, ltb,
  leb, length, if_cases, refl, sym, ap, ◌∙◌, arith, ◌⊎◌, inl, inr, Bool-cases,
}
use agg_deliv.Wire.StreamFrame.{StreamFrame}
use agg_deliv.Flow.Manager.{FlowControlManager}
use agg_deliv.Sorter
use agg_deliv.Sorter.{pop, pop_head, FrameMap, StreamFrameSorter, erase, max_byte_count}
use agg_deliv.Sorter.Parts.{stretch}
use agg_deliv.Stream.{
  Stream, Ending, closed_with, returns, waits, deadline_exceeded, expired, is_none,
}
use agg_deliv.Stream.Read
use agg_deliv.Stream.Read.{
  as_error, Tick, Round, ReadResult, read_or_wait, read_closed, read_round, carry_on, read_loop,
  read, resume_read,
}
use agg_deliv.Stream.Reading.{IsReading, IsRound, IsGood, IsProper, IsStop, frame-IsGood}

as_error-IsProper : {E : Type 0} (o : Option E) → IsProper (returns (as_error o))
unfolding IsProper
as_error-IsProper none = omega arith
as_error-IsProper (some e) = omega arith

module _ {E : Type 0} (byte : ℕ → ℕ) (start n : ℕ) (s : Stream E) (f : FlowControlManager)
    (t : Tick) (bytes : List ℕ) (r : IsRound byte start n bytes s.read_offset s.frame_queue)
    (room : length bytes < n) (is_open : (s.reset_locally || s.cancelled) ≡ false) where
  -- A round that leaves the stream as it is.
  stopped-IsGood :
      (e : Ending E)
      → IsProper e
      → IsGood byte start n
          (length bytes)
          E
          (record { stream = s; manager = f; bytes = bytes; stop = some e })
  unfolding IsStop
  stopped-IsGood e h = record { round = r; proper = h; not_closed = is_open; progress = λ c. cc }

  read_or_wait-IsGood :
      (o : Option StreamFrame)
      → s.frame_queue.queued_frames s.frame_queue.read_position ≡ o
      → IsGood byte start n (length bytes) E (read_or_wait s f t (n - length bytes) bytes o)
  unfolding read_or_wait IsProper
  read_or_wait-IsGood none e = stopped-IsGood waits (omega arith)
  read_or_wait-IsGood (some frame) e = frame-IsGood byte start n s f t bytes r room is_open frame e

  read_round-IsGood :
      (o : Option StreamFrame)
      → s.frame_queue.queued_frames s.frame_queue.read_position ≡ o
      → IsGood byte start n (length bytes) E (read_round s f t (n - length bytes) bytes o)
  unfolding read_round IsProper
  read_round-IsGood o e =
      let Good : Round E → Type 0 = IsGood byte start n (length bytes) E in
      if_cases Good (is_none o && ltb 0 (length bytes)) _ _
        (λ c. stopped-IsGood (returns (as_error s.err)) (as_error-IsProper s.err))
        (λ c. rw is_open (
          if_cases Good (expired s.read_deadline t.checked) _ _
            (λ d. stopped-IsGood (returns (some deadline_exceeded)) (omega arith))
            (λ d. read_or_wait-IsGood o e)))

  -- If no frame is queued, the round ends the call.
  no_frame_stops : (read_round s f t (n - length bytes) bytes none).stop ≡ none → 1 ≤ 0
  unfolding read_round read_or_wait
  no_frame_stops =
      let P : Round E → Type 0 = λ x. x.stop ≡ none → 1 ≤ 0 in
      if_cases P (ltb 0 (length bytes)) _ _ (λ c h. cc)
        (λ c.
          rw is_open (if_cases P (expired s.read_deadline t.checked) _ _ (λ d h. cc) (λ d h. cc)))

-- What Read returns.
pub record Reads (byte : ℕ → ℕ) (start n : ℕ) (E : Type 0) (r : ReadResult E) : Type 0 where
  pub round : IsRound byte start n r.bytes r.stream.read_offset r.stream.frame_queue
  pub proper : IsProper r.ending

-- The rounds suffice: two more than the bytes that are left to read, or one if no frame is queued.
Suffices : ℕ → ℕ → Option StreamFrame → Type 0
Suffices rounds left o = (left + 2 ≤ rounds) ⊎ (1 ≤ rounds) × (o ≡ none)

carry_on-Reads :
    {E : Type 0} (byte : ℕ → ℕ) (start n size : ℕ) (o : Option (Ending E)) (r : Round E)
    (rest : ReadResult E)
    → r.stop ≡ o
    → IsGood byte start n size E r
    → (o ≡ none → Reads byte start n E rest)
    → Reads byte start n E (carry_on o r rest)
unfolding IsStop
carry_on-Reads byte start n size none r rest e good more = more refl
carry_on-Reads byte start n size (some x) r rest e good more = record {
  round = good.round;
  proper = subst IsStop e good.proper;
}

read_loop-Reads :
    {E : Type 0} (byte : ℕ → ℕ) (start n : ℕ) (clock : ℕ → Tick) (rounds : ℕ) (s : Stream E)
    (f : FlowControlManager) (bytes : List ℕ)
    → IsRound byte start n bytes s.read_offset s.frame_queue
    → (s.reset_locally || s.cancelled) ≡ false
    → Suffices rounds (n - length bytes) (Sorter.head s.frame_queue)
    → Reads byte start n E (read_loop rounds clock n s f bytes)
unfolding read_loop Suffices Sorter.head IsProper
read_loop-Reads byte start n clock zero s f bytes r is_open (inl enough) = absurd (omega arith)
read_loop-Reads byte start n clock zero s f bytes r is_open (inr (enough, none_left)) =
    absurd (omega arith)
read_loop-Reads {E} byte start n clock (suc rounds) s f bytes r is_open enough =
    let q = s.frame_queue in
    let o = q.queued_frames q.read_position in
    let round = read_round s f (clock rounds) (n - length bytes) bytes o in
    if_cases (Reads byte start n E) (leb n (length bytes)) _ _
      (λ c. record { round = r; proper = omega arith })
      (λ c.
        let room : length bytes < n = ground arith in
        let good = read_round-IsGood byte start n s f (clock rounds) bytes r room is_open o refl in
        carry_on-Reads byte start n (length bytes) round.stop round _ refl good (λ h.
          read_loop-Reads byte start n clock rounds round.stream round.manager round.bytes
            good.round good.not_closed
            (elim enough [
              | inl many ↦ elim (good.progress h) [
                | inl longer ↦ let all = good.round.fits_in in inl (omega arith)
                | inr none_left ↦ inr (omega arith, none_left)
              ]
              | inr (some_rounds, none_left) ↦
                  let stops = no_frame_stops byte start n s f (clock rounds) bytes r room is_open (
                    sym (
                      ap
                        (λ x. Round.stop (read_round s f (clock rounds) (n - length bytes) bytes x))
                        none_left)
                    ∙ h) in
                  absurd (omega arith)
            ])))

-- Read on a stream that is closed, with an error.
module _ {E : Type 0} (s : Stream E) (f : FlowControlManager) (x : E) (e : s.err ≡ some x)
    (closed : (s.reset_locally || s.cancelled) ≡ true) where
  closed_round :
      (t : Tick) (want : ℕ) (o : Option StreamFrame)
      → read_round s f t want [] o ≡ Read.stopped s f [] (returns (some (closed_with x)))
  unfolding read_round read_closed
  closed_round t want none = rw closed (ap (λ y. read_closed y s f t want [] none) e)
  closed_round t want (some g) = rw closed (ap (λ y. read_closed y s f t want [] (some g)) e)

  closed_loop :
      (byte : ℕ → ℕ) (clock : ℕ → Tick) (rounds n : ℕ)
      → IsRound byte s.read_offset n [] s.read_offset s.frame_queue
      → Reads byte s.read_offset n E (read_loop (suc rounds) clock n s f [])
  unfolding read_loop IsProper
  closed_loop byte clock rounds n start =
      if_cases (Reads byte s.read_offset n E) (leb n 0) _ _
        (λ c. record { round = start; proper = omega arith })
        (λ c.
          rw (closed_round (clock rounds) (n - length {A = ℕ} []) (Sorter.head s.frame_queue))
            (record { round = start; proper = omega arith }))

nothing_read :
    (byte : ℕ → ℕ) (n : ℕ) (q : StreamFrameSorter) (off : ℕ)
    → IsReading byte q off
    → IsRound byte off n [] off q
unfolding stretch
nothing_read byte n q off r = record {
  reading = r;
  in_order = refl;
  behind = omega arith;
  fits_in = omega arith;
}

-- A signal reaches Read with a cause for it: the stream is open, or it has an error.
unfoldable pub HasCause : {E : Type 0} → Stream E → Type 0
HasCause {E} s = ((s.reset_locally || s.cancelled) ≡ false) ⊎ ((e : E) × (s.err ≡ some e))

-- What a call of Read comes to, started or resumed.
abbrev pub IsInOrder : {E : Type 0} → (ℕ → ℕ) → Stream E → ℕ → ReadResult E → Type 0
IsInOrder byte s n r =
    (r.bytes ≡ stretch byte s.read_offset (length r.bytes))
    × (r.stream.read_offset ≡ s.read_offset + length r.bytes)
    × (length r.bytes ≤ n)
    × IsReading byte r.stream.frame_queue r.stream.read_offset
    × IsProper r.ending

-- Let the reader's invariant hold: the sorter's frames are parts of one stream, the sorter keeps its own
-- invariant, and the read offset is the sorter's read position or lies within the frame that is queued there.
-- Then a call of Read with a buffer of `n` bytes, from its start until it returns or waits for a signal,
-- gives at most `n` bytes, the next ones of the stream behind those that were read before; the read offset
-- goes on by as many. It does not read from a nil frame, find its position behind a frame's end or go on
-- without end, and the invariant holds after it again.
pub read-in_order :
    {E : Type 0} (byte : ℕ → ℕ) (s : Stream E) (f : FlowControlManager) (clock : ℕ → Tick) (n : ℕ)
    → IsReading byte s.frame_queue s.read_offset
    → let r = read s f clock n in
      (r.bytes ≡ stretch byte s.read_offset (length r.bytes))
      × (r.stream.read_offset ≡ s.read_offset + length r.bytes)
      × (length r.bytes ≤ n)
      × IsReading byte r.stream.frame_queue r.stream.read_offset
      × IsProper r.ending
unfolding read IsProper Suffices
read-in_order {E} byte s f clock n reading =
    let start = nothing_read byte n s.frame_queue s.read_offset reading in
    let reads : Reads byte s.read_offset n E (read s f clock n) =
      if_cases (Reads byte s.read_offset n E) (s.cancelled || s.reset_locally) _ _
        (λ c. record { round = start; proper = as_error-IsProper s.err })
        (λ c.
          if_cases (Reads byte s.read_offset n E) s.finished_reading _ _
            (λ d. record { round = start; proper = omega arith })
            (λ d.
              read_loop-Reads byte s.read_offset n clock (suc (suc n)) s f [] start (ground arith)
                (inl (omega arith)))) in
    let r = reads.round in (r.in_order, r.behind, r.fits_in, r.reading, reads.proper)

-- The same of a call that goes on after a signal, if the stream is open or has an error.
pub resume_read-IsInOrder :
    {E : Type 0} (byte : ℕ → ℕ) (s : Stream E) (f : FlowControlManager) (clock : ℕ → Tick) (n : ℕ)
    → IsReading byte s.frame_queue s.read_offset
    → HasCause s
    → IsInOrder byte s n (resume_read s f clock n)
unfolding resume_read HasCause Suffices
resume_read-IsInOrder {E} byte s f clock n reading cause =
    let start = nothing_read byte n s.frame_queue s.read_offset reading in
    let reads : Reads byte s.read_offset n E (resume_read s f clock n) =
      elim (Bool-cases (s.reset_locally || s.cancelled)) [
        | inl closed ↦ elim cause [
          | inl is_open ↦ absurd cc
          | inr (x, e) ↦ closed_loop s f x e closed byte clock (suc n) n start
        ]
        | inr is_open ↦
            read_loop-Reads byte s.read_offset n clock (suc (suc n)) s f [] start is_open
              (inl (omega arith))
      ] in
    let r = reads.round in (r.in_order, r.behind, r.fits_in, r.reading, reads.proper)
