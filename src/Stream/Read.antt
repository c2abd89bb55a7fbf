-- ===== src/Stream/Read.antt =====
-- Read of mpquic_trans/stream.go.
use agg_deliv.Common.{
  ℕ, zero, suc, ◌+◌, ◌-◌, true, ◌&&◌, ◌||◌, List, [], ◌++◌, Option, none, some, ltb, leb,
  if◌then◌else◌, length, take, drop, add64, sub64,
}
use agg_deliv.Wire.StreamFrame.{StreamFrame}
use agg_deliv.Flow.Manager
use agg_deliv.Flow.Manager.{FlowControlManager, FlowError, Outcome}
use agg_deliv.Sorter
use agg_deliv.Sorter.{
  StreamFrameSorter, SortError, too_many_gaps, duplicate_stream_data, empty_stream_data,
  no_gap_found, no_end_gap_found, Pushed, new_stream_frame_sorter,
}
use agg_deliv.Stream.{
  Stream, IoError, eof, deadline_exceeded, closed_with, bug_read_pos, Ending, returns, waits,
  panics, out_of_rounds, expired, min, is_none,
}

pub record ReadResult (E : Type 0) : Type 0 where
  pub stream : Stream E
  pub manager : FlowControlManager
  pub bytes : List ℕ
  pub ending : Ending E

-- The clock in a round of Read: for the deadline, and for the two controllers.
pub record Tick : Type 0 where
  pub checked : ℕ
  pub now : ℕ
  pub later : ℕ

-- What a round of Read leaves for the next: to go on, or how the call ends.
pub record Round (E : Type 0) : Type 0 where
  pub stream : Stream E
  pub manager : FlowControlManager
  pub bytes : List ℕ
  pub stop : Option (Ending E)

module _ {E : Type 0} where
  -- `err` as what Read returns.
  abbrev pub as_error : Option E → Option (IoError E)
  as_error none = none
  as_error (some e) = some (closed_with e)

  abbrev pub counted : Stream E → FlowControlManager → Tick → ℕ → FlowControlManager
  counted s f t m =
      if s.reset_remotely
      then f
      else Outcome.manager (Manager.add_bytes_read f t.now t.later s.stream_id m)

  abbrev pub stopped : Stream E → FlowControlManager → List ℕ → Ending E → Round E
  stopped s f bytes e = record { stream = s; manager = f; bytes = bytes; stop = some e }

  -- A round behind its waiting, for `want` bytes and the frame at the read position.
  unfoldable pub read_frame :
      Stream E → FlowControlManager → Tick → ℕ → List ℕ → Option StreamFrame → Round E
  read_frame s f t want bytes none = stopped s f bytes panics
  read_frame s f t want bytes (some frame) =
      let n = length frame.payload in
      let pos = s.read_pos_in_frame in
      let m = min want (n - pos) in
      let read = record s { read_pos_in_frame = pos + m; read_offset = add64 s.read_offset m } in
      let popped = record read { frame_queue = (Sorter.pop s.frame_queue).1 } in
      let out = bytes ++ take m (drop pos frame.payload) in
      if ltb n pos
      then stopped s f bytes (returns (some bug_read_pos))
      else if leb n (pos + m)
      then (if frame.fin_bit
          then stopped (record popped { finished_reading = true }) (counted s f t m) out
              (returns (some eof))
          else record { stream = popped; manager = counted s f t m; bytes = out; stop = none })
      else record { stream = read; manager = counted s f t m; bytes = out; stop = none }

  -- A round whose frame is known and whose deadline was checked. Without a frame it waits; `resume_read` is
  -- what follows the wait. The position is an int in the source, which
  -- takes a difference of 2 ^ 63 or more for a negative number.
  unfoldable pub read_or_wait :
      Stream E → FlowControlManager → Tick → ℕ → List ℕ → Option StreamFrame → Round E
  unfolding read_frame
  read_or_wait s f t want bytes none = stopped s f bytes waits
  read_or_wait s f t want bytes (some frame) =
      read_frame (record s { read_pos_in_frame = sub64 s.read_offset frame.offset }) f t want bytes
        (some frame)

  -- A round on a stream that is reset or cancelled, with its error. With a nil error the source breaks out of
  -- its inner loop all the same, and goes on with the frame, which may be nil, and the old position.
  unfoldable pub read_closed :
      Option E → Stream E → FlowControlManager → Tick → ℕ → List ℕ → Option StreamFrame → Round E
  unfolding read_frame
  read_closed (some e) s f t want bytes frame = stopped s f bytes (returns (some (closed_with e)))
  read_closed none s f t want bytes frame = read_frame s f t want bytes frame

  unfoldable pub read_round :
      Stream E → FlowControlManager → Tick → ℕ → List ℕ → Option StreamFrame → Round E
  unfolding read_closed read_or_wait
  read_round s f t want bytes frame =
      if is_none frame && ltb 0 (length bytes)
      then stopped s f bytes (returns (as_error s.err))
      else if s.reset_locally || s.cancelled
      then read_closed s.err s f t want bytes frame
      else if expired s.read_deadline t.checked
      then stopped s f bytes (returns (some deadline_exceeded))
      else read_or_wait s f t want bytes frame

  abbrev pub finish : Round E → Ending E → ReadResult E
  finish r e = record { stream = r.stream; manager = r.manager; bytes = r.bytes; ending = e }

  abbrev pub carry_on : Option (Ending E) → Round E → ReadResult E → ReadResult E
  carry_on (some e) r rest = finish r e
  carry_on none r rest = rest

  -- `rounds` is fuel, `n` the size of the buffer. Each round but one reads a byte or ends the call.
  unfoldable pub read_loop :
      ℕ → (ℕ → Tick) → ℕ → Stream E → FlowControlManager → List ℕ → ReadResult E
  unfolding read_round
  read_loop zero clock n s f bytes = record {
    stream = s;
    manager = f;
    bytes = bytes;
    ending = out_of_rounds;
  }
  read_loop (suc rounds) clock n s f bytes =
      let r = read_round s f (clock rounds) (n - length bytes) bytes (Sorter.head s.frame_queue) in
      let rest = read_loop rounds clock n r.stream r.manager r.bytes in
      if leb n (length bytes)
      then record { stream = s; manager = f; bytes = bytes; ending = returns none }
      else carry_on r.stop r rest

  unfoldable pub read : Stream E → FlowControlManager → (ℕ → Tick) → ℕ → ReadResult E
  unfolding read_loop
  read s f clock n =
      if s.cancelled || s.reset_locally
      then record { stream = s; manager = f; bytes = []; ending = returns (as_error s.err) }
      else if s.finished_reading
      then record { stream = s; manager = f; bytes = []; ending = returns (some eof) }
      else read_loop (suc (suc n)) clock n s f []

  -- What Read does once the signal has arrived for which it waits, or its deadline has passed: it has read
  -- nothing so far, asks for the frame again, and stays in its loops, behind the tests with which it began.
  unfoldable pub resume_read : Stream E → FlowControlManager → (ℕ → Tick) → ℕ → ReadResult E
  unfolding read_loop
  resume_read s f clock n = read_loop (suc (suc n)) clock n s f []
