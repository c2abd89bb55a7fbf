-- ===== src/Stream.antt =====
-- mpquic_trans/stream.go: a stream over its sorter and the flow control manager. `E` is the type of the
-- errors that it is closed with; a time is a number, 0 for the zero time; a channel of size 1 is whether
-- it holds a signal. A call of Read or Write that waits has changed nothing since it began to; when a
-- signal arrives, Read goes on with `resume_read` and Write with `write_round`. onData is left out, which
-- only wakes the session up.
pub mod Read
pub mod Write
pub mod Later
pub mod LaterRead
pub mod Flags
pub mod Reading
pub mod InOrder
pub mod ResetNil
pub mod Delivery
pub mod Writing
mod Tests
use agg_deliv.Common.{
  ℕ, zero, suc, ◌+◌, ◌-◌, Bool, true, false, not, ◌&&◌, ◌||◌, List, [], ◌∷◌, ◌++◌, Option, none,
  some, ltb, leb, ◌==◌, if◌then◌else◌, length, take, drop, add64, sub64,
}
use agg_deliv.Wire.StreamFrame.{StreamFrame}
use agg_deliv.Flow.Manager
use agg_deliv.Flow.Manager.{FlowControlManager, FlowError, Outcome}
use agg_deliv.Sorter
use agg_deliv.Sorter.{
  StreamFrameSorter, SortError, too_many_gaps, duplicate_stream_data, empty_stream_data,
  no_gap_found, no_end_gap_found, Pushed, new_stream_frame_sorter,
}

pub record Stream (E : Type 0) : Type 0 where
  pub stream_id : ℕ
  pub read_pos_in_frame : ℕ
  pub write_offset : ℕ
  pub read_offset : ℕ
  pub err : Option E
  pub cancelled : Bool
  pub finished_reading : Bool
  pub finished_writing : Bool
  pub reset_locally : Bool
  pub reset_remotely : Bool
  pub frame_queue : StreamFrameSorter
  pub read_signal : Bool
  pub read_deadline : ℕ
  pub data_for_writing : Option (List ℕ)
  pub fin_sent : Bool
  pub rst_sent : Bool
  pub write_signal : Bool
  pub write_deadline : ℕ
  pub ctx_done : Bool

-- What Read and Write return beside a count.
pub data IoError (E : Type 0) : Type 0 where
  eof : IoError E
  deadline_exceeded : IoError E
  closed_with : E → IoError E
  write_on_closed : IoError E
  bug_read_pos : IoError E

-- How a call ends: it returns, it waits for a signal, it reads from a nil frame, or the rounds that the
-- model gives it are used up.
pub data Ending (E : Type 0) : Type 0 where
  returns : Option (IoError E) → Ending E
  waits : Ending E
  panics : Ending E
  out_of_rounds : Ending E

-- `!deadline.IsZero() && !time.Now().Before(deadline)`
abbrev pub expired : ℕ → ℕ → Bool
expired deadline now = not (deadline == 0) && leb deadline now

abbrev pub min : ℕ → ℕ → ℕ
min a b = if ltb b a then b else a

abbrev pub is_none {ℓ} : {A : Type ℓ} → Option A → Bool
is_none none = true
is_none (some a) = false

-- The stream after a reset, and the offset that onReset is called with, if it is.
pub record Resetting (E : Type 0) : Type 0 where
  pub stream : Stream E
  pub on_reset : Option ℕ

pub data AddError : Type 0 where
  flow : FlowError → AddError
  sorting : SortError → AddError

pub record Added (E : Type 0) : Type 0 where
  pub stream : Stream E
  pub manager : FlowControlManager
  pub error : Option AddError

-- The "virtual" FIN of CloseRemote.
abbrev pub virtual_fin : ℕ → StreamFrame
virtual_fin offset = record {
  stream_id = 0;
  fin_bit = true;
  data_len_present = false;
  offset = offset;
  payload = [];
}

module _ {E : Type 0} where
  unfoldable pub new_stream : ℕ → Stream E
  new_stream id = record {
    stream_id = id;
    read_pos_in_frame = 0;
    write_offset = 0;
    read_offset = 0;
    err = none;
    cancelled = false;
    finished_reading = false;
    finished_writing = false;
    reset_locally = false;
    reset_remotely = false;
    frame_queue = new_stream_frame_sorter;
    read_signal = false;
    read_deadline = 0;
    data_for_writing = none;
    fin_sent = false;
    rst_sent = false;
    write_signal = false;
    write_deadline = 0;
    ctx_done = false;
  }

  abbrev pub signal_read : Stream E → Stream E
  signal_read s = record s { read_signal = true }

  abbrev pub signal_write : Stream E → Stream E
  signal_write s = record s { write_signal = true }

  unfoldable pub finished_write_and_sent_fin : Stream E → Bool
  finished_write_and_sent_fin s = s.finished_writing && s.fin_sent

  unfoldable pub finished : Stream E → Bool
  unfolding finished_write_and_sent_fin
  finished s =
      s.cancelled
      || (s.finished_reading && finished_write_and_sent_fin s)
      || (s.reset_remotely && s.rst_sent)
      || (s.finished_reading && s.rst_sent)
      || (finished_write_and_sent_fin s && s.reset_remotely)

  unfoldable pub should_send_reset : Stream E → Bool
  unfolding finished_write_and_sent_fin
  should_send_reset s =
      if s.rst_sent
      then false
      else (s.reset_locally || s.reset_remotely) && not (finished_write_and_sent_fin s)

  unfoldable pub should_send_fin : Stream E → Bool
  should_send_fin s =
      s.finished_writing && not s.fin_sent && is_none s.err && is_none s.data_for_writing

  unfoldable pub sent_fin : Stream E → Stream E
  sent_fin s = record s { fin_sent = true }

  unfoldable pub close : Stream E → Stream E
  close s = record s { finished_writing = true; ctx_done = true }

  -- `if s.err == nil { s.err = err; ... }`, where `err` may be nil too
  abbrev pub keep_error : Stream E → Stream E → Stream E
  keep_error set s = if is_none s.err then set else s

  unfoldable pub cancel : Stream E → Option E → Stream E
  cancel s e =
      let t = record s { cancelled = true; ctx_done = true } in
      keep_error (record t { err = e; read_signal = true; write_signal = true }) t

  abbrev pub maybe_send_reset : Stream E → Resetting E
  unfolding should_send_reset
  maybe_send_reset s =
      if should_send_reset s
      then record { stream = record s { rst_sent = true }; on_reset = some s.write_offset }
      else record { stream = s; on_reset = none }

  unfoldable pub reset : Stream E → Option E → Resetting E
  unfolding should_send_reset
  reset s e =
      let t = record s { reset_locally = true; ctx_done = true } in
      if s.reset_locally
      then record { stream = s; on_reset = none }
      else maybe_send_reset
          (keep_error (record t { err = e; read_signal = true; write_signal = true }) t)

  unfoldable pub register_remote_error : Stream E → Option E → Resetting E
  unfolding should_send_reset
  register_remote_error s e =
      let t = record s { reset_remotely = true; ctx_done = true } in
      if s.reset_remotely
      then record { stream = s; on_reset = none }
      else maybe_send_reset (keep_error (record t { err = e; write_signal = true }) t)

  unfoldable pub set_read_deadline : Stream E → ℕ → Stream E
  set_read_deadline s t =
      let set = record s { read_deadline = t } in
      if ltb t s.read_deadline then signal_read set else set

  unfoldable pub set_write_deadline : Stream E → ℕ → Stream E
  set_write_deadline s t =
      let set = record s { write_deadline = t } in
      if ltb t s.write_deadline then signal_write set else set

  unfoldable pub set_deadline : Stream E → ℕ → Stream E
  unfolding set_read_deadline set_write_deadline
  set_deadline s t = set_write_deadline (set_read_deadline s t) t

  -- AddStreamFrame behind Push, unless that fails.
  unfoldable pub add_pushed : Stream E → FlowControlManager → Pushed → Added E
  add_pushed s f r =
      let t = record s { frame_queue = r.sorter } in
      elim r.error [
        | none ↦ record { stream = signal_read t; manager = f; error = none }
        | some duplicate_stream_data ↦ record { stream = signal_read t; manager = f; error = none }
        | some e ↦ record { stream = t; manager = f; error = some (sorting e) }
      ]

  -- AddStreamFrame behind UpdateHighestReceived.
  unfoldable pub add_checked :
      Option FlowError → Stream E → FlowControlManager → StreamFrame → Added E
  unfolding add_pushed
  add_checked (some e) s f frame = record { stream = s; manager = f; error = some (flow e) }
  add_checked none s f frame = add_pushed s f (Sorter.push s.frame_queue frame)

  unfoldable pub add_stream_frame : Stream E → FlowControlManager → StreamFrame → Added E
  unfolding add_checked
  add_stream_frame s f frame =
      let u =
        Manager.update_highest_received f s.stream_id (add64 frame.offset (length frame.payload)) in
      add_checked u.error s u.manager frame

  unfoldable pub close_remote : Stream E → FlowControlManager → ℕ → Added E
  unfolding add_stream_frame
  close_remote s f offset = add_stream_frame s f (virtual_fin offset)

  -- A receive from readChan or writeChan, `none` where it waits.
  unfoldable pub receive_read : Stream E → Option (Stream E)
  receive_read s = if s.read_signal then some (record s { read_signal = false }) else none

  unfoldable pub receive_write : Stream E → Option (Stream E)
  receive_write s = if s.write_signal then some (record s { write_signal = false }) else none
