-- ===== src/Stream/Write.antt =====
-- Write of mpquic_trans/stream.go, and what takes its data.
use agg_deliv.Common.{
  ℕ, ◌-◌, true, List, [], ◌∷◌, Option, none, some, ltb, if◌then◌else◌, length, take, drop, add64,
  not,
}
use agg_deliv.Stream.{
  Stream, IoError, deadline_exceeded, closed_with, write_on_closed, expired, is_none,
}

pub record WriteResult (E : Type 0) : Type 0 where
  pub stream : Stream E
  pub count : ℕ
  pub error : Option (IoError E)

-- What Write does before it waits: `none` for the result, or the result at once.
pub record Begun (E : Type 0) : Type 0 where
  pub stream : Stream E
  pub at_once : Option (WriteResult E)

pub record Taken (E : Type 0) : Type 0 where
  pub stream : Stream E
  pub chunk : Option (List ℕ)

abbrev pub size_of : Option (List ℕ) → ℕ
size_of none = 0
size_of (some xs) = length xs

module _ {E : Type 0} where
  abbrev pub refused : Stream E → Option (IoError E) → Begun E
  refused s e = record { stream = s; at_once = some (record { stream = s; count = 0; error = e }) }

  -- Write of data on a stream that takes it.
  unfoldable pub write_data : Stream E → List ℕ → Begun E
  write_data s [] = refused s none
  write_data s (x ∷ xs) = record {
    stream = record s { data_for_writing = some (x ∷ xs) };
    at_once = none;
  }

  unfoldable pub write_unless : Option E → Stream E → List ℕ → Begun E
  unfolding write_data
  write_unless (some e) s p = refused s (some (closed_with e))
  write_unless none s p =
      if s.reset_locally
      then refused s none
      else if s.finished_writing
      then refused s (some write_on_closed)
      else write_data s p

  unfoldable pub write_begin : Stream E → List ℕ → Begun E
  unfolding write_unless
  write_begin s p = write_unless s.err s p

  -- A round of the waiting loop of Write behind its test of the deadline.
  unfoldable pub write_done : Option E → Stream E → List ℕ → Option (WriteResult E)
  write_done (some e) s p = some (record {
    stream = s;
    count = length p - size_of s.data_for_writing;
    error = some (closed_with e);
  })
  write_done none s p =
      if is_none s.data_for_writing
      then some (record { stream = s; count = length p; error = none })
      else none

  -- `none` where the round waits for a signal.
  unfoldable pub write_round : Stream E → List ℕ → ℕ → Option (WriteResult E)
  unfolding write_done
  write_round s p now =
      if expired s.write_deadline now
      then some (record { stream = s; count = 0; error = some deadline_exceeded })
      else write_done s.err s p

  unfoldable pub len_of_data_for_writing : Stream E → ℕ
  len_of_data_for_writing s = if is_none s.err then size_of s.data_for_writing else 0

  -- getDataForWriting for the data that is there.
  unfoldable pub take_data : Stream E → ℕ → List ℕ → Taken E
  take_data s max_bytes xs =
      if ltb max_bytes (length xs)
      then record {
        stream = record s {
          data_for_writing = some (drop max_bytes xs);
          write_offset = add64 s.write_offset (length (take max_bytes xs));
        };
        chunk = some (take max_bytes xs);
      }
      else record {
        stream = record s {
          data_for_writing = none;
          write_signal = true;
          write_offset = add64 s.write_offset (length xs);
        };
        chunk = some xs;
      }

  unfoldable pub take_some : Option (List ℕ) → Stream E → ℕ → Taken E
  unfolding take_data
  take_some none s max_bytes = record { stream = s; chunk = none }
  take_some (some xs) s max_bytes = take_data s max_bytes xs

  unfoldable pub get_data_for_writing : Stream E → ℕ → Taken E
  unfolding take_some
  get_data_for_writing s max_bytes =
      if not (is_none s.err)
      then record { stream = s; chunk = none }
      else take_some s.data_for_writing s max_bytes
