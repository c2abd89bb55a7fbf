-- ===== src/Stream/LaterRead.antt =====
-- What Read never takes back.
use agg_deliv.Common.{
  ℕ, zero, suc, ◌+◌, ◌-◌, ◌&&◌, ◌||◌, List, [], Option, none, some, ltb, leb, length, sub64,
  if_cases,
}
use agg_deliv.Wire.StreamFrame.{StreamFrame}
use agg_deliv.Flow.Manager.{FlowControlManager}
use agg_deliv.Sorter
use agg_deliv.Sorter.{
  StreamFrameSorter, SortError, too_many_gaps, duplicate_stream_data, empty_stream_data,
  no_gap_found, no_end_gap_found, Pushed,
}
use agg_deliv.Stream.{Stream, Ending, min, expired, is_none}
use agg_deliv.Stream.Read.{
  Tick, Round, read_closed, carry_on, ReadResult, read_frame, read_or_wait, read_round, read_loop,
  resume_read, read,
}
use agg_deliv.Stream.Later.{Later, later, keep, set, same, Later-refl, Later_trans}

module _ {E : Type 0} where
  read_frame-Later :
      (s : Stream E) (f : FlowControlManager) (t : Tick) (want : ℕ) (bytes : List ℕ)
      (frame : Option StreamFrame)
      → Later E s (read_frame s f t want bytes frame).stream
  unfolding read_frame
  read_frame-Later s f t want bytes none = Later-refl s
  read_frame-Later s f t want bytes (some frame) =
      let P : Round E → Type 0 = λ r. Later E s r.stream in
      let n = length frame.payload in
      let m = min want (n - s.read_pos_in_frame) in
      if_cases P (ltb n s.read_pos_in_frame) _ _ (λ c. Later-refl s)
        (λ c.
          if_cases P (leb n (s.read_pos_in_frame + m)) _ _
            (λ d.
              if_cases P frame.fin_bit _ _ (λ e. later same keep set keep keep keep keep keep)
                (λ e. later same keep keep keep keep keep keep keep))
            (λ d. later same keep keep keep keep keep keep keep))

  read_or_wait-Later :
      (s : Stream E) (f : FlowControlManager) (t : Tick) (want : ℕ) (bytes : List ℕ)
      (frame : Option StreamFrame)
      → Later E s (read_or_wait s f t want bytes frame).stream
  unfolding read_or_wait
  read_or_wait-Later s f t want bytes none = Later-refl s
  read_or_wait-Later s f t want bytes (some frame) =
      let u = record s { read_pos_in_frame = sub64 s.read_offset frame.offset } in
      Later_trans s u (read_frame u f t want bytes (some frame)).stream
        (later same keep keep keep keep keep keep keep)
        (read_frame-Later u f t want bytes (some frame))

  read_closed-Later :
      (o : Option E) (s : Stream E) (f : FlowControlManager) (t : Tick) (want : ℕ) (bytes : List ℕ)
      (frame : Option StreamFrame)
      → Later E s (read_closed o s f t want bytes frame).stream
  unfolding read_closed
  read_closed-Later (some e) s f t want bytes frame = Later-refl s
  read_closed-Later none s f t want bytes frame = read_frame-Later s f t want bytes frame

  read_round-Later :
      (s : Stream E) (f : FlowControlManager) (t : Tick) (want : ℕ) (bytes : List ℕ)
      (frame : Option StreamFrame)
      → Later E s (read_round s f t want bytes frame).stream
  unfolding read_round
  read_round-Later s f t want bytes frame =
      let P : Round E → Type 0 = λ r. Later E s r.stream in
      if_cases P (is_none frame && ltb 0 (length bytes)) _ _ (λ c. Later-refl s)
        (λ c.
          if_cases P (s.reset_locally || s.cancelled) _ _
            (λ d. read_closed-Later s.err s f t want bytes frame)
            (λ d.
              if_cases P (expired s.read_deadline t.checked) _ _ (λ e. Later-refl s)
                (λ e. read_or_wait-Later s f t want bytes frame)))

  carry_on-Later :
      (s : Stream E) (o : Option (Ending E)) (r : Round E) (rest : ReadResult E)
      → Later E s r.stream
      → Later E s rest.stream
      → Later E s (carry_on o r rest).stream
  carry_on-Later s none r rest a b = b
  carry_on-Later s (some e) r rest a b = a

  read_loop-Later :
      (rounds : ℕ) (clock : ℕ → Tick) (n : ℕ) (s : Stream E) (f : FlowControlManager)
      (bytes : List ℕ)
      → Later E s (read_loop rounds clock n s f bytes).stream
  unfolding read_loop
  read_loop-Later zero clock n s f bytes = Later-refl s
  read_loop-Later (suc rounds) clock n s f bytes =
      let r = read_round s f (clock rounds) (n - length bytes) bytes (Sorter.head s.frame_queue) in
      let one =
        read_round-Later s f (clock rounds) (n - length bytes) bytes (Sorter.head s.frame_queue) in
      let rest = read_loop rounds clock n r.stream r.manager r.bytes in
      let more =
        Later_trans s r.stream rest.stream one
          (read_loop-Later rounds clock n r.stream r.manager r.bytes) in
      if_cases (λ (x : ReadResult E). Later E s x.stream) (leb n (length bytes)) _ _
        (λ c. Later-refl s) (λ c. carry_on-Later s r.stop r rest one more)

  pub read-Later :
      (s : Stream E) (f : FlowControlManager) (clock : ℕ → Tick) (n : ℕ)
      → Later E s (read s f clock n).stream
  unfolding read
  read-Later s f clock n =
      let P : ReadResult E → Type 0 = λ r. Later E s r.stream in
      if_cases P (s.cancelled || s.reset_locally) _ _ (λ c. Later-refl s)
        (λ c.
          if_cases P s.finished_reading _ _ (λ d. Later-refl s)
            (λ d. read_loop-Later (suc (suc n)) clock n s f []))

  pub resume_read-Later :
      (s : Stream E) (f : FlowControlManager) (clock : ℕ → Tick) (n : ℕ)
      → Later E s (resume_read s f clock n).stream
  unfolding resume_read
  resume_read-Later s f clock n = read_loop-Later (suc (suc n)) clock n s f []
