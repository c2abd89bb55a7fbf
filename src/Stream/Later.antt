-- ===== src/Stream/Later.antt =====
-- What the calls of a stream never take back.
use agg_deliv.Common.{
  ℕ, ◌≤◌, ◌≡◌, Bool, true, not, List, [], ◌∷◌, Option, none, some, ltb, if◌then◌else◌, length,
  add64, if_cases, refl, arith, ◌⊎◌, inl, inr,
}
use agg_deliv.Wire.StreamFrame.{StreamFrame}
use agg_deliv.Flow.Manager
use agg_deliv.Flow.Manager.{FlowControlManager, FlowError}
use agg_deliv.Sorter
use agg_deliv.Sorter.{
  StreamFrameSorter, SortError, too_many_gaps, duplicate_stream_data, empty_stream_data,
  no_gap_found, no_end_gap_found, Pushed,
}
use agg_deliv.Stream.{
  Stream, is_none, should_send_reset, should_send_fin, sent_fin, close, cancel, Resetting,
  maybe_send_reset, reset, register_remote_error, set_deadline, set_read_deadline,
  set_write_deadline, add_pushed, add_checked, add_stream_frame,
}
use agg_deliv.Stream.Write.{
  Begun, Taken, write_data, write_unless, take_some, write_begin, take_data, get_data_for_writing,
}

-- The second stream is the first one later on: the error is not changed, and no flag is taken back.
pub record Later (E : Type 0) (s t : Stream E) : Type 0 where
  pub err : (e : E) → s.err ≡ some e → t.err ≡ some e
  pub cancelled : s.cancelled ≡ true → t.cancelled ≡ true
  pub finished_reading : s.finished_reading ≡ true → t.finished_reading ≡ true
  pub finished_writing : s.finished_writing ≡ true → t.finished_writing ≡ true
  pub reset_locally : s.reset_locally ≡ true → t.reset_locally ≡ true
  pub reset_remotely : s.reset_remotely ≡ true → t.reset_remotely ≡ true
  pub fin_sent : s.fin_sent ≡ true → t.fin_sent ≡ true
  pub rst_sent : s.rst_sent ≡ true → t.rst_sent ≡ true

pub keep : {b : Bool} → b ≡ true → b ≡ true
keep h = h

pub set : {b : Bool} → b ≡ true → true ≡ true
set h = refl

module _ {E : Type 0} where
  -- Only the error may be new, and the flags that are given.
  pub later :
      {s t : Stream E}
      → ((e : E) → s.err ≡ some e → t.err ≡ some e)
      → (s.cancelled ≡ true → t.cancelled ≡ true)
      → (s.finished_reading ≡ true → t.finished_reading ≡ true)
      → (s.finished_writing ≡ true → t.finished_writing ≡ true)
      → (s.reset_locally ≡ true → t.reset_locally ≡ true)
      → (s.reset_remotely ≡ true → t.reset_remotely ≡ true)
      → (s.fin_sent ≡ true → t.fin_sent ≡ true)
      → (s.rst_sent ≡ true → t.rst_sent ≡ true)
      → Later E s t
  later e a b c d f g h = record {
    err = e;
    cancelled = a;
    finished_reading = b;
    finished_writing = c;
    reset_locally = d;
    reset_remotely = f;
    fin_sent = g;
    rst_sent = h;
  }

  pub same : {o : Option E} (e : E) → o ≡ some e → o ≡ some e
  same e h = h

  pub Later-refl : (s : Stream E) → Later E s s
  Later-refl s = later same keep keep keep keep keep keep keep

  pub Later_trans : (s t u : Stream E) → Later E s t → Later E t u → Later E s u
  Later_trans s t u a b = record {
    err = λ e h. b.err e (a.err e h);
    cancelled = λ h. b.cancelled (a.cancelled h);
    finished_reading = λ h. b.finished_reading (a.finished_reading h);
    finished_writing = λ h. b.finished_writing (a.finished_writing h);
    reset_locally = λ h. b.reset_locally (a.reset_locally h);
    reset_remotely = λ h. b.reset_remotely (a.reset_remotely h);
    fin_sent = λ h. b.fin_sent (a.fin_sent h);
    rst_sent = λ h. b.rst_sent (a.rst_sent h);
  }

  no_error : (o : Option E) (e : E) → is_none o ≡ true → o ≡ some e → 1 ≤ 0
  no_error none e h same = cc
  no_error (some a) e h same = cc

  -- An error that is set where there is none.
  new_error : (o : Option E) {o' : Option E} → is_none o ≡ true → (e : E) → o ≡ some e → o' ≡ some e
  new_error o c e h = absurd (omega (arith, no_error o e c h))

  pub cancel-Later : (s : Stream E) (e : Option E) → Later E s (cancel s e)
  unfolding cancel
  cancel-Later s e =
      if_cases (Later E s) (is_none s.err) _ _
        (λ c. later (new_error s.err c) set keep keep keep keep keep keep)
        (λ c. later same set keep keep keep keep keep keep)

  maybe_send_reset-Later : (s t : Stream E) → Later E s t → Later E s (maybe_send_reset t).stream
  unfolding maybe_send_reset
  maybe_send_reset-Later s t l =
      if_cases (λ (r : Resetting E). Later E s r.stream) (should_send_reset t) _ _
        (λ c.
          Later_trans s t (record t { rst_sent = true }) l
            (later same keep keep keep keep keep keep set))
        (λ c. l)

  -- A reset changes nothing, or sets the error and its flag and then sends a RST_STREAM where it should.
  unfoldable pub IsResetting : Stream E → Resetting E → Type 0
  IsResetting s r =
      (r ≡ record { stream = s; on_reset = none })
      ⊎ (t : Stream E) × Later E s t × (r ≡ maybe_send_reset t)

  pub reset-IsResetting : (s : Stream E) (e : Option E) → IsResetting s (reset s e)
  unfolding IsResetting reset
  reset-IsResetting s e =
      if_cases (IsResetting s) s.reset_locally _ _ (λ c. inl refl)
        (λ c. inr (
          _,
          if_cases (Later E s) (is_none s.err) _ _
              (λ d. later (new_error s.err d) keep keep keep set keep keep keep)
              (λ d. later same keep keep keep set keep keep keep),
          refl,
        ))

  pub register_remote_error-IsResetting :
      (s : Stream E) (e : Option E) → IsResetting s (register_remote_error s e)
  unfolding IsResetting register_remote_error
  register_remote_error-IsResetting s e =
      if_cases (IsResetting s) s.reset_remotely _ _ (λ c. inl refl)
        (λ c. inr (
          _,
          if_cases (Later E s) (is_none s.err) _ _
              (λ d. later (new_error s.err d) keep keep keep keep set keep keep)
              (λ d. later same keep keep keep keep set keep keep),
          refl,
        ))

  pub IsResetting-Later : (s : Stream E) (r : Resetting E) → IsResetting s r → Later E s r.stream
  unfolding IsResetting
  IsResetting-Later s r (inl e) = rw e (Later-refl s)
  IsResetting-Later s r (inr (t, l, e)) = rw e (maybe_send_reset-Later s t l)

  set_read_deadline-Later : (s : Stream E) (t : ℕ) → Later E s (set_read_deadline s t)
  unfolding set_read_deadline
  set_read_deadline-Later s t =
      if_cases (Later E s) (ltb t s.read_deadline) _ _
        (λ d. later same keep keep keep keep keep keep keep)
        (λ d. later same keep keep keep keep keep keep keep)

  set_write_deadline-Later : (s : Stream E) (t : ℕ) → Later E s (set_write_deadline s t)
  unfolding set_write_deadline
  set_write_deadline-Later s t =
      if_cases (Later E s) (ltb t s.write_deadline) _ _
        (λ d. later same keep keep keep keep keep keep keep)
        (λ d. later same keep keep keep keep keep keep keep)

  pub set_deadline-Later : (s : Stream E) (t : ℕ) → Later E s (set_deadline s t)
  unfolding set_deadline
  set_deadline-Later s t =
      Later_trans s (set_read_deadline s t) (set_deadline s t) (set_read_deadline-Later s t)
        (set_write_deadline-Later (set_read_deadline s t) t)

  add_pushed-Later :
      (s : Stream E) (f : FlowControlManager) (q : StreamFrameSorter) (e : Option SortError)
      → Later E s (add_pushed s f (record { sorter = q; error = e })).stream
  unfolding add_pushed
  add_pushed-Later s f q none = later same keep keep keep keep keep keep keep
  add_pushed-Later s f q (some too_many_gaps) = later same keep keep keep keep keep keep keep
  add_pushed-Later s f q (some duplicate_stream_data) =
      later same keep keep keep keep keep keep keep
  add_pushed-Later s f q (some empty_stream_data) = later same keep keep keep keep keep keep keep
  add_pushed-Later s f q (some no_gap_found) = later same keep keep keep keep keep keep keep
  add_pushed-Later s f q (some no_end_gap_found) = later same keep keep keep keep keep keep keep

  add_checked-Later :
      (e : Option FlowError) (s : Stream E) (f : FlowControlManager) (frame : StreamFrame)
      → Later E s (add_checked e s f frame).stream
  unfolding add_checked
  add_checked-Later (some e) s f frame = Later-refl s
  add_checked-Later none s f frame =
      let r = Sorter.push s.frame_queue frame in add_pushed-Later s f r.sorter r.error

  pub add_stream_frame-Later :
      (s : Stream E) (f : FlowControlManager) (frame : StreamFrame)
      → Later E s (add_stream_frame s f frame).stream
  unfolding add_stream_frame
  add_stream_frame-Later s f frame =
      let u =
        Manager.update_highest_received f s.stream_id (add64 frame.offset (length frame.payload)) in
      add_checked-Later u.error s u.manager frame

  pub sent_fin-Later : (s : Stream E) → Later E s (if should_send_fin s then sent_fin s else s)
  unfolding sent_fin
  sent_fin-Later s =
      if_cases (Later E s) (should_send_fin s) _ _
        (λ c. later same keep keep keep keep keep set keep) (λ c. Later-refl s)

  pub close-Later : (s : Stream E) → Later E s (close s)
  unfolding close
  close-Later s = later same keep keep set keep keep keep keep

  write_data-Later : (s : Stream E) (p : List ℕ) → Later E s (write_data s p).stream
  unfolding write_data
  write_data-Later s [] = Later-refl s
  write_data-Later s (x ∷ xs) = later same keep keep keep keep keep keep keep

  write_unless-Later :
      (o : Option E) (s : Stream E) (p : List ℕ) → Later E s (write_unless o s p).stream
  unfolding write_unless
  write_unless-Later (some e) s p = Later-refl s
  write_unless-Later none s p =
      if_cases (λ (r : Begun E). Later E s r.stream) s.reset_locally _ _ (λ c. Later-refl s)
        (λ c.
          if_cases (λ (r : Begun E). Later E s r.stream) s.finished_writing _ _ (λ d. Later-refl s)
            (λ d. write_data-Later s p))

  pub write_begin-Later : (s : Stream E) (p : List ℕ) → Later E s (write_begin s p).stream
  unfolding write_begin
  write_begin-Later s p = write_unless-Later s.err s p

  take_data-Later : (s : Stream E) (n : ℕ) (xs : List ℕ) → Later E s (take_data s n xs).stream
  unfolding take_data
  take_data-Later s n xs =
      if_cases (λ (r : Taken E). Later E s r.stream) (ltb n (length xs)) _ _
        (λ c. later same keep keep keep keep keep keep keep)
        (λ c. later same keep keep keep keep keep keep keep)

  take_some-Later :
      (o : Option (List ℕ)) (s : Stream E) (n : ℕ) → Later E s (take_some o s n).stream
  unfolding take_some
  take_some-Later none s n = Later-refl s
  take_some-Later (some xs) s n = take_data-Later s n xs

  pub get_data_for_writing-Later :
      (s : Stream E) (n : ℕ) → Later E s (get_data_for_writing s n).stream
  unfolding get_data_for_writing
  get_data_for_writing-Later s n =
      if_cases (λ (r : Taken E). Later E s r.stream) (not (is_none s.err)) _ _ (λ c. Later-refl s)
        (λ c. take_some-Later s.data_for_writing s n)
