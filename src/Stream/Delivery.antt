-- ===== src/Stream/Delivery.antt =====
-- A stream from end to end: what arrives by AddStreamFrame, and what Read returns.
use mathlib.Core.Path.{subst, ap₂}
use agg_deliv.Common.{
  ℕ, ◌≤◌, ◌<◌, ◌≡◌, false, List, [], ◌++◌, Option, none, some, ◌==◌, length, add64, refl, sym, ap,
  ◌∙◌, arith, inl, inr, Bool-cases, ==_sound,
}
use agg_deliv.Wire.StreamFrame.{StreamFrame}
use agg_deliv.Flow.Manager
use agg_deliv.Flow.Manager.{FlowControlManager, FlowError}
use agg_deliv.Sorter.{
  StreamFrameSorter, push, SortError, too_many_gaps, duplicate_stream_data, empty_stream_data,
  no_gap_found, no_end_gap_found, max_byte_count, new_stream_frame_sorter,
}
use agg_deliv.Sorter.Gaps.{in_gaps, in_gaps_below, Fits}
use agg_deliv.Sorter.Parts.{stretch, stretch_same, append-stretch, IsPart, AreParts, push-AreParts}
use agg_deliv.Sorter.Bytes.{push-read_position}
use agg_deliv.Sorter.Validity.{Holds, IsValid, has_too_many_gaps}
use agg_deliv.Sorter.Pushing.{IsArrival, push-Takes}
use agg_deliv.Sorter.Reading.{new-IsValid}
use agg_deliv.Stream.{Stream, Added, new_stream, add_pushed, add_checked, add_stream_frame}
use agg_deliv.Stream.Read.{Tick, ReadResult, read, resume_read}
use agg_deliv.Stream.Reading.{IsReading, IsWithin}
use agg_deliv.Stream.InOrder.{HasCause, IsInOrder, read-in_order, resume_read-IsInOrder}

-- Nothing up to the position of a queued frame with data is missing, if reading stands there.
read_there :
    (q : StreamFrameSorter) (g : StreamFrame)
    → IsValid q
    → q.queued_frames q.read_position ≡ some g
    → 0 < length g.payload
    → (x : ℕ) → x ≤ q.read_position
    → in_gaps x q.gaps ≡ false
unfolding Fits
read_there q g v e filled x h = elim (Bool-cases (x == q.read_position)) [
  | inl here ↦
      let same : x ≡ q.read_position = ==_sound x q.read_position here in
      (v.fits q.read_position g e).1 x (omega arith) (omega arith)
  | inr before ↦ in_gaps_below q.read_position max_byte_count x q.gaps v.ordered (ground arith)
]

-- A frame that arrives while another one is read.
push-IsReading :
    (byte : ℕ → ℕ) (q : StreamFrameSorter) (off : ℕ) (f : StreamFrame)
    → IsPart byte f
    → IsArrival max_byte_count q f
    → has_too_many_gaps (push q f).error ≡ false
    → IsReading byte q off
    → IsReading byte (push q f).sorter off
unfolding IsWithin
push-IsReading byte q off f part arrival accepted r =
    let taken = push-Takes max_byte_count q f (omega arith) arrival r.valid in
    let t = (push q f).sorter in
    let same = push-read_position q f in
    record {
      valid =
          subst (λ pos. Holds max_byte_count t.queued_frames pos t.gaps) (sym same)
            (taken.valid accepted);
      parts = push-AreParts byte q f part r.parts;
      within = elim r.within [
        | inl at_start ↦ inl (at_start ∙ sym same)
        | inr (g, e, low, high) ↦ inr (
          g,
          ap t.queued_frames same
              ∙ taken.kept q.read_position g e (omega arith)
                  (read_there q g r.valid e (omega arith)),
          omega (arith, same),
          omega (arith, same),
        )
      ];
    }

new-IsReading : (byte : ℕ → ℕ) → IsReading byte new_stream_frame_sorter 0
unfolding AreParts IsWithin new_stream_frame_sorter
new-IsReading byte = record { valid = new-IsValid; parts = λ k f e. cc; within = inl refl }

-- The queue and the read offset after AddStreamFrame.
module _ {E : Type 0} where
  add_pushed_queue :
      (s : Stream E) (f : FlowControlManager) (q : StreamFrameSorter) (e : Option SortError)
      → (Stream.frame_queue (Added.stream (add_pushed s f (record { sorter = q; error = e }))) ≡ q)
        × (Stream.read_offset (Added.stream (add_pushed s f (record { sorter = q; error = e })))
            ≡ s.read_offset)
  unfolding add_pushed
  add_pushed_queue s f q none = (refl, refl)
  add_pushed_queue s f q (some too_many_gaps) = (refl, refl)
  add_pushed_queue s f q (some duplicate_stream_data) = (refl, refl)
  add_pushed_queue s f q (some empty_stream_data) = (refl, refl)
  add_pushed_queue s f q (some no_gap_found) = (refl, refl)
  add_pushed_queue s f q (some no_end_gap_found) = (refl, refl)

  add_checked-IsReading :
      (byte : ℕ → ℕ) (error : Option FlowError) (s : Stream E) (f : FlowControlManager)
      (frame : StreamFrame)
      → IsPart byte frame
      → IsArrival max_byte_count s.frame_queue frame
      → has_too_many_gaps (push s.frame_queue frame).error ≡ false
      → IsReading byte s.frame_queue s.read_offset
      → let t = (add_checked error s f frame).stream in
        IsReading byte t.frame_queue t.read_offset × (t.read_offset ≡ s.read_offset)
  unfolding add_checked
  add_checked-IsReading byte (some e) s f frame part arrival accepted r = (r, refl)
  add_checked-IsReading byte none s f frame part arrival accepted r =
      let pushed = push s.frame_queue frame in
      let after = push-IsReading byte s.frame_queue s.read_offset frame part arrival accepted r in
      let (queue, offset) = add_pushed_queue s f pushed.sorter pushed.error in
      let t = (add_pushed s f pushed).stream in
      (
        subst (λ q. IsReading byte q t.read_offset) (sym queue)
            (subst (IsReading byte pushed.sorter) (sym offset) after),
        offset,
      )

  -- From a new stream, call by call, with the bytes that Read has returned. The frames are parts of one stream
  -- `byte`, in any order. A call of Read that a signal wakes up has a cause to go on.
  pub data HasDelivered (byte : ℕ → ℕ) : Stream E → List ℕ → Type 0 where
    begins : (id : ℕ) → HasDelivered byte (new_stream id) []
    adds :
        {s : Stream E} {bytes : List ℕ} (f : FlowControlManager) (frame : StreamFrame)
        → IsPart byte frame
        → IsArrival max_byte_count s.frame_queue frame
        → has_too_many_gaps (push s.frame_queue frame).error ≡ false
        → HasDelivered byte s bytes
        → HasDelivered byte (add_stream_frame s f frame).stream bytes
    reads :
        {s : Stream E} {bytes : List ℕ} (f : FlowControlManager) (clock : ℕ → Tick) (n : ℕ)
        → HasDelivered byte s bytes
        → HasDelivered byte (read s f clock n).stream (bytes ++ (read s f clock n).bytes)
    resumes :
        {s : Stream E} {bytes : List ℕ} (f : FlowControlManager) (clock : ℕ → Tick) (n : ℕ)
        → HasCause s
        → HasDelivered byte s bytes
        → HasDelivered byte
            (resume_read s f clock n).stream
            (bytes ++ (resume_read s f clock n).bytes)
    others :
        {s : Stream E} {bytes : List ℕ} (t : Stream E)
        → t.frame_queue ≡ s.frame_queue
        → t.read_offset ≡ s.read_offset
        → HasDelivered byte s bytes
        → HasDelivered byte t bytes

  -- The bytes of a call behind those that were delivered before.
  read_behind :
      (byte : ℕ → ℕ) (t : Stream E) (early : List ℕ) (n : ℕ) (r : ReadResult E)
      → early ≡ stretch byte 0 t.read_offset
      → IsInOrder byte t n r
      → early ++ r.bytes ≡ stretch byte 0 r.stream.read_offset
  read_behind byte t early n r same next =
      ap₂ ◌++◌ same (next.0 ∙ stretch_same byte (omega arith) refl)
      ∙ append-stretch byte 0 t.read_offset (length r.bytes)
      ∙ stretch_same {o = 0} byte refl (sym next.1)

  pub delivered-IsReading :
      (byte : ℕ → ℕ) (s : Stream E) (bytes : List ℕ)
      → HasDelivered byte s bytes
      → IsReading byte s.frame_queue s.read_offset × (bytes ≡ stretch byte 0 s.read_offset)
  unfolding new_stream stretch add_stream_frame
  delivered-IsReading byte s bytes (begins id) = (new-IsReading byte, refl)
  delivered-IsReading byte s bytes (adds {s = t} f frame part arrival accepted d) =
      let (reading, same) = delivered-IsReading byte t bytes d in
      let u =
        Manager.update_highest_received f t.stream_id (add64 frame.offset (length frame.payload)) in
      let (after, offset) =
        add_checked-IsReading byte u.error t u.manager frame part arrival accepted reading in
      (after, same ∙ stretch_same {o = 0} byte refl (sym offset))
  delivered-IsReading byte s bytes (reads {s = t} {bytes = early} f clock n d) =
      let (reading, same) = delivered-IsReading byte t early d in
      let r = read t f clock n in
      let next = read-in_order byte t f clock n reading in
      (next.3, read_behind byte t early n r same next)
  delivered-IsReading byte s bytes (resumes {s = t} {bytes = early} f clock n cause d) =
      let (reading, same) = delivered-IsReading byte t early d in
      let r = resume_read t f clock n in
      let next = resume_read-IsInOrder byte t f clock n reading cause in
      (next.3, read_behind byte t early n r same next)
  delivered-IsReading byte s bytes (others {s = t} u queue offset d) =
      let (reading, same) = delivered-IsReading byte t bytes d in
      (
        subst (λ q. IsReading byte q s.read_offset) (sym queue)
            (subst (IsReading byte t.frame_queue) (sym offset) reading),
        same ∙ stretch_same {o = 0} byte refl (sym offset),
      )

  -- If every frame that arrives at a new stream holds a part of one sequence of bytes, with data that ends below the
  -- largest offset or where no data is queued, and none is refused for the number of gaps, then the bytes that
  -- the calls of Read have returned, one behind the other, are that sequence up to the read offset: in any
  -- order of frames, however they overlap, and with any other calls in between that leave the queue and the
  -- read offset alone. A call of Read that goes on after a signal finds the stream open or with an error.
  pub read-delivers :
      (byte : ℕ → ℕ) (s : Stream E) (bytes : List ℕ)
      → HasDelivered byte s bytes
      → bytes ≡ stretch byte 0 s.read_offset
  read-delivers byte s bytes d = (delivered-IsReading byte s bytes d).1
