-- ===== src/Sorter/Tests.antt =====
-- The sorter on a frame that arrives behind its own second half.
use agg_deliv.Common.{
  ℕ, suc, ◌+◌, ◌≤◌, ◌≡◌, true, false, not, ◌&&◌, [], ◌∷◌, ◌++◌, none, some, ltb, arith, refl, inl,
}
use agg_deliv.Wire.StreamFrame.{StreamFrame}
use agg_deliv.Sorter.{
  StreamFrameSorter, new_stream_frame_sorter, push, push_over, push_new, push_at, push_between,
  find_gap, end_loop, fill_gaps, head, pop, pop_head, max_byte_count,
}
use agg_deliv.Sorter.Parts.{stretch, IsPart}
use agg_deliv.Sorter.Bytes.{HasRead, begins, arrives, pops, popped_bytes, pop-in_order}
use agg_deliv.Sorter.Gaps.{in_gaps}
use agg_deliv.Sorter.Validity.{IsValid, IsNoBug, has_too_many_gaps}
use agg_deliv.Sorter.Pushing.{IsArrival}
use agg_deliv.Sorter.Progress
use agg_deliv.Sorter.Reading.{
  received, HasReceived, in_gaps-received, received-IsValid, push-IsNoBug, pops-received,
}
use agg_deliv.Sorter.Reading
use agg_deliv.Sorter.Fin.{push-fin_kept}

abbrev byte : ℕ → ℕ
byte x = x + 10

-- The second half of a frame, as it is sent again, and the whole frame.
abbrev half : StreamFrame
half = record {
  stream_id = 5;
  fin_bit = true;
  data_len_present = true;
  offset = 2;
  payload = 12 ∷ 13 ∷ [];
}

abbrev whole : StreamFrame
whole = record {
  stream_id = 5;
  fin_bit = true;
  data_len_present = true;
  offset = 0;
  payload = 10 ∷ 11 ∷ 12 ∷ 13 ∷ [];
}

abbrev one : StreamFrameSorter
one = (push new_stream_frame_sorter half).sorter

abbrev two : StreamFrameSorter
two = (push one whole).sorter

half-IsPart : IsPart byte half
unfolding IsPart stretch
half-IsPart = (omega arith, refl)

whole-IsPart : IsPart byte whole
unfolding IsPart stretch
whole-IsPart = (omega arith, refl)

two_read : HasRead byte two []
two_read = arrives whole whole-IsPart (arrives half half-IsPart begins)

pop-in_order_example :
    [] ++ popped_bytes (pop two).0 ++ popped_bytes (pop (pop two).1).0
    ≡ stretch byte 0 (pop (pop two).1).1.read_position
pop-in_order_example =
    pop-in_order byte (pop (pop two).1).1
      ([] ++ popped_bytes (pop two).0 ++ popped_bytes (pop (pop two).1).0) (pops (pops two_read))

two_pops : popped_bytes (pop two).0 ++ popped_bytes (pop (pop two).1).0 ≡ 10 ∷ 11 ∷ 12 ∷ 13 ∷ []
unfolding push push_over push_new push_at push_between find_gap end_loop fill_gaps head pop pop_head
    new_stream_frame_sorter
two_pops = refl

half-IsArrival : IsArrival max_byte_count new_stream_frame_sorter half
unfolding IsArrival
half-IsArrival = inl (omega arith, omega arith)

whole-IsArrival : IsArrival max_byte_count one whole
unfolding IsArrival
whole-IsArrival = inl (omega arith, omega arith)

one_accepted : has_too_many_gaps (push new_stream_frame_sorter half).error ≡ false
unfolding push push_over push_new push_at push_between find_gap end_loop fill_gaps
    new_stream_frame_sorter
one_accepted = refl

two_accepted : has_too_many_gaps (push one whole).error ≡ false
unfolding push push_over push_new push_at push_between find_gap end_loop fill_gaps
    new_stream_frame_sorter
two_accepted = refl

one_received : HasReceived (half ∷ []) one
one_received = Reading.arrives half half-IsArrival one_accepted Reading.begins

two_received : HasReceived (whole ∷ half ∷ []) two
two_received = Reading.arrives whole whole-IsArrival two_accepted one_received

in_gaps-received_example :
    in_gaps 3 two.gaps ≡ ltb 3 max_byte_count && not (received (whole ∷ half ∷ []) 3)
in_gaps-received_example = in_gaps-received (whole ∷ half ∷ []) two 3 two_received

received-IsValid_example : IsValid two
received-IsValid_example = received-IsValid (whole ∷ half ∷ []) two two_received

push-IsNoBug_example : IsNoBug (push one whole).error
push-IsNoBug_example = push-IsNoBug (half ∷ []) one whole one_received whole-IsArrival

all_received : (x : ℕ) → suc x ≤ 4 → received (whole ∷ half ∷ []) x ≡ true
unfolding received
all_received x h = ground arith

pops-received_example : 4 ≤ (Progress.pops 4 two).read_position
pops-received_example =
    pops-received (whole ∷ half ∷ []) two 4 two_received (omega arith) all_received

one_gaps :
    one.gaps ≡ (record { start = 0; end = 2 }) ∷ (record { start = 4; end = max_byte_count }) ∷ []
unfolding push push_over push_new push_at push_between find_gap end_loop fill_gaps
    new_stream_frame_sorter
one_gaps = refl

one_vacant : one.queued_frames 0 ≡ none
unfolding push push_over push_new push_at push_between find_gap end_loop fill_gaps
    new_stream_frame_sorter
one_vacant = refl

one_unread : one.read_position ≡ 0
unfolding push push_over push_new push_at push_between find_gap end_loop fill_gaps
    new_stream_frame_sorter
one_unread = refl

push-fin_kept_example :
    head (push one whole).sorter ≡ some (record whole { payload = 10 ∷ 11 ∷ [] })
push-fin_kept_example =
    push-fin_kept one whole (record { start = 0; end = 2 })
      (record { start = 4; end = max_byte_count }) [] one_gaps (omega arith) refl one_unread
      one_vacant (omega arith) (omega arith) (omega arith) (omega arith)
