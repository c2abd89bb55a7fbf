-- ===== src/Sorter.antt =====
-- mpquic_trans/stream_frame_sorter.go: the frames of a stream that are received, in any order, and the gaps
-- between them. A call returns the sorter after it, also where it fails behind a change.
pub mod Finding
pub mod Gaps
pub mod Ending
pub mod Filling
pub mod Splitting
pub mod Validity
pub mod Taking
pub mod Putting
pub mod Pushing
pub mod Progress
pub mod Reading
pub mod Fin
pub mod Parts
pub mod Bytes
mod Tests
use agg_deliv.Common.{
  ℕ, zero, suc, ◌+◌, ◌-◌, ◌≤◌, ◌<◌, ◌≡◌, Bool, true, false, not, ◌&&◌, List, [], ◌∷◌, ◌++◌, Option,
  none, some, ltb, leb, ◌==◌, if◌then◌else◌, length, take, drop, add64, sub64, u64_mod,
}
use agg_deliv.Wire.StreamFrame.{StreamFrame}

-- utils.ByteInterval
pub record ByteInterval : Type 0 where
  pub start : ℕ
  pub end : ℕ

-- The map from offsets to frames.
abbrev pub FrameMap : Type 0
FrameMap = ℕ → Option StreamFrame

abbrev pub store : FrameMap → ℕ → StreamFrame → FrameMap
store m k f other = if other == k then some f else m other

abbrev pub erase : FrameMap → ℕ → FrameMap
erase m k other = if other == k then none else m other

pub record StreamFrameSorter : Type 0 where
  pub queued_frames : FrameMap
  pub read_position : ℕ
  pub gaps : List ByteInterval

abbrev pub max_byte_count : ℕ
max_byte_count = u64_mod - 1

abbrev pub max_stream_frame_sorter_gaps : ℕ
max_stream_frame_sorter_gaps = 2500

pub data SortError : Type 0 where
  too_many_gaps : SortError
  duplicate_stream_data : SortError
  empty_stream_data : SortError
  no_gap_found : SortError
  no_end_gap_found : SortError

unfoldable pub new_stream_frame_sorter : StreamFrameSorter
new_stream_frame_sorter = record {
  queued_frames = λ k. none;
  read_position = 0;
  gaps = (record { start = 0; end = max_byte_count }) ∷ [];
}

-- The loop that skips the gaps before a frame: the gap that it stops at, with those before and after it.
pub data Search : Type 0 where
  duplicate : Search
  nowhere : Search
  at : List ByteInterval → ByteInterval → List ByteInterval → Search

abbrev pub behind : ByteInterval → Search → Search
behind g duplicate = duplicate
behind g nowhere = nowhere
behind g (at before gap after) = at (g ∷ before) gap after

unfoldable pub find_gap : ℕ → ℕ → List ByteInterval → Search
find_gap start end [] = nowhere
find_gap start end (g ∷ gs) =
    let later = find_gap start end gs in
    if leb end g.start
    then duplicate
    else if ltb g.start end && leb start g.end
    then at [] g gs
    else behind g later

-- Where the loop for the end gap stops: at the gap itself, or at a later one, which may have been removed
-- from the list; with the gaps behind it, and the frames that are still queued.
pub data EndGap : Type 0 where
  itself : EndGap
  kept : ByteInterval → EndGap
  removed : ByteInterval → EndGap

pub record EndSearch : Type 0 where
  pub end_gap : EndGap
  pub fails : Bool
  pub after : List ByteInterval
  pub queued : FrameMap

-- The gap at which the loop stands, before it is removed, and after.
abbrev pub standing : EndGap → EndGap
standing itself = itself
standing (kept g) = removed g
standing (removed g) = removed g

abbrev pub interval_of : ByteInterval → EndGap → ByteInterval
interval_of gap itself = gap
interval_of gap (kept g) = g
interval_of gap (removed g) = g

unfoldable pub end_loop : ℕ → ByteInterval → EndGap → List ByteInterval → FrameMap → EndSearch
end_loop end gap here [] queued = record {
  end_gap = here;
  fails = leb (interval_of gap here).end end;
  after = [];
  queued = queued;
}
end_loop end gap here (next ∷ rest) queued =
    let later = end_loop end gap (kept next) rest (erase queued (interval_of gap here).end) in
    if ltb end (interval_of gap here).end
    then record { end_gap = here; fails = false; after = next ∷ rest; queued = queued }
    else if leb end next.start
    then record { end_gap = standing here; fails = false; after = next ∷ rest; queued = queued }
    else later

-- The end gap where it is still in the list, beside the gap.
abbrev pub in_list : EndGap → List ByteInterval
in_list itself = []
in_list (kept g) = g ∷ []
in_list (removed g) = []

-- The end gap with a new start, where it is in the list beside the gap.
abbrev pub restart : EndGap → ℕ → List ByteInterval
restart itself end = []
restart (kept g) end = (record g { start = end }) ∷ []
restart (removed g) end = []

-- The gaps in place of the gap and the end gap, for a frame from `start` to `end` inside of them. Where
-- the two are one, the branches that change the one change the other.
unfoldable pub fill_gaps : ByteInterval → EndGap → ℕ → ℕ → List ByteInterval
fill_gaps gap itself start end =
    if start == gap.start
    then (if leb gap.end end
        then []
        else if ltb end gap.end
        then (record gap { start = end }) ∷ []
        else gap ∷ [])
    else if end == gap.end
    then (record gap { end = start }) ∷ []
    else (record gap { end = start }) ∷ (record { start = end; end = gap.end }) ∷ []
fill_gaps gap (kept g) start end =
    if start == gap.start
    then (let last = if ltb end g.end then restart (kept g) end else g ∷ [] in
        if leb gap.end end then last else gap ∷ last)
    else if end == g.end
    then (record gap { end = start }) ∷ g ∷ []
    else (record gap { end = start }) ∷ restart (kept g) end
fill_gaps gap (removed g) start end =
    if start == gap.start
    then (if leb gap.end end then [] else gap ∷ [])
    else (record gap { end = start }) ∷ []

pub record Pushed : Type 0 where
  pub sorter : StreamFrameSorter
  pub error : Option SortError

-- The frame without the bytes before `start`, and without those behind `last`. The source panics on a slice
-- of negative length, where the frame starts behind `last`; the model keeps no byte there.
abbrev pub cut_front : StreamFrame → ℕ → StreamFrame
cut_front f start =
    if ltb f.offset start
    then record f { offset = start; payload = drop (start - f.offset) f.payload }
    else f

abbrev pub cut_back : StreamFrame → ℕ → ℕ → StreamFrame
cut_back f end last =
    if ltb last end
    then record f { payload = take (length f.payload - (end - last)) f.payload }
    else f

abbrev pub min : ℕ → ℕ → ℕ
min a b = if ltb b a then b else a

-- Push behind the search for the end gap.
unfoldable pub push_between :
    StreamFrameSorter → StreamFrame → ℕ → List ByteInterval → ByteInterval → EndSearch → Pushed
unfolding fill_gaps
push_between s f end before gap found =
    let last = (interval_of gap found.end_gap).end in
    let cut = cut_back f end last in
    let gaps = before ++ (fill_gaps gap found.end_gap f.offset (min end last) ++ found.after) in
    let changed = record s { gaps = gaps; queued_frames = found.queued } in
    if found.fails
    then record {
      sorter = record s {
        gaps = before ++ gap ∷ in_list found.end_gap;
        queued_frames = found.queued;
      };
      error = some no_end_gap_found;
    }
    else if ltb max_stream_frame_sorter_gaps (length gaps)
    then record { sorter = changed; error = some too_many_gaps }
    else record {
      sorter = record changed { queued_frames = store found.queued cut.offset cut };
      error = none;
    }

-- Push behind the search for the gap.
unfoldable pub push_at : StreamFrameSorter → StreamFrame → Search → Pushed
unfolding push_between end_loop
push_at s f duplicate = record { sorter = s; error = some duplicate_stream_data }
push_at s f nowhere = record { sorter = s; error = some no_gap_found }
push_at s f (at before gap after) =
    let end = add64 f.offset (length f.payload) in
    push_between s (cut_front f gap.start) end before gap
      (end_loop end gap itself after s.queued_frames)

-- Push behind its tests for a frame at the same offset.
unfoldable pub push_new : StreamFrameSorter → StreamFrame → Pushed
unfolding find_gap push_at
push_new s f = push_at s f (find_gap f.offset (add64 f.offset (length f.payload)) s.gaps)

-- Push with the frame that is queued at the same offset.
unfoldable pub push_over : StreamFrameSorter → StreamFrame → Option StreamFrame → Pushed
unfolding push_new
push_over s f none = push_new s f
push_over s f (some old) =
    let n = length old.payload in
    if leb (length f.payload) n
    then record { sorter = s; error = some duplicate_stream_data }
    else push_new s (record f { payload = drop n f.payload; offset = add64 f.offset n })

unfoldable pub push : StreamFrameSorter → StreamFrame → Pushed
unfolding push_over
push s f =
    if length f.payload == 0
    then (if f.fin_bit
        then record {
          sorter = record s { queued_frames = store s.queued_frames f.offset f };
          error = none;
        }
        else record { sorter = s; error = some empty_stream_data })
    else push_over s f (s.queued_frames f.offset)

unfoldable pub head : StreamFrameSorter → Option StreamFrame
head s = s.queued_frames s.read_position

unfoldable pub pop_head : StreamFrameSorter → Option StreamFrame → StreamFrameSorter
pop_head s none = s
pop_head s (some f) = record s {
  read_position = add64 s.read_position (length f.payload);
  queued_frames = erase s.queued_frames f.offset;
}

unfoldable pub pop : StreamFrameSorter → Option StreamFrame × StreamFrameSorter
unfolding head pop_head
pop s = (head s, pop_head s (head s))
