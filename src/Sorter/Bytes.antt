-- ===== src/Sorter/Bytes.antt =====
-- The bytes that a sorter hands out, in order.
use mathlib.Core.Path.{ap₂}
use mathlib.Core.List.{append-nil}
use agg_deliv.Common.{
  ℕ, ◌+◌, ◌≡◌, List, [], ◌++◌, Option, none, some, leb, length, drop, add64, arith, refl, sym, ◌∙◌,
  if_cases,
}
use agg_deliv.Wire.StreamFrame.{StreamFrame}
use agg_deliv.Sorter.{
  FrameMap, StreamFrameSorter, Pushed, new_stream_frame_sorter, ByteInterval, Search, duplicate,
  nowhere, at, itself, EndSearch, find_gap, end_loop, cut_front, push_between, push_at, push_new,
  push_over, push, pop_head, pop,
}
use agg_deliv.Sorter.Parts.{
  stretch, stretch_same, append-stretch, IsPart, AreParts, erase-AreParts, push-AreParts,
}

push_between-read_position :
    (s : StreamFrameSorter) (f : StreamFrame) (end : ℕ) (before : List ByteInterval)
    (gap : ByteInterval) (found : EndSearch)
    → (push_between s f end before gap found).sorter.read_position ≡ s.read_position
unfolding push_between
push_between-read_position s f end before gap found = ground arith

push_at-read_position :
    (s : StreamFrameSorter) (f : StreamFrame) (r : Search)
    → (push_at s f r).sorter.read_position ≡ s.read_position
unfolding push_at
push_at-read_position s f duplicate = refl
push_at-read_position s f nowhere = refl
push_at-read_position s f (at before gap after) =
    let end = add64 f.offset (length f.payload) in
    push_between-read_position s (cut_front f gap.start) end before gap
      (end_loop end gap itself after s.queued_frames)

push_new-read_position :
    (s : StreamFrameSorter) (f : StreamFrame)
    → (push_new s f).sorter.read_position ≡ s.read_position
unfolding push_new
push_new-read_position s f =
    push_at-read_position s f (find_gap f.offset (add64 f.offset (length f.payload)) s.gaps)

push_over-read_position :
    (s : StreamFrameSorter) (f : StreamFrame) (old : Option StreamFrame)
    → (push_over s f old).sorter.read_position ≡ s.read_position
unfolding push_over
push_over-read_position s f none = push_new-read_position s f
push_over-read_position s f (some old) =
    if_cases (λ (r : Pushed). r.sorter.read_position ≡ s.read_position)
      (leb (length f.payload) (length old.payload)) _ _ (λ c. refl)
      (λ c. push_new-read_position s (record f {
        payload = drop (length old.payload) f.payload;
        offset = add64 f.offset (length old.payload);
      }))

pub push-read_position :
    (s : StreamFrameSorter) (f : StreamFrame) → (push s f).sorter.read_position ≡ s.read_position
unfolding push
push-read_position s f = ground (arith, push_over-read_position s f (s.queued_frames f.offset))

-- The payload of a frame that Pop may return.
abbrev pub popped_bytes : Option StreamFrame → List ℕ
popped_bytes none = []
popped_bytes (some f) = f.payload

-- From a new sorter, call by call, with the bytes that Pop has returned. Every frame that arrives holds a
-- part of the stream `byte`, in any order, and may be held twice or overlap with others.
pub data HasRead (byte : ℕ → ℕ) : StreamFrameSorter → List ℕ → Type 0 where
  begins : HasRead byte new_stream_frame_sorter []
  arrives :
      {s : StreamFrameSorter} {bytes : List ℕ} (f : StreamFrame)
      → IsPart byte f
      → HasRead byte s bytes
      → HasRead byte (push s f).sorter bytes
  pops :
      {s : StreamFrameSorter} {bytes : List ℕ}
      → HasRead byte s bytes
      → HasRead byte (pop s).1 (bytes ++ popped_bytes (pop s).0)

-- What holds of a sorter and of the bytes that it has handed out.
IsInOrder : (ℕ → ℕ) → FrameMap → ℕ → List ℕ → Type 0
IsInOrder byte q pos bytes = AreParts byte q × (bytes ≡ stretch byte 0 pos)

pop_head-IsInOrder :
    (byte : ℕ → ℕ) (s : StreamFrameSorter) (bytes : List ℕ) (o : Option StreamFrame)
    → s.queued_frames s.read_position ≡ o
    → IsInOrder byte s.queued_frames s.read_position bytes
    → IsInOrder byte
        (pop_head s o).queued_frames
        (pop_head s o).read_position
        (bytes ++ popped_bytes o)
unfolding IsInOrder pop_head AreParts
pop_head-IsInOrder byte s bytes none e (parts, same) = (parts, append-nil bytes ∙ same)
pop_head-IsInOrder byte s bytes (some f) e (parts, same) =
    let found = parts s.read_position f e in
    let n = length f.payload in
    let pos : s.read_position ≡ 0 + s.read_position = omega arith in
    let there : f.payload ≡ stretch byte (0 + s.read_position) n =
      found.1.1 ∙ stretch_same byte (found.0 ∙ pos) refl in
    let after : add64 s.read_position n ≡ 0 + s.read_position + n =
      omega (arith, found.0, found.1.0) in
    let sums : stretch byte 0 (s.read_position + n) ≡ stretch byte 0 (add64 s.read_position n) =
      stretch_same byte refl (omega (arith, after)) in
    (
      erase-AreParts byte s.queued_frames f.offset parts,
      ap₂ ◌++◌ same there ∙ append-stretch byte 0 s.read_position n ∙ sums,
    )

read-IsInOrder :
    (byte : ℕ → ℕ) (s : StreamFrameSorter) (bytes : List ℕ)
    → HasRead byte s bytes
    → IsInOrder byte s.queued_frames s.read_position bytes
unfolding IsInOrder new_stream_frame_sorter AreParts stretch pop
read-IsInOrder byte s bytes begins = ((λ k f e. cc), refl)
read-IsInOrder byte s bytes (arrives {s = t} f p r) =
    let before = read-IsInOrder byte t bytes r in
    (
      push-AreParts byte t f p before.0,
      before.1 ∙ stretch_same {o = 0} {o' = 0} byte refl (sym (push-read_position t f)),
    )
read-IsInOrder byte s bytes (pops {s = t} {bytes = early} r) =
    pop_head-IsInOrder byte t early (t.queued_frames t.read_position) refl
      (read-IsInOrder byte t early r)

-- If every frame that arrives holds a part of one stream and ends below 2 ^ 64, then the payloads that Pop has
-- returned make up the bytes of the stream up to the read position, each once and in order, however the
-- frames are ordered and overlap.
pub pop-in_order :
    (byte : ℕ → ℕ) (s : StreamFrameSorter) (bytes : List ℕ)
    → HasRead byte s bytes
    → bytes ≡ stretch byte 0 s.read_position
unfolding IsInOrder
pop-in_order byte s bytes r = (read-IsInOrder byte s bytes r).1
