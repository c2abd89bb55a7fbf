-- ===== src/Stream/Reading.antt =====
-- Read returns the next bytes of the stream.
use mathlib.Core.Path.{subst, ap₂}
use agg_deliv.Common.{
  ℕ, ◌+◌, ◌-◌, ◌≤◌, ◌<◌, ◌≡◌, false, ◌||◌, List, ◌++◌, Option, none, some, ltb, leb, ◌==◌, length,
  take, drop, length-append, add64, sub64, u64_mod, if_cases, Bool-cases, refl, sym, ap, ◌∙◌, arith,
  ◌⊎◌, inl, inr,
}
use agg_deliv.Wire.StreamFrame.{StreamFrame}
use agg_deliv.Flow.Manager.{FlowControlManager}
use agg_deliv.Sorter
use agg_deliv.Sorter.{pop, pop_head, FrameMap, StreamFrameSorter, erase, max_byte_count}
use agg_deliv.Sorter.Parts.{
  stretch, stretch_same, length-stretch, drop-stretch, take-stretch, append-stretch, IsPart,
  AreParts, erase-AreParts,
}
use agg_deliv.Sorter.Validity.{IsValid}
use agg_deliv.Sorter.Progress.{pop-Advances}
use agg_deliv.Stream.{Stream, Ending, returns, waits, panics, out_of_rounds, bug_read_pos, min}
use agg_deliv.Stream.Read.{Tick, Round, read_frame, read_or_wait}

-- The read offset is the sorter's read position, or inside of the frame there.
unfoldable pub IsWithin : ℕ → ℕ → Option StreamFrame → Type 0
IsWithin pos off o =
    (off ≡ pos) ⊎ (f : StreamFrame) × (o ≡ some f) × (pos < off) × (off < pos + length f.payload)

-- The sorter keeps its invariant, its frames are parts of the stream `byte`, and Read stands in its first
-- frame, if anywhere.
pub record IsReading (byte : ℕ → ℕ) (q : StreamFrameSorter) (off : ℕ) : Type 0 where
  pub valid : IsValid q
  pub parts : AreParts byte q.queued_frames
  pub within : IsWithin q.read_position off (q.queued_frames q.read_position)

-- The bytes that are taken from a frame.
taken_bytes :
    (byte : ℕ → ℕ) (f : StreamFrame) (pos m : ℕ)
    → IsPart byte f
    → pos + m ≤ length f.payload
    → take m (drop pos f.payload) ≡ stretch byte (f.offset + pos) m
unfolding IsPart
taken_bytes byte f pos m (bound, same) h =
    ap (λ xs. take m (drop pos xs)) same
    ∙ ap (take m) (drop-stretch byte pos f.offset (length f.payload))
    ∙ take-stretch byte m (f.offset + pos) (length f.payload - pos) (omega arith)

-- The position in the frame.
frame_pos :
    (byte : ℕ → ℕ) (q : StreamFrameSorter) (off : ℕ) (f : StreamFrame)
    → q.queued_frames q.read_position ≡ some f
    → IsReading byte q off
    → (f.offset ≡ q.read_position)
      × IsPart byte f
      × (q.read_position ≤ off)
      × (off ≤ q.read_position + length f.payload)
      × (q.read_position + length f.payload < u64_mod)
      × (q.read_position + length f.payload ≤ off → length f.payload ≡ 0)
unfolding IsWithin AreParts IsPart
frame_pos byte q off f e r =
    let (here, part) = r.parts q.read_position f e in
    let bound = part.0 in
    elim r.within [
      | inl same ↦ (here, part, omega arith, omega arith, omega arith, λ h. omega arith)
      | inr (g, e', low, high) ↦
          let both : some g ≡ some f = sym e' ∙ e in
          let one : g ≡ f = cc in
          let high' =
            subst (λ (x : StreamFrame). off < q.read_position + length x.payload) one high in
          (here, part, omega arith, omega arith, omega arith, λ h. absurd (omega arith))
    ]

-- What a frame of Read leaves, after `m` bytes of it: it is popped if it was read to its end.
read_on :
    (byte : ℕ → ℕ) (q : StreamFrameSorter) (off m : ℕ) (f : StreamFrame)
    → q.queued_frames q.read_position ≡ some f
    → IsReading byte q off
    → 0 < m
    → off + m < q.read_position + length f.payload
    → IsReading byte q (off + m)
unfolding IsWithin
read_on byte q off m f e r some_bytes inside_it =
    let there = frame_pos byte q off f e r in
    let low = there.2 in
    record { valid = r.valid; parts = r.parts; within = inr (f, e, omega arith, inside_it) }

read_out :
    (byte : ℕ → ℕ) (q : StreamFrameSorter) (off m : ℕ) (f : StreamFrame)
    → q.queued_frames q.read_position ≡ some f
    → IsReading byte q off
    → off + m ≡ q.read_position + length f.payload
    → IsReading byte (Sorter.pop q).1 (off + m)
unfolding IsWithin pop pop_head
read_out byte q off m f e r to_end =
    let a = pop-Advances max_byte_count q (omega arith) r.valid in
    let there = frame_pos byte q off f e r in
    let small = there.4 in
    let same : Sorter.pop_head q (q.queued_frames q.read_position) ≡ Sorter.pop_head q (some f) =
      ap (Sorter.pop_head q) e in
    subst (λ t. IsReading byte t (off + m)) (sym same)
      (record {
        valid = subst IsValid same a.valid;
        parts = erase-AreParts byte q.queued_frames f.offset r.parts;
        within = inl (omega arith);
      })

-- What a round of Read hands on: the bytes from `start` on, and whether it may go on.
pub record IsRound (byte : ℕ → ℕ) (start n : ℕ) (bytes : List ℕ) (off : ℕ) (q : StreamFrameSorter)
    : Type 0 where
  pub reading : IsReading byte q off
  pub in_order : bytes ≡ stretch byte start (length bytes)
  pub behind : off ≡ start + length bytes
  pub fits_in : length bytes ≤ n

-- More bytes behind those that were read.
read_more :
    (byte : ℕ → ℕ) (start n off off' m : ℕ) (bytes more : List ℕ) (q q' : StreamFrameSorter)
    → IsRound byte start n bytes off q
    → more ≡ stretch byte off m
    → m ≤ n - length bytes
    → off' ≡ off + m
    → IsReading byte q' (off + m)
    → IsRound byte start n (bytes ++ more) off' q'
read_more byte start n off off' m bytes more q q' r e h e' reading =
    let size : length more ≡ m = ap length e ∙ length-stretch byte off m in
    let total = length-append bytes more in
    let room = r.fits_in in
    let place = r.behind in
    record {
      reading = subst (IsReading byte q') (sym e') reading;
      in_order =
          ap₂ ◌++◌ r.in_order (e ∙ stretch_same byte place refl)
          ∙ append-stretch byte start (length bytes) m
          ∙ stretch_same {o = start} byte refl (omega arith);
      behind = omega arith;
      fits_in = omega arith;
    }

-- How Read may end.
unfoldable pub IsProper : {E : Type 0} → Ending E → Type 0
IsProper (returns (some bug_read_pos)) = 1 ≤ 0
IsProper (returns e) = 0 ≤ 0
IsProper waits = 0 ≤ 0
IsProper panics = 1 ≤ 0
IsProper out_of_rounds = 1 ≤ 0

-- A round that ends the call, or not.
unfoldable pub IsStop : {E : Type 0} → Option (Ending E) → Type 0
unfolding IsProper
IsStop none = 0 ≤ 0
IsStop (some e) = IsProper e

pub record IsGood (byte : ℕ → ℕ) (start n size : ℕ) (E : Type 0) (r : Round E) : Type 0 where
  pub round : IsRound byte start n r.bytes r.stream.read_offset r.stream.frame_queue
  pub proper : IsStop r.stop
  pub not_closed : (r.stream.reset_locally || r.stream.cancelled) ≡ false
  pub progress :
      r.stop ≡ none
      → (size < length r.bytes)
        ⊎ (r.stream.frame_queue.queued_frames r.stream.frame_queue.read_position ≡ none)

-- Behind a frame without data that was popped, no frame is queued.
empty_popped :
    (byte : ℕ → ℕ) (q : StreamFrameSorter) (off : ℕ) (f : StreamFrame)
    → q.queued_frames q.read_position ≡ some f
    → IsReading byte q off
    → length f.payload ≡ 0
    → Sorter.head (pop q).1 ≡ none
unfolding pop pop_head Sorter.head
empty_popped byte q off f e r empty =
    let there = frame_pos byte q off f e r in
    let here = there.0 in
    let small = there.4 in
    let same : pop_head q (q.queued_frames q.read_position) ≡ pop_head q (some f) =
      ap (pop_head q) e in
    subst (λ (t : StreamFrameSorter). t.queued_frames t.read_position ≡ none) (sym same)
      (if_cases (λ o. o ≡ none) (add64 q.read_position (length f.payload) == f.offset) none
        (q.queued_frames (add64 q.read_position (length f.payload))) (λ c. refl)
        (λ c.
          let equal : add64 q.read_position (length f.payload) ≡ f.offset = omega arith in
          let bad : 1 ≤ 0 = ground arith in absurd (omega arith)))

module _ {E : Type 0} (byte : ℕ → ℕ) (start n : ℕ) (s : Stream E) (f : FlowControlManager)
    (t : Tick) (bytes : List ℕ) (r : IsRound byte start n bytes s.read_offset s.frame_queue)
    (room : length bytes < n) (is_open : (s.reset_locally || s.cancelled) ≡ false) where
  pub frame-IsGood :
      (frame : StreamFrame)
      → s.frame_queue.queued_frames s.frame_queue.read_position ≡ some frame
      → IsGood byte start n
          (length bytes)
          E
          (read_or_wait s f t (n - length bytes) bytes (some frame))
  unfolding read_or_wait read_frame IsStop IsProper pop Sorter.head
  frame-IsGood frame e =
      let q = s.frame_queue in
      let off = s.read_offset in
      let there = frame_pos byte q off frame e r.reading in
      let here = there.0 in
      let low = there.2 in
      let high = there.3 in
      let small = there.4 in
      let size = length frame.payload in
      let want = n - length bytes in
      let p = sub64 off frame.offset in
      let p_is : p ≡ off - frame.offset = omega arith in
      let m = min want (size - p) in
      let more = taken_bytes byte frame p m there.1 (ground arith) in
      let m_small : m ≤ size - p = ground arith in
      let goes : add64 off m ≡ off + m = omega arith in
      let longer = length-append bytes (take m (drop p frame.payload)) in
      let taken : length (take m (drop p frame.payload)) ≡ m =
        ap length more ∙ length-stretch byte (frame.offset + p) m in
      let to_end : size ≤ p + m → off + m ≡ q.read_position + size = λ h. omega arith in
      let Good : Round E → Type 0 = IsGood byte start n (length bytes) E in
      let in_range : ltb size p ≡ false = ground arith in
      let next : (q' : StreamFrameSorter) (off' : ℕ)
          → off' ≡ off + m
          → IsReading byte q' (off + m)
          → IsRound byte start n (bytes ++ take m (drop p frame.payload)) off' q' =
        λ q' off' same reading.
          read_more byte start n off off' m bytes (take m (drop p frame.payload)) q q' r
            (more ∙ stretch_same byte (omega arith) refl) (ground arith) same reading in
      let positive : p + m < size → 0 < m = λ h. ground arith in
      let left : p + m < size → off + m < q.read_position + size = λ h. omega arith in
      if_cases Good (ltb size p) _ _ (λ c. let bad : 1 ≤ 0 = ground arith in absurd (omega arith))
        (λ c.
          if_cases Good (leb size (p + m)) _ _
            (λ d.
              if_cases Good frame.fin_bit _ _
                (λ g. record {
                  round =
                      next (pop q).1 (add64 off m) goes
                        (read_out byte q off m frame e r.reading (to_end (ground arith)));
                  proper = omega arith;
                  not_closed = is_open;
                  progress = λ h. cc;
                })
                (λ g. record {
                  round =
                      next (pop q).1 (add64 off m) goes
                        (read_out byte q off m frame e r.reading (to_end (ground arith)));
                  proper = omega arith;
                  not_closed = is_open;
                  progress = λ h. elim (Bool-cases (m == 0)) [
                    | inl nothing ↦
                        let zero_bytes : m ≡ 0 = ground arith in
                        let all_read : size ≤ p + m = ground arith in
                        inr (empty_popped byte q off frame e r.reading (there.5 (omega arith)))
                    | inr some_bytes ↦ let positive : 0 < m = ground arith in inl (omega arith)
                  ];
                }))
            (λ d. record {
              round = next q (add64 off m) goes (
                  read_on byte q off m frame e r.reading (positive (ground arith))
                    (left (ground arith)));
              proper = omega arith;
              not_closed = is_open;
              progress = λ h. let more_bytes = positive (ground arith) in inl (omega arith);
            }))
