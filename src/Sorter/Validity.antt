-- ===== src/Sorter/Validity.antt =====
-- The invariant of a sorter, and what Push does to the gaps.
use agg_deliv.Common.{
  ℕ, ◌+◌, ◌-◌, ◌≤◌, ◌<◌, ◌≡◌, Bool, true, false, not, ◌&&◌, List, ◌∷◌, ◌++◌, Option, none, some,
  ltb, if_cases, length, drop, length-take, length-drop, arith, refl, ◌⊎◌, inl, inr, Bool-cases,
}
use agg_deliv.Wire.StreamFrame.{StreamFrame}
use agg_deliv.Sorter.{
  ByteInterval, FrameMap, StreamFrameSorter, Pushed, SortError, too_many_gaps,
  duplicate_stream_data, empty_stream_data, no_gap_found, no_end_gap_found, min, cut_front,
  cut_back, max_byte_count,
}
use agg_deliv.Sorter.Gaps.{in_gaps, inside, AreGaps, Chains, Fits}

-- The invariant, with the end of the last gap.
pub record Holds (top : ℕ) (q : FrameMap) (pos : ℕ) (gs : List ByteInterval) : Type 0 where
  pub low : pos ≤ top
  pub ordered : AreGaps pos top gs
  pub chained : Chains q pos gs
  pub fits : Fits q gs

abbrev pub IsValid : StreamFrameSorter → Type 0
IsValid s = Holds max_byte_count s.queued_frames s.read_position s.gaps

-- Neither of the errors for a bug.
unfoldable pub IsNoBug : Option SortError → Type 0
IsNoBug none = 0 ≤ 0
IsNoBug (some too_many_gaps) = 0 ≤ 0
IsNoBug (some duplicate_stream_data) = 0 ≤ 0
IsNoBug (some empty_stream_data) = 0 ≤ 0
IsNoBug (some no_gap_found) = 1 ≤ 0
IsNoBug (some no_end_gap_found) = 1 ≤ 0

-- Whether the frame was refused for the number of gaps.
abbrev pub has_too_many_gaps : Option SortError → Bool
has_too_many_gaps (some too_many_gaps) = true
has_too_many_gaps _ = false

-- What Push does with a frame for the bytes from `start` on and before `end`.
pub record Takes (top : ℕ) (s : StreamFrameSorter) (start end : ℕ) (r : Pushed) : Type 0 where
  pub no_bug : IsNoBug r.error
  pub left : (x : ℕ) → in_gaps x r.sorter.gaps ≡ in_gaps x s.gaps && not (inside start end x)
  pub kept :
      (k : ℕ) (f : StreamFrame)
      → s.queued_frames k ≡ some f
      → 0 < length f.payload
      → ((x : ℕ) → x ≤ k → in_gaps x s.gaps ≡ false)
      → r.sorter.queued_frames k ≡ some f
  pub valid :
      has_too_many_gaps r.error ≡ false
      → Holds top r.sorter.queued_frames s.read_position r.sorter.gaps

-- No gap ends where the frame starts.
unfoldable pub IsOff : ℕ → List ByteInterval → Type 0
IsOff start gs =
    (before : List ByteInterval) (gap : ByteInterval) (after : List ByteInterval)
    → gs ≡ before ++ gap ∷ after
    → start ≡ gap.end
    → 1 ≤ 0

-- Nothing is missing of the frame.
pub nothing-Takes :
    (top : ℕ) (s : StreamFrameSorter) (start end : ℕ) (e : Option SortError)
    → IsNoBug e
    → ((x : ℕ) → start ≤ x → x < end → in_gaps x s.gaps ≡ false)
    → Holds top s.queued_frames s.read_position s.gaps
    → Takes top s start end (record { sorter = s; error = e })
nothing-Takes top s start end e no_bug there v = record {
  no_bug = no_bug;
  left = λ x. elim (Bool-cases (inside start end x)) [
    | inl within ↦ let out = there x (ground arith) (ground arith) in ground arith
    | inr without ↦ ground arith
  ];
  kept = λ k f found filled there_too. found;
  valid = λ h. v;
}

pub cut_front_end :
    (f : StreamFrame) (start : ℕ)
    → start < f.offset + length f.payload
    → (cut_front f start).offset + length (cut_front f start).payload ≡ f.offset + length f.payload
cut_front_end f start h =
    let size = length-drop (start - f.offset) f.payload in
    if_cases (λ (g : StreamFrame). g.offset + length g.payload ≡ f.offset + length f.payload)
      (ltb f.offset start)
      (record f { offset = start; payload = drop (start - f.offset) f.payload }) f
      (λ c. let less : f.offset < start = ground arith in omega arith) (λ c. refl)

-- The cut frame starts where the frame does, or with the gap.
pub cut_front_start :
    (f : StreamFrame) (start : ℕ)
    → ((cut_front f start).offset ≡ start) × (f.offset ≤ start)
      ⊎ ((cut_front f start).offset ≡ f.offset) × (start ≤ f.offset)
cut_front_start f start =
    if_cases
      (λ (g : StreamFrame).
        (g.offset ≡ start) × (f.offset ≤ start) ⊎ (g.offset ≡ f.offset) × (start ≤ f.offset))
      (ltb f.offset start)
      (record f { offset = start; payload = drop (start - f.offset) f.payload }) f
      (λ c. inl (refl, ground arith)) (λ c. inr (refl, ground arith))

pub cut_back_offset : (f : StreamFrame) (end last : ℕ) → (cut_back f end last).offset ≡ f.offset
cut_back_offset f end last = ground arith

pub cut_back_end :
    (f : StreamFrame) (end last : ℕ)
    → f.offset + length f.payload ≡ end
    → f.offset < last
    → f.offset + length (cut_back f end last).payload ≡ min end last
cut_back_end f end last e h =
    let size = length-take (length f.payload - (end - last)) f.payload (omega arith) in ground arith
