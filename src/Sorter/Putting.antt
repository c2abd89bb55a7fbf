-- ===== src/Sorter/Putting.antt =====
-- Push of a frame that begins where nothing is queued.
use mathlib.Core.Path.{subst}
use agg_deliv.Common.{
  ℕ, ◌+◌, ◌-◌, ◌≤◌, ◌<◌, ◌≡◌, true, false, some, ◌==◌, length, add64, u64_mod, arith, sym, ap, ◌∙◌,
  inl, inr, Bool-cases, ==_sound,
}
use agg_deliv.Wire.StreamFrame.{StreamFrame}
use agg_deliv.Sorter.{
  StreamFrameSorter, Pushed, duplicate_stream_data, Search, duplicate, nowhere, at, itself,
  find_gap, end_loop, cut_front, push_between, push_at, push_new,
}
use agg_deliv.Sorter.Gaps.{in_gaps, inside, AreGaps, Chains, Fits, IsVacant}
use agg_deliv.Sorter.Finding.{IsFound, find_gap-IsFound}
use agg_deliv.Sorter.Ending.{end_loop-Ends, IsHere}
use agg_deliv.Sorter.Filling.{filled}
use agg_deliv.Sorter.Splitting.{AreGaps-at, Chains-at, in_gaps_at, AreBefore-all, queued_behind}
use agg_deliv.Sorter.Validity.{
  Holds, IsNoBug, Takes, nothing-Takes, IsOff, cut_front_end, cut_front_start,
}
use agg_deliv.Sorter.Taking.{push_between-Takes}

push_at-Takes :
    (top : ℕ) (s : StreamFrameSorter) (f : StreamFrame) (r : Search)
    → 0 < length f.payload
    → f.offset + length f.payload < top
    → top < u64_mod
    → IsOff f.offset s.gaps
    → Holds top s.queued_frames s.read_position s.gaps
    → IsFound f.offset (f.offset + length f.payload) s.gaps r
    → Takes top s f.offset (f.offset + length f.payload) (push_at s f r)
unfolding push_at IsFound IsNoBug IsOff AreGaps IsHere
push_at-Takes top s f duplicate filled below small off v found =
    nothing-Takes top s f.offset (f.offset + length f.payload) (some duplicate_stream_data)
      (omega arith) (λ x from to. found s.read_position top v.ordered x from to) v
push_at-Takes top s f nowhere filled below small off v found = absurd (
    omega (
      arith,
      AreBefore-all f.offset s.read_position top s.gaps v.low (omega arith) v.ordered found,
    ))
push_at-Takes top s f (at before gap after) filled below small off v
      (whole, skipped, reaches, close) =
    let end = f.offset + length f.payload in
    let same : add64 f.offset (length f.payload) ≡ end = omega arith in
    let ordered = subst (AreGaps s.read_position top) whole v.ordered in
    let here = AreGaps-at s.read_position top before gap after ordered in
    let chained =
      Chains-at s.queued_frames s.read_position before gap after
        (subst (Chains s.queued_frames s.read_position) whole v.chained) in
    let g = cut_front f gap.start in
    let size = cut_front_end f gap.start reaches in
    let start = cut_front_start f gap.start in
    let nonempty = here.1 in
    let apart : f.offset < gap.end = elim (Bool-cases (f.offset == gap.end)) [
      | inl touches ↦
          absurd (omega (arith, off before gap after whole (==_sound f.offset gap.end touches)))
      | inr other ↦ ground arith
    ] in
    let from : gap.start ≤ g.offset = elim start [
      | inl b ↦ omega (arith, b.0)
      | inr b ↦ omega (arith, b.0, b.1)
    ] in
    let late : f.offset ≤ g.offset = elim start [
      | inl b ↦ omega (arith, b.0, b.1)
      | inr b ↦ omega (arith, b.0)
    ] in
    let to : g.offset < gap.end = elim start [
      | inl b ↦ omega (arith, b.0)
      | inr b ↦ omega (arith, b.0)
    ] in
    let proper : g.offset < end = elim start [
      | inl b ↦ omega (arith, b.0)
      | inr b ↦ omega (arith, b.0)
    ] in
    let cut : (x : ℕ) → f.offset ≤ x → x < g.offset → x < gap.start = λ x low high. elim start [
      | inl b ↦ omega (arith, b.0)
      | inr b ↦ absurd (omega (arith, b.0))
    ] in
    let ends =
      end_loop-Ends gap end top after itself s.queued_frames below (here.1, reaches) here.2
        chained in
    let taken =
      push_between-Takes top s g f.offset end before gap after
        (end_loop end gap itself after s.queued_frames) whole skipped from late cut to proper below
        size v ends in
    subst
      (λ e.
        Takes top s f.offset end
          (push_between s g e before gap (end_loop e gap itself after s.queued_frames)))
      (sym same) taken

pub push_new-Takes :
    (top : ℕ) (s : StreamFrameSorter) (f : StreamFrame)
    → 0 < length f.payload
    → f.offset + length f.payload < top
    → top < u64_mod
    → IsOff f.offset s.gaps
    → Holds top s.queued_frames s.read_position s.gaps
    → Takes top s f.offset (f.offset + length f.payload) (push_new s f)
unfolding push_new
push_new-Takes top s f filled below small off v =
    let end = f.offset + length f.payload in
    let same : add64 f.offset (length f.payload) ≡ end = omega arith in
    push_at-Takes top s f (find_gap f.offset (add64 f.offset (length f.payload)) s.gaps) filled
      below small off v
      (subst (λ e. IsFound f.offset end s.gaps (find_gap f.offset e s.gaps)) (sym same)
        (find_gap-IsFound f.offset end s.gaps))

-- Where no data is queued, no gap ends.
pub vacant-IsOff :
    (top : ℕ) (s : StreamFrameSorter) (start : ℕ)
    → start < top
    → IsVacant s.queued_frames start
    → Holds top s.queued_frames s.read_position s.gaps
    → IsOff start s.gaps
unfolding IsOff IsVacant
vacant-IsOff top s start below vacant v before gap after whole touches =
    let ordered = subst (AreGaps s.read_position top) whole v.ordered in
    let chained = subst (Chains s.queued_frames s.read_position) whole v.chained in
    let (g, e, h) =
      queued_behind s.queued_frames top gap after (omega arith)
        (AreGaps-at s.read_position top before gap after ordered)
        (Chains-at s.queued_frames s.read_position before gap after chained) in
    let empty = vacant g (ap s.queued_frames touches ∙ e) in omega arith

-- Behind a queued frame with data, no gap ends.
pub behind-IsOff :
    (top : ℕ) (s : StreamFrameSorter) (k : ℕ) (old : StreamFrame)
    → s.queued_frames k ≡ some old
    → 0 < length old.payload
    → Holds top s.queued_frames s.read_position s.gaps
    → IsOff (k + length old.payload) s.gaps
unfolding IsOff Fits AreGaps
behind-IsOff top s k old e h v before gap after whole touches =
    let ordered =
      AreGaps-at s.read_position top before gap after
        (subst (AreGaps s.read_position top) whole v.ordered) in
    let x = gap.end - 1 in
    let nonempty = ordered.1 in
    let present = in_gaps_at x before gap after (omega arith) (omega arith) in
    let absent = (v.fits k old e).1 x (omega arith) (omega arith) in
    let clash : true ≡ false = sym present ∙ sym (ap (in_gaps x) whole) ∙ absent in cc

-- A frame whose first bytes are not missing.
pub Takes-extend :
    (top : ℕ) (s : StreamFrameSorter) (start later end : ℕ) (r : Pushed)
    → ((x : ℕ) → start ≤ x → x < later → in_gaps x s.gaps ≡ false)
    → start ≤ later
    → Takes top s later end r
    → Takes top s start end r
Takes-extend top s start later end r there h t = record {
  no_bug = t.no_bug;
  left = λ x.
      let taken = t.left x in
      elim (Bool-cases (inside start later x)) [
        | inl early ↦ let absent = there x (ground arith) (ground arith) in ground arith
        | inr other ↦ ground arith
      ];
  kept = t.kept;
  valid = t.valid;
}
