-- ===== src/Sorter/Pushing.antt =====
-- Push keeps the invariant, and what it does to the gaps.
use mathlib.Core.Path.{subst}
use agg_deliv.Common.{
  ℕ, ◌+◌, ◌≤◌, ◌<◌, ◌≡◌, true, false, Option, none, some, leb, ◌==◌, if_cases, length, drop,
  length-drop, add64, u64_mod, arith, refl, sym, ◌∙◌, ◌⊎◌, inl, inr, Bool-cases, ==_sound,
}
use agg_deliv.Wire.StreamFrame.{StreamFrame}
use agg_deliv.Sorter.{
  store, StreamFrameSorter, duplicate_stream_data, empty_stream_data, push_new, push_over, push,
}
use agg_deliv.Sorter.Gaps.{in_gaps, Fits, IsVacant, Chains-vacant, store_other}
use agg_deliv.Sorter.Filling.{filled}
use agg_deliv.Sorter.Validity.{Holds, IsNoBug, Takes, nothing-Takes, IsOff}
use agg_deliv.Sorter.Putting.{push_new-Takes, vacant-IsOff, behind-IsOff, Takes-extend}

push_over-Takes :
    (top : ℕ) (s : StreamFrameSorter) (f : StreamFrame) (o : Option StreamFrame)
    → s.queued_frames f.offset ≡ o
    → 0 < length f.payload
    → f.offset + length f.payload < top
    → top < u64_mod
    → Holds top s.queued_frames s.read_position s.gaps
    → Takes top s f.offset (f.offset + length f.payload) (push_over s f o)
unfolding push_over Fits IsVacant IsNoBug
push_over-Takes top s f none e filled below small v =
    push_new-Takes top s f filled below small
      (vacant-IsOff top s f.offset (omega arith)
        (λ g found. let clash : none ≡ some g = sym e ∙ found in cc) v)
      v
push_over-Takes top s f (some old) e filled below small v =
    let end = f.offset + length f.payload in
    let n = length old.payload in
    let there = (v.fits f.offset old e).1 in
    if_cases (Takes top s f.offset end) (leb (length f.payload) n) _ _
      (λ c.
        nothing-Takes top s f.offset end (some duplicate_stream_data) (omega arith)
          (λ x low high. there x low (ground arith)) v)
      (λ c.
        let start = f.offset + n in
        let rest = record f { payload = drop n f.payload; offset = add64 f.offset n } in
        let shorter : n < length f.payload = ground arith in
        let at_start : add64 f.offset n ≡ start = omega arith in
        let size = length-drop n f.payload in
        let at_end : add64 f.offset n + length (drop n f.payload) ≡ end = omega arith in
        let off : IsOff (add64 f.offset n) s.gaps = elim (Bool-cases (n == 0)) [
          | inl empty ↦
              let nothing : n ≡ 0 = ==_sound n 0 empty in
              let same : f.offset ≡ add64 f.offset n = omega arith in
              subst (λ k. IsOff k s.gaps) same
                (vacant-IsOff top s f.offset (omega arith)
                  (λ g found.
                    let both : some old ≡ some g = sym e ∙ found in
                    let one : old ≡ g = cc in
                    subst (λ (h : StreamFrame). length h.payload ≡ 0) one nothing)
                  v)
          | inr other ↦
              let some_data : 0 < n = ground arith in
              subst (λ k. IsOff k s.gaps) (sym at_start)
                (behind-IsOff top s f.offset old e some_data v)
        ] in
        let taken = push_new-Takes top s rest (omega arith) (omega arith) small off v in
        Takes-extend top s f.offset (add64 f.offset n) end _
          (λ x low high. there x low (omega arith)) (omega arith)
          (subst (λ y. Takes top s (add64 f.offset n) y (push_new s rest)) at_end taken))

-- A frame that holds data and ends below the end of the last gap, or that holds none, at a position
-- where no data is queued.
unfoldable pub IsArrival : ℕ → StreamFrameSorter → StreamFrame → Type 0
unfolding IsVacant
IsArrival top s f =
    (0 < length f.payload) × (f.offset + length f.payload < top)
    ⊎ (length f.payload ≡ 0) × IsVacant s.queued_frames f.offset

empty-Holds :
    (top : ℕ) (s : StreamFrameSorter) (f : StreamFrame)
    → length f.payload ≡ 0
    → IsVacant s.queued_frames f.offset
    → Holds top s.queued_frames s.read_position s.gaps
    → Holds top (store s.queued_frames f.offset f) s.read_position s.gaps
unfolding Fits
empty-Holds top s f empty vacant v = record {
  low = v.low;
  ordered = v.ordered;
  chained =
      Chains-vacant s.queued_frames (store s.queued_frames f.offset f) f.offset s.read_position
        s.gaps (λ o other. store_other s.queued_frames f.offset o f other) vacant v.chained;
  fits = λ k g.
      let Goal : Type 0 =
        (g.offset ≡ k) × ((x : ℕ) → k ≤ x → x < k + length g.payload → in_gaps x s.gaps ≡ false) in
      if_cases (λ r. r ≡ some g → Goal) (k == f.offset) (some f) (s.queued_frames k)
        (λ c e.
          let one : f ≡ g = cc in
          subst
            (λ (h : StreamFrame).
              (h.offset ≡ k)
              × ((x : ℕ) → k ≤ x → x < k + length h.payload → in_gaps x s.gaps ≡ false))
            one (sym (==_sound k f.offset c), λ x low high. absurd (omega arith)))
        (λ c. v.fits k g);
}

empty-Takes :
    (top : ℕ) (s : StreamFrameSorter) (f : StreamFrame)
    → length f.payload ≡ 0
    → IsVacant s.queued_frames f.offset
    → Holds top s.queued_frames s.read_position s.gaps
    → Takes top s f.offset (f.offset + length f.payload) (push s f)
unfolding push IsNoBug IsVacant
empty-Takes top s f empty vacant v =
    let end = f.offset + length f.payload in
    let is_empty : (length f.payload == 0) ≡ true = ground arith in
    rw is_empty (
      if_cases (Takes top s f.offset end) f.fin_bit _ _
        (λ c. record {
          no_bug = omega arith;
          left = λ x. ground arith;
          kept = λ k g found filled there.
              store_other s.queued_frames f.offset k f (λ same.
                let none_there = vacant g (subst (λ x. s.queued_frames x ≡ some g) same found) in
                omega arith)
              ∙ found;
          valid = λ h. empty-Holds top s f empty vacant v;
        })
        (λ c.
          nothing-Takes top s f.offset end (some empty_stream_data) (omega arith)
            (λ x low high. absurd (omega arith)) v))

pub push-Takes :
    (top : ℕ) (s : StreamFrameSorter) (f : StreamFrame)
    → top < u64_mod
    → IsArrival top s f
    → Holds top s.queued_frames s.read_position s.gaps
    → Takes top s f.offset (f.offset + length f.payload) (push s f)
unfolding push IsArrival
push-Takes top s f small (inl (filled, below)) v =
    let holds_data : (length f.payload == 0) ≡ false = ground arith in
    rw holds_data (push_over-Takes top s f (s.queued_frames f.offset) refl filled below small v)
push-Takes top s f small (inr (empty, vacant)) v = empty-Takes top s f empty vacant v
