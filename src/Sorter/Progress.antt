-- ===== src/Sorter/Progress.antt =====
-- What has arrived can be read: Pop goes on as long as no byte is missing.
use mathlib.Core.Path.{subst}
use agg_deliv.Common.{
  ℕ, zero, suc, ◌+◌, ◌≤◌, ◌<◌, ◌≡◌, true, false, List, [], ◌∷◌, Option, none, some, leb, ◌==◌,
  length, add64, u64_mod, arith, refl, sym, ap, ◌∙◌, inl, inr, Bool-cases, ==_sound,
}
use agg_deliv.Wire.StreamFrame.{StreamFrame}
use agg_deliv.Sorter.{ByteInterval, FrameMap, erase, StreamFrameSorter, pop_head, pop}
use agg_deliv.Sorter.Gaps.{
  in_gaps, AreGaps, AreGaps-low, Chain, done, link, Chain-le, Chain-same, Chains, Chains-same,
  Chains-vacant, Fits, IsVacant, erase_other,
}
use agg_deliv.Sorter.Ending.{erase_fewer}
use agg_deliv.Sorter.Validity.{Holds}

-- A frame with data is queued at the read position, if the byte there is not missing.
pub head_found :
    (top : ℕ) (q : FrameMap) (pos : ℕ) (gs : List ByteInterval)
    → AreGaps pos top gs
    → Chains q pos gs
    → pos < top
    → in_gaps pos gs ≡ false
    → (f : StreamFrame) × (q pos ≡ some f) × (0 < length f.payload)
unfolding AreGaps Chains in_gaps
head_found top q pos [] v c below here = absurd (omega arith)
head_found top q pos (g ∷ gs) v (done, cs) below here =
    let nonempty = v.1 in let clash : true ≡ false = ground arith in cc
head_found top q pos (g ∷ gs) v (link f e o h c, cs) below here = (f, e, h)

-- The frame at the read position is the first of the chain there.
head-Chain :
    (q : FrameMap) (b pos : ℕ) (f : StreamFrame)
    → q pos ≡ some f
    → (pos ≡ b → 1 ≤ 0)
    → Chain q b pos
    → Chain q b (pos + length f.payload)
head-Chain q b pos f e away done = absurd (omega (arith, away refl))
head-Chain q b pos f e away (link g e' o h c) =
    let both : some g ≡ some f = sym e' ∙ e in
    let one : g ≡ f = cc in subst (λ (x : StreamFrame). Chain q b (pos + length x.payload)) one c

erase-Fits : (q : FrameMap) (k : ℕ) (gs : List ByteInterval) → Fits q gs → Fits (erase q k) gs
unfolding Fits
erase-Fits q k gs fits o f e = fits o f (erase_fewer q k o f e)

-- Pop of a frame with data.
pop-Holds :
    (top : ℕ) (q : FrameMap) (pos : ℕ) (gs : List ByteInterval) (f : StreamFrame)
    → q pos ≡ some f
    → 0 < length f.payload
    → Holds top q pos gs
    → Holds top (erase q pos) (pos + length f.payload) gs
unfolding AreGaps Chains Fits in_gaps
pop-Holds top q pos [] f e h v = absurd (omega (arith, v.low, v.ordered))
pop-Holds top q pos (g ∷ gs) f e h v =
    let after = pos + length f.payload in
    let present = (v.fits pos f e).1 pos (omega arith) (omega arith) in
    let (from, proper, rest) = v.ordered in
    let away : pos ≡ g.start → 1 ≤ 0 = λ touches. let clash : true ≡ false = ground arith in cc in
    let c = head-Chain q g.start pos f e away v.chained.0 in
    let upto = Chain-le c in
    let others : (k : ℕ) → after ≤ k → erase q pos k ≡ q k =
      λ k low. erase_other q pos k (λ same. omega arith) in
    record {
      low = omega (arith, AreGaps-low (suc g.end) top gs rest);
      ordered = (upto, proper, rest);
      chained = (
        Chain-same (λ k low high. others k low) c,
        Chains-same q (erase q pos) g.end gs (λ k low. others k (omega arith)) (suc g.end) top
            (omega arith) rest v.chained.1,
      );
      fits = erase-Fits q pos (g ∷ gs) v.fits;
    }

-- What Pop does: the invariant stays, no gap changes, and no read byte comes back. It goes on unless the
-- next byte is missing.
pub record Advances (top : ℕ) (s t : StreamFrameSorter) : Type 0 where
  pub valid : Holds top t.queued_frames t.read_position t.gaps
  pub same_gaps : t.gaps ≡ s.gaps
  pub forward : s.read_position ≤ t.read_position
  pub moves :
      s.read_position < top
      → in_gaps s.read_position s.gaps ≡ false
      → s.read_position < t.read_position

-- Pop of a frame without data.
pop_empty :
    (top : ℕ) (s : StreamFrameSorter) (f : StreamFrame)
    → s.queued_frames s.read_position ≡ some f
    → length f.payload ≡ 0
    → Holds top s.queued_frames s.read_position s.gaps
    → Holds top (erase s.queued_frames s.read_position) s.read_position s.gaps
unfolding IsVacant
pop_empty top s f e empty v =
    let q = s.queued_frames in
    let pos = s.read_position in
    record {
      low = v.low;
      ordered = v.ordered;
      chained =
          Chains-vacant q (erase q pos) pos pos s.gaps (λ o other. erase_other q pos o other)
            (λ g found.
              let both : some f ≡ some g = sym e ∙ found in
              let one : f ≡ g = cc in subst (λ (h : StreamFrame). length h.payload ≡ 0) one empty)
            v.chained;
      fits = erase-Fits q pos s.gaps v.fits;
    }

-- A frame with data at the read position is what lets Pop go on.
unmoved :
    (top : ℕ) (s : StreamFrameSorter) (o : Option StreamFrame)
    → s.queued_frames s.read_position ≡ o
    → ((f : StreamFrame) → o ≡ some f → length f.payload ≡ 0)
    → Holds top s.queued_frames s.read_position s.gaps
    → s.read_position < top
    → in_gaps s.read_position s.gaps ≡ false
    → 1 ≤ 0
unmoved top s o e empty v below here =
    let (f, found, filled) =
      head_found top s.queued_frames s.read_position s.gaps v.ordered v.chained below here in
    let none_left = empty f (sym e ∙ found) in omega arith

pop_head-Advances :
    (top : ℕ) (s : StreamFrameSorter) (o : Option StreamFrame)
    → top < u64_mod
    → s.queued_frames s.read_position ≡ o
    → Holds top s.queued_frames s.read_position s.gaps
    → Advances top s (pop_head s o)
unfolding pop_head Fits
pop_head-Advances top s none small e v = record {
  valid = v;
  same_gaps = refl;
  forward = omega arith;
  moves = λ below here. absurd (omega (arith, unmoved top s none e (λ f clash. cc) v below here));
}
pop_head-Advances top s (some f) small e v =
    let q = s.queued_frames in
    let pos = s.read_position in
    let n = length f.payload in
    let where_it_is : pos ≡ f.offset = sym (v.fits pos f e).0 in
    let P : ℕ → ℕ → Type 0 = λ to key. Holds top (erase q key) to s.gaps in
    elim (Bool-cases (n == 0)) [
      | inl is_empty ↦
          let empty : n ≡ 0 = ==_sound n 0 is_empty in
          let low = v.low in
          let stays : pos ≡ add64 pos n = omega arith in
          record {
            valid =
                subst (λ to. P to f.offset) stays
                  (subst (P pos) where_it_is (pop_empty top s f e empty v));
            same_gaps = refl;
            forward = omega arith;
            moves = λ below here. absurd (
                omega (
                  arith,
                  unmoved top s (some f) e
                      (λ g both.
                        let one : f ≡ g = cc in
                        subst (λ (h : StreamFrame). length h.payload ≡ 0) one empty)
                      v below here,
                ));
          }
      | inr other ↦
          let filled : 0 < n = ground arith in
          let after = pop-Holds top q pos s.gaps f e filled v in
          let low = after.low in
          let goes : pos + n ≡ add64 pos n = omega arith in
          record {
            valid = subst (λ to. P to f.offset) goes (subst (P (pos + n)) where_it_is after);
            same_gaps = refl;
            forward = omega arith;
            moves = λ below here. omega arith;
          }
    ]

pub pop-Advances :
    (top : ℕ) (s : StreamFrameSorter)
    → top < u64_mod
    → Holds top s.queued_frames s.read_position s.gaps
    → Advances top s (pop s).1
unfolding pop
pop-Advances top s small v = pop_head-Advances top s (s.queued_frames s.read_position) small refl v

-- Pop, a number of times.
unfoldable pub pops : ℕ → StreamFrameSorter → StreamFrameSorter
pops zero s = s
pops (suc k) s = pops k (pop s).1

pops_forward :
    (top k : ℕ) (s : StreamFrameSorter)
    → top < u64_mod
    → Holds top s.queued_frames s.read_position s.gaps
    → s.read_position ≤ (pops k s).read_position
unfolding pops
pops_forward top zero s small v = omega arith
pops_forward top (suc k) s small v =
    let a = pop-Advances top s small v in
    let first = a.forward in let later = pops_forward top k (pop s).1 small a.valid in omega arith

pub pops_reach :
    (top n k : ℕ) (s : StreamFrameSorter)
    → top < u64_mod
    → n ≤ top
    → n ≤ s.read_position + k
    → ((x : ℕ) → x < n → in_gaps x s.gaps ≡ false)
    → Holds top s.queued_frames s.read_position s.gaps
    → n ≤ (pops k s).read_position
unfolding pops
pops_reach top n zero s small below enough there v = omega arith
pops_reach top n (suc k) s small below enough there v = elim (Bool-cases (leb n s.read_position)) [
  | inl reached ↦
      let onward = pops_forward top (suc k) s small v in
      let already : n ≤ s.read_position = ground arith in omega arith
  | inr before ↦
      let a = pop-Advances top s small v in
      let inside_it : s.read_position < n = ground arith in
      let moved = a.moves (omega arith) (there s.read_position inside_it) in
      pops_reach top n k (pop s).1 small below (omega arith)
        (λ x h. ap (in_gaps x) a.same_gaps ∙ there x h) a.valid
]
