-- ===== src/Sorter/Parts.antt =====
-- The payloads that a sorter holds, as parts of a stream.
use mathlib.Core.Path.{subst}
use agg_deliv.Common.{
  ℕ, zero, suc, ◌+◌, ◌-◌, ◌≤◌, ◌<◌, ◌≡◌, List, [], ◌∷◌, ◌++◌, Option, none, some, ltb, leb, ◌==◌,
  length, take, drop, add64, u64_mod, arith, refl, ap, sym, ◌∙◌, if_cases, ==_sound,
}
use agg_deliv.Wire.StreamFrame.{StreamFrame}
use agg_deliv.Sorter.Finding.{IsFound, find_gap-IsFound}
use agg_deliv.Sorter.{
  FrameMap, store, erase, StreamFrameSorter, Pushed, ByteInterval, Search, duplicate, nowhere, at,
  EndGap, itself, kept, EndSearch, find_gap, interval_of, end_loop, cut_front, cut_back,
  push_between, push_at, push_new, push_over, push,
}

-- `n` bytes of a stream from an offset on.
unfoldable pub stretch : (ℕ → ℕ) → ℕ → ℕ → List ℕ
stretch byte o zero = []
stretch byte o (suc n) = byte o ∷ stretch byte (suc o) n

pub stretch_same :
    {o o' n n' : ℕ} (byte : ℕ → ℕ) → o ≡ o' → n ≡ n' → stretch byte o n ≡ stretch byte o' n'
stretch_same byte e e' = rw (e, e') refl

pub length-stretch : (byte : ℕ → ℕ) (o n : ℕ) → length (stretch byte o n) ≡ n
unfolding stretch
length-stretch byte o zero = refl
length-stretch byte o (suc n) = ap suc (length-stretch byte (suc o) n)

pub drop-stretch :
    (byte : ℕ → ℕ) (k o n : ℕ) → drop k (stretch byte o n) ≡ stretch byte (o + k) (n - k)
unfolding stretch
drop-stretch byte zero o n = stretch_same byte (omega arith) (omega arith)
drop-stretch byte (suc k) o zero =
    let none_left : 0 ≡ 0 - suc k = omega arith in ap (stretch byte (o + suc k)) none_left
drop-stretch byte (suc k) o (suc n) =
    drop-stretch byte k (suc o) n ∙ stretch_same byte (omega arith) (omega arith)

pub take-stretch : (byte : ℕ → ℕ) (k o n : ℕ) → k ≤ n → take k (stretch byte o n) ≡ stretch byte o k
unfolding stretch
take-stretch byte zero o n h = refl
take-stretch byte (suc k) o zero h = absurd (omega arith)
take-stretch byte (suc k) o (suc n) h =
    ap (◌∷◌ (byte o)) (take-stretch byte k (suc o) n (omega arith))

pub append-stretch :
    (byte : ℕ → ℕ) (o n m : ℕ) → stretch byte o n ++ stretch byte (o + n) m ≡ stretch byte o (n + m)
unfolding stretch
append-stretch byte o zero m = stretch_same byte (omega arith) (omega arith)
append-stretch byte o (suc n) m =
    ap (◌∷◌ (byte o)) (
      ap (◌++◌ (stretch byte (suc o) n)) (stretch_same byte (omega arith) refl)
      ∙ append-stretch byte (suc o) n m)
    ∙ stretch_same {n = suc (n + m)} byte refl (omega arith)

-- The frame holds the stream's bytes at its offset, and ends below 2 ^ 64.
unfoldable pub IsPart : (ℕ → ℕ) → StreamFrame → Type 0
IsPart byte f =
    (f.offset + length f.payload < u64_mod) × (f.payload ≡ stretch byte f.offset (length f.payload))

-- The same, by the bytes alone.
IsPart-intro :
    (byte : ℕ → ℕ) (f : StreamFrame) (n : ℕ)
    → f.offset + n < u64_mod
    → f.payload ≡ stretch byte f.offset n
    → IsPart byte f
unfolding IsPart
IsPart-intro byte f n h e =
    let same : length f.payload ≡ n = ap length e ∙ length-stretch byte f.offset n in
    (omega arith, e ∙ ap (stretch byte f.offset) (sym same))

-- A frame without its first `k` bytes.
IsPart-drop :
    (byte : ℕ → ℕ) (f : StreamFrame) (k o : ℕ)
    → o ≡ f.offset + k
    → k ≤ length f.payload
    → IsPart byte f
    → IsPart byte (record f { payload = drop k f.payload; offset = o })
unfolding IsPart
IsPart-drop byte f k o e h (bound, same) =
    IsPart-intro byte (record f { payload = drop k f.payload; offset = o }) (length f.payload - k)
      (omega arith)
      (ap (drop k) same
        ∙ drop-stretch byte k f.offset (length f.payload)
        ∙ ap (λ x. stretch byte x (length f.payload - k)) (sym e))

IsPart-take :
    (byte : ℕ → ℕ) (f : StreamFrame) (k : ℕ)
    → k ≤ length f.payload
    → IsPart byte f
    → IsPart byte (record f { payload = take k f.payload })
unfolding IsPart
IsPart-take byte f k h (bound, same) =
    IsPart-intro byte (record f { payload = take k f.payload }) k (omega arith)
      (ap (take k) same ∙ take-stretch byte k f.offset (length f.payload) h)

-- Every queued frame is stored under its offset and is a part of the stream.
unfoldable pub AreParts : (ℕ → ℕ) → FrameMap → Type 0
unfolding IsPart
AreParts byte q = (k : ℕ) (f : StreamFrame) → q k ≡ some f → (f.offset ≡ k) × IsPart byte f

store-AreParts :
    (byte : ℕ → ℕ) (q : FrameMap) (f : StreamFrame)
    → IsPart byte f
    → AreParts byte q
    → AreParts byte (store q f.offset f)
unfolding AreParts
store-AreParts byte q f p parts k g =
    let Goal : Type 0 = (g.offset ≡ k) × IsPart byte g in
    let first : f.offset ≡ k → some f ≡ some g → Goal = λ same e.
      let equal : f ≡ g = cc in subst (λ x. (x.offset ≡ k) × IsPart byte x) equal (same, p) in
    if_cases (λ r. r ≡ some g → Goal) (k == f.offset) (some f) (q k)
      (λ c. first (sym (==_sound k f.offset c))) (λ c. parts k g)

pub erase-AreParts :
    (byte : ℕ → ℕ) (q : FrameMap) (o : ℕ) → AreParts byte q → AreParts byte (erase q o)
unfolding AreParts
erase-AreParts byte q o parts k g =
    let Goal : Type 0 = (g.offset ≡ k) × IsPart byte g in
    let gone : none ≡ some g → Goal = λ e. cc in
    if_cases (λ r. r ≡ some g → Goal) (k == o) none (q k) (λ c. gone) (λ c. parts k g)

-- The frame's payload after the two cuts.
cut_front-IsPart :
    (byte : ℕ → ℕ) (f : StreamFrame) (start : ℕ)
    → start < f.offset + length f.payload
    → IsPart byte f
    → IsPart byte (cut_front f start)
cut_front-IsPart byte f start h p =
    if_cases (IsPart byte) (ltb f.offset start)
      (record f { offset = start; payload = drop (start - f.offset) f.payload }) f
      (λ c.
        let less : f.offset < start = ground arith in
        IsPart-drop byte f (start - f.offset) start (omega arith) (omega arith) p)
      (λ c. p)

cut_back-IsPart :
    (byte : ℕ → ℕ) (f : StreamFrame) (end last : ℕ)
    → IsPart byte f
    → IsPart byte (cut_back f end last)
cut_back-IsPart byte f end last p =
    if_cases (IsPart byte) (ltb last end)
      (record f { payload = take (length f.payload - (end - last)) f.payload }) f
      (λ c. IsPart-take byte f (length f.payload - (end - last)) (omega arith) p) (λ c. p)

end_loop-AreParts :
    (byte : ℕ → ℕ) (end : ℕ) (gap : ByteInterval) (here : EndGap) (gs : List ByteInterval)
    (q : FrameMap)
    → AreParts byte q
    → AreParts byte (end_loop end gap here gs q).queued
unfolding end_loop
end_loop-AreParts byte end gap here [] q parts = parts
end_loop-AreParts byte end gap here (next ∷ rest) q parts =
    let later =
      end_loop-AreParts byte end gap (kept next) rest (erase q (interval_of gap here).end)
        (erase-AreParts byte q (interval_of gap here).end parts) in
    if_cases (λ (r : EndSearch). AreParts byte r.queued) (ltb end (interval_of gap here).end) _ _
      (λ c. parts)
      (λ c.
        if_cases (λ (r : EndSearch). AreParts byte r.queued) (leb end next.start) _ _ (λ d. parts)
          (λ d. later))

push_between-AreParts :
    (byte : ℕ → ℕ) (s : StreamFrameSorter) (f : StreamFrame) (end : ℕ) (before : List ByteInterval)
    (gap : ByteInterval) (found : EndSearch)
    → IsPart byte f
    → AreParts byte found.queued
    → AreParts byte (push_between s f end before gap found).sorter.queued_frames
unfolding push_between
push_between-AreParts byte s f end before gap found p parts =
    let last = (interval_of gap found.end_gap).end in
    if_cases (λ (r : Pushed). AreParts byte r.sorter.queued_frames) found.fails _ _ (λ c. parts)
      (λ c.
        if_cases (λ (r : Pushed). AreParts byte r.sorter.queued_frames) _ _ _ (λ d. parts)
          (λ d.
            store-AreParts byte found.queued (cut_back f end last)
              (cut_back-IsPart byte f end last p) parts))

push_at-AreParts :
    (byte : ℕ → ℕ) (s : StreamFrameSorter) (f : StreamFrame) (r : Search)
    → IsFound f.offset (f.offset + length f.payload) s.gaps r
    → IsPart byte f
    → AreParts byte s.queued_frames
    → AreParts byte (push_at s f r).sorter.queued_frames
unfolding push_at IsFound
push_at-AreParts byte s f duplicate found p parts = parts
push_at-AreParts byte s f nowhere found p parts = parts
push_at-AreParts byte s f (at before gap after) found p parts =
    let end = add64 f.offset (length f.payload) in
    let loop = end_loop end gap itself after s.queued_frames in
    push_between-AreParts byte s (cut_front f gap.start) end before gap loop
      (cut_front-IsPart byte f gap.start found.2 p)
      (end_loop-AreParts byte end gap itself after s.queued_frames parts)

push_new-AreParts :
    (byte : ℕ → ℕ) (s : StreamFrameSorter) (f : StreamFrame)
    → IsPart byte f
    → AreParts byte s.queued_frames
    → AreParts byte (push_new s f).sorter.queued_frames
unfolding push_new IsPart
push_new-AreParts byte s f p parts =
    let end = f.offset + length f.payload in
    let same : add64 f.offset (length f.payload) ≡ end = omega (arith, p.0) in
    let found = find_gap-IsFound f.offset (f.offset + length f.payload) s.gaps in
    push_at-AreParts byte s f (find_gap f.offset (add64 f.offset (length f.payload)) s.gaps)
      (rw same found) p parts

push_over-AreParts :
    (byte : ℕ → ℕ) (s : StreamFrameSorter) (f : StreamFrame) (old : Option StreamFrame)
    → IsPart byte f
    → AreParts byte s.queued_frames
    → AreParts byte (push_over s f old).sorter.queued_frames
unfolding push_over IsPart
push_over-AreParts byte s f none p parts = push_new-AreParts byte s f p parts
push_over-AreParts byte s f (some old) p parts =
    let n = length old.payload in
    if_cases (λ (r : Pushed). AreParts byte r.sorter.queued_frames) (leb (length f.payload) n) _ _
      (λ c. parts)
      (λ c.
        let shorter : n ≤ length f.payload = ground arith in
        push_new-AreParts byte s
          (record f { payload = drop n f.payload; offset = add64 f.offset n })
          (IsPart-drop byte f n (add64 f.offset n) (omega (arith, p.0)) shorter p) parts)

pub push-AreParts :
    (byte : ℕ → ℕ) (s : StreamFrameSorter) (f : StreamFrame)
    → IsPart byte f
    → AreParts byte s.queued_frames
    → AreParts byte (push s f).sorter.queued_frames
unfolding push
push-AreParts byte s f p parts =
    if_cases (λ (r : Pushed). AreParts byte r.sorter.queued_frames) (length f.payload == 0) _ _
      (λ c.
        if_cases (λ (r : Pushed). AreParts byte r.sorter.queued_frames) f.fin_bit _ _
          (λ d. store-AreParts byte s.queued_frames f p parts) (λ d. parts))
      (λ c. push_over-AreParts byte s f (s.queued_frames f.offset) p parts)
