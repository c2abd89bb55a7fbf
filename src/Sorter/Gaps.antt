-- ===== src/Sorter/Gaps.antt =====
-- The gaps of a sorter in order, and the queued frames that fill the stretches between them.
use mathlib.Core.Path.{subst}
use agg_deliv.Common.{
  ℕ, suc, ◌+◌, ◌≤◌, ◌<◌, ◌≡◌, Bool, false, ◌&&◌, ◌||◌, List, [], ◌∷◌, none, some, ltb, leb, ◌==◌,
  length, if_cases, arith, refl, ◌∙◌, ◌⊎◌, inl, inr, ==_sound, ==_refl,
}
use agg_deliv.Wire.StreamFrame.{StreamFrame}
use agg_deliv.Sorter.{ByteInterval, FrameMap, store, erase}

-- Whether a byte is still missing.
unfoldable pub in_gaps : ℕ → List ByteInterval → Bool
in_gaps x [] = false
in_gaps x (g ∷ gs) = (leb g.start x && ltb x g.end) || in_gaps x gs

-- Whether a byte is from `start` on and before `end`.
abbrev pub inside : ℕ → ℕ → ℕ → Bool
inside start end x = leb start x && ltb x end

-- The gaps are not empty, do not touch, and the last one ends at `top`.
unfoldable pub AreGaps : ℕ → ℕ → List ByteInterval → Type 0
AreGaps lo top [] = lo ≡ suc top
AreGaps lo top (g ∷ gs) = (lo ≤ g.start) × (g.start < g.end) × AreGaps (suc g.end) top gs

pub AreGaps-weaken :
    (lo lo' top : ℕ) (gs : List ByteInterval)
    → lo' ≤ lo
    → lo' ≤ top
    → AreGaps lo top gs
    → (lo ≡ suc top) ⊎ AreGaps lo' top gs
unfolding AreGaps
AreGaps-weaken lo lo' top [] h h' v = inl v
AreGaps-weaken lo lo' top (g ∷ gs) h h' (low, proper, rest) = inr (omega arith, proper, rest)

pub in_gaps_below :
    (lo top x : ℕ) (gs : List ByteInterval) → AreGaps lo top gs → x < lo → in_gaps x gs ≡ false
unfolding in_gaps AreGaps
in_gaps_below lo top x [] v h = refl
in_gaps_below lo top x (g ∷ gs) (low, proper, rest) h =
    let later = in_gaps_below (suc g.end) top x gs rest (omega arith) in ground arith

pub in_gaps_past :
    (x : ℕ) (g : ByteInterval) (gs : List ByteInterval)
    → g.end ≤ x
    → in_gaps x (g ∷ gs) ≡ in_gaps x gs
unfolding in_gaps
in_gaps_past x g gs h = ground arith

pub AreGaps-low : (lo top : ℕ) (gs : List ByteInterval) → AreGaps lo top gs → lo ≤ suc top
unfolding AreGaps
AreGaps-low lo top [] v = omega arith
AreGaps-low lo top (g ∷ gs) (low, proper, rest) =
    let later = AreGaps-low (suc g.end) top gs rest in omega arith

pub erase_other : (q : FrameMap) (o k : ℕ) → (k ≡ o → 1 ≤ 0) → erase q o k ≡ q k
erase_other q o k other =
    if_cases (λ r. r ≡ q k) (k == o) none (q k)
      (λ c. absurd (omega (arith, other (==_sound k o c)))) (λ c. refl)

pub store_other : (q : FrameMap) (o k : ℕ) (f : StreamFrame) → (k ≡ o → 1 ≤ 0) → store q o f k ≡ q k
store_other q o k f other =
    if_cases (λ r. r ≡ q k) (k == o) (some f) (q k)
      (λ c. absurd (omega (arith, other (==_sound k o c)))) (λ c. refl)

pub store_self : (q : FrameMap) (o : ℕ) (f : StreamFrame) → store q o f o ≡ some f
store_self q o f = rw (==_refl o) refl

-- Queued frames with data that lie end to end from one position to another.
pub data Chain (q : FrameMap) (b : ℕ) : ℕ → Type 0 where
  done : Chain q b b
  link :
      {a : ℕ} (f : StreamFrame)
      → q a ≡ some f
      → f.offset ≡ a
      → 0 < length f.payload
      → Chain q b (a + length f.payload)
      → Chain q b a

pub Chain-le : {q : FrameMap} {b a : ℕ} → Chain q b a → a ≤ b
Chain-le done = omega arith
Chain-le (link f e o h c) = let later = Chain-le c in omega arith

-- A chain only depends on the keys from its start on and before its end.
pub Chain-same :
    {q q' : FrameMap} {b a : ℕ}
    → ((k : ℕ) → a ≤ k → k < b → q' k ≡ q k)
    → Chain q b a
    → Chain q' b a
Chain-same same done = done
Chain-same {a = a} same (link f e o h c) =
    let after = Chain-le c in
    link f (same a (omega arith) (omega arith) ∙ e) o h
      (Chain-same (λ k low high. same k (omega arith) high) c)

pub Chain-join : {q : FrameMap} {c b a : ℕ} → Chain q b a → Chain q c b → Chain q c a
Chain-join done d = d
Chain-join (link f e o h c) d = link f e o h (Chain-join c d)

-- Chains from a position to the first gap, and from each gap to the next.
unfoldable pub Chains : FrameMap → ℕ → List ByteInterval → Type 0
Chains q pos [] = 0 ≤ 0
Chains q pos (g ∷ gs) = Chain q g.start pos × Chains q g.end gs

pub Chains-prefix :
    {q : FrameMap} {a b : ℕ} (gs : List ByteInterval) → Chain q b a → Chains q b gs → Chains q a gs
unfolding Chains
Chains-prefix [] c cs = cs
Chains-prefix (g ∷ gs) c (d, cs) = (Chain-join c d, cs)

pub Chains-same :
    (q q' : FrameMap) (pos : ℕ) (gs : List ByteInterval)
    → ((k : ℕ) → pos ≤ k → q' k ≡ q k)
    → (lo top : ℕ) → pos ≤ lo
    → AreGaps lo top gs
    → Chains q pos gs
    → Chains q' pos gs
unfolding Chains AreGaps
Chains-same q q' pos [] same lo top h v c = omega arith
Chains-same q q' pos (g ∷ gs) same lo top h (low, proper, rest) (c, cs) = (
  Chain-same (λ k from to. same k from) c,
  Chains-same q q' g.end gs (λ k from. same k (omega arith)) (suc g.end) top (omega arith) rest cs,
)

-- No data is queued at a position.
unfoldable pub IsVacant : FrameMap → ℕ → Type 0
IsVacant q k = (f : StreamFrame) → q k ≡ some f → length f.payload ≡ 0

pub Chain-vacant :
    {q q' : FrameMap} {b : ℕ} (k : ℕ) {a : ℕ}
    → ((o : ℕ) → (o ≡ k → 1 ≤ 0) → q' o ≡ q o)
    → IsVacant q k
    → Chain q b a
    → Chain q' b a
unfolding IsVacant
Chain-vacant k same vacant done = done
Chain-vacant {q} {q'} {b} k {a} same vacant (link g e o h c) =
    let other : a ≡ k → 1 ≤ 0 =
      λ here. let empty = vacant g (subst (λ x. q x ≡ some g) here e) in omega arith in
    link g (same a other ∙ e) o h (Chain-vacant k same vacant c)

pub Chains-vacant :
    (q q' : FrameMap) (k pos : ℕ) (gs : List ByteInterval)
    → ((o : ℕ) → (o ≡ k → 1 ≤ 0) → q' o ≡ q o)
    → IsVacant q k
    → Chains q pos gs
    → Chains q' pos gs
unfolding Chains
Chains-vacant q q' k pos [] same vacant c = omega arith
Chains-vacant q q' k pos (g ∷ gs) same vacant (c, cs) =
    (Chain-vacant k same vacant c, Chains-vacant q q' k g.end gs same vacant cs)

-- Every queued frame stands under its offset, and none of its bytes is missing.
unfoldable pub Fits : FrameMap → List ByteInterval → Type 0
Fits q gs =
    (k : ℕ) (f : StreamFrame)
    → q k ≡ some f
    → (f.offset ≡ k) × ((x : ℕ) → k ≤ x → x < k + length f.payload → in_gaps x gs ≡ false)
