-- ===== src/Ack/Sent/Ranges.antt =====
-- The ACK ranges from the lowest up, as the loop over the history walks through them.
use mathlib.Core.List.{reverse, reverse-cons}
use agg_deliv.Common.{
  ℕ, ◌+◌, ◌-◌, ◌≤◌, ◌<◌, ◌≡◌, true, false, ◌||◌, List, [], ◌∷◌, ◌++◌, ltb, refl, arith, Bool-cases,
  inl, inr, u64_mod,
}
use agg_deliv.Wire.AckFrame.{
  AckRange, AckFrame, in_some_range, all_nonempty, consistent_after, check_ranges,
  validate_ack_ranges,
}
use agg_deliv.Ack.Sent.State.{is_empty}
use agg_deliv.Ack.Sent.Detection.{advance}

-- The ranges are not empty, and each lies above `bound` and the ranges before it.
unfoldable pub IsAscending : ℕ → List AckRange → Type 0
IsAscending bound [] = 0 ≤ 0
IsAscending bound (r ∷ rs) = (bound ≤ r.first) × (r.first ≤ r.last) × IsAscending (r.last + 1) rs

-- The last range ends at `largest`.
unfoldable pub EndsAt : ℕ → List AckRange → Type 0
EndsAt largest [] = 0 ≤ 0
EndsAt largest (r ∷ []) = r.last ≡ largest
EndsAt largest (r ∷ s ∷ rs) = EndsAt largest (s ∷ rs)

-- The first range that is left reaches up to the packet.
unfoldable pub Reaches : ℕ → List AckRange → Type 0
Reaches p [] = 0 ≤ 0
Reaches p (r ∷ rs) = p ≤ r.last

pub IsAscending-mono : (a b : ℕ) (rs : List AckRange) → a ≤ b → IsAscending b rs → IsAscending a rs
unfolding IsAscending
IsAscending-mono a b [] h v = v
IsAscending-mono a b (r ∷ rs) h v = (omega arith, v.1, v.2)

pub in_some_range_below :
    (n bound : ℕ) (rs : List AckRange)
    → n < bound
    → IsAscending bound rs
    → in_some_range n rs ≡ false
unfolding in_some_range IsAscending
in_some_range_below n bound [] h v = refl
in_some_range_below n bound (r ∷ rs) h v = ground (arith, in_some_range_below n (r.last + 1) rs)

pub in_some_range-advance :
    (n p : ℕ) (rs : List AckRange) → p ≤ n → in_some_range n (advance p rs) ≡ in_some_range n rs
unfolding in_some_range advance
in_some_range-advance n p [] h = refl
in_some_range-advance n p (r ∷ []) h = refl
in_some_range-advance n p (r ∷ s ∷ rs) h = ground (arith, in_some_range-advance n p (s ∷ rs))

pub advance-IsAscending :
    (bound p : ℕ) (rs : List AckRange) → IsAscending bound rs → IsAscending bound (advance p rs)
unfolding advance IsAscending
advance-IsAscending bound p [] v = v
advance-IsAscending bound p (r ∷ []) v = v
advance-IsAscending bound p (r ∷ s ∷ rs) v = elim (Bool-cases (ltb r.last p)) [
  | inl e ↦ rw e (
      IsAscending-mono bound (r.last + 1) (advance p (s ∷ rs)) (omega arith)
        (advance-IsAscending (r.last + 1) p (s ∷ rs) v.2))
  | inr e ↦ rw e v
]

pub advance-EndsAt :
    (largest p : ℕ) (rs : List AckRange) → EndsAt largest rs → EndsAt largest (advance p rs)
unfolding advance EndsAt
advance-EndsAt largest p [] v = v
advance-EndsAt largest p (r ∷ []) v = v
advance-EndsAt largest p (r ∷ s ∷ rs) v = elim (Bool-cases (ltb r.last p)) [
  | inl e ↦ rw e (advance-EndsAt largest p (s ∷ rs) v)
  | inr e ↦ rw e v
]

pub advance-Reaches :
    (largest p : ℕ) (rs : List AckRange)
    → p ≤ largest
    → EndsAt largest rs
    → Reaches p (advance p rs)
unfolding advance EndsAt Reaches
advance-Reaches largest p [] h v = v
advance-Reaches largest p (r ∷ []) h v = omega arith
advance-Reaches largest p (r ∷ s ∷ rs) h v = elim (Bool-cases (ltb r.last p)) [
  | inl e ↦ rw e (advance-Reaches largest p (s ∷ rs) h v)
  | inr e ↦ rw e (ground arith)
]

pub is_empty-advance : (p : ℕ) (rs : List AckRange) → is_empty (advance p rs) ≡ is_empty rs
unfolding advance is_empty
is_empty-advance p [] = refl
is_empty-advance p (r ∷ []) = refl
is_empty-advance p (r ∷ s ∷ rs) = ground (arith, is_empty-advance p (s ∷ rs))

-- The order of the ranges does not matter for the test.
in_some_range-append :
    (n : ℕ) (xs ys : List AckRange)
    → in_some_range n (xs ++ ys) ≡ (in_some_range n xs || in_some_range n ys)
unfolding in_some_range
in_some_range-append n [] ys = refl
in_some_range-append n (r ∷ rs) ys = ground (arith, in_some_range-append n rs ys)

pub in_some_range-reverse :
    (n : ℕ) (rs : List AckRange) → in_some_range n (reverse rs) ≡ in_some_range n rs
unfolding in_some_range
in_some_range-reverse n [] = refl
in_some_range-reverse n (r ∷ rs) =
    rw (reverse-cons r rs)
      (ground (arith, in_some_range-append n (reverse rs) (r ∷ []), in_some_range-reverse n rs))

pub is_empty-reverse : (rs : List AckRange) → is_empty (reverse rs) ≡ is_empty rs
unfolding is_empty
is_empty-reverse [] = refl
is_empty-reverse (r ∷ rs) = rw (reverse-cons r rs) (snoc (reverse rs) r)
  where
    snoc : (xs : List AckRange) (x : AckRange) → is_empty (xs ++ x ∷ []) ≡ false
    snoc [] x = refl
    snoc (y ∷ xs) x = refl

-- The ranges from the highest down, as a frame lists them, below `bound`.
unfoldable pub IsDescending : ℕ → List AckRange → Type 0
IsDescending bound [] = 0 ≤ 0
IsDescending bound (r ∷ rs) = (r.last < bound) × (r.first ≤ r.last) × IsDescending r.first rs

-- Every range ends below `top`.
unfoldable pub AreBelow : ℕ → List AckRange → Type 0
AreBelow top [] = 0 ≤ 0
AreBelow top (r ∷ rs) = (r.last < top) × AreBelow top rs

AreBelow-mono : (a b : ℕ) (rs : List AckRange) → a ≤ b → AreBelow a rs → AreBelow b rs
unfolding AreBelow
AreBelow-mono a b [] h v = v
AreBelow-mono a b (r ∷ rs) h v = (omega arith, AreBelow-mono a b rs h v.1)

AreBelow-snoc :
    (top : ℕ) (rs : List AckRange) (r : AckRange)
    → AreBelow top rs
    → r.last < top
    → AreBelow top (rs ++ r ∷ [])
unfolding AreBelow
AreBelow-snoc top [] r v h = (h, v)
AreBelow-snoc top (s ∷ rs) r v h = (v.0, AreBelow-snoc top rs r v.1 h)

IsAscending-snoc :
    (bound : ℕ) (rs : List AckRange) (r : AckRange)
    → IsAscending bound rs
    → AreBelow r.first rs
    → bound ≤ r.first
    → r.first ≤ r.last
    → IsAscending bound (rs ++ r ∷ [])
unfolding IsAscending AreBelow
IsAscending-snoc bound [] r v below low order = (low, order, v)
IsAscending-snoc bound (s ∷ rs) r v below low order =
    (v.0, v.1, IsAscending-snoc (s.last + 1) rs r v.2 below.1 (omega arith) order)

EndsAt-snoc : (rs : List AckRange) (r : AckRange) → EndsAt r.last (rs ++ r ∷ [])
unfolding EndsAt
EndsAt-snoc [] r = refl
EndsAt-snoc (s ∷ []) r = refl
EndsAt-snoc (s ∷ t ∷ rs) r = EndsAt-snoc (t ∷ rs) r

pub reverse-IsAscending :
    (top : ℕ) (rs : List AckRange)
    → IsDescending top rs
    → IsAscending 0 (reverse rs) × AreBelow top (reverse rs)
unfolding IsDescending
reverse-IsAscending top [] v = unfold IsAscending AreBelow in (v, v)
reverse-IsAscending top (r ∷ rs) v =
    let (up, below) = reverse-IsAscending r.first rs v.2 in
    rw (reverse-cons r rs) (
      IsAscending-snoc 0 (reverse rs) r up below (omega arith) v.1,
      AreBelow-snoc top (reverse rs) r (AreBelow-mono r.first top (reverse rs) (omega arith) below)
          v.0,
    )

pub reverse-EndsAt : (r : AckRange) (rs : List AckRange) → EndsAt r.last (reverse (r ∷ rs))
reverse-EndsAt r rs = rw (reverse-cons r rs) (EndsAt-snoc (reverse rs) r)

consistent_after-IsDescending :
    (before : AckRange) (rs : List AckRange)
    → AreBelow (u64_mod - 1) rs
    → all_nonempty rs ≡ true
    → consistent_after before rs ≡ true
    → IsDescending before.first rs
unfolding AreBelow all_nonempty consistent_after IsDescending
consistent_after-IsDescending before [] small full fits = omega arith
consistent_after-IsDescending before (r ∷ rs) small full fits =
    ground (arith, consistent_after-IsDescending r rs)

descends :
    (r s : AckRange) (rs : List AckRange) (largest : ℕ)
    → AreBelow (u64_mod - 1) (r ∷ s ∷ rs)
    → check_ranges largest (r ∷ s ∷ rs) ≡ true
    → (r.last ≡ largest) × IsDescending (r.last + 1) (r ∷ s ∷ rs)
unfolding AreBelow all_nonempty IsDescending
descends r s rs largest small valid =
    let full : all_nonempty (s ∷ rs) ≡ true = ground arith in
    let fits : consistent_after r (s ∷ rs) ≡ true = ground arith in
    let rest = consistent_after-IsDescending r (s ∷ rs) small.1 full fits in
    (ground arith, (omega arith, ground arith, rest))

pub ordered :
    (largest : ℕ) (rs : List AckRange)
    → AreBelow (u64_mod - 1) rs
    → check_ranges largest rs ≡ true
    → IsAscending 0 (reverse rs) × EndsAt largest (reverse rs)
ordered largest [] small valid = unfold IsAscending EndsAt in (omega arith, omega arith)
ordered largest (r ∷ []) small valid = cc
ordered largest (r ∷ s ∷ rs) small valid =
    let (top, down) = descends r s rs largest small valid in
    ((reverse-IsAscending (r.last + 1) (r ∷ s ∷ rs) down).0, rw (← top) (reverse-EndsAt r (s ∷ rs)))

-- Ranges that pass the frame's check and end below 2 ^ 64 - 1 are ordered and end at the largest.
pub validate-IsAscending :
    (f : AckFrame)
    → AreBelow (u64_mod - 1) f.ack_ranges
    → validate_ack_ranges f ≡ true
    → IsAscending 0 (reverse f.ack_ranges) × EndsAt f.largest_acked (reverse f.ack_ranges)
validate-IsAscending f small valid =
    ordered f.largest_acked f.ack_ranges small (unfold validate_ack_ranges in valid)
