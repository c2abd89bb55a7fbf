-- ===== src/Ack/Sent/Packets.antt =====
-- Lists of packets with increasing numbers: removing the packets of a sublist leaves the others.
use agg_deliv.Common.{
  ℕ, ◌+◌, ◌≤◌, ◌<◌, ◌≡◌, Bool, false, not, List, [], ◌∷◌, some, ◌==◌, if◌then◌else◌, refl, arith,
  ap, ◌∙◌, Bool-cases, ==_refl, inl, inr, last?,
}
use agg_deliv.Ack.Packet.{Packet}
use agg_deliv.Ack.Sent.State.{remove}

-- The packet numbers increase, and lie above `bound`.
unfoldable pub IsIncreasing : ℕ → List Packet → Type 0
IsIncreasing bound [] = 0 ≤ 0
IsIncreasing bound (p ∷ ps) = (bound < p.packet_number) × IsIncreasing p.packet_number ps

-- Every packet number is at most `top`.
unfoldable pub AreUpTo : ℕ → List Packet → Type 0
AreUpTo top [] = 0 ≤ 0
AreUpTo top (p ∷ ps) = (p.packet_number ≤ top) × AreUpTo top ps

-- The bytes of the packets.
unfoldable pub total : List Packet → ℕ
total [] = 0
total (p ∷ ps) = p.length + total ps

unfoldable pub keep : (Packet → Bool) → List Packet → List Packet
keep P [] = []
keep P (p ∷ ps) = let rest = keep P ps in if P p then p ∷ rest else rest

unfoldable pub remove_all : List Packet → List Packet → List Packet
unfolding remove
remove_all [] history = history
remove_all (p ∷ ps) history = remove_all ps (remove p.packet_number history)

abbrev pub negate : (Packet → Bool) → Packet → Bool
negate P p = not (P p)

pub IsIncreasing-mono : (a b : ℕ) (ps : List Packet) → a ≤ b → IsIncreasing b ps → IsIncreasing a ps
unfolding IsIncreasing
IsIncreasing-mono a b [] h v = v
IsIncreasing-mono a b (p ∷ ps) h v = (omega arith, v.1)

pub keep-IsIncreasing :
    (P : Packet → Bool) (bound : ℕ) (ps : List Packet)
    → IsIncreasing bound ps
    → IsIncreasing bound (keep P ps)
unfolding IsIncreasing keep
keep-IsIncreasing P bound [] v = v
keep-IsIncreasing P bound (p ∷ ps) v = ground (
  arith,
  keep-IsIncreasing P p.packet_number ps,
  IsIncreasing-mono bound p.packet_number (keep P ps),
)

pub keep-AreUpTo :
    (P : Packet → Bool) (top : ℕ) (ps : List Packet) → AreUpTo top ps → AreUpTo top (keep P ps)
unfolding AreUpTo keep
keep-AreUpTo P top [] v = v
keep-AreUpTo P top (p ∷ ps) v = ground (arith, keep-AreUpTo P top ps)

pub total-keep :
    (P : Packet → Bool) (ps : List Packet)
    → total (keep P ps) + total (keep (negate P) ps) ≡ total ps
unfolding total keep
total-keep P [] = omega arith
total-keep P (p ∷ ps) = ground (arith, total-keep P ps)

-- A packet below those that are removed stays at the front.
remove_all-cons :
    (q : Packet) (xs ps : List Packet)
    → IsIncreasing q.packet_number xs
    → remove_all xs (q ∷ ps) ≡ q ∷ remove_all xs ps
unfolding remove_all remove IsIncreasing
remove_all-cons q [] ps v = refl
remove_all-cons q (x ∷ xs) ps v =
    let other : (q.packet_number == x.packet_number) ≡ false = ground arith in
    rw other (
      remove_all-cons q xs (remove x.packet_number ps)
        (IsIncreasing-mono q.packet_number x.packet_number xs (omega arith) v.1))

remove_all_same :
    (p : Packet) (xs ps : List Packet) → remove_all (p ∷ xs) (p ∷ ps) ≡ remove_all xs ps
unfolding remove_all remove
remove_all_same p xs ps = rw (==_refl p.packet_number) refl

pub remove_all-keep :
    (P : Packet → Bool) (bound : ℕ) (ps : List Packet)
    → IsIncreasing bound ps
    → remove_all (keep P ps) ps ≡ keep (negate P) ps
unfolding keep remove_all remove IsIncreasing
remove_all-keep P bound [] v = refl
remove_all-keep P bound (p ∷ ps) v = elim (Bool-cases (P p)) [
  | inl e ↦ rw e (remove_all_same p (keep P ps) ps ∙ remove_all-keep P p.packet_number ps v.1)
  | inr e ↦ rw e (
      remove_all-cons p (keep P ps) ps (keep-IsIncreasing P p.packet_number ps v.1)
      ∙ ap (◌∷◌ p) (remove_all-keep P p.packet_number ps v.1))
]

-- Removing a packet of the list lowers the bytes by its own.
pub total-remove_keep :
    (P : Packet → Bool) (bound : ℕ) (ps : List Packet)
    → IsIncreasing bound ps
    → total (remove_all (keep P ps) ps) + total (keep P ps) ≡ total ps
total-remove_keep P bound ps v = rw (remove_all-keep P bound ps v) (omega (arith, total-keep P ps))

pub remove_front : (p : Packet) (ps : List Packet) → remove p.packet_number (p ∷ ps) ≡ ps
unfolding remove
remove_front p ps = rw (==_refl p.packet_number) refl

-- The test for one packet number.
abbrev pub has_number : ℕ → Packet → Bool
has_number n p = p.packet_number == n

last_above :
    (bound : ℕ) (ps : List Packet) (p : Packet)
    → IsIncreasing bound ps
    → last? ps ≡ some p
    → bound < p.packet_number
unfolding IsIncreasing
last_above bound [] p v e = cc
last_above bound (x ∷ []) p v e = ground arith
last_above bound (x ∷ y ∷ ps) p v e =
    let above = last_above x.packet_number (y ∷ ps) p v.1 e in omega arith

pub keep-last :
    (bound : ℕ) (ps : List Packet) (p : Packet)
    → IsIncreasing bound ps
    → last? ps ≡ some p
    → keep (has_number p.packet_number) ps ≡ p ∷ []
unfolding keep IsIncreasing
keep-last bound [] p v e = cc
keep-last bound (x ∷ []) p v e = ground arith
keep-last bound (x ∷ y ∷ ps) p v e =
    let above = last_above x.packet_number (y ∷ ps) p v.1 e in
    let rest = keep-last x.packet_number (y ∷ ps) p v.1 e in ground arith
