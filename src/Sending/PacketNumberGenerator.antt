-- ===== src/Sending/PacketNumberGenerator.antt =====
-- mpquic_trans/packet_number_generator.go. The two bytes of rand.Read are an argument of each Pop, `none`
-- where it fails.
use agg_deliv.Common.{
  ℕ, suc, ◌+◌, ◌-◌, ◌*◌, ◌/◌, ◌%◌, ◌^◌, ◌<◌, ◌≤◌, ◌≡◌, Option, none, some, ◌==◌, if◌then◌else◌,
  add64, sub64, u64_mod, List, [], length, ◌∷◌, arith, ◌⊎◌, inl, true, ◌≢◌, false,
}

pub record PacketNumberGenerator : Type 0 where
  pub average_period : ℕ
  pub next : ℕ
  pub next_to_skip : ℕ

abbrev pub new_packet_number_generator : ℕ → PacketNumberGenerator
new_packet_number_generator average_period = record {
  average_period = average_period;
  next = 1;
  next_to_skip = 0;
}

unfoldable pub peek : PacketNumberGenerator → ℕ
peek p = p.next

-- What rand.Read gives.
abbrev pub Random : Type 0
Random = Option (ℕ × ℕ)

unfoldable pub get_random_number : Random → Option ℕ
get_random_number (some (b0, b1)) = some ((b0 * 2 ^ 8 + b1) % 2 ^ 16)
get_random_number none = none

unfoldable pub generate_new_skip : PacketNumberGenerator → Random → PacketNumberGenerator
unfolding get_random_number
generate_new_skip p random = elim (get_random_number random) [
  | some num ↦
      let skip = num * sub64 p.average_period 1 % u64_mod / (65535 / 2) in
      record p { next_to_skip = (p.next + 2 + skip) % u64_mod }
  | none ↦ p
]

-- The generator after Pop; the number that Pop returns is the `next` of the one before.
unfoldable pub pop : PacketNumberGenerator → Random → PacketNumberGenerator
unfolding generate_new_skip
pop p random =
    let next = add64 p.next 1 in
    if next == p.next_to_skip
    then generate_new_skip (record p { next = add64 next 1 }) random
    else record p { next = next }

-- The generator after a pop for each reading of the random numbers.
unfoldable pub pops : PacketNumberGenerator → List Random → PacketNumberGenerator
unfolding pop
pops p [] = p
pops p (random ∷ rest) = pops (pop p random) rest

-- The numerator of a skip.
skip_bound : (num period : ℕ) → num ≤ 65535 → num * (period - 1) ≤ 65535 * period
skip_bound num period h = grind arith

-- The random bytes are bytes.
unfoldable pub AreBytes : Random → Type 0
AreBytes none = 0 ≤ 0
AreBytes (some (b0, b1)) = (b0 < 256) × (b1 < 256)

pop-next :
    (p : PacketNumberGenerator) (random : Random)
    → p.next + 2 < u64_mod
    → (pop p random).next ≡ (if (p.next + 1) == p.next_to_skip then p.next + 2 else p.next + 1)
unfolding pop generate_new_skip get_random_number
pop-next p none room = ground arith
pop-next p (some (b0, b1)) room = ground arith

-- After a skip the next number to skip is not the next one.
generate_new_skip_lem :
    (p : PacketNumberGenerator) (random : Random)
    → AreBytes random
    → p.next + 2 + 65535 * p.average_period < u64_mod
    → (p.next_to_skip < p.next) ⊎ (p.next + 1 < p.next_to_skip)
    → 0 < p.average_period
    → (generate_new_skip p random).next_to_skip ≢ p.next + 1
unfolding generate_new_skip get_random_number AreBytes
generate_new_skip_lem p none bytes room skipped pos = ground arith
generate_new_skip_lem p (some (b0, b1)) bytes room skipped pos =
    let num = (b0 * 2 ^ 8 + b1) % 2 ^ 16 in
    let period : sub64 p.average_period 1 ≡ p.average_period - 1 = omega arith in
    rw period (ground (arith, skip_bound num p.average_period (omega arith)))

pop-skip :
    (p : PacketNumberGenerator) (random : Random)
    → AreBytes random
    → 0 < p.average_period
    → p.next + 4 + 65535 * p.average_period < u64_mod
    → p.next + 1 ≡ p.next_to_skip
    → (pop p random).next_to_skip ≢ p.next + 3
unfolding pop
pop-skip p random bytes pos room e =
    let once : add64 p.next 1 ≡ p.next + 1 = omega arith in
    let twice : add64 (p.next + 1) 1 ≡ p.next + 2 = omega arith in
    let met : (p.next + 1 == p.next_to_skip) ≡ true = ground arith in
    let three : p.next + 2 + 1 ≡ p.next + 3 = omega arith in
    rw (once, twice, met)
      (rw three at (
        generate_new_skip_lem (record p { next = p.next + 2 }) random bytes (omega arith)
          (inl (omega arith)) pos))

-- For a generator whose period is positive and whose numbers stay below 2 ^ 64, two calls of Pop move the
-- next number on by at most 3, whatever the random bytes are: two consecutive numbers are never skipped.
-- Either the first call moves it by 1, and the second by 1 or 2, or the first by 2 and the second by 1.
pub pop-pop :
    (p : PacketNumberGenerator) (random later : Random)
    → AreBytes random
    → 0 < p.average_period
    → p.next + 4 + 65535 * p.average_period < u64_mod
    → ((pop p random).next ≡ p.next + 1)
        × (((pop (pop p random) later).next ≡ p.next + 2)
            ⊎ ((pop (pop p random) later).next ≡ p.next + 3))
      ⊎ ((pop p random).next ≡ p.next + 2) × ((pop (pop p random) later).next ≡ p.next + 3)
pop-pop p random later bytes pos room = ground (
  arith,
  pop-next p random (omega arith),
  pop-next (pop p random) later,
  pop-skip p random bytes pos room,
)

-- The number of Pops.
new_pops :
    (period n : ℕ) (randoms : List Random)
    → n + length randoms < u64_mod
    → pops (record { average_period = period; next = n; next_to_skip = 0 }) randoms
      ≡ record { average_period = period; next = n + length randoms; next_to_skip = 0 }
unfolding pops pop
new_pops period n [] room = ground arith
new_pops period n (r ∷ rs) room =
    let moved : add64 n 1 ≡ n + 1 = omega arith in
    let tested : (n + 1 == 0) ≡ false = ground arith in
    let counted : n + 1 + length rs ≡ n + suc (length rs) = omega arith in
    rw (moved, tested, ← counted) (new_pops period (n + 1) rs (omega arith))

-- A new generator never skips a number: the first 2 ^ 64 - 2 calls of Pop return 1, 2, 3 and so on, since
-- the number to skip stays 0.
pub pops-new :
    (period : ℕ) (randoms : List Random)
    → 1 + length randoms < u64_mod
    → pops (new_packet_number_generator period) randoms
      ≡ record { average_period = period; next = 1 + length randoms; next_to_skip = 0 }
pops-new period randoms room = new_pops period 1 randoms room
