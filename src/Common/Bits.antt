-- ===== src/Common/Bits.antt =====
-- Exclusive or of numbers with no common digits is their sum, at every width.
use Prim.Native.Nat.{
  ℕ, zero, suc, ◌+◌, ◌*◌, ◌/◌, ◌%◌, ◌^◌, ◌≤◌, ◌<◌, bit_xor, digits, bit_xor-bitwise,
}
use mathlib.Core.Path.{◌≡◌, refl, ap}
use native.Mathlib.Nat.{pow-suc}
use native.Mathlib.Omega.{arith}

abbrev differ_digit : ℕ → ℕ → ℕ
differ_digit = Prim.Native.Nat.differ

abbrev xor_digits : ℕ → ℕ → ℕ → ℕ
xor_digits n a b = digits (λ b. b) differ_digit n a b

xor_digits_fuel : (n m a b : ℕ) → a ≤ n → a ≤ m → xor_digits n a b ≡ xor_digits m a b
xor_digits_fuel zero zero a b p q = refl
xor_digits_fuel zero (suc m) zero b p q = refl
xor_digits_fuel zero (suc m) (suc a) b p q = absurd (omega arith)
xor_digits_fuel (suc n) zero zero b p q = refl
xor_digits_fuel (suc n) zero (suc a) b p q = absurd (omega arith)
xor_digits_fuel (suc n) (suc m) zero b p q = refl
xor_digits_fuel (suc n) (suc m) (suc a) b p q =
    omega (arith, xor_digits_fuel n m (suc a / 2) (b / 2) (omega arith) (omega arith))

pub zero-bit_xor : (b : ℕ) → bit_xor 0 b ≡ b
zero-bit_xor b = bit_xor-bitwise 0 b

bit_xor_step_suc :
    (a b : ℕ)
    → bit_xor (suc a) b ≡ bit_xor (suc a / 2) (b / 2) * 2 + differ_digit (suc a % 2) (b % 2)
bit_xor_step_suc a b = omega (
  arith,
  bit_xor-bitwise (suc a) b,
  bit_xor-bitwise (suc a / 2) (b / 2),
  xor_digits_fuel a (suc a / 2) (suc a / 2) (b / 2) (omega arith) (omega arith),
)

-- One digit: a 0 leaves the other one.
differ-zero : (x : ℕ) → differ_digit x 0 ≡ x
differ-zero zero = refl
differ-zero (suc x) = refl

bit_xor_step_even : (a b : ℕ) → a % 2 ≡ 0 → bit_xor a b ≡ bit_xor (a / 2) (b / 2) * 2 + b % 2
bit_xor_step_even zero b e = omega (arith, zero-bit_xor b, zero-bit_xor (b / 2))
bit_xor_step_even (suc a) b e = rw (bit_xor_step_suc a b, e)

bit_xor_step_odd : (a b : ℕ) → b % 2 ≡ 0 → bit_xor a b ≡ bit_xor (a / 2) (b / 2) * 2 + a % 2
bit_xor_step_odd zero b e = omega (arith, zero-bit_xor b, zero-bit_xor (b / 2))
bit_xor_step_odd (suc a) b e = rw (bit_xor_step_suc a b, e, differ-zero)

-- Fuel for the first number.
bit_xor-zero_fuel : (n a : ℕ) → a ≤ n → bit_xor a 0 ≡ a
bit_xor-zero_fuel n zero h = refl
bit_xor-zero_fuel zero (suc a) h = absurd (omega arith)
bit_xor-zero_fuel (suc n) (suc a) h =
    omega (arith, bit_xor_step_odd (suc a) 0 refl, bit_xor-zero_fuel n (suc a / 2) (omega arith))

double : (q k : ℕ) → q * 2 ^ suc k ≡ 2 * (q * 2 ^ k)
double q k = omega (arith, ap (λ (t : ℕ). q * t) (pow-suc 2 k))

-- High digits, then low ones.
pub bit_xor-high_low : (k q r : ℕ) → r < 2 ^ k → bit_xor (q * 2 ^ k) r ≡ q * 2 ^ k + r
bit_xor-high_low zero q r fits = ground (arith, bit_xor-zero_fuel q q)
bit_xor-high_low (suc k) q r fits = omega (
  arith,
  double q k,
  pow-suc 2 k,
  bit_xor_step_even (q * 2 ^ suc k) r (omega (arith, double q k)),
  halved,
  bit_xor-high_low k q (r / 2) (omega (arith, pow-suc 2 k)),
)
  where
    halved : bit_xor (q * 2 ^ suc k / 2) (r / 2) ≡ bit_xor (q * 2 ^ k) (r / 2)
    halved = ap (λ (t : ℕ). bit_xor t (r / 2)) (omega (arith, double q k))

-- Low digits, then high ones.
pub bit_xor-low_high : (k q r : ℕ) → r < 2 ^ k → bit_xor r (q * 2 ^ k) ≡ r + q * 2 ^ k
bit_xor-low_high zero q r fits =
    let e : r ≡ 0 = omega arith in rw e (omega (arith, zero-bit_xor (q * 2 ^ 0)))
bit_xor-low_high (suc k) q r fits = omega (
  arith,
  double q k,
  pow-suc 2 k,
  bit_xor_step_odd r (q * 2 ^ suc k) (omega (arith, double q k)),
  halved,
  bit_xor-low_high k q (r / 2) (omega (arith, pow-suc 2 k)),
)
  where
    halved : bit_xor (r / 2) (q * 2 ^ suc k / 2) ≡ bit_xor (r / 2) (q * 2 ^ k)
    halved = ap (λ (t : ℕ). bit_xor (r / 2) t) (omega (arith, double q k))
