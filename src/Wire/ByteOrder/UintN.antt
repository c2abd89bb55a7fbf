-- ===== src/Wire/ByteOrder/UintN.antt =====
-- ReadUintN reads back what the writers of every width from 1 to 8 bytes write.
use Prim.Native.Nat.{bit_xor}
use native.Mathlib.Nat.{
  pow-suc, pow-le-pow_right, one-le-pow, mod-eq_of_lt, add-mul-mod_self_right, mod-add-div', mod-lt,
}
use agg_deliv.Common.{
  ℕ, zero, suc, ◌+◌, ◌*◌, ◌/◌, ◌%◌, ◌^◌, ◌<◌, ◌≤◌, ◌≡◌, ◌∙◌, ap, sym, refl, List, [], ◌∷◌, ◌++◌,
  arith, u64_mod, length, some,
}
use native.Mathlib.Numerals.{towards_suc}
use agg_deliv.Common.Bits.{bit_xor-high_low, bit_xor-low_high}
use agg_deliv.Wire.Reader.{ok, read_byte}
use agg_deliv.Wire.ByteOrder.{
  ByteOrder, little_endian, big_endian, read_uint_n_loop, read_uint_n, shift_of, byte_at,
  write_uint16, write_uint24, write_uint32, write_uint40, write_uint48, write_uint56, write_uint64,
}

mod_split : (v p : ℕ) → 0 < p → v % (256 * p) ≡ v % p + v / p % 256 * p
mod_split v p pos =
    ap (λ (t : ℕ). t % (256 * p)) parts
    ∙ add-mul-mod_self_right (v % p + v / p % 256 * p) (v / p / 256) (256 * p)
    ∙ mod-eq_of_lt below
  where
    parts : v ≡ v % p + v / p % 256 * p + v / p / 256 * (256 * p)
    parts = omega (arith, mod-add-div' v p, ap (λ (t : ℕ). t * p) (mod-add-div' (v / p) 256))

    below : v % p + v / p % 256 * p < 256 * p
    below = grind (arith, mod-lt v pos)

pow8 : (n : ℕ) → 2 ^ (suc n * 8) ≡ 256 * 2 ^ (n * 8)
pow8 n =
    let e : suc n * 8 ≡ n * 8 + 8 = omega arith in
    rw e (simp towards_suc (simp pow-suc (omega arith)))

-- The low `n` bytes of a number, the highest first, and `n` bytes of it from byte `i` on, the lowest
-- first.
abbrev pub high_first : ℕ → ℕ → List ℕ
high_first zero v = []
high_first (suc n) v = byte_at (n * 8) v ∷ high_first n v

abbrev pub low_first : ℕ → ℕ → ℕ → List ℕ
low_first zero i v = []
low_first (suc n) i v = byte_at (i * 8) v ∷ low_first n (i + 1) v

byte_times : (b p : ℕ) → b < 256 → b * p + p ≤ 256 * p
byte_times b p h = grind arith

room_for_one : (q m : ℕ) → (q + 1) * m ≤ u64_mod → m ≤ u64_mod
room_for_one q m h = grind arith

-- One round of big endian: the byte `b` fills the digits below those of `q`.
xor_byte_below :
    (n q b : ℕ)
    → b < 256
    → (q + 1) * 2 ^ (suc n * 8) ≤ u64_mod
    → bit_xor (q * 2 ^ (suc n * 8)) (b * 2 ^ (n * 8) % u64_mod) ≡ (q * 256 + b) * 2 ^ (n * 8)
xor_byte_below n q b byte room =
    let p = 2 ^ (n * 8) in
    let pos = one-le-pow (n * 8) 2 (omega arith) in
    let fits : b * p < 2 ^ (suc n * 8) = omega (arith, pow8 n, byte_times b p byte) in
    let whole : b * p % u64_mod ≡ b * p =
      mod-eq_of_lt (omega (arith, room_for_one q (2 ^ (suc n * 8)) room)) in
    rw whole
      (bit_xor-high_low (suc n * 8) q (b * p) fits ∙ omega (arith, ap (λ (t : ℕ). q * t) (pow8 n)))

-- One round of little endian: the byte `b` fills the digits above those of `r`.
xor_byte_above :
    (i r b : ℕ)
    → b < 256
    → r < 2 ^ (i * 8)
    → 2 ^ (suc i * 8) ≤ u64_mod
    → bit_xor r (b * 2 ^ (i * 8) % u64_mod) ≡ r + b * 2 ^ (i * 8)
xor_byte_above i r b byte low room =
    let p = 2 ^ (i * 8) in
    let pos = one-le-pow (i * 8) 2 (omega arith) in
    let whole : b * p % u64_mod ≡ b * p =
      mod-eq_of_lt (omega (arith, pow8 i, byte_times b p byte)) in
    rw whole (bit_xor-low_high (i * 8) b r low)

big_shift : (len n i : ℕ) → i + suc n ≡ len → len ≤ 8 → shift_of big_endian len i ≡ n * 8
unfolding shift_of
big_shift len n i e small = omega arith

little_shift : (len i : ℕ) → i < 8 → shift_of little_endian len i ≡ i * 8
unfolding shift_of
little_shift len i small = omega arith

big_loop :
    (len n i q v : ℕ) (rest : List ℕ)
    → i + n ≡ len
    → len ≤ 8
    → (q + 1) * 2 ^ (n * 8) ≤ u64_mod
    → read_uint_n_loop big_endian len n i (q * 2 ^ (n * 8)) (high_first n v ++ rest)
      ≡ ok (q * 2 ^ (n * 8) + v % 2 ^ (n * 8), rest)
unfolding read_uint_n_loop read_byte
big_loop len zero i q v rest e small room = ground arith
big_loop len (suc n) i q v rest e small room =
    let b = byte_at (n * 8) v in
    let pos = one-le-pow (n * 8) 2 (omega arith) in
    let widened = ap (λ (t : ℕ). q * t) (pow8 n) in
    let rest_room : (q * 256 + b + 1) * 2 ^ (n * 8) ≤ u64_mod =
      omega (arith, widened, pow8 n, byte_times b (2 ^ (n * 8)) (omega arith)) in
    let total : (q * 256 + b) * 2 ^ (n * 8) + v % 2 ^ (n * 8)
        ≡ q * 2 ^ (suc n * 8) + v % 2 ^ (suc n * 8) =
      rw pow8 (rw (mod_split v (2 ^ (n * 8)) pos) (omega arith)) in
    rw (big_shift len n i e small, xor_byte_below n q b (omega arith) room, ← total)
      (big_loop len n (i + 1) (q * 256 + b) v rest (omega arith) small rest_room)

pow_room : (i : ℕ) → i < 8 → 2 ^ (suc i * 8) ≤ u64_mod
pow_room i h = pow-le-pow_right {n = 2} (omega arith) {j = 64} (omega arith)

little_loop :
    (len n i v : ℕ) (rest : List ℕ)
    → i + n ≤ 8
    → read_uint_n_loop little_endian len n i (v % 2 ^ (i * 8)) (low_first n i v ++ rest)
      ≡ ok (v % 2 ^ ((i + n) * 8), rest)
unfolding read_uint_n_loop read_byte
little_loop len zero i v rest small = let e : i + 0 ≡ i = omega arith in rw e
little_loop len (suc n) i v rest small =
    let b = byte_at (i * 8) v in
    let pos = one-le-pow (i * 8) 2 (omega arith) in
    let grown : v % 2 ^ (i * 8) + b * 2 ^ (i * 8) ≡ v % 2 ^ ((i + 1) * 8) =
      let e : (i + 1) * 8 ≡ suc i * 8 = omega arith in
      rw (e, pow8) (sym (mod_split v (2 ^ (i * 8)) pos)) in
    let same : i + suc n ≡ i + 1 + n = omega arith in
    rw
      (
        little_shift len i (omega arith),
        xor_byte_above i (v % 2 ^ (i * 8)) b (omega arith) (mod-lt v pos)
            (pow_room i (omega arith)),
        grown,
        same,
      )
      (little_loop len n (i + 1) v rest (omega arith))

byte_count : (n : ℕ) → n ≤ 8 → n * 8 ≤ 64
byte_count n h = omega arith

read_uint_n-big :
    (n v : ℕ) (rest : List ℕ)
    → n ≤ 8
    → v < 2 ^ (n * 8)
    → read_uint_n big_endian n (high_first n v ++ rest) ≡ ok (v, rest)
unfolding read_uint_n
read_uint_n-big n v rest small fits =
    let whole = pow-le-pow_right {n = 2} (omega arith) {j = 64} (byte_count n small) in
    let start : 0 * 2 ^ (n * 8) ≡ 0 = omega arith in
    let run = rw start at (big_loop n n 0 0 v rest (omega arith) small (omega (arith, whole))) in
    run ∙ ap (λ (t : ℕ). ok (t, rest)) (omega (arith, mod-eq_of_lt fits))

read_uint_n-little :
    (n v : ℕ) (rest : List ℕ)
    → n ≤ 8
    → v < 2 ^ (n * 8)
    → read_uint_n little_endian n (low_first n 0 v ++ rest) ≡ ok (v, rest)
unfolding read_uint_n
read_uint_n-little n v rest small fits =
    let start : v % 2 ^ (0 * 8) ≡ 0 = omega arith in
    let all : 0 + n ≡ n = omega arith in
    let run = rw (start, all) at (little_loop n n 0 v rest (omega arith)) in
    run ∙ ap (λ (t : ℕ). ok (t, rest)) (mod-eq_of_lt fits)

-- The low `n` bytes of a number in an order.
abbrev pub uint_bytes : ByteOrder → ℕ → ℕ → List ℕ
uint_bytes little_endian n v = low_first n 0 v
uint_bytes big_endian n v = high_first n v

-- ReadUintN of `n` bytes, at most 8, reads a number below 2 ^ (8 n) from its `n` bytes, in either byte
-- order, and leaves what follows.
pub read_uint_n-write :
    (order : ByteOrder) (n v : ℕ) (rest : List ℕ)
    → n ≤ 8
    → v < 2 ^ (n * 8)
    → read_uint_n order n (uint_bytes order n v ++ rest) ≡ ok (v, rest)
read_uint_n-write little_endian n v rest small fits = read_uint_n-little n v rest small fits
read_uint_n-write big_endian n v rest small fits = read_uint_n-big n v rest small fits

length-low_first : (n i v : ℕ) → length (low_first n i v) ≡ n
length-low_first zero i v = refl
length-low_first (suc n) i v = ap suc (length-low_first n (i + 1) v)

length-high_first : (n v : ℕ) → length (high_first n v) ≡ n
length-high_first zero v = refl
length-high_first (suc n) v = ap suc (length-high_first n v)

pub length-uint_bytes : (order : ByteOrder) (n v : ℕ) → length (uint_bytes order n v) ≡ n
length-uint_bytes little_endian n v = length-low_first n 0 v
length-uint_bytes big_endian n v = length-high_first n v

-- The writers of fixed widths write these bytes.
pub write_uint8_lem : (order : ByteOrder) (v : ℕ) → (v % 2 ^ 8) ∷ [] ≡ uint_bytes order 1 v
write_uint8_lem little_endian v = ground arith
write_uint8_lem big_endian v = ground arith

pub write_uint16_lem : (order : ByteOrder) (v : ℕ) → write_uint16 order v ≡ uint_bytes order 2 v
unfolding write_uint16
write_uint16_lem little_endian v = refl
write_uint16_lem big_endian v = refl

pub write_uint24_lem :
    (order : ByteOrder) (v : ℕ) → v < 2 ^ 24 → write_uint24 order v ≡ some (uint_bytes order 3 v)
unfolding write_uint24
write_uint24_lem little_endian v h = ground arith
write_uint24_lem big_endian v h = ground arith

pub write_uint32_lem : (order : ByteOrder) (v : ℕ) → write_uint32 order v ≡ uint_bytes order 4 v
unfolding write_uint32
write_uint32_lem little_endian v = refl
write_uint32_lem big_endian v = refl

pub write_uint40_lem :
    (order : ByteOrder) (v : ℕ) → v < 2 ^ 40 → write_uint40 order v ≡ some (uint_bytes order 5 v)
unfolding write_uint40
write_uint40_lem little_endian v h = ground arith
write_uint40_lem big_endian v h = ground arith

pub write_uint48_lem :
    (order : ByteOrder) (v : ℕ) → v < 2 ^ 48 → write_uint48 order v ≡ some (uint_bytes order 6 v)
unfolding write_uint48
write_uint48_lem little_endian v h = ground arith
write_uint48_lem big_endian v h = ground arith

pub write_uint56_lem :
    (order : ByteOrder) (v : ℕ) → v < 2 ^ 56 → write_uint56 order v ≡ some (uint_bytes order 7 v)
unfolding write_uint56
write_uint56_lem little_endian v h = ground arith
write_uint56_lem big_endian v h = ground arith

pub write_uint64_lem : (order : ByteOrder) (v : ℕ) → write_uint64 order v ≡ uint_bytes order 8 v
unfolding write_uint64
write_uint64_lem little_endian v = refl
write_uint64_lem big_endian v = refl
