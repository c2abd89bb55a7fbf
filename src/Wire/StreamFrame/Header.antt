-- ===== src/Wire/StreamFrame/Header.antt =====
-- What the type byte tells is what it was made of, and the lengths that are calculated are the widths of
-- the fields.
use native.Mathlib.Decide.{ℕ_discrete}
use Prim.{yes, no}
use agg_deliv.Common.{
  ℕ, zero, suc, ◌+◌, ◌-◌, ◌*◌, ◌^◌, ◌<◌, ◌≤◌, ◌≡◌, Bool, true, false, not, ◌&&◌, some, ◌==◌,
  if◌then◌else◌, arith, refl,
}
use agg_deliv.Wire.ByteOrder.{ByteOrder}
use agg_deliv.Wire.ByteOrder.UintN.{
  uint_bytes, write_uint8_lem, write_uint16_lem, write_uint24_lem, write_uint32_lem,
  write_uint40_lem, write_uint48_lem, write_uint56_lem, write_uint64_lem,
}
use agg_deliv.Wire.StreamFrame.{
  StreamFrame, fin_of, data_len_present_of, offset_len_of, stream_id_len_of, type_byte,
  calculate_stream_id_length, get_offset_length, write_stream_id, write_offset,
}

all_below : ℕ → (ℕ → Bool) → Bool
all_below zero p = true
all_below (suc n) p = p n && all_below n p

all_below_lem : (n k : ℕ) (p : ℕ → Bool) → all_below n p ≡ true → k < n → p k ≡ true
unfolding all_below
all_below_lem zero k p all below = ground arith
all_below_lem (suc n) k p all below = elim (ℕ_discrete k n) [
  | yes e ↦ rw e (ground arith)
  | no ne ↦ all_below_lem n k p (ground arith) (ground arith)
]

same : Bool → Bool → Bool
same true b = b
same false b = not b

-- The width of the offset that the three bits `k` stand for.
abbrev widen : ℕ → ℕ
widen k = if k == 0 then 0 else k + 1

told : Bool → Bool → ℕ → ℕ → Bool
told fin present k j =
    let t = type_byte fin present (widen k) (j + 1) in
    same fin (fin_of t)
    && (same present (data_len_present_of t)
        && ((offset_len_of t == widen k) && (stream_id_len_of t == (j + 1))))

all_told : (fin present : Bool) → all_below 8 (λ k. all_below 4 (told fin present k)) ≡ true
unfolding all_below told same type_byte fin_of data_len_present_of offset_len_of stream_id_len_of
all_told true true = refl
all_told true false = refl
all_told false true = refl
all_told false false = refl

told_lem : (fin present : Bool) (k j : ℕ) → k < 8 → j < 4 → told fin present k j ≡ true
told_lem fin present k j hk hj =
    all_below_lem 4 j (told fin present k)
      (all_below_lem 8 k (λ i. all_below 4 (told fin present i)) (all_told fin present) hk) hj

same_lem : (a b : Bool) → same a b ≡ true → b ≡ a
unfolding same
same_lem true true h = refl
same_lem true false h = ground arith
same_lem false true h = ground arith
same_lem false false h = refl

narrow : (f : StreamFrame) → (k : ℕ) × (k < 8) × (get_offset_length f ≡ widen k)
unfolding get_offset_length
narrow f = (get_offset_length f - 1, ground arith, ground arith)

unfoldable pub IsTold : Bool → Bool → ℕ → ℕ → Type 0
IsTold fin present ol sl =
    (fin_of (type_byte fin present ol sl) ≡ fin)
    × (data_len_present_of (type_byte fin present ol sl) ≡ present)
    × (offset_len_of (type_byte fin present ol sl) ≡ ol)
    × (stream_id_len_of (type_byte fin present ol sl) ≡ sl)

type_byte-IsTold :
    (fin present : Bool) (k j : ℕ) → k < 8 → j < 4 → IsTold fin present (widen k) (j + 1)
unfolding told IsTold
type_byte-IsTold fin present k j hk hj =
    let t = type_byte fin present (widen k) (j + 1) in
    let h = told_lem fin present k j hk hj in
    (
      same_lem fin (fin_of t) (ground arith),
      same_lem present (data_len_present_of t) (ground arith),
      ground arith,
      ground arith,
    )

narrow_id : (f : StreamFrame) → (j : ℕ) × (j < 4) × (calculate_stream_id_length f ≡ j + 1)
unfolding calculate_stream_id_length
narrow_id f = (calculate_stream_id_length f - 1, ground arith, ground arith)

pub type_byte_lem :
    (f : StreamFrame)
    → IsTold f.fin_bit f.data_len_present (get_offset_length f) (calculate_stream_id_length f)
type_byte_lem f =
    let (k, hk, ek) = narrow f in
    let (j, hj, ej) = narrow_id f in
    rw (ek, ej) (type_byte-IsTold f.fin_bit f.data_len_present k j hk hj)

-- The widths.
pub stream_id_fits :
    (f : StreamFrame)
    → f.stream_id < 2 ^ 32
    → (f.stream_id < 2 ^ (calculate_stream_id_length f * 8)) × (calculate_stream_id_length f ≤ 4)
unfolding calculate_stream_id_length
stream_id_fits f h = ground arith

pub offset_fits :
    (f : StreamFrame)
    → f.offset < 2 ^ 64
    → (f.offset < 2 ^ (get_offset_length f * 8)) × (get_offset_length f ≤ 8)
unfolding get_offset_length
offset_fits f h = ground arith

pub write_stream_id_lem :
    (order : ByteOrder) (f : StreamFrame)
    → f.stream_id < 2 ^ 32
    → write_stream_id order (calculate_stream_id_length f) f.stream_id
      ≡ some (uint_bytes order (calculate_stream_id_length f) f.stream_id)
unfolding write_stream_id calculate_stream_id_length
write_stream_id_lem order f h = ground (
  arith,
  write_uint8_lem order f.stream_id,
  write_uint16_lem order f.stream_id,
  write_uint24_lem order f.stream_id,
  write_uint32_lem order f.stream_id,
)

pub write_offset_lem :
    (order : ByteOrder) (f : StreamFrame)
    → f.offset < 2 ^ 64
    → write_offset order (get_offset_length f) f.offset
      ≡ some (uint_bytes order (get_offset_length f) f.offset)
unfolding write_offset get_offset_length
write_offset_lem order f h = ground (
  arith,
  write_uint16_lem order f.offset,
  write_uint24_lem order f.offset,
  write_uint32_lem order f.offset,
  write_uint40_lem order f.offset,
  write_uint48_lem order f.offset,
  write_uint56_lem order f.offset,
  write_uint64_lem order f.offset,
)
