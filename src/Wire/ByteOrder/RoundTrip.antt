-- ===== src/Wire/ByteOrder/RoundTrip.antt =====
-- A fixed-width number that is written is read back, with the bytes that follow it.
use agg_deliv.Common.{ℕ, ◌^◌, ◌<◌, ◌≡◌, refl, length, List, ◌++◌, arith}
use agg_deliv.Wire.Reader.{ok}
use agg_deliv.Wire.ByteOrder.{
  ByteOrder, little_endian, big_endian, read_uint16, read_uint32, read_uint64, write_uint16,
  write_uint32, write_uint64,
}

pub read_uint16-write_uint16 :
    (order : ByteOrder) (i : ℕ) (rest : List ℕ)
    → i < 2 ^ 16
    → read_uint16 order (write_uint16 order i ++ rest) ≡ ok (i, rest)
unfolding read_uint16 write_uint16
read_uint16-write_uint16 little_endian i rest h = ground arith
read_uint16-write_uint16 big_endian i rest h = ground arith

pub read_uint32-write_uint32 :
    (order : ByteOrder) (i : ℕ) (rest : List ℕ)
    → i < 2 ^ 32
    → read_uint32 order (write_uint32 order i ++ rest) ≡ ok (i, rest)
unfolding read_uint32 write_uint32
read_uint32-write_uint32 little_endian i rest h = ground arith
read_uint32-write_uint32 big_endian i rest h = ground arith

pub read_uint64-write_uint64 :
    (order : ByteOrder) (i : ℕ) (rest : List ℕ)
    → i < 2 ^ 64
    → read_uint64 order (write_uint64 order i ++ rest) ≡ ok (i, rest)
unfolding read_uint64 write_uint64
read_uint64-write_uint64 little_endian i rest h = ground arith
read_uint64-write_uint64 big_endian i rest h = ground arith

-- The widths.
pub length-write_uint16 : (order : ByteOrder) (i : ℕ) → length (write_uint16 order i) ≡ 2
unfolding write_uint16
length-write_uint16 little_endian i = refl
length-write_uint16 big_endian i = refl

pub length-write_uint32 : (order : ByteOrder) (i : ℕ) → length (write_uint32 order i) ≡ 4
unfolding write_uint32
length-write_uint32 little_endian i = refl
length-write_uint32 big_endian i = refl

pub length-write_uint64 : (order : ByteOrder) (i : ℕ) → length (write_uint64 order i) ≡ 8
unfolding write_uint64
length-write_uint64 little_endian i = refl
length-write_uint64 big_endian i = refl
