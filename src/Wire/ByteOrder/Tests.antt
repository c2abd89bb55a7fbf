-- ===== src/Wire/ByteOrder/Tests.antt =====
-- Runs of the integer readers and writers, and the round trip of ReadUintN at a concrete number.
use agg_deliv.Common.{◌≡◌, refl, [], ◌∷◌, ◌++◌, arith}
use agg_deliv.Wire.Reader.{ok}
use agg_deliv.Wire.ByteOrder.{big_endian, little_endian, read_uint_n, write_uint32}
use agg_deliv.Wire.ByteOrder.UintN.{uint_bytes, read_uint_n-write}

big_endian_bytes : write_uint32 big_endian 0x01020304 ≡ 1 ∷ 2 ∷ 3 ∷ 4 ∷ []
unfolding write_uint32
big_endian_bytes = refl

three_bytes : read_uint_n little_endian 3 (3 ∷ 2 ∷ 1 ∷ 9 ∷ []) ≡ ok (0x010203, 9 ∷ [])
unfolding read_uint_n
three_bytes = refl

read_uint_n-write_run :
    read_uint_n big_endian 3 (uint_bytes big_endian 3 0x010203 ++ 9 ∷ []) ≡ ok (0x010203, 9 ∷ [])
read_uint_n-write_run = read_uint_n-write big_endian 3 0x010203 (9 ∷ []) (omega arith) (omega arith)
