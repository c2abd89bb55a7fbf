-- ===== src/Wire/ByteOrder.antt =====
-- mpquic_trans/internal/utils/byteorder.go, byteorder_big_endian.go and byteorder_little_endian.go.
-- `uint8(i >> k)` is `i / 2 ^ k % 256`. The writers of 24, 40, 48 and 56 bits panic on a value that does
-- not fit, which is `none`.
pub mod RoundTrip
pub mod UintN
mod Tests
use Prim.Native.Nat.{bit_xor}
use agg_deliv.Common.{
  ℕ, zero, suc, ◌+◌, ◌-◌, ◌*◌, ◌/◌, ◌%◌, ◌^◌, Bool, List, [], ◌∷◌, Option, none, some, ltb,
  if◌then◌else◌, u64_mod,
}
use agg_deliv.Protocol.Version.{VersionNumber, version39, version_lt}
use agg_deliv.Wire.Reader.{Reader, ◌>>=◌, return, read_byte}

pub data ByteOrder : Type 0 where
  little_endian : ByteOrder
  big_endian : ByteOrder

unfoldable pub get_byte_order : VersionNumber → ByteOrder
get_byte_order v = if version_lt v version39 then little_endian else big_endian

unfoldable pub read_uint16 : ByteOrder → Reader ℕ
unfolding read_byte
read_uint16 little_endian = do b1 ← read_byte; b2 ← read_byte; return (b1 + b2 * 2 ^ 8)
read_uint16 big_endian = do b2 ← read_byte; b1 ← read_byte; return (b1 + b2 * 2 ^ 8)

unfoldable pub read_uint32 : ByteOrder → Reader ℕ
unfolding read_byte
read_uint32 little_endian = do
  b1 ← read_byte
  b2 ← read_byte
  b3 ← read_byte
  b4 ← read_byte
  return (b1 + b2 * 2 ^ 8 + b3 * 2 ^ 16 + b4 * 2 ^ 24)
read_uint32 big_endian = do
  b4 ← read_byte
  b3 ← read_byte
  b2 ← read_byte
  b1 ← read_byte
  return (b1 + b2 * 2 ^ 8 + b3 * 2 ^ 16 + b4 * 2 ^ 24)

unfoldable pub read_uint64 : ByteOrder → Reader ℕ
unfolding read_byte
read_uint64 little_endian = do
  b1 ← read_byte
  b2 ← read_byte
  b3 ← read_byte
  b4 ← read_byte
  b5 ← read_byte
  b6 ← read_byte
  b7 ← read_byte
  b8 ← read_byte
  return (
      b1
      + b2 * 2 ^ 8
      + b3 * 2 ^ 16
      + b4 * 2 ^ 24
      + b5 * 2 ^ 32
      + b6 * 2 ^ 40
      + b7 * 2 ^ 48
      + b8 * 2 ^ 56)
read_uint64 big_endian = do
  b8 ← read_byte
  b7 ← read_byte
  b6 ← read_byte
  b5 ← read_byte
  b4 ← read_byte
  b3 ← read_byte
  b2 ← read_byte
  b1 ← read_byte
  return (
      b1
      + b2 * 2 ^ 8
      + b3 * 2 ^ 16
      + b4 * 2 ^ 24
      + b5 * 2 ^ 32
      + b6 * 2 ^ 40
      + b7 * 2 ^ 48
      + b8 * 2 ^ 56)

-- The shift of round `i` of ReadUintN, computed in uint8.
unfoldable pub shift_of : ByteOrder → ℕ → ℕ → ℕ
shift_of little_endian length i = i * 8 % 256
shift_of big_endian length i = (length + 512 - 1 - i) % 256 * 8 % 256

-- The rounds that are left, the round's index, and the result so far.
unfoldable pub read_uint_n_loop : ByteOrder → ℕ → ℕ → ℕ → ℕ → Reader ℕ
unfolding read_byte
read_uint_n_loop order length zero i res = return res
read_uint_n_loop order length (suc n) i res = do
  bt ← read_byte
  read_uint_n_loop order length n (i + 1) (bit_xor res (bt * 2 ^ shift_of order length i % u64_mod))

unfoldable pub read_uint_n : ByteOrder → ℕ → Reader ℕ
unfolding read_uint_n_loop shift_of
read_uint_n order length = read_uint_n_loop order length length 0 0

abbrev pub byte_at : ℕ → ℕ → ℕ
byte_at k i = i / 2 ^ k % 256

unfoldable pub write_uint16 : ByteOrder → ℕ → List ℕ
write_uint16 little_endian i = byte_at 0 i ∷ byte_at 8 i ∷ []
write_uint16 big_endian i = byte_at 8 i ∷ byte_at 0 i ∷ []

unfoldable pub write_uint32 : ByteOrder → ℕ → List ℕ
write_uint32 little_endian i = byte_at 0 i ∷ byte_at 8 i ∷ byte_at 16 i ∷ byte_at 24 i ∷ []
write_uint32 big_endian i = byte_at 24 i ∷ byte_at 16 i ∷ byte_at 8 i ∷ byte_at 0 i ∷ []

unfoldable pub write_uint64 : ByteOrder → ℕ → List ℕ
write_uint64 little_endian i =
    byte_at 0 i
    ∷ byte_at 8 i
    ∷ byte_at 16 i
    ∷ byte_at 24 i
    ∷ byte_at 32 i
    ∷ byte_at 40 i
    ∷ byte_at 48 i
    ∷ byte_at 56 i
    ∷ []
write_uint64 big_endian i =
    byte_at 56 i
    ∷ byte_at 48 i
    ∷ byte_at 40 i
    ∷ byte_at 32 i
    ∷ byte_at 24 i
    ∷ byte_at 16 i
    ∷ byte_at 8 i
    ∷ byte_at 0 i
    ∷ []

-- The bytes that the writers of the other widths write.
abbrev pub bytes24 : ByteOrder → ℕ → List ℕ
bytes24 little_endian i = byte_at 0 i ∷ byte_at 8 i ∷ byte_at 16 i ∷ []
bytes24 big_endian i = byte_at 16 i ∷ byte_at 8 i ∷ byte_at 0 i ∷ []

abbrev pub bytes40 : ByteOrder → ℕ → List ℕ
bytes40 little_endian i =
    byte_at 0 i ∷ byte_at 8 i ∷ byte_at 16 i ∷ byte_at 24 i ∷ byte_at 32 i ∷ []
bytes40 big_endian i = byte_at 32 i ∷ byte_at 24 i ∷ byte_at 16 i ∷ byte_at 8 i ∷ byte_at 0 i ∷ []

abbrev pub bytes48 : ByteOrder → ℕ → List ℕ
bytes48 little_endian i =
    byte_at 0 i ∷ byte_at 8 i ∷ byte_at 16 i ∷ byte_at 24 i ∷ byte_at 32 i ∷ byte_at 40 i ∷ []
bytes48 big_endian i =
    byte_at 40 i ∷ byte_at 32 i ∷ byte_at 24 i ∷ byte_at 16 i ∷ byte_at 8 i ∷ byte_at 0 i ∷ []

abbrev pub bytes56 : ByteOrder → ℕ → List ℕ
bytes56 little_endian i =
    byte_at 0 i
    ∷ byte_at 8 i
    ∷ byte_at 16 i
    ∷ byte_at 24 i
    ∷ byte_at 32 i
    ∷ byte_at 40 i
    ∷ byte_at 48 i
    ∷ []
bytes56 big_endian i =
    byte_at 48 i
    ∷ byte_at 40 i
    ∷ byte_at 32 i
    ∷ byte_at 24 i
    ∷ byte_at 16 i
    ∷ byte_at 8 i
    ∷ byte_at 0 i
    ∷ []

unfoldable pub write_uint24 : ByteOrder → ℕ → Option (List ℕ)
write_uint24 order i = if ltb i (2 ^ 24) then some (bytes24 order i) else none

unfoldable pub write_uint40 : ByteOrder → ℕ → Option (List ℕ)
write_uint40 order i = if ltb i (2 ^ 40) then some (bytes40 order i) else none

unfoldable pub write_uint48 : ByteOrder → ℕ → Option (List ℕ)
write_uint48 order i = if ltb i (2 ^ 48) then some (bytes48 order i) else none

unfoldable pub write_uint56 : ByteOrder → ℕ → Option (List ℕ)
write_uint56 order i = if ltb i (2 ^ 56) then some (bytes56 order i) else none
