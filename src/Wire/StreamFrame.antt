-- ===== src/Wire/StreamFrame.antt =====
-- mpquic_trans/internal/wire/stream_frame.go: the STREAM frame, whose type byte tells the widths of its
-- stream ID and of its offset.
pub mod Header
pub mod RoundTrip
mod Tests
use Prim.Native.Nat.{bit_and, bit_xor}
use agg_deliv.Common.{
  ℕ, ◌+◌, ◌-◌, ◌*◌, ◌/◌, ◌%◌, ◌^◌, Bool, true, false, not, ◌&&◌, List, [], ◌∷◌, ◌++◌, Option, none,
  some, ltb, ◌==◌, if◌then◌else◌, length, add64,
}
use agg_deliv.Protocol.Version.{VersionNumber}
use agg_deliv.Wire.Reader.{
  Reader, Result, ok, ◌>>=◌, return, fail, read_byte, read_full, invalid_stream_data,
  empty_stream_frame_no_fin,
}
use agg_deliv.Wire.ByteOrder.{
  ByteOrder, get_byte_order, read_uint16, read_uint_n, write_uint16, write_uint24, write_uint32,
  write_uint40, write_uint48, write_uint56, write_uint64,
}
use agg_deliv.Wire.Control.{max_packet_size}

pub record StreamFrame : Type 0 where
  pub stream_id : ℕ
  pub fin_bit : Bool
  pub data_len_present : Bool
  pub offset : ℕ
  pub payload : List ℕ

-- r.Len(), the number of bytes that are left
abbrev pub remaining : Reader ℕ
remaining bytes = ok (length bytes, bytes)

-- How many bytes of data follow: the number that was read, or all that is left, cut to uint16.
unfoldable pub payload_len : Bool → ℕ → Reader ℕ
payload_len present data_len bytes =
    if present then ok (data_len, bytes) else ok (length bytes % 2 ^ 16, bytes)

unfoldable pub read_data_len : ByteOrder → Bool → Reader ℕ
read_data_len order present bytes = if present then read_uint16 order bytes else ok (0, bytes)

unfoldable pub read_payload : ℕ → Reader (List ℕ)
read_payload n bytes = if n == 0 then ok ([], bytes) else read_full n bytes

-- The two tests at the end of the parser.
unfoldable pub check_frame : StreamFrame → Reader StreamFrame
check_frame frame =
    if ltb (add64 frame.offset (length frame.payload)) frame.offset
    then fail invalid_stream_data
    else if not frame.fin_bit && length frame.payload == 0
    then fail empty_stream_frame_no_fin
    else return frame

-- The parser behind the type byte.
unfoldable pub parse_body : ByteOrder → Bool → Bool → ℕ → ℕ → Reader StreamFrame
parse_body order fin present offset_len stream_id_len = do
  sid ← read_uint_n order stream_id_len
  offset ← read_uint_n order offset_len
  data_len ← read_data_len order present
  let rest = payload_len present data_len >>= λ n. read_payload n >>= λ payload.
      check_frame (record {
        stream_id = sid % 2 ^ 32;
        fin_bit = fin;
        data_len_present = present;
        offset = offset;
        payload = payload;
      })
  if ltb max_packet_size data_len then fail invalid_stream_data else rest

-- What the type byte tells.
unfoldable pub fin_of : ℕ → Bool
fin_of t = ltb 0 (bit_and t 0x40)

unfoldable pub data_len_present_of : ℕ → Bool
data_len_present_of t = ltb 0 (bit_and t 0x20)

unfoldable pub offset_len_of : ℕ → ℕ
offset_len_of t = let n = bit_and t 0x1c / 2 ^ 2 in if n == 0 then 0 else n + 1

unfoldable pub stream_id_len_of : ℕ → ℕ
stream_id_len_of t = bit_and t 0x3 + 1

unfoldable pub parse : VersionNumber → Reader StreamFrame
unfolding read_byte parse_body
parse version = do
  t ← read_byte
  parse_body (get_byte_order version) (fin_of t) (data_len_present_of t) (offset_len_of t)
      (stream_id_len_of t)

unfoldable pub calculate_stream_id_length : StreamFrame → ℕ
calculate_stream_id_length f =
    if ltb f.stream_id (2 ^ 8)
    then 1
    else if ltb f.stream_id (2 ^ 16)
    then 2
    else if ltb f.stream_id (2 ^ 24)
    then 3
    else 4

unfoldable pub get_offset_length : StreamFrame → ℕ
get_offset_length f =
    if f.offset == 0
    then 0
    else if ltb f.offset (2 ^ 16)
    then 2
    else if ltb f.offset (2 ^ 24)
    then 3
    else if ltb f.offset (2 ^ 32)
    then 4
    else if ltb f.offset (2 ^ 40)
    then 5
    else if ltb f.offset (2 ^ 48)
    then 6
    else if ltb f.offset (2 ^ 56)
    then 7
    else 8

unfoldable pub min_length : StreamFrame → ℕ
unfolding calculate_stream_id_length get_offset_length
min_length f =
    1 + calculate_stream_id_length f + get_offset_length f + (if f.data_len_present then 2 else 0)

unfoldable pub data_len : StreamFrame → ℕ
data_len f = length f.payload

unfoldable pub type_byte : Bool → Bool → ℕ → ℕ → ℕ
type_byte fin present offset_len stream_id_len =
    let with_fin = if fin then bit_xor 0x80 0x40 else 0x80 in
    let with_len = if present then bit_xor with_fin 0x20 else with_fin in
    let with_offset =
      if ltb 0 offset_len then bit_xor with_len ((offset_len - 1) * 2 ^ 2) else with_len in
    bit_xor with_offset (stream_id_len - 1)

-- The switches over the lengths. `none` is a length that has no case, or a panic of a writer; neither
-- happens for the lengths that are calculated.
unfoldable pub write_stream_id : ByteOrder → ℕ → ℕ → Option (List ℕ)
write_stream_id order len id =
    if len == 1
    then some (id % 2 ^ 8 ∷ [])
    else if len == 2
    then some (write_uint16 order (id % 2 ^ 16))
    else if len == 3
    then write_uint24 order id
    else if len == 4
    then some (write_uint32 order id)
    else none

unfoldable pub write_offset : ByteOrder → ℕ → ℕ → Option (List ℕ)
write_offset order len offset =
    if len == 0
    then some []
    else if len == 2
    then some (write_uint16 order (offset % 2 ^ 16))
    else if len == 3
    then write_uint24 order (offset % 2 ^ 32)
    else if len == 4
    then some (write_uint32 order (offset % 2 ^ 32))
    else if len == 5
    then write_uint40 order offset
    else if len == 6
    then write_uint48 order offset
    else if len == 7
    then write_uint56 order offset
    else if len == 8
    then some (write_uint64 order offset)
    else none

-- `empty_without_fin` is the error of the first test; `invalid` one of a switch.
pub data Written : Type 0 where
  done : List ℕ → Written
  empty_without_fin : Written
  invalid : Written

unfoldable pub assemble : StreamFrame → ByteOrder → Option (List ℕ) → Option (List ℕ) → Written
assemble f order (some sid) (some offset) = done (
    type_byte f.fin_bit f.data_len_present (get_offset_length f) (calculate_stream_id_length f)
      ∷ sid
    ++ (offset
        ++ ((if f.data_len_present then write_uint16 order (length f.payload % 2 ^ 16) else [])
            ++ f.payload)))
assemble f order none o = invalid
assemble f order (some sid) none = invalid

unfoldable pub write : StreamFrame → VersionNumber → Written
unfolding assemble
write f version =
    if length f.payload == 0 && not f.fin_bit
    then empty_without_fin
    else let order = get_byte_order version in
      assemble f order (write_stream_id order (calculate_stream_id_length f) f.stream_id)
        (write_offset order (get_offset_length f) f.offset)
