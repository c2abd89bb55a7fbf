-- ===== src/Wire/StreamFrame/RoundTrip.antt =====
-- A STREAM frame that is written is parsed back.
use agg_deliv.Common.{
  ℕ, ◌+◌, ◌%◌, ◌^◌, ◌<◌, ◌≤◌, ◌≡◌, true, false, List, [], ◌∷◌, ◌++◌, if◌then◌else◌, arith, refl,
  ◌⊎◌, inl, inr, length, length-append,
}
use mathlib.Core.List.{append_assoc}
use agg_deliv.Protocol.Version.{VersionNumber}
use agg_deliv.Wire.Reader.{ok, ◌>>=◌, read_byte, read_full-append}
use agg_deliv.Wire.Control.{max_packet_size}
use agg_deliv.Wire.ByteOrder.{ByteOrder, get_byte_order, write_uint16}
use agg_deliv.Wire.ByteOrder.RoundTrip.{read_uint16-write_uint16, length-write_uint16}
use agg_deliv.Wire.ByteOrder.UintN.{uint_bytes, read_uint_n-write, length-uint_bytes}
use agg_deliv.Wire.StreamFrame.{
  StreamFrame, parse, parse_body, read_data_len, payload_len, read_payload, check_frame, min_length,
  write, assemble, done, type_byte, calculate_stream_id_length, get_offset_length,
}
use agg_deliv.Wire.StreamFrame.Header.{
  type_byte_lem, stream_id_fits, offset_fits, write_stream_id_lem, write_offset_lem, IsTold,
}

-- The length and the data, with what follows the frame: a frame without a length is the last.
unfoldable pub IsDelimited : StreamFrame → List ℕ → Type 0
IsDelimited f rest =
    ((f.data_len_present ≡ true) × (length f.payload ≤ max_packet_size))
    ⊎ ((f.data_len_present ≡ false) × (rest ≡ []) × (length f.payload < 2 ^ 16))

data_part : ByteOrder → StreamFrame → List ℕ
data_part order f =
    (if f.data_len_present then write_uint16 order (length f.payload % 2 ^ 16) else []) ++ f.payload

read_payload_lem : (xs rest : List ℕ) → read_payload (length xs) (xs ++ rest) ≡ ok (xs, rest)
unfolding read_payload
read_payload_lem [] rest = refl
read_payload_lem (x ∷ xs) rest = ground (arith, read_full-append (x ∷ xs) rest)

-- A stream ID of 32 bits, and data that ends below offset 2 ^ 64.
unfoldable pub IsSized : StreamFrame → Type 0
IsSized f = (f.stream_id < 2 ^ 32) × (f.offset + length f.payload < 2 ^ 64)

-- A frame without data carries the FIN bit.
unfoldable pub IsAllowed : StreamFrame → Type 0
IsAllowed f = (f.fin_bit ≡ true) ⊎ (0 < length f.payload)

check_frame_lem :
    (f : StreamFrame) (rest : List ℕ) → IsSized f → IsAllowed f → check_frame f rest ≡ ok (f, rest)
unfolding check_frame IsSized IsAllowed
check_frame_lem f rest sized allowed = ground arith

fields : ByteOrder → StreamFrame → List ℕ
fields order f =
    uint_bytes order (calculate_stream_id_length f) f.stream_id
    ++ (uint_bytes order (get_offset_length f) f.offset ++ data_part order f)

-- The body behind the fields of fixed width.
parse_data :
    (order : ByteOrder) (f : StreamFrame) (rest : List ℕ)
    → IsDelimited f rest
    → (data_len : ℕ) × (after : List ℕ) × (read_data_len order f.data_len_present
          (data_part order f ++ rest)
        ≡ ok (data_len, after))
      × (data_len ≤ max_packet_size)
      × (payload_len f.data_len_present data_len after ≡ ok (length f.payload, f.payload ++ rest))
unfolding IsDelimited read_data_len data_part payload_len
parse_data order f rest (inl (e, small)) = (
  length f.payload,
  f.payload ++ rest,
  rw e (
      ground (
        arith,
        append_assoc (write_uint16 order (length f.payload % 2 ^ 16)) f.payload rest,
        read_uint16-write_uint16 order (length f.payload % 2 ^ 16) (f.payload ++ rest)
            (omega arith),
      )),
  small,
  ground arith,
)
parse_data order f rest (inr (e, last, small)) = (
  0,
  f.payload ++ rest,
  ground arith,
  ground arith,
  rw (e, last) (ground (arith, length-append f.payload [])),
)

parse_body_lem :
    (order : ByteOrder) (f : StreamFrame) (rest : List ℕ)
    → IsSized f
    → IsAllowed f
    → IsDelimited f rest
    → parse_body order f.fin_bit f.data_len_present
        (get_offset_length f)
        (calculate_stream_id_length f)
        (fields order f ++ rest)
      ≡ ok (f, rest)
unfolding parse_body fields IsSized
parse_body_lem order f rest sized allowed delimited =
    let id_len = calculate_stream_id_length f in
    let offset_len = get_offset_length f in
    let (id_small, id_len_small) = stream_id_fits f (sized.0) in
    let (offset_small, offset_len_small) = offset_fits f (omega (arith, sized.1)) in
    let (n, after, len_read, n_small, data_read) = parse_data order f rest delimited in
    let first =
      read_uint_n-write order id_len f.stream_id
        (uint_bytes order offset_len f.offset ++ (data_part order f ++ rest)) (omega arith)
        id_small in
    let second =
      read_uint_n-write order offset_len f.offset (data_part order f ++ rest) (omega arith)
        offset_small in
    rw (append_assoc, append_assoc, ◌>>=◌, first, second, len_read)
      (ground
        (arith, data_read, read_payload_lem f.payload rest, check_frame_lem f rest sized allowed))

write_lem :
    (f : StreamFrame) (version : VersionNumber)
    → IsSized f
    → IsAllowed f
    → write f version
      ≡ done (
          type_byte f.fin_bit f.data_len_present
            (get_offset_length f)
            (calculate_stream_id_length f)
          ∷ fields (get_byte_order version) f)
unfolding write assemble fields data_part IsSized IsAllowed
write_lem f version sized allowed = ground (
  arith,
  write_stream_id_lem (get_byte_order version) f sized.0,
  write_offset_lem (get_byte_order version) f (omega (arith, sized.1)),
)

length-fields :
    (order : ByteOrder) (f : StreamFrame) (t : ℕ)
    → length (t ∷ fields order f) ≡ min_length f + length f.payload
unfolding fields data_part min_length
length-fields order f t = ground (
  arith,
  length-append (uint_bytes order (calculate_stream_id_length f) f.stream_id)
      (uint_bytes order (get_offset_length f) f.offset ++ data_part order f),
  length-append (uint_bytes order (get_offset_length f) f.offset) (data_part order f),
  length-uint_bytes order (calculate_stream_id_length f) f.stream_id,
  length-uint_bytes order (get_offset_length f) f.offset,
  length-append (write_uint16 order (length f.payload % 2 ^ 16)) f.payload,
  length-write_uint16 order (length f.payload % 2 ^ 16),
)

-- A STREAM frame with a stream ID of 32 bits and data that ends below offset 2 ^ 64, with the FIN bit or
-- some data, and with data of at most MaxPacketSize bytes behind a length, or without a length at the end
-- of the packet, is written without an error and parsed back, with the bytes that follow it; it takes the
-- bytes that MinLength tells besides its data.
pub stream_frame-round_trip :
    (f : StreamFrame) (version : VersionNumber) (rest : List ℕ)
    → IsSized f
    → IsAllowed f
    → IsDelimited f rest
    → (bytes : List ℕ) × (write f version ≡ done bytes)
      × (parse version (bytes ++ rest) ≡ ok (f, rest))
      × (length bytes ≡ min_length f + length f.payload)
unfolding parse read_byte IsTold
stream_frame-round_trip f version rest sized allowed delimited =
    let order = get_byte_order version in
    let ol = get_offset_length f in
    let sl = calculate_stream_id_length f in
    let (fin_told, present_told, offset_told, id_told) = type_byte_lem f in
    (
      type_byte f.fin_bit f.data_len_present ol sl ∷ fields order f,
      write_lem f version sized allowed,
      rw (fin_told, present_told, offset_told, id_told)
          (parse_body_lem order f rest sized allowed delimited),
      length-fields order f (type_byte f.fin_bit f.data_len_present ol sl),
    )
