-- ===== src/Wire/StreamFrame/Tests.antt =====
-- A STREAM frame at concrete bytes.
use agg_deliv.Common.{ℕ, ◌+◌, ◌≡◌, true, false, refl, inl, List, [], ◌∷◌, ◌++◌, length, arith}
use agg_deliv.Protocol.Version.{version38, version39, version_mp}
use agg_deliv.Wire.Reader.{ok, err, read_byte, read_full, empty_stream_frame_no_fin}
use agg_deliv.Wire.ByteOrder.{
  get_byte_order, write_uint16, write_uint24, read_uint_n, read_uint_n_loop, shift_of,
}
use agg_deliv.Wire.StreamFrame.{
  StreamFrame, parse, parse_body, read_data_len, payload_len, read_payload, check_frame, min_length,
  write, assemble, done, type_byte, calculate_stream_id_length, get_offset_length, fin_of,
  data_len_present_of, offset_len_of, stream_id_len_of, write_stream_id, write_offset,
}
use agg_deliv.Wire.StreamFrame.RoundTrip.{stream_frame-round_trip, IsSized, IsAllowed, IsDelimited}

abbrev frame : StreamFrame
frame = record {
  stream_id = 5;
  fin_bit = true;
  data_len_present = true;
  offset = 0x010203;
  payload = 97 ∷ 98 ∷ [];
}

written_big_endian : write frame version_mp ≡ done (0xe8 ∷ 5 ∷ 1 ∷ 2 ∷ 3 ∷ 0 ∷ 2 ∷ 97 ∷ 98 ∷ [])
unfolding write assemble type_byte write_stream_id write_offset calculate_stream_id_length
    get_offset_length write_uint16 write_uint24 get_byte_order
written_big_endian = refl

parsed_without_length :
    parse version38 (0x80 ∷ 5 ∷ 97 ∷ [])
    ≡ ok (
      record {
        stream_id = 5;
        fin_bit = false;
        data_len_present = false;
        offset = 0;
        payload = 97 ∷ [];
      },
      [],
    )
unfolding parse parse_body read_data_len payload_len read_payload check_frame fin_of
    data_len_present_of offset_len_of stream_id_len_of read_byte read_full read_uint_n
    read_uint_n_loop shift_of get_byte_order
parsed_without_length = refl

refused_without_data : parse version39 (0x80 ∷ 5 ∷ []) ≡ err empty_stream_frame_no_fin
unfolding parse parse_body read_data_len payload_len read_payload check_frame fin_of
    data_len_present_of offset_len_of stream_id_len_of read_byte read_uint_n read_uint_n_loop
    shift_of get_byte_order
refused_without_data = refl

frame-IsSized : IsSized frame
unfolding IsSized
frame-IsSized = (omega arith, omega arith)

frame-IsAllowed : IsAllowed frame
unfolding IsAllowed
frame-IsAllowed = inl refl

frame-IsDelimited : IsDelimited frame (7 ∷ [])
unfolding IsDelimited
frame-IsDelimited = inl (refl, omega arith)

stream_frame-round_trip_example :
    (bytes : List ℕ) × (write frame version_mp ≡ done bytes)
    × (parse version_mp (bytes ++ 7 ∷ []) ≡ ok (frame, 7 ∷ []))
    × (length bytes ≡ min_length frame + 2)
stream_frame-round_trip_example =
    stream_frame-round_trip frame version_mp (7 ∷ []) frame-IsSized frame-IsAllowed
      frame-IsDelimited
