-- ===== src/Wire/Reader.antt =====
-- Reading from bytes.Reader, with the errors of the frame parsers. A byte sequence is a list of numbers
-- below 256; a reader returns its value and the bytes that are left.
use agg_deliv.Common.{
  ℕ, ◌≡◌, List, [], ◌∷◌, ◌++◌, ltb, if◌then◌else◌, length, take, drop, length-append, take_append,
  drop_append, arith,
}

pub data WireError : Type 0 where
  eof : WireError
  invalid_goaway_data : WireError
  invalid_connection_close_data : WireError
  invalid_stop_waiting_data : WireError
  invalid_stream_data : WireError
  empty_stream_frame_no_fin : WireError
  too_many_paths : WireError

pub data Result {ℓ} (A : Type ℓ) : Type ℓ where
  ok : A → Result A
  err : WireError → Result A

abbrev pub Reader : Type 0 → Type 0
Reader A = List ℕ → Result (A × List ℕ)

infixl 5 ◌>>=◌ ◌>>◌
abbrev pub ◌>>=◌ : {A B : Type 0} → Reader A → (A → Reader B) → Reader B
◌>>=◌ m f bytes = elim (m bytes) [ ok (a, rest) ↦ f a rest | err e ↦ err e ]

abbrev pub ◌>>◌ : {A B : Type 0} → Reader A → Reader B → Reader B
m >> k = m >>= λ _. k

abbrev pub return : {A : Type 0} → A → Reader A
return a bytes = ok (a, bytes)

abbrev pub fail : {A : Type 0} → WireError → Reader A
fail e bytes = err e

-- bytes.Reader's ReadByte
unfoldable pub read_byte : Reader ℕ
read_byte [] = err eof
read_byte (b ∷ rest) = ok (b, rest)

-- io.ReadFull into a slice of `n` bytes
unfoldable pub read_full : ℕ → Reader (List ℕ)
read_full n bytes = if ltb (length bytes) n then err eof else ok (take n bytes, drop n bytes)

pub read_full-append : (xs rest : List ℕ) → read_full (length xs) (xs ++ rest) ≡ ok (xs, rest)
unfolding read_full
read_full-append xs rest =
    ground (arith, length-append xs rest, take_append xs rest, drop_append xs rest)
