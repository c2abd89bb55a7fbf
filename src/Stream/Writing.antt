-- ===== src/Stream/Writing.antt =====
-- The bytes that Write hands over, and those that are sent.
use mathlib.Core.List.{append-nil, append_assoc}
use agg_deliv.Common.{
  ℕ, ◌-◌, ◌≤◌, ◌<◌, ◌≡◌, true, false, not, List, [], ◌∷◌, ◌++◌, Option, none, some, ltb,
  if◌then◌else◌, length, length-append, length-take, take-drop, add64, u64_mod, if_cases, refl, sym,
  ap, ◌∙◌, arith, ◌⊎◌, inl, inr,
}
use agg_deliv.Stream.{Stream, is_none, expired, closed_with, deadline_exceeded, cancel}
use agg_deliv.Stream.Write.{
  Taken, WriteResult, size_of, take_data, take_some, get_data_for_writing, write_round, write_done,
}

abbrev pub bytes_of : Option (List ℕ) → List ℕ
bytes_of none = []
bytes_of (some xs) = xs

-- The bytes that a row of calls of getDataForWriting returns, one behind the other, and the stream after.
pub record Sent (E : Type 0) : Type 0 where
  pub bytes : List ℕ
  pub stream : Stream E

unfoldable pub ArePositive : List ℕ → Type 0
ArePositive [] = 0 ≤ 0
ArePositive (n ∷ ns) = (0 < n) × ArePositive ns

size_bytes : (o : Option (List ℕ)) → size_of o ≡ length (bytes_of o)
size_bytes none = refl
size_bytes (some xs) = refl

module _ {E : Type 0} where
  unfoldable pub take_all : Stream E → List ℕ → Sent E
  take_all s [] = record { bytes = []; stream = s }
  take_all s (n ∷ ns) =
      let r = get_data_for_writing s n in
      let rest = take_all r.stream ns in
      record { bytes = bytes_of r.chunk ++ rest.bytes; stream = rest.stream }

  -- What a call leaves: the rest of the data, and the offset behind what it returned.
  record Takes (n : ℕ) (s : Stream E) (r : Taken E) : Type 0 where
    whole : bytes_of r.chunk ++ bytes_of r.stream.data_for_writing ≡ bytes_of s.data_for_writing
    offset : r.stream.write_offset ≡ add64 s.write_offset (length (bytes_of r.chunk))
    bound : length (bytes_of r.chunk) ≤ n
    no_error : r.stream.err ≡ s.err
    least : 0 < n → (r.stream.data_for_writing ≡ none) ⊎ (length (bytes_of r.chunk) ≡ n)

  take_data-Takes :
      (s : Stream E) (n : ℕ) (xs : List ℕ)
      → s.data_for_writing ≡ some xs
      → Takes n s (take_data s n xs)
  unfolding take_data
  take_data-Takes s n xs e =
      let there : bytes_of s.data_for_writing ≡ xs = ap bytes_of e in
      if_cases (Takes n s) (ltb n (length xs)) _ _
        (λ c.
          let size = length-take n xs (ground arith) in
          record {
            whole = take-drop n xs ∙ sym there;
            offset = refl;
            bound = omega arith;
            no_error = refl;
            least = λ h. inr size;
          })
        (λ c. record {
          whole = append-nil xs ∙ sym there;
          offset = refl;
          bound = ground arith;
          no_error = refl;
          least = λ h. inl refl;
        })

  take_some-Takes :
      (s : Stream E) (n : ℕ) (o : Option (List ℕ))
      → s.data_for_writing ≡ o
      → s.write_offset < u64_mod
      → Takes n s (take_some o s n)
  unfolding take_some
  take_some-Takes s n none e small = record {
    whole = refl;
    offset = omega arith;
    bound = omega arith;
    no_error = refl;
    least = λ h. inl e;
  }
  take_some-Takes s n (some xs) e small = take_data-Takes s n xs e

  get_data_for_writing-Takes :
      (s : Stream E) (n : ℕ)
      → s.err ≡ none
      → s.write_offset < u64_mod
      → Takes n s (get_data_for_writing s n)
  unfolding get_data_for_writing
  get_data_for_writing-Takes s n e small =
      let no_error : not (is_none s.err) ≡ false = ap (λ o. not (is_none o)) e in
      if_cases (Takes n s) (not (is_none s.err)) _ _
        (λ c. let clash : true ≡ false = sym c ∙ no_error in cc)
        (λ c. take_some-Takes s n s.data_for_writing refl small)

  -- On a stream without an error, whose data was set by Write, the chunks that calls of getDataForWriting
  -- return make up the data that Write was given, in order and each once, up to what is left in the stream,
  -- and writeOffset goes on by their length, modulo 2 ^ 64.
  pub take_all-whole :
      (s : Stream E) (ns : List ℕ)
      → s.err ≡ none
      → s.write_offset < u64_mod
      → let sent = take_all s ns in
        (sent.bytes ++ bytes_of sent.stream.data_for_writing ≡ bytes_of s.data_for_writing)
        × (sent.stream.write_offset ≡ add64 s.write_offset (length sent.bytes))
        × (sent.stream.err ≡ none)
  unfolding take_all
  take_all-whole s [] e small = (refl, omega arith, e)
  take_all-whole s (n ∷ ns) e small =
      let r = get_data_for_writing s n in
      let t = get_data_for_writing-Takes s n e small in
      let offset = t.offset in
      let rest = take_all-whole r.stream ns (t.no_error ∙ e) (omega arith) in
      let total = length-append (bytes_of r.chunk) (take_all r.stream ns).bytes in
      let later = rest.1 in
      (
        append_assoc (bytes_of r.chunk) (take_all r.stream ns).bytes _
            ∙ ap (◌++◌ (bytes_of r.chunk)) rest.0
            ∙ t.whole,
        omega arith,
        rest.2,
      )

  untaken :
      (s : Stream E) (n : ℕ)
      → s.err ≡ none
      → s.data_for_writing ≡ none
      → (get_data_for_writing s n).stream.data_for_writing ≡ none
  unfolding get_data_for_writing take_some
  untaken s n e h =
      if_cases (λ (r : Taken E). r.stream.data_for_writing ≡ none) (not (is_none s.err)) _ _
        (λ c. h) (λ c. ap (λ o. Stream.data_for_writing (Taken.stream (take_some o s n))) h ∙ h)

  taken_none :
      (s : Stream E) (ns : List ℕ)
      → s.err ≡ none
      → s.write_offset < u64_mod
      → s.data_for_writing ≡ none
      → (take_all s ns).stream.data_for_writing ≡ none
  unfolding take_all
  taken_none s [] e small h = h
  taken_none s (n ∷ ns) e small h =
      let r = get_data_for_writing s n in
      let t = get_data_for_writing-Takes s n e small in
      let offset = t.offset in
      taken_none r.stream ns (t.no_error ∙ e) (omega arith) (untaken s n e h)

  -- On a stream without an error, more calls of getDataForWriting than there are bytes, each for one byte or
  -- more, take all the data, so that Write no longer waits for them.
  pub take_all-none :
      (s : Stream E) (ns : List ℕ)
      → s.err ≡ none
      → s.write_offset < u64_mod
      → ArePositive ns
      → length (bytes_of s.data_for_writing) < length ns
      → (take_all s ns).stream.data_for_writing ≡ none
  unfolding take_all ArePositive
  take_all-none s [] e small positive enough = absurd (omega arith)
  take_all-none s (n ∷ ns) e small (positive, more) enough =
      let r = get_data_for_writing s n in
      let t = get_data_for_writing-Takes s n e small in
      let offset = t.offset in
      let size = ap length t.whole in
      let split = length-append (bytes_of r.chunk) (bytes_of r.stream.data_for_writing) in
      elim (t.least positive) [
        | inl done ↦ taken_none r.stream ns (t.no_error ∙ e) (omega arith) done
        | inr exact ↦ take_all-none r.stream ns (t.no_error ∙ e) (omega arith) more (omega arith)
      ]

  cancel-err : (s : Stream E) (e : E) → s.err ≡ none → (cancel s (some e)).err ≡ some e
  unfolding cancel
  cancel-err s e h =
      if_cases (λ (t : Stream E). t.err ≡ some e) (is_none s.err) _ _ (λ c. refl)
        (λ c. let clash : true ≡ false = sym (ap is_none h) ∙ c in cc)

  cancel-data : (s : Stream E) (e : Option E) → (cancel s e).data_for_writing ≡ s.data_for_writing
  unfolding cancel
  cancel-data s e =
      if_cases (λ (t : Stream E). t.data_for_writing ≡ s.data_for_writing) (is_none s.err) _ _
        (λ c. refl) (λ c. refl)

  -- If a stream without an error is cancelled with an error while Write waits, behind calls of
  -- getDataForWriting and without a deadline, then Write returns the error, and the number of bytes that
  -- these calls have taken.
  pub write_round-cancelled :
      (s : Stream E) (p ns : List ℕ) (e : E) (now : ℕ)
      → s.err ≡ none
      → s.write_offset < u64_mod
      → bytes_of s.data_for_writing ≡ p
      → (cancel (take_all s ns).stream (some e)).write_deadline ≡ 0
      → write_round (cancel (take_all s ns).stream (some e)) p now
        ≡ some (record {
          stream = cancel (take_all s ns).stream (some e);
          count = length (take_all s ns).bytes;
          error = some (closed_with e);
        })
  unfolding write_round write_done
  write_round-cancelled s p ns e now none_yet small handed deadline =
      let sent = take_all s ns in
      let u = cancel sent.stream (some e) in
      let (whole, offset, still) = take_all-whole s ns none_yet small in
      let failed = cancel-err sent.stream e still in
      let in_time : expired u.write_deadline now ≡ false = ground arith in
      let split = length-append sent.bytes (bytes_of sent.stream.data_for_writing) in
      let left =
        size_bytes u.data_for_writing
        ∙ ap (λ o. length (bytes_of o)) (cancel-data sent.stream (some e)) in
      let total = ap length whole in
      let given = ap length handed in
      let count : length p - size_of u.data_for_writing ≡ length sent.bytes = omega arith in
      let result : ℕ → Option (WriteResult E) =
        λ k. some (record { stream = u; count = k; error = some (closed_with e) }) in
      let late : Option (WriteResult E) =
        some (record { stream = u; count = 0; error = some deadline_exceeded }) in
      ap (λ b. if b then late else write_done u.err u p) in_time
      ∙ ap (λ o. write_done o u p) failed
      ∙ ap result count
